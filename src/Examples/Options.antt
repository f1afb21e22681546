-- ===== src/Examples/Options.antt =====
-- The theorems on options and numbers at concrete inputs that meet their hypotheses.
use synthetic_client.Base.{ℕ, ◌≡◌, refl, List, [], ◌∷◌, ◌++◌, codes, Returns, some, arith}
use synthetic_client.Base.Int.{pos, negsuc}
use synthetic_client.Utils.{safe_strtol, skip_spaces, digits_from, to_int32}
use synthetic_client.Utils.Numbers.{minus, safe_strtol-numeral}
use synthetic_client.Settings.{Opt, Settings, atoi, settings_init, settings_parse}
use synthetic_client.Settings.Parse.{
  hosts_of, AreInRange, listed, IsValid, CanTake, OnAccepted, settings_parse-Parses,
}
use synthetic_client.Samples.{surroundings}

-- -t 4 -s localhost
abbrev some_options : List Opt
some_options =
    record { letter = b't'; optarg = codes "4" }
    ∷ record { letter = b's'; optarg = codes "localhost" }
    ∷ []

some_options-AreInRange : AreInRange some_options
unfolding atoi skip_spaces digits_from to_int32
some_options-AreInRange = ((pos 4, refl), ((pos 0, refl), tt))

-- A double is a number here, and every text means 0.
abbrev no_number : List ℕ → ℕ
no_number s = 0

abbrev defaults : Settings ℕ
defaults = settings_init 0

defaults-IsValid : IsValid defaults
unfolding settings_init
defaults-IsValid = record { some_thread = refl; no_debt = refl }

defaults-CanTake : CanTake some_options defaults surroundings
unfolding settings_init
defaults-CanTake = record { memory = λ i. refl; room = omega arith; talk = omega arith }

settings_parse-Parses_example :
    Returns
      (settings_parse no_number some_options defaults surroundings)
      (OnAccepted (λ t v. IsValid t × (listed t ≡ listed defaults ++ hosts_of some_options)))
settings_parse-Parses_example =
    settings_parse-Parses no_number some_options defaults surroundings some_options-AreInRange
      defaults-CanTake defaults-IsValid

safe_strtol-numeral_example : safe_strtol (codes "  -42 0") ≡ some (negsuc 41)
safe_strtol-numeral_example =
    safe_strtol-numeral (codes "  ") minus 4 (2 ∷ []) (codes " 0") (refl, (refl, tt))
      (omega arith, (omega arith, tt)) refl (omega arith)

read : safe_strtol (codes "42") ≡ some (pos 42)
unfolding safe_strtol skip_spaces digits_from to_int32
read = refl
