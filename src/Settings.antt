-- ===== src/Settings.antt =====
-- src/settings.c: the settings, from their defaults and the options of the command line.
pub mod Parse
use synthetic_client.Base.{
  ℕ, ◌+◌, Bool, true, false, ltb, leb, ◌==◌, if◌then◌else◌, List, [], ◌∷◌, take, update, Run, ok,
  fault, out_of_bounds, dangling, overflow, ◌>>=◌, none, some,
}
use synthetic_client.Base.Int.{ℤ, pos, ltb_ℤ}
use synthetic_client.World.{World, Statistics, after_alloc}
use synthetic_client.Stats.{new_stats}
use synthetic_client.Utils.{strtol_unsigned, skip_spaces, to_int32, starts_with_digit, int_max}

abbrev pub max_server_string : ℕ
max_server_string = 300

-- The first `len` of `size` hosts are filled in.
pub record Backends : Type 0 where
  pub hosts : ℕ → List ℕ
  pub len : ℕ
  pub size : ℕ

-- What follows the sign of a number.
abbrev unsigned : List ℕ → List ℕ
unsigned [] = []
unsigned (c ∷ s) = if c == b'-' then s else if c == b'+' then s else c ∷ s

-- `atoi`: 0 without a number; a number out of the range of `long` is undefined.
unfoldable pub atoi : List ℕ → Run ℤ
atoi s =
    let t = skip_spaces s in
    elim (strtol_unsigned t) [
      | some (n, rest) ↦ ok (to_int32 n)
      | none ↦ if starts_with_digit (unsigned t) then fault overflow else ok (pos 0)
    ]

-- An option as `getopt` returns it, with its argument.
pub record Opt : Type 0 where
  pub letter : ℕ
  pub optarg : List ℕ

-- There are no floats: the type `double` is a parameter.
pub record Settings (Double : Type 0) : Type 0 where
  pub verbose : ℕ
  pub threads : ℤ
  pub tcpport : ℤ
  pub thread_affinity : Bool
  pub users : ℤ
  pub backends : Backends
  pub stats : Statistics
  pub alloc_mean : Double
  pub alloc_stddev : Double
  pub alloc : Bool
  pub rtt_mean : Double
  pub rtt_stddev : Double
  pub rtt_cutoff : Double
  pub rtt_delay : Bool

-- `settings_parse` returns true or false, or the process has shown its usage and has ended.
pub data Parsed (Double : Type 0) : Type 0 where
  accepted : Settings Double → World → Parsed Double
  refused : Settings Double → World → Parsed Double
  usage : Parsed Double

-- So is 0 as a `double`.
module _ {Double : Type 0} (zero_double : Double) where
  -- The allocations of `new_stats` and of the list of hosts are not checked.
  unfoldable pub settings_init : Settings Double
  settings_init = record {
    verbose = 0;
    threads = pos 1;
    tcpport = pos 11211;
    thread_affinity = false;
    users = pos 0;
    backends = record { hosts = λ _. []; len = 0; size = 1000 };
    stats = new_stats;
    alloc_mean = zero_double;
    alloc_stddev = zero_double;
    alloc = false;
    rtt_mean = zero_double;
    rtt_stddev = zero_double;
    rtt_cutoff = zero_double;
    rtt_delay = false;
  }

-- So is `atof`.
module _ {Double : Type 0} (atof : List ℕ → Double) where
  -- A host is cut at the longest length. Its allocation is not checked, nor is the size of the
  -- list.
  unfoldable pub add_host : Settings Double → List ℕ → World → Run (Settings Double × World)
  add_host s optarg w =
      let b = s.backends in
      if w.allocs 0
      then (if ltb b.len b.size
          then ok (
            record s {
              backends = record b {
                hosts = update b.hosts b.len (take max_server_string optarg);
                len = b.len + 1;
              };
            },
            after_alloc w,
          )
          else fault out_of_bounds)
      else fault dangling

  -- What an option does: it goes on, is refused, or ends the process.
  unfoldable pub apply_opt : Opt → Settings Double → World → Run (Parsed Double)
  unfolding atoi add_host
  apply_opt o s w =
      if o.letter == b'p'
      then (atoi o.optarg >>= λ n. ok (accepted (record s { tcpport = n }) w))
      else if o.letter == b'h'
      then ok usage
      else if o.letter == b'v'
      then (if leb int_max s.verbose
          then fault overflow
          else ok (accepted (record s { verbose = s.verbose + 1 }) w))
      else if o.letter == b't'
      then (atoi o.optarg >>= λ n.
          let r = record s { threads = n } in
          ok (if ltb_ℤ (pos 0) n then accepted r w else refused r w))
      else if o.letter == b'T'
      then ok (accepted (record s { thread_affinity = true }) w)
      else if o.letter == b's'
      then (add_host s o.optarg w >>= λ (r, v). ok (accepted r v))
      else if o.letter == b'u'
      then (atoi o.optarg >>= λ n.
          let r = record s { users = n } in
          ok (if ltb_ℤ n (pos 0) then refused r w else accepted r w))
      else if o.letter == b'd'
      then ok (accepted (record s { alloc = true; alloc_mean = atof o.optarg }) w)
      else if o.letter == b'D'
      then ok (accepted (record s { alloc = true; alloc_stddev = atof o.optarg }) w)
      else if o.letter == b'r'
      then ok (accepted (record s { rtt_delay = true; rtt_mean = atof o.optarg }) w)
      else if o.letter == b'R'
      then ok (accepted (record s { rtt_delay = true; rtt_stddev = atof o.optarg }) w)
      else if o.letter == b'C'
      then ok (accepted (record s { rtt_cutoff = atof o.optarg }) w)
      else ok (refused s w)

  -- The loop over the options, up to the one that is refused or ends the process.
  abbrev pub go_on :
      (Settings Double → World → Run (Parsed Double)) → Parsed Double → Run (Parsed Double)
  go_on again (accepted s w) = again s w
  go_on again (refused s w) = ok (refused s w)
  go_on again usage = ok usage

  unfoldable pub settings_parse : List Opt → Settings Double → World → Run (Parsed Double)
  unfolding apply_opt
  settings_parse [] s w = ok (accepted s w)
  settings_parse (o ∷ opts) s w = apply_opt o s w >>= go_on (settings_parse opts)
