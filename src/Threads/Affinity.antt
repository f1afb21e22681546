-- ===== src/Threads/Affinity.antt =====
-- `next_cpu` against a description without a loop: how far a processor lies ahead, in a round.
use native.Mathlib.Nat.{mod-eq_of_lt, mod-eq-sub-mod}
use synthetic_client.Base.{
  ℕ, zero, suc, ◌+◌, ◌-◌, ◌%◌, ◌≤◌, ◌<◌, ◌≡◌, sym, ap, ◌∙◌, inl, inr, Bool, true, false, ltb, ◌==◌,
  ==_iff, if◌then◌else◌, Bool-cases, Option, none, some, arith,
}
use synthetic_client.Base.Int.{ℤ}
use synthetic_client.Threads.{successor}
use synthetic_client.Threads.Start.{find_cpu, next_cpu}

-- How many processors lie between the one that comes first and processor `c`.
abbrev pub ahead : (max_cpus first c : ℕ) → ℕ
ahead max_cpus first c = if ltb c first then c + max_cpus - first else c - first

-- Of the processors that may be used, the one that lies least far ahead; none if there is none.
abbrev pub TakesNext : (ℕ → Bool) → (max_cpus first : ℕ) → Option ℕ → Type 0
TakesNext mask max_cpus first none = (c : ℕ) → c < max_cpus → mask c ≡ false
TakesNext mask max_cpus first (some c) =
    (mask c ≡ true)
    × (c < max_cpus)
    × ((d : ℕ) → d < max_cpus → mask d ≡ true → ahead max_cpus first c ≤ ahead max_cpus first d)

no_less : (i n : ℕ) (b : Bool) → b ≡ true → (n < i → b ≡ false) → i ≤ n
no_less i n b set unset = elim (Bool-cases (ltb n i)) [
  | inl less ↦ let no : b ≡ false = unset (ground arith) in cc
  | inr more ↦ ground arith
]

same_number : {n i : ℕ} → (n == i) ≡ true → n ≡ i
same_number {n} {i} h = (==_iff n i).0 h

less_or : {n i : ℕ} → n < i + 1 → (n == i) ≡ false → n < i
less_or h e = ground arith

module _ (mask : ℕ → Bool) (max_cpus first : ℕ) (start : first ≤ max_cpus) where
  around :
      (i : ℕ)
      → i < max_cpus
      → (first + i) % max_cpus
        ≡ (if ltb (first + i) max_cpus then first + i else first + i - max_cpus)
  around i h = elim (Bool-cases (ltb (first + i) max_cpus)) [
    | inl before ↦ rw before (mod-eq_of_lt (ground arith))
    | inr behind ↦ rw behind (
        mod-eq-sub-mod {n = first + i} (ground arith)
        ∙ mod-eq_of_lt {n = first + i - max_cpus} (omega arith))
  ]

  around-ahead :
      (i : ℕ)
      → i < max_cpus
      → ((first + i) % max_cpus < max_cpus) × (ahead max_cpus first ((first + i) % max_cpus) ≡ i)
  around-ahead i h = rw (around i h) (ground arith, ground arith)

  only :
      (i d : ℕ)
      → i < max_cpus
      → d < max_cpus
      → ahead max_cpus first d ≡ i
      → d ≡ (first + i) % max_cpus
  only i d h k e = sym (around i h ∙ ground arith)

  -- With the processors that lie less than `i` ahead not to be used.
  find_cpu-TakesNext :
      (i n : ℕ)
      → i + n ≡ max_cpus
      → ((d : ℕ) → d < max_cpus → ahead max_cpus first d < i → mask d ≡ false)
      → TakesNext mask max_cpus first (find_cpu mask max_cpus first i n)
  unfolding find_cpu
  find_cpu-TakesNext i zero e not_before = λ d h. not_before d h (ground arith)
  find_cpu-TakesNext i (suc n) e not_before =
      let c = (first + i) % max_cpus in
      let (inside, here) = around-ahead i (omega arith) in
      elim (Bool-cases (mask c)) [
        | inl usable ↦
            rw (find_cpu, usable)
              (
                usable,
                inside,
                λ d h k. rw here (no_less i (ahead max_cpus first d) (mask d) k (not_before d h)),
              )
        | inr other ↦
            rw (find_cpu, other)
              (find_cpu-TakesNext (i + 1) n (omega arith) (λ d h k.
                elim (Bool-cases (ahead max_cpus first d == i)) [
                  | inl same ↦ ap mask (only i d (omega arith) h (same_number same)) ∙ other
                  | inr away ↦ not_before d h (less_or k away)
                ]))
      ]

-- The processor that `next_cpu` gives to a thread may be used, and of those that may it is the one
-- that comes first behind the last one that was given, going round; none is given only if none may
-- be used.
pub next_cpu-TakesNext :
    (mask : ℕ → Bool) (max_cpus : ℕ) (current_cpu : ℤ)
    → successor current_cpu ≤ max_cpus
    → TakesNext mask max_cpus (successor current_cpu) (next_cpu mask max_cpus current_cpu)
unfolding next_cpu
next_cpu-TakesNext mask max_cpus current_cpu start =
    find_cpu-TakesNext mask max_cpus (successor current_cpu) start 0 max_cpus (omega arith)
      (λ d h k. absurd (omega (arith, k)))
