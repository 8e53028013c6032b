-- ===== src/Speculative/PromptLookup/Latest.antt =====
-- speculative/prompt_lookup.cpp: the draft follows the latest occurrence of the longest tail that has one.
use reame.Base.{
  ℕ, zero, suc, ◌+◌, ◌-◌, ◌≤◌, ◌<◌, ◌≡◌, ◌⊎◌, refl, sym, subst, inl, inr, true, false, none, some,
  List, [], arith, Bool-cases, Option-cases, ltb, ◌==◌, length, take, drop, list_eq→eq,
}
use reame.Speculative.PromptLookup.{
  Config, occurs_at, last_occurrence, continuation, found_draft, lookup_loop, longest, shortest,
  find_draft,
}

-- No occurrence of the last `n` tokens starts between `low` and `high`.
abbrev pub NoneBetween : List ℕ → ℕ → ℕ → ℕ → Type 0
NoneBetween history n low high = (i : ℕ) → low ≤ i → i < high → occurs_at history n i ≡ false

NoneBetween-suc :
    (history : List ℕ) (n low high : ℕ)
    → occurs_at history n high ≡ false
    → NoneBetween history n low high
    → NoneBetween history n low (suc high)
NoneBetween-suc history n low high here rest i first below = elim (Bool-cases (i == high)) [
  | inl same ↦ subst (λ j. occurs_at history n j ≡ false) (sym (ground arith)) here
  | inr other ↦ rest i first (ground arith)
]

-- The last occurrence below `high`.
pub last_occurrence-some :
    (history : List ℕ) (n high start : ℕ)
    → last_occurrence history n high ≡ some start
    → (start < high) × (occurs_at history n start ≡ true) × NoneBetween history n (suc start) high
unfolding last_occurrence
last_occurrence-some history n zero start h = cc
last_occurrence-some history n (suc high) start h = elim (Bool-cases (occurs_at history n high)) [
  | inl here ↦
      let same : high ≡ start = ground arith in
      rw (sym same) (omega arith, here, λ i low below. absurd (omega arith))
  | inr gone ↦
      let (below_high, found, later) = last_occurrence-some history n high start (ground arith) in
      (omega arith, found, NoneBetween-suc history n (suc start) high gone later)
]

pub last_occurrence-none :
    (history : List ℕ) (n high : ℕ)
    → last_occurrence history n high ≡ none
    → NoneBetween history n 0 high
unfolding last_occurrence
last_occurrence-none history n zero h = λ i low below. absurd (omega arith)
last_occurrence-none history n (suc high) h = elim (Bool-cases (occurs_at history n high)) [
  | inl here ↦ absurd (ground arith)
  | inr gone ↦
      NoneBetween-suc history n 0 high gone (last_occurrence-none history n high (ground arith))
]

-- None of the tails longer than `low` tokens, and of at most `high`, occurs earlier.
abbrev pub Absent : List ℕ → ℕ → ℕ → Type 0
Absent history low high =
    (m : ℕ) → low < m → m ≤ high → NoneBetween history m 0 (length history - m)

-- `d` is what followed the latest earlier occurrence of the tail of `n` tokens, at most `k` tokens of
-- it; `n` is above `low`, at most `high`, and no longer tail up to `high` occurs earlier.
pub record Latest (history : List ℕ) (k low high : ℕ) (d : List ℕ) : Type 0 where
  pub n : ℕ
  pub start : ℕ
  pub above : low < n
  pub within : n ≤ high
  pub before : start < length history - n
  pub occurs : take n (drop start history) ≡ drop (length history - n) history
  pub latest : NoneBetween history n (suc start) (length history - n)
  pub longest_tail : Absent history n high
  pub copied : d ≡ continuation history (start + n) k

-- What the loop finds from `high` down to above `low`.
abbrev pub Looked : List ℕ → ℕ → ℕ → ℕ → List ℕ → Type 0
Looked history k low high d = Latest history k low high d ⊎ ((d ≡ []) × Absent history low high)

Absent-suc :
    (history : List ℕ) (low n : ℕ)
    → NoneBetween history n 0 (length history - n)
    → Absent history low (n - 1)
    → Absent history low n
Absent-suc history low n here rest m above within = elim (Bool-cases (m == n)) [
  | inl same ↦ subst (λ j. NoneBetween history j 0 (length history - j)) (sym (ground arith)) here
  | inr other ↦ rest m above (ground arith)
]

Looked-suc :
    (history : List ℕ) (k low n : ℕ) (d : List ℕ)
    → NoneBetween history n 0 (length history - n)
    → Looked history k low (n - 1) d
    → Looked history k low n d
Looked-suc history k low n d here (inl l) = inl (record {
  n = l.n;
  start = l.start;
  above = l.above;
  within = omega (arith, l.within);
  before = l.before;
  occurs = l.occurs;
  latest = l.latest;
  longest_tail = Absent-suc history l.n n here l.longest_tail;
  copied = l.copied;
})
Looked-suc history k low n d here (inr (empty, absent)) =
    inr (empty, Absent-suc history low n here absent)

lookup_loop-Looked :
    (history : List ℕ) (k rounds low n : ℕ)
    → low + rounds ≡ n
    → Looked history k low n (lookup_loop history k rounds n)
unfolding lookup_loop found_draft occurs_at
lookup_loop-Looked history k zero low n h = inr (refl, λ m above within. absurd (omega arith))
lookup_loop-Looked history k (suc rounds) low n h =
    let rest = lookup_loop-Looked history k rounds low (n - 1) (omega arith) in
    elim (Bool-cases (ltb (length history) (n + 1))) [
      | inl short ↦
          let over : length history < n + 1 = ground arith in
          rw short (
            Looked-suc history k low n (lookup_loop history k rounds (n - 1))
              (λ i first below. absurd (omega arith)) rest)
      | inr long ↦ elim (Option-cases (last_occurrence history n (length history - n))) [
        | inl e ↦
            rw (long, e)
              (Looked-suc history k low n (lookup_loop history k rounds (n - 1))
                (last_occurrence-none history n (length history - n) e) rest)
        | inr (start, e) ↦
            let (before, found, later) =
              last_occurrence-some history n (length history - n) start e in
            rw (long, e)
              (inl (record {
                n = n;
                start = start;
                above = omega arith;
                within = omega arith;
                before = before;
                occurs = sym (
                    list_eq→eq (drop (length history - n) history) (take n (drop start history))
                      found);
                latest = later;
                longest_tail = λ m above within. absurd (omega arith);
                copied = refl;
              }))
      ]
    ]

-- A draft for at least one token follows the latest earlier occurrence of the longest tail of the
-- history, within the configured lengths, that occurs earlier; there is none only if no such tail
-- occurs earlier.
pub find_draft-Looked :
    (cfg : Config) (history : List ℕ) (k : ℕ)
    → 0 < k
    → Looked history k (shortest cfg - 1) (longest cfg) (find_draft cfg history k)
unfolding find_draft
find_draft-Looked cfg history k h =
    let some_tokens : (k == 0) ≡ false = ground arith in
    rw some_tokens (
      lookup_loop-Looked history k (longest cfg + 1 - shortest cfg) (shortest cfg - 1) (longest cfg)
        (unfold shortest longest in omega arith))
