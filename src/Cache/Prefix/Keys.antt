-- ===== src/Cache/Prefix/Keys.antt =====
-- cache/prefix_cache.cpp: the keys of one prompt's boundaries differ.
use reame.Base.{
  ℕ, zero, suc, ◌+◌, ◌/◌, ◌%◌, ◌^◌, ◌<◌, ◌≤◌, length, length-append, ltb, take, ◌≡◌, sym, ◌∙◌, ap,
  inl, inr, true, false, [], ◌∷◌, ◌++◌, arith, Bool-cases, ◌==◌, if◌then◌else◌, Bytes, codes, List,
}
use mathlib.Core.List.{append_assoc, append-nil}
use reame.Arca.Decimal.{is_digit, all_digits, value_from, to_string, to_string_lem, decimal_loop}
use native.Mathlib.Nat.{pow-suc}
use reame.Corpus.{token_bytes}
use reame.Cache.Store.{checksum}
use reame.Cache.Manager.Restored.{checksum-word}
use reame.Cache.Prefix.{PrefixCache, key_for}

-- The bytes behind the last `n`, or all of them.
digits_of : Bytes → Bytes → Bytes
digits_of out [] = out
digits_of out (c ∷ cs) = if c == b'n' then digits_of [] cs else digits_of (out ++ c ∷ []) cs

digits_of-digits : (out ds : Bytes) → all_digits ds ≡ true → digits_of out ds ≡ out ++ ds
unfolding digits_of all_digits is_digit
digits_of-digits out [] h = sym (append-nil out)
digits_of-digits out (c ∷ cs) h =
    let digit : (c == b'n') ≡ false = ground arith in
    let rest : all_digits cs ≡ true = ground arith in
    rw (digit, digits_of) (digits_of-digits (out ++ c ∷ []) cs rest ∙ append_assoc out (c ∷ []) cs)

digits_of-behind : (out xs ds : Bytes) → all_digits ds ≡ true → digits_of out (xs ++ b'n' ∷ ds) ≡ ds
unfolding digits_of
digits_of-behind out [] ds h = digits_of-digits [] ds h
digits_of-behind out (c ∷ cs) ds h = elim (Bool-cases (c == b'n')) [
  | inl e ↦ rw e (digits_of-behind [] cs ds h)
  | inr e ↦ rw e (digits_of-behind (out ++ c ∷ []) cs ds h)
]

-- What is in front of the number in a key.
abbrev front_of : Bytes → Bytes → Bytes
front_of s t = codes "pfx-" ++ (s ++ (codes "-" ++ (t ++ codes "-")))

split_key :
    (s t ds : Bytes)
    → codes "pfx-" ++ (s ++ (codes "-" ++ (t ++ (codes "-n" ++ ds)))) ≡ front_of s t ++ b'n' ∷ ds
split_key s t ds =
    ap (λ xs. codes "pfx-" ++ xs)
      (ap (λ xs. s ++ (codes "-" ++ xs)) (sym (append_assoc t (codes "-") (b'n' ∷ ds)))
        ∙ sym (append_assoc s (codes "-" ++ (t ++ codes "-")) (b'n' ∷ ds)))

-- The number at the end of a key is the number of tokens that it stands for.
number_of_key :
    (c : PrefixCache) (prefix : List ℕ) (n : ℕ)
    → value_from 0 (digits_of [] (key_for c prefix n)) ≡ n
unfolding key_for
number_of_key c prefix n =
    let (value, digits, filled) = to_string_lem n in
    ap (λ k. value_from 0 (digits_of [] k)) (split_key _ _ (to_string n))
    ∙ ap (value_from 0) (digits_of-behind [] (front_of _ _) (to_string n) digits)
    ∙ value

-- Keys of different lengths differ, whatever the prompts.
pub key_for-apart :
    (c : PrefixCache) (p q : List ℕ) (m n : ℕ) → key_for c p m ≡ key_for c q n → m ≡ n
key_for-apart c p q m n e =
    sym (number_of_key c p m) ∙ ap (λ k. value_from 0 (digits_of [] k)) e ∙ number_of_key c q n

decimal_loop-short : (k fuel n : ℕ) → n < 10 ^ suc k → length (decimal_loop fuel n) ≤ suc k
unfolding decimal_loop
decimal_loop-short k zero n h = omega arith
decimal_loop-short zero (suc fuel) n h =
    let small : ltb n 10 ≡ true = ground arith in rw (small, decimal_loop) (omega arith)
decimal_loop-short (suc k) (suc fuel) n h = elim (Bool-cases (ltb n 10)) [
  | inl one ↦ rw (one, decimal_loop) (omega arith)
  | inr more ↦
      let high = decimal_loop-short k fuel (n / 10) (omega (arith, pow-suc 10 (suc k), h)) in
      rw (more, decimal_loop)
        (omega (arith, high, length-append (decimal_loop fuel (n / 10)) ((b'0' + n % 10) ∷ [])))
]

to_string-short : (n : ℕ) → n < 2 ^ 64 → length (to_string n) ≤ 20
unfolding to_string
to_string-short n h = decimal_loop-short 19 (suc n) n (omega arith)

pub key_for-short :
    (c : PrefixCache) (prefix : List ℕ) (n : ℕ) → n < 2 ^ 32 → length (key_for c prefix n) < 2 ^ 32
unfolding key_for
key_for-short c prefix n h =
    let raw : Bytes = c.model_tag ++ 0 ∷ token_bytes (take n prefix) in
    let s = to_string (checksum raw) in
    let t = to_string (checksum (raw ++ b'x' ∷ [])) in
    omega (
      arith,
      length-append s (codes "-" ++ (t ++ (codes "-n" ++ to_string n))),
      length-append t (codes "-n" ++ to_string n),
      to_string-short (checksum raw) (checksum-word raw),
      to_string-short (checksum (raw ++ b'x' ∷ [])) (checksum-word (raw ++ b'x' ∷ [])),
      to_string-short n (omega arith),
    )
