-- ===== src/Arca/Decimal.antt =====
-- std::to_string and std::stol on ASCII decimals.
use reame.Base.{
  ℕ, zero, suc, ◌+◌, ◌-◌, ◌*◌, ◌/◌, ◌%◌, ◌<◌, ◌≡◌, refl, inl, inr, Bool, true, ◌&&◌, [], ◌∷◌, ◌++◌,
  arith, Bool-cases, ltb, leb, if◌then◌else◌, Bytes, length, length-append,
}

unfoldable pub is_digit : ℕ → Bool
is_digit c = leb b'0' c && leb c b'9'

unfoldable pub all_digits : Bytes → Bool
all_digits [] = true
all_digits (c ∷ cs) = is_digit c && all_digits cs

-- The value of a row of digits behind one of value `acc`.
unfoldable pub value_from : ℕ → Bytes → ℕ
value_from acc [] = acc
value_from acc (c ∷ cs) = value_from (acc * 10 + (c - b'0')) cs

unfoldable pub decimal_loop : ℕ → ℕ → Bytes
decimal_loop zero n = []
decimal_loop (suc fuel) n =
    let high = decimal_loop fuel (n / 10) in
    if ltb n 10 then (b'0' + n) ∷ [] else high ++ (b'0' + n % 10) ∷ []

-- std::to_string of a number that is not negative.
unfoldable pub to_string : ℕ → Bytes
to_string n = decimal_loop (suc n) n

all_digits-append :
    (xs : Bytes) (c : ℕ)
    → all_digits xs ≡ true
    → is_digit c ≡ true
    → all_digits (xs ++ c ∷ []) ≡ true
unfolding all_digits
all_digits-append [] c h k = ground arith
all_digits-append (x ∷ xs) c h k = ground (arith, all_digits-append xs c)

value_from-append :
    (acc : ℕ) (xs : Bytes) (c : ℕ)
    → value_from acc (xs ++ c ∷ []) ≡ value_from acc xs * 10 + (c - b'0')
unfolding value_from
value_from-append acc [] c = refl
value_from-append acc (x ∷ xs) c = value_from-append (acc * 10 + (x - b'0')) xs c

digit_lem : (d : ℕ) → d < 10 → is_digit (b'0' + d) ≡ true
unfolding is_digit
digit_lem d h = ground arith

decimal_loop_lem :
    (fuel n : ℕ)
    → n < fuel
    → (value_from 0 (decimal_loop fuel n) ≡ n)
      × (all_digits (decimal_loop fuel n) ≡ true)
      × (0 < length (decimal_loop fuel n))
unfolding decimal_loop
decimal_loop_lem zero n h = absurd (omega arith)
decimal_loop_lem (suc fuel) n h = elim (Bool-cases (ltb n 10)) [
  | inl one ↦ rw (one, decimal_loop) (unfold value_from all_digits is_digit in ground arith)
  | inr more ↦
      let (v, d, l) = decimal_loop_lem fuel (n / 10) (ground arith) in
      rw (more, decimal_loop)
        (
          omega (arith, value_from-append 0 (decimal_loop fuel (n / 10)) (b'0' + n % 10), v),
          all_digits-append (decimal_loop fuel (n / 10)) (b'0' + n % 10) d
              (digit_lem (n % 10) (omega arith)),
          omega (arith, length-append (decimal_loop fuel (n / 10)) ((b'0' + n % 10) ∷ [])),
        )
]

-- The digits of a number read back as the number.
pub to_string_lem :
    (n : ℕ)
    → (value_from 0 (to_string n) ≡ n)
      × (all_digits (to_string n) ≡ true)
      × (0 < length (to_string n))
unfolding to_string
to_string_lem n = decimal_loop_lem (suc n) n (omega arith)
