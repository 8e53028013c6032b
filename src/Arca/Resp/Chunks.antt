-- ===== src/Arca/Resp/Chunks.antt =====
-- arca/resp.cpp: how the bytes are sliced does not matter.
use reame.Base.{
  ℕ, zero, suc, ◌+◌, ◌≤◌, ◌≡◌, refl, inl, inr, Bool, true, false, ◌&&◌, some, [], ◌∷◌, ◌++◌, arith,
  Bool-cases, Option-cases, ltb, ◌==◌, if◌then◌else◌, length, length-append, length-drop,
  take-append, drop-append, drop, Bytes,
}
use reame.Arca.Resp.{
  Outcome, more, fault, done, Fault, ◌>>=◌, Number, non_numeric, out_of_range, empty_length,
  bare_minus, bad_array_size, expected_bulk, bad_bulk_length, not_terminated, split_crlf, to_long,
  read_digits, parse_number_line, parse_payload, parse_length, parse_bulk, parse_bulks, parse_array,
  parse_inline, parse_one,
}

-- What is decided on the bytes so far stays decided when more arrive, which join the rest.
unfoldable pub Extends {ℓ} : {A : Type ℓ} → Outcome A → Outcome A → Bytes → Type ℓ
Extends more o more_bytes = Unit
Extends (fault e) o more_bytes = o ≡ fault e
Extends (done a rest) o more_bytes = o ≡ done a (rest ++ more_bytes)

Extends-more {ℓ} : {A : Type ℓ} (o : Outcome A) (xs : Bytes) → Extends more o xs
unfolding Extends
Extends-more o xs = tt

Extends-fault {ℓ} :
    {A : Type ℓ} (o : Outcome A) (e : Fault) (xs : Bytes) → o ≡ fault e → Extends o o xs
unfolding Extends
Extends-fault o e xs h = rw h refl

Extends-done {ℓ} :
    {A : Type ℓ} (a : A) (rest xs : Bytes) → Extends (done a rest) (done a (rest ++ xs)) xs
unfolding Extends
Extends-done a rest xs = refl

split_crlf-append :
    (buf xs a b : Bytes) → split_crlf buf ≡ some (a, b) → split_crlf (buf ++ xs) ≡ some (a, b ++ xs)
unfolding split_crlf
split_crlf-append [] xs a b h = cc
split_crlf-append (c ∷ []) xs a b h = cc
split_crlf-append (c ∷ d ∷ cs) xs a b h = elim (Bool-cases ((c == b'\r') && (d == b'\n'))) [
  | inl here ↦ ground arith
  | inr later ↦ elim (Option-cases (split_crlf (d ∷ cs))) [
    | inl e ↦ ground arith
    | inr (found, e) ↦ ground (arith, split_crlf-append (d ∷ cs) xs found.0 found.1 e)
  ]
]

Extends-bind {ℓ κ} :
    {A : Type ℓ} {B : Type κ} (m m' : Outcome A) (f : A → Bytes → Outcome B) (xs : Bytes)
    → Extends m m' xs
    → ((a : A) (rest : Bytes) → Extends (f a rest) (f a (rest ++ xs)) xs)
    → Extends (m >>= f) (m' >>= f) xs
unfolding Extends
Extends-bind more m' f xs h k = tt
Extends-bind (fault e) m' f xs h k = rw h refl
Extends-bind (done a rest) m' f xs h k = rw h (k a rest)

Extends-if {ℓ} :
    {A : Type ℓ} (t : Bool) (o o' p p' : Outcome A) (xs : Bytes)
    → Extends o o' xs
    → Extends p p' xs
    → Extends (if t then o else p) (if t then o' else p') xs
Extends-if true o o' p p' xs h k = h
Extends-if false o o' p p' xs h k = k

to_long-Extends :
    (minus : Bool) (digits rest xs : Bytes)
    → Extends (to_long minus digits rest) (to_long minus digits (rest ++ xs)) xs
unfolding to_long
to_long-Extends minus digits rest xs =
    Extends-if _ _ _ _ _ xs (Extends-fault _ (non_numeric _) xs refl)
      (Extends-if _ _ _ _ _ xs (Extends-fault _ out_of_range xs refl) (Extends-done _ rest xs))

read_digits-Extends :
    (digits rest xs : Bytes)
    → Extends (read_digits digits rest) (read_digits digits (rest ++ xs)) xs
unfolding read_digits
read_digits-Extends [] rest xs = Extends-fault _ empty_length xs refl
read_digits-Extends (c ∷ []) rest xs =
    Extends-if _ _ _ _ _ xs (Extends-fault _ bare_minus xs refl)
      (to_long-Extends false (c ∷ []) rest xs)
read_digits-Extends (c ∷ d ∷ ds) rest xs =
    Extends-if _ _ _ _ _ xs (to_long-Extends true (d ∷ ds) rest xs)
      (to_long-Extends false (c ∷ d ∷ ds) rest xs)

parse_number_line-Extends :
    (buf xs : Bytes) → Extends (parse_number_line buf) (parse_number_line (buf ++ xs)) xs
unfolding parse_number_line
parse_number_line-Extends buf xs = elim (Option-cases (split_crlf buf)) [
  | inl e ↦ rw (e, parse_number_line) (Extends-more _ xs)
  | inr (found, e) ↦
      rw (e, split_crlf-append buf xs found.0 found.1 e, parse_number_line)
        (read_digits-Extends found.0 found.1 xs)
]

parse_payload-Extends :
    (len : ℕ) (buf xs : Bytes) → Extends (parse_payload len buf) (parse_payload len (buf ++ xs)) xs
unfolding parse_payload
parse_payload-Extends len buf xs = elim (Bool-cases (ltb (length buf) (len + 2))) [
  | inl short ↦ rw short (Extends-more _ xs)
  | inr full ↦
      let enough : len + 2 ≤ length buf = ground arith in
      let still : ltb (length (buf ++ xs)) (len + 2) ≡ false =
        ground (arith, length-append buf xs) in
      rw
        (
          full,
          still,
          drop-append (len + 2) buf xs enough,
          take-append len buf xs (omega arith),
          drop-append len buf xs (omega arith),
          take-append 2 (drop len buf) xs (omega (arith, length-drop len buf)),
        )
        (Extends-if _ _ _ _ _ xs (Extends-fault _ not_terminated xs refl) (Extends-done _ _ xs))
]

parse_length-Extends :
    (n : Number) (buf xs : Bytes) → Extends (parse_length n buf) (parse_length n (buf ++ xs)) xs
unfolding parse_length
parse_length-Extends n buf xs =
    Extends-if _ _ _ _ _ xs (Extends-fault _ (bad_bulk_length _) xs refl)
      (parse_payload-Extends n.magnitude buf xs)

parse_bulk-Extends : (buf xs : Bytes) → Extends (parse_bulk buf) (parse_bulk (buf ++ xs)) xs
unfolding parse_bulk
parse_bulk-Extends [] xs = Extends-more _ xs
parse_bulk-Extends (c ∷ cs) xs = Extends-if _ _ _ _ _ xs (Extends-fault _ expected_bulk xs refl) (
    Extends-bind (parse_number_line cs) (parse_number_line (cs ++ xs)) parse_length xs
      (parse_number_line-Extends cs xs) (λ n rest. parse_length-Extends n rest xs))

parse_bulks-Extends :
    (n : ℕ) (buf xs : Bytes) → Extends (parse_bulks n buf) (parse_bulks n (buf ++ xs)) xs
unfolding parse_bulks
parse_bulks-Extends zero buf xs = Extends-done [] buf xs
parse_bulks-Extends (suc n) buf xs =
    Extends-bind (parse_bulk buf) (parse_bulk (buf ++ xs))
      (λ part rest. parse_bulks n rest >>= λ parts rest'. done (part ∷ parts) rest') xs
      (parse_bulk-Extends buf xs)
      (λ part rest.
        Extends-bind (parse_bulks n rest) (parse_bulks n (rest ++ xs))
          (λ parts rest'. done (part ∷ parts) rest') xs (parse_bulks-Extends n rest xs)
          (λ parts rest'. Extends-done (part ∷ parts) rest' xs))

parse_array-Extends :
    (n : Number) (buf xs : Bytes) → Extends (parse_array n buf) (parse_array n (buf ++ xs)) xs
unfolding parse_array
parse_array-Extends n buf xs =
    Extends-if _ _ _ _ _ xs (Extends-fault _ (bad_array_size _) xs refl)
      (parse_bulks-Extends n.magnitude buf xs)

parse_inline-Extends : (buf xs : Bytes) → Extends (parse_inline buf) (parse_inline (buf ++ xs)) xs
unfolding parse_inline
parse_inline-Extends buf xs = elim (Option-cases (split_crlf buf)) [
  | inl e ↦ rw (e, parse_inline) (Extends-more _ xs)
  | inr (found, e) ↦
      rw (e, split_crlf-append buf xs found.0 found.1 e, parse_inline) (Extends-done _ found.1 xs)
]

-- What `parse_one` decides on the bytes so far it decides on every continuation of them: a command
-- is found again, with the further bytes behind it, and an exception is thrown again.
pub parse_one-Extends : (buf xs : Bytes) → Extends (parse_one buf) (parse_one (buf ++ xs)) xs
unfolding parse_one
parse_one-Extends [] xs = Extends-more _ xs
parse_one-Extends (c ∷ cs) xs = Extends-if _ _ _ _ _ xs (parse_inline-Extends (c ∷ cs) xs) (
    Extends-bind (parse_number_line cs) (parse_number_line (cs ++ xs)) parse_array xs
      (parse_number_line-Extends cs xs) (λ n rest. parse_array-Extends n rest xs))
