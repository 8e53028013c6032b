-- ===== src/Arca/Resp/Feeds.antt =====
-- arca/resp.cpp: the loop of `feed` ends, and how the bytes are cut into calls of it does not matter.
use reame.Base.{
  subst, ◌⊎◌, ℕ, zero, suc, ◌+◌, ◌^◌, ◌-◌, ◌≤◌, ◌<◌, ◌≡◌, refl, sym, ◌∙◌, ap, inl, inr, Bool, true,
  false, not, ◌&&◌, ◌||◌, Option, none, some, List, [], ◌∷◌, ◌++◌, arith, Bool-cases, Option-cases,
  ltb, ◌==◌, if◌then◌else◌, length, length-append, length-drop, take, drop, Bytes, list_eq,
}
use mathlib.Core.List.{append_assoc}
use reame.Arca.Decimal.{all_digits, value_from}
use reame.Arca.Resp.{
  Outcome, more, fault, done, Fault, ◌>>=◌, Number, is_negative, max_bulk_bytes, crlf, non_numeric,
  out_of_range, bad_bulk_length, not_terminated, split_crlf, to_long, read_digits,
  parse_number_line, parse_payload, parse_length, parse_bulk, parse_bulks, parse_array,
  parse_inline, parse_one, RespParser, push_ready, settle, feed_loop, feed,
}
use reame.Arca.Resp.Chunks.{Extends, parse_one-Extends}

-- At most `n` bytes are left behind what was read.
unfoldable pub Leaves {ℓ} : {A : Type ℓ} → ℕ → Outcome A → Type 0
Leaves n more = Unit
Leaves n (fault e) = Unit
Leaves n (done a rest) = length rest ≤ n

Leaves-done {ℓ} :
    {A : Type ℓ} (n : ℕ) (a : A) (rest : Bytes) → length rest ≤ n → Leaves n (done a rest)
unfolding Leaves
Leaves-done n a rest h = h

Leaves-fault {ℓ} : (A : Type ℓ) (n : ℕ) (e : Fault) → Leaves {A = A} n (fault e)
unfolding Leaves
Leaves-fault A n e = tt

Leaves-more {ℓ} : (A : Type ℓ) (n : ℕ) → Leaves {A = A} n more
unfolding Leaves
Leaves-more A n = tt

Leaves-if {ℓ} :
    {A : Type ℓ} (n : ℕ) (t : Bool) (o p : Outcome A)
    → Leaves n o
    → Leaves n p
    → Leaves n (if t then o else p)
Leaves-if n true o p h k = h
Leaves-if n false o p h k = k

Leaves-bind {ℓ κ} :
    {A : Type ℓ} {B : Type κ} (n : ℕ) (m : Outcome A) (f : A → Bytes → Outcome B)
    → Leaves n m
    → ((a : A) (rest : Bytes) → length rest ≤ n → Leaves n (f a rest))
    → Leaves n (m >>= f)
unfolding Leaves
Leaves-bind n more f h k = tt
Leaves-bind n (fault e) f h k = tt
Leaves-bind n (done a rest) f h k = k a rest h

length-split_crlf : (buf a b : Bytes) → split_crlf buf ≡ some (a, b) → length b < length buf
unfolding split_crlf
length-split_crlf [] a b h = cc
length-split_crlf (c ∷ []) a b h = cc
length-split_crlf (c ∷ d ∷ cs) a b h = elim (Bool-cases ((c == b'\r') && (d == b'\n'))) [
  | inl here ↦ ground arith
  | inr later ↦ elim (Option-cases (split_crlf (d ∷ cs))) [
    | inl e ↦ ground arith
    | inr (found, e) ↦ ground (arith, length-split_crlf (d ∷ cs) found.0 found.1 e)
  ]
]

to_long-Leaves :
    (n : ℕ) (minus : Bool) (digits rest : Bytes)
    → length rest ≤ n
    → Leaves n (to_long minus digits rest)
unfolding to_long
to_long-Leaves n minus digits rest h =
    Leaves-if n (not (all_digits digits)) _ _ (Leaves-fault _ n (non_numeric _)) (
      Leaves-if n (ltb (if minus then 2 ^ 63 else 2 ^ 63 - 1) (value_from 0 digits)) _ _
        (Leaves-fault _ n out_of_range) (Leaves-done n _ rest h))

read_digits-Leaves :
    (n : ℕ) (digits rest : Bytes) → length rest ≤ n → Leaves n (read_digits digits rest)
unfolding read_digits
read_digits-Leaves n [] rest h = Leaves-fault _ n _
read_digits-Leaves n (c ∷ []) rest h =
    Leaves-if n _ _ _ (Leaves-fault _ n _) (to_long-Leaves n false (c ∷ []) rest h)
read_digits-Leaves n (c ∷ d ∷ ds) rest h =
    Leaves-if n _ _ _ (to_long-Leaves n true (d ∷ ds) rest h)
      (to_long-Leaves n false (c ∷ d ∷ ds) rest h)

parse_number_line-Leaves : (n : ℕ) (buf : Bytes) → length buf ≤ n → Leaves n (parse_number_line buf)
unfolding parse_number_line
parse_number_line-Leaves n buf h = elim (Option-cases (split_crlf buf)) [
  | inl e ↦ rw (e, parse_number_line) (Leaves-more _ n)
  | inr (found, e) ↦
      rw (e, parse_number_line)
        (read_digits-Leaves n found.0 found.1
          (omega (arith, length-split_crlf buf found.0 found.1 e)))
]

parse_length-Leaves :
    (n : ℕ) (len : Number) (buf : Bytes) → length buf ≤ n → Leaves n (parse_length len buf)
unfolding parse_length parse_payload
parse_length-Leaves n len buf h =
    Leaves-if n (is_negative len || ltb max_bulk_bytes len.magnitude) _ _
      (Leaves-fault _ n (bad_bulk_length _))
      (Leaves-if n (ltb (length buf) (len.magnitude + 2)) _ _ (Leaves-more _ n) (
        Leaves-if n (not (list_eq (take 2 (drop len.magnitude buf)) crlf)) _ _
          (Leaves-fault _ n not_terminated)
          (Leaves-done n (take len.magnitude buf) (drop (len.magnitude + 2) buf)
            (omega (arith, length-drop (len.magnitude + 2) buf)))))

parse_bulk-Leaves : (n : ℕ) (buf : Bytes) → length buf ≤ n → Leaves n (parse_bulk buf)
unfolding parse_bulk
parse_bulk-Leaves n [] h = Leaves-more _ n
parse_bulk-Leaves n (c ∷ cs) h = Leaves-if n _ _ _ (Leaves-fault _ n _) (
    Leaves-bind n (parse_number_line cs) parse_length (parse_number_line-Leaves n cs (omega arith))
      (λ k rest h'. parse_length-Leaves n k rest h'))

parse_bulks-Leaves : (n k : ℕ) (buf : Bytes) → length buf ≤ n → Leaves n (parse_bulks k buf)
unfolding parse_bulks
parse_bulks-Leaves n zero buf h = Leaves-done n [] buf h
parse_bulks-Leaves n (suc k) buf h =
    Leaves-bind n (parse_bulk buf) _ (parse_bulk-Leaves n buf h) (λ part rest h'.
      Leaves-bind n (parse_bulks k rest) _ (parse_bulks-Leaves n k rest h')
        (λ parts rest' h''. Leaves-done n (part ∷ parts) rest' h''))

parse_array-Leaves :
    (n : ℕ) (k : Number) (buf : Bytes) → length buf ≤ n → Leaves n (parse_array k buf)
unfolding parse_array
parse_array-Leaves n k buf h =
    Leaves-if n _ _ _ (Leaves-fault _ n _) (parse_bulks-Leaves n k.magnitude buf h)

parse_inline-Leaves : (n : ℕ) (buf : Bytes) → length buf ≤ suc n → Leaves n (parse_inline buf)
unfolding parse_inline
parse_inline-Leaves n buf h = elim (Option-cases (split_crlf buf)) [
  | inl e ↦ rw (e, parse_inline) (Leaves-more _ n)
  | inr (found, e) ↦
      rw (e, parse_inline)
        (Leaves-done n _ found.1 (omega (arith, length-split_crlf buf found.0 found.1 e)))
]

parse_one-Leaves : (n : ℕ) (buf : Bytes) → length buf ≤ suc n → Leaves n (parse_one buf)
unfolding parse_one
parse_one-Leaves n [] h = Leaves-more _ n
parse_one-Leaves n (c ∷ cs) h = Leaves-if n _ _ _ (parse_inline-Leaves n (c ∷ cs) (omega arith)) (
    Leaves-bind n (parse_number_line cs) parse_array (parse_number_line-Leaves n cs (omega arith))
      (λ k rest h'. parse_array-Leaves n k rest h'))

-- A command takes at least one byte off the buffer.
parse_one-shrinks :
    (buf rest : Bytes) (cmd : List Bytes) → parse_one buf ≡ done cmd rest → length rest < length buf
unfolding Leaves parse_one
parse_one-shrinks [] rest cmd h = cc
parse_one-shrinks (c ∷ cs) rest cmd h =
    let left : length rest ≤ length cs =
      subst (Leaves (length cs)) h (parse_one-Leaves (length cs) (c ∷ cs) (omega arith)) in
    omega arith

parse_one-append :
    (buf xs rest : Bytes) (cmd : List Bytes)
    → parse_one buf ≡ done cmd rest
    → parse_one (buf ++ xs) ≡ done cmd (rest ++ xs)
unfolding Extends
parse_one-append buf xs rest cmd h =
    subst (λ o. Extends o (parse_one (buf ++ xs)) xs) h (parse_one-Extends buf xs)

abbrev Outcome-cases {ℓ} :
    {A : Type ℓ} (o : Outcome A)
    → (o ≡ more) ⊎ (((e : Fault) × o ≡ fault e) ⊎ ((found : A × Bytes) × o ≡ done found.0 found.1))
Outcome-cases more = inl refl
Outcome-cases (fault e) = inr (inl (e, refl))
Outcome-cases (done a rest) = inr (inr ((a, rest), refl))

pub feed_loop-more :
    (n : ℕ) (buf : Bytes) (ready : List (List Bytes))
    → parse_one buf ≡ more
    → feed_loop (suc n) buf ready ≡ (buf, ready, none)
unfolding feed_loop
feed_loop-more n buf ready e = rw (e, feed_loop) refl

pub feed_loop-fault :
    (n : ℕ) (buf : Bytes) (ready : List (List Bytes)) (f : Fault)
    → parse_one buf ≡ fault f
    → feed_loop (suc n) buf ready ≡ (buf, ready, some f)
unfolding feed_loop
feed_loop-fault n buf ready f e = rw (e, feed_loop) refl

pub feed_loop-done :
    (n : ℕ) (buf rest : Bytes) (ready : List (List Bytes)) (cmd : List Bytes)
    → parse_one buf ≡ done cmd rest
    → feed_loop (suc n) buf ready ≡ feed_loop n rest (push_ready ready cmd)
unfolding feed_loop
feed_loop-done n buf rest ready cmd e = rw (e, feed_loop) refl

-- More rounds than bytes are enough for the loop, and further ones change nothing.
feed_loop-fuel :
    (n m : ℕ) (buf : Bytes) (ready : List (List Bytes))
    → length buf < n
    → length buf < m
    → feed_loop n buf ready ≡ feed_loop m buf ready
feed_loop-fuel zero m buf ready h k = absurd (omega arith)
feed_loop-fuel (suc n) zero buf ready h k = absurd (omega arith)
feed_loop-fuel (suc n) (suc m) buf ready h k = elim (Outcome-cases (parse_one buf)) [
  | inl e ↦ feed_loop-more n buf ready e ∙ sym (feed_loop-more m buf ready e)
  | inr (inl (f, e)) ↦ feed_loop-fault n buf ready f e ∙ sym (feed_loop-fault m buf ready f e)
  | inr (inr ((cmd, rest), e)) ↦
      let shrinks : length rest < length buf = parse_one-shrinks buf rest cmd e in
      feed_loop-done n buf rest ready cmd e
      ∙ feed_loop-fuel n m rest (push_ready ready cmd) (omega arith) (omega arith)
      ∙ sym (feed_loop-done m buf rest ready cmd e)
]

feed_loop-append :
    (n : ℕ) (buf xs rest : Bytes) (ready ready' : List (List Bytes))
    → length buf < n
    → feed_loop n buf ready ≡ (rest, ready', none)
    → feed_loop (suc (length (rest ++ xs))) (rest ++ xs) ready'
      ≡ feed_loop (suc (length (buf ++ xs))) (buf ++ xs) ready
feed_loop-append zero buf xs rest ready ready' h k = absurd (omega arith)
feed_loop-append (suc n) buf xs rest ready ready' h k = elim (Outcome-cases (parse_one buf)) [
  | inl e ↦
      let same = sym k ∙ feed_loop-more n buf ready e in
      rw (ap (λ t. t.0) same, ap (λ t. t.1) same) refl
  | inr (inl (f, e)) ↦ cc (ap (λ t. t.2) (sym k ∙ feed_loop-fault n buf ready f e))
  | inr (inr ((cmd, left), e)) ↦
      let shrinks : length left < length buf = parse_one-shrinks buf left cmd e in
      feed_loop-append n left xs rest (push_ready ready cmd) ready' (omega arith)
        (sym (feed_loop-done n buf left ready cmd e) ∙ k)
      ∙ feed_loop-fuel (suc (length (left ++ xs))) (length (buf ++ xs)) (left ++ xs)
          (push_ready ready cmd) (omega arith)
          (omega (arith, length-append buf xs, length-append left xs))
      ∙ sym (
          feed_loop-done (length (buf ++ xs)) (buf ++ xs) (left ++ xs) ready cmd
            (parse_one-append buf xs left cmd e))
]

settle-none :
    (buf : Bytes) (l : Bytes × List (List Bytes) × Option Fault) (p : RespParser)
    → settle buf l ≡ (p, none)
    → l ≡ (p.buf, p.ready, none)
settle-none buf (rest, ready, none) p h = rw (sym (ap (λ t. t.0) h)) refl
settle-none buf (rest, ready, some f) p h = cc (ap (λ t. t.1) h)

settle-same :
    (buf buf' : Bytes) (l : Bytes × List (List Bytes) × Option Fault)
    → ((settle buf l).0.ready ≡ (settle buf' l).0.ready)
      × ((settle buf l).1 ≡ (settle buf' l).1)
      × ((settle buf l).1 ≡ none → settle buf l ≡ settle buf' l)
settle-same buf buf' (rest, ready, none) = (refl, refl, λ h. refl)
settle-same buf buf' (rest, ready, some f) = (refl, refl, λ h. cc)

-- If `feed` takes a slice without an exception, then with the next slice it queues the same commands
-- and ends with the same exception, if any, as with both slices at once; without an exception the
-- parsers are the same.
pub feed-append :
    (p p' : RespParser) (a b : Bytes)
    → feed p a ≡ (p', none)
    → ((feed p' b).0.ready ≡ (feed p (a ++ b)).0.ready)
      × ((feed p' b).1 ≡ (feed p (a ++ b)).1)
      × ((feed p' b).1 ≡ none → feed p' b ≡ feed p (a ++ b))
unfolding feed
feed-append p p' a b h =
    let first =
      settle-none (p.buf ++ a) (feed_loop (suc (length (p.buf ++ a))) (p.buf ++ a) p.ready) p' h in
    let loop =
      feed_loop-append (suc (length (p.buf ++ a))) (p.buf ++ a) b p'.buf p.ready p'.ready
        (omega arith) first in
    rw (sym (append_assoc p.buf a b), sym loop)
      (settle-same (p'.buf ++ b) (p.buf ++ a ++ b)
        (feed_loop (suc (length (p'.buf ++ b))) (p'.buf ++ b) p'.ready))
