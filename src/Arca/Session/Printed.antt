-- ===== src/Arca/Session/Printed.antt =====
-- arca/resp.cpp: the parser reads back what the serializers write.
use reame.Base.{
  ℕ, ◌+◌, ◌^◌, ◌≤◌, ◌<◌, ◌≡◌, ◌≢◌, refl, ◌∙◌, ap, true, false, ◌||◌, some, List, [], ◌∷◌, ◌++◌,
  arith, ltb, length, length-append, take-length-append, drop-length-append, drop-add, Bytes,
  list_eq, All,
}
use mathlib.Core.List.{append_assoc}
use reame.Arca.Decimal.{is_digit, all_digits, value_from, to_string, to_string_lem}
use reame.Arca.Resp.{
  fault, done, is_negative, max_bulk_bytes, max_elements, crlf, out_of_range, split_crlf, to_long,
  read_digits, parse_number_line, parse_payload, parse_length, parse_bulk, parse_bulks, parse_array,
  parse_one, resp_bulk,
}

pub split_crlf-digits :
    (digits rest : Bytes)
    → all_digits digits ≡ true
    → split_crlf (digits ++ (crlf ++ rest)) ≡ some (digits, rest)
unfolding split_crlf all_digits is_digit
split_crlf-digits [] rest h = refl
split_crlf-digits (c ∷ []) rest h = ground arith
split_crlf-digits (c ∷ d ∷ ds) rest h = ground (arith, split_crlf-digits (d ∷ ds) rest)

-- A byte before the digits joins them.
pub split_crlf-marked :
    (c : ℕ) (digits rest : Bytes)
    → c ≢ b'\r'
    → all_digits digits ≡ true
    → 0 < length digits
    → split_crlf (c ∷ (digits ++ (crlf ++ rest))) ≡ some (c ∷ digits, rest)
unfolding split_crlf
split_crlf-marked c [] rest n h l = absurd (omega arith)
split_crlf-marked c (d ∷ ds) rest n h l = ground (arith, split_crlf-digits (d ∷ ds) rest h)

pub read_digits-value :
    (digits rest : Bytes)
    → all_digits digits ≡ true
    → 0 < length digits
    → value_from 0 digits < 2 ^ 63
    → read_digits digits rest
      ≡ done (record { minus = false; magnitude = value_from 0 digits }) rest
unfolding read_digits all_digits is_digit to_long
read_digits-value [] rest h l b = absurd (omega arith)
read_digits-value (c ∷ []) rest h l b = ground arith
read_digits-value (c ∷ d ∷ ds) rest h l b = ground arith

pub number_line_lem :
    (n : ℕ) (rest : Bytes)
    → n < 2 ^ 63
    → parse_number_line (to_string n ++ (crlf ++ rest))
      ≡ done (record { minus = false; magnitude = n }) rest
unfolding parse_number_line
number_line_lem n rest h =
    let (v, d, l) = to_string_lem n in
    rw (split_crlf-digits (to_string n) rest d, parse_number_line)
      (read_digits-value (to_string n) rest d l (omega (arith, v))
        ∙ ap (λ m. done (record { minus = false; magnitude = m }) rest) v)

payload_lem : (s rest : Bytes) → parse_payload (length s) (s ++ (crlf ++ rest)) ≡ done s rest
unfolding parse_payload list_eq
payload_lem s rest =
    let long : ltb (length (s ++ (crlf ++ rest))) (length s + 2) ≡ false =
      ground (arith, length-append s (crlf ++ rest)) in
    rw
      (
        long,
        take-length-append s (crlf ++ rest),
        drop-add (length s) 2 (s ++ (crlf ++ rest)),
        drop-length-append s (crlf ++ rest),
      )
      refl

-- A bulk string, printed, reads back.
pub parse_bulk-resp_bulk :
    (s rest : Bytes) → length s ≤ max_bulk_bytes → parse_bulk (resp_bulk s ++ rest) ≡ done s rest
unfolding parse_bulk resp_bulk parse_length
parse_bulk-resp_bulk s rest h =
    let line = number_line_lem (length s) (s ++ (crlf ++ rest)) (omega arith) in
    let fits : (is_negative (record { minus = false; magnitude = length s })
          || ltb max_bulk_bytes (length s))
        ≡ false =
      ground arith in
    rw
      (
        append_assoc (to_string (length s)) (crlf ++ (s ++ crlf)) rest,
        append_assoc s crlf rest,
        line,
        fits,
      )
      (payload_lem s rest)

-- The command as a client prints it: the count, and each part as a bulk string.
unfoldable pub print_bulks : List Bytes → Bytes
print_bulks [] = []
print_bulks (part ∷ parts) = resp_bulk part ++ print_bulks parts

unfoldable pub print_command : List Bytes → Bytes
print_command parts = b'*' ∷ (to_string (length parts) ++ (crlf ++ print_bulks parts))

parse_bulks-print_bulks :
    (parts : List Bytes) (rest : Bytes)
    → All (λ part. length part ≤ max_bulk_bytes) parts
    → parse_bulks (length parts) (print_bulks parts ++ rest) ≡ done parts rest
unfolding parse_bulks print_bulks
parse_bulks-print_bulks [] rest h = refl
parse_bulks-print_bulks (part ∷ parts) rest h =
    rw
      (
        append_assoc (resp_bulk part) (print_bulks parts) rest,
        parse_bulk-resp_bulk part (print_bulks parts ++ rest) h.0,
        parse_bulks-print_bulks parts rest h.1,
      )
      refl

-- A command of at most 1024 parts, each of at most 64 MB, printed as an array of bulk strings, is
-- parsed as those parts, whatever follows, and what follows is left.
pub parse_one-print_command :
    (parts : List Bytes) (rest : Bytes)
    → length parts ≤ max_elements
    → All (λ part. length part ≤ max_bulk_bytes) parts
    → parse_one (print_command parts ++ rest) ≡ done parts rest
unfolding parse_one print_command parse_array
parse_one-print_command parts rest n h =
    let line = number_line_lem (length parts) (print_bulks parts ++ rest) (omega arith) in
    let fits : (is_negative (record { minus = false; magnitude = length parts })
          || ltb max_elements (length parts))
        ≡ false =
      ground arith in
    rw (append_assoc (to_string (length parts)) (crlf ++ print_bulks parts) rest, line, fits)
      (parse_bulks-print_bulks parts rest h)

read_digits-huge :
    (digits rest : Bytes)
    → all_digits digits ≡ true
    → 2 ^ 63 ≤ value_from 0 digits
    → read_digits digits rest ≡ fault out_of_range
unfolding read_digits all_digits is_digit to_long
read_digits-huge [] rest h b = unfold value_from in absurd (omega arith)
read_digits-huge (c ∷ []) rest h b = ground arith
read_digits-huge (c ∷ d ∷ ds) rest h b = ground arith

-- A length that is no `long` is an exception of std::stol.
pub parse_one-out_of_range :
    (digits rest : Bytes)
    → all_digits digits ≡ true
    → 2 ^ 63 ≤ value_from 0 digits
    → parse_one (b'*' ∷ (digits ++ (crlf ++ rest))) ≡ fault out_of_range
unfolding parse_one parse_number_line
parse_one-out_of_range digits rest h b =
    rw (split_crlf-digits digits rest h, parse_number_line)
      (rw (read_digits-huge digits rest h b) refl)
