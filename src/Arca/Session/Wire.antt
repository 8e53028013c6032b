-- ===== src/Arca/Session/Wire.antt =====
-- arca/: what the client writes is the command that the daemon dispatches, and it reads the reply.
use reame.Base.{
  ℕ, ◌+◌, ◌-◌, ◌^◌, ◌≤◌, ◌<◌, ◌≡◌, refl, true, false, some, [], ◌∷◌, ◌++◌, arith, ltb, ◌==◌, length,
  length-append, take-length-append, Bytes, codes,
}
use mathlib.Core.List.{append-nil}
use reame.Arca.Decimal.{is_digit, all_digits, value_from, to_string, to_string_lem, decimal_loop}
use reame.Arca.Resp.{done, max_bulk_bytes, crlf, parse_one, resp_bulk, split_crlf}
use reame.Arca.Client.{
  get_request, set_request, read_reply, reply, head_reply, bulk_reply, bulk_from, read_bulk,
}
use reame.Arca.Archive.{leading_digits, skip_spaces}
use reame.Arca.Session.Printed.{
  print_command, print_bulks, parse_one-print_command, split_crlf-marked,
}

two_text : to_string 2 ≡ codes "2"
unfolding to_string decimal_loop
two_text = refl

three_text : to_string 3 ≡ codes "3"
unfolding to_string decimal_loop
three_text = refl

set_word : resp_bulk (codes "SET") ≡ codes "$3\r\nSET\r\n"
unfolding resp_bulk to_string decimal_loop
set_word = refl

get_word : resp_bulk (codes "GET") ≡ codes "$3\r\nGET\r\n"
unfolding resp_bulk to_string decimal_loop
get_word = refl

set_request_lem :
    (key value : Bytes) → set_request key value ≡ print_command (codes "SET" ∷ key ∷ value ∷ [])
unfolding set_request print_command print_bulks
set_request_lem key value = rw (three_text, set_word, append-nil (resp_bulk value)) refl

get_request_lem : (key : Bytes) → get_request key ≡ print_command (codes "GET" ∷ key ∷ [])
unfolding get_request print_command print_bulks
get_request_lem key = rw (two_text, get_word, append-nil (resp_bulk key)) refl

-- The daemon parses the client's requests, whatever follows them, as SET with the key and the value
-- and as GET with the key, for keys and values of at most 64 MB.
pub parse_one-request :
    (key value rest : Bytes)
    → length key ≤ max_bulk_bytes
    → length value ≤ max_bulk_bytes
    → (parse_one (set_request key value ++ rest) ≡ done (codes "SET" ∷ key ∷ value ∷ []) rest)
      × (parse_one (get_request key ++ rest) ≡ done (codes "GET" ∷ key ∷ []) rest)
parse_one-request key value rest h k =
    rw (set_request_lem key value, get_request_lem key)
      (
        parse_one-print_command (codes "SET" ∷ key ∷ value ∷ []) rest (omega arith)
            (omega arith, (h, (k, tt))),
        parse_one-print_command (codes "GET" ∷ key ∷ []) rest (omega arith) (omega arith, (h, tt)),
      )

leading_digits_lem : (digits : Bytes) → all_digits digits ≡ true → leading_digits digits ≡ digits
unfolding leading_digits all_digits
leading_digits_lem [] h = refl
leading_digits_lem (c ∷ cs) h = ground (arith, leading_digits_lem cs)

skip_spaces-digits : (digits : Bytes) → all_digits digits ≡ true → skip_spaces digits ≡ digits
unfolding skip_spaces all_digits is_digit
skip_spaces-digits [] h = refl
skip_spaces-digits (c ∷ cs) h = ground arith

bulk_from-digits :
    (c : ℕ) (cs s : Bytes)
    → all_digits (c ∷ cs) ≡ true
    → value_from 0 (c ∷ cs) ≡ length s
    → length s < 2 ^ 63
    → bulk_from false (c ∷ cs) (s ++ crlf) ≡ reply (some s)
unfolding bulk_from read_bulk
bulk_from-digits c cs s h v b =
    let fits : ltb (2 ^ 63 - 1) (length s) ≡ false = ground arith in
    let full : ltb (length (s ++ crlf)) (length s + 2) ≡ false =
      ground (arith, length-append s crlf) in
    rw (leading_digits_lem (c ∷ cs) h, bulk_from)
      (rw (v, fits, full, take-length-append s crlf) refl)

bulk_reply-digits :
    (digits s : Bytes)
    → all_digits digits ≡ true
    → 0 < length digits
    → value_from 0 digits ≡ length s
    → length s < 2 ^ 63
    → bulk_reply digits (s ++ crlf) ≡ reply (some s)
unfolding bulk_reply
bulk_reply-digits [] s h l v b = absurd (omega arith)
bulk_reply-digits (c ∷ cs) s h l v b =
    let no_minus : (c == b'-') ≡ false = unfold all_digits is_digit in ground arith in
    let no_plus : (c == b'+') ≡ false = unfold all_digits is_digit in ground arith in
    rw (no_minus, no_plus) (bulk_from-digits c cs s h v b)

-- A value of fewer than 2^63 bytes, sent as a bulk reply, is what the client gets.
pub read_reply-resp_bulk :
    (s : Bytes) → length s < 2 ^ 63 → read_reply (resp_bulk s) ≡ reply (some s)
unfolding read_reply resp_bulk head_reply
read_reply-resp_bulk s h =
    let (v, d, l) = to_string_lem (length s) in
    let line : split_crlf (resp_bulk s) ≡ some (b'$' ∷ to_string (length s), s ++ crlf) =
      split_crlf-marked b'$' (to_string (length s)) (s ++ crlf) (omega arith) d l in
    rw (line, read_reply)
      (rw (skip_spaces-digits (to_string (length s)) d)
        (bulk_reply-digits (to_string (length s)) s d l v h))
