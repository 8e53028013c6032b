-- ===== src/Speculative/FormDraft/Items.antt =====
-- speculative/form_draft.cpp: a numbered list goes on with the next number.
use reame.Base.{
  ℕ, zero, suc, ◌+◌, ◌≤◌, ◌<◌, ◌≡◌, ◌≢◌, ◌⊎◌, refl, sym, ◌∙◌, ap, inl, inr, true, false, ◌||◌,
  Option, none, some, [], ◌∷◌, ◌++◌, arith, Bool-cases, ltb, ◌==◌, length, length-append, Bytes,
  All, All-append,
}
use mathlib.Core.List.{append_assoc, append-nil}
use reame.Arca.Decimal.{is_digit, all_digits, value_from, to_string}
use reame.Speculative.FormDraft.{
  completed_from, last_completed_line, span_digits, separator, numbered_from, parse_numbered_item,
  item_text, propose,
}

-- One byte further: a newline starts the line again.
completed_from-other :
    (seen xs : Bytes) (c : ℕ)
    → (c == b'\n') ≡ false
    → 0 < length xs
    → completed_from seen (c ∷ xs) ≡ completed_from (seen ++ c ∷ []) xs
unfolding completed_from
completed_from-other seen [] c e h = absurd (omega arith)
completed_from-other seen (x ∷ xs) c e h = rw (e, completed_from) refl

completed_from-newline :
    (seen xs : Bytes) → 0 < length xs → completed_from seen (b'\n' ∷ xs) ≡ completed_from [] xs
unfolding completed_from
completed_from-newline seen [] h = absurd (omega arith)
completed_from-newline seen (x ∷ xs) h = refl

-- A line without a newline in it, and its end.
completed_from-line :
    (seen line : Bytes)
    → All (λ c. c ≢ b'\n') line
    → completed_from seen (line ++ b'\n' ∷ []) ≡ seen ++ line
completed_from-line seen [] h = unfold completed_from in sym (append-nil seen)
completed_from-line seen (c ∷ cs) h =
    completed_from-other seen (cs ++ b'\n' ∷ []) c (ground arith)
      (omega (arith, length-append cs (b'\n' ∷ [])))
    ∙ completed_from-line (seen ++ c ∷ []) cs h.1
    ∙ append_assoc seen (c ∷ []) cs

completed_from-before :
    (seen before line : Bytes)
    → All (λ c. c ≢ b'\n') line
    → completed_from seen (before ++ b'\n' ∷ (line ++ b'\n' ∷ [])) ≡ line
completed_from-before seen [] line h =
    completed_from-newline seen (line ++ b'\n' ∷ [])
      (omega (arith, length-append line (b'\n' ∷ [])))
    ∙ completed_from-line [] line h
completed_from-before seen (c ∷ before) line h =
    let xs = before ++ b'\n' ∷ (line ++ b'\n' ∷ []) in
    let some_left : 0 < length xs =
      omega (arith, length-append before (b'\n' ∷ (line ++ b'\n' ∷ []))) in
    elim (Bool-cases (c == b'\n')) [
      | inl newline ↦
          let same : c ≡ b'\n' = ground arith in
          rw same
            (completed_from-newline seen xs some_left ∙ completed_from-before [] before line h)
      | inr other ↦
          completed_from-other seen xs c other some_left
          ∙ completed_from-before (seen ++ c ∷ []) before line h
    ]

span_digits-append :
    (digits rest : Bytes) (c : ℕ)
    → all_digits digits ≡ true
    → is_digit c ≡ false
    → span_digits (digits ++ c ∷ rest) ≡ (digits, c ∷ rest)
unfolding span_digits all_digits
span_digits-append [] rest c h k = rw k refl
span_digits-append (d ∷ ds) rest c h k = ground (arith, span_digits-append ds rest c)

digits-All : (digits : Bytes) → all_digits digits ≡ true → All (λ c. c ≢ b'\n') digits
unfolding all_digits is_digit
digits-All [] h = tt
digits-All (c ∷ cs) h = (ground arith, digits-All cs (ground arith))

parse_numbered_item-line :
    (digits text : Bytes) (sep : ℕ)
    → all_digits digits ≡ true
    → 0 < length digits
    → length digits ≤ 9
    → ((sep ≡ b'.') ⊎ (sep ≡ b')'))
    → parse_numbered_item (digits ++ sep ∷ b' ' ∷ text) ≡ (value_from 0 digits, sep)
unfolding parse_numbered_item numbered_from
parse_numbered_item-line digits text sep h l m s =
    let no_digit : is_digit sep ≡ false = unfold is_digit in ground arith in
    let counted : ((length digits == 0) || ltb 9 (length digits)) ≡ false = ground arith in
    let separated : separator (sep ∷ b' ' ∷ text) ≡ some sep = unfold separator in ground arith in
    ap numbered_from (span_digits-append digits (b' ' ∷ text) sep h no_digit)
    ∙ rw (counted, separated) refl

propose-item :
    (tail line : Bytes) (n sep : ℕ)
    → last_completed_line tail ≡ line
    → 0 < length line
    → parse_numbered_item line ≡ (n, sep)
    → 0 < n
    → propose tail ≡ to_string (n + 1) ++ sep ∷ b' ' ∷ []
unfolding propose item_text
propose-item tail line zero sep e l p h = absurd (omega arith)
propose-item tail line (suc n) sep e l p h =
    let some_line : (length line == 0) ≡ false = ground arith in rw (e, some_line, p) refl

-- The text in front of a line: nothing, or lines that end.
abbrev pub lines : Option Bytes → Bytes
lines none = []
lines (some before) = before ++ b'\n' ∷ []

last_completed_line-lines :
    (before : Option Bytes) (line : Bytes)
    → All (λ c. c ≢ b'\n') line
    → last_completed_line (lines before ++ (line ++ b'\n' ∷ [])) ≡ line
unfolding last_completed_line
last_completed_line-lines none line h = completed_from-line [] line h
last_completed_line-lines (some before) line h =
    ap (completed_from []) (append_assoc before (b'\n' ∷ []) (line ++ b'\n' ∷ []))
    ∙ completed_from-before [] before line h

-- After a line, the first of the text or a later one, that starts with at most nine digits of a value
-- above 0, a dot or a parenthesis, and a blank, the proposal is the next number with the same
-- separator and a blank.
pub propose_numbered :
    (before : Option Bytes) (digits text : Bytes) (sep : ℕ)
    → all_digits digits ≡ true
    → 0 < length digits
    → length digits ≤ 9
    → 0 < value_from 0 digits
    → ((sep ≡ b'.') ⊎ (sep ≡ b')'))
    → All (λ c. c ≢ b'\n') text
    → propose (lines before ++ ((digits ++ sep ∷ b' ' ∷ text) ++ b'\n' ∷ []))
      ≡ to_string (value_from 0 digits + 1) ++ sep ∷ b' ' ∷ []
propose_numbered before digits text sep d l short pos s h =
    let line = digits ++ sep ∷ b' ' ∷ text in
    propose-item (lines before ++ (line ++ b'\n' ∷ [])) line (value_from 0 digits) sep
      (last_completed_line-lines before line (
        All-append (λ c. c ≢ b'\n') digits (sep ∷ b' ' ∷ text) (digits-All digits d)
          (ground arith, (omega arith, h))))
      (omega (arith, length-append digits (sep ∷ b' ' ∷ text)))
      (parse_numbered_item-line digits text sep d l short s) pos
