-- ===== src/Speculative/FormDraft.antt =====
-- speculative/form_draft.cpp: the structural continuation of a list.
pub mod Items
use reame.Base.{
  ℕ, zero, suc, ◌+◌, Bool, true, false, not, ◌&&◌, ◌||◌, Option, none, some, List, [], ◌∷◌, ◌++◌,
  ltb, ◌==◌, if◌then◌else◌, length, Bytes,
}
use reame.Arca.Decimal.{is_digit, value_from, to_string}

-- The line before the final newline, or nothing when the tail does not end with one; `line` is what
-- stands before, back to the newline before it.
unfoldable pub completed_from : Bytes → Bytes → Bytes
completed_from line [] = []
completed_from line (c ∷ []) = if c == b'\n' then line else []
completed_from line (c ∷ d ∷ cs) = elim (c == b'\n') [
  | true ↦ completed_from [] (d ∷ cs)
  | false ↦ completed_from (line ++ c ∷ []) (d ∷ cs)
]

unfoldable pub last_completed_line : Bytes → Bytes
last_completed_line tail = completed_from [] tail

-- The digits at the front, and the rest.
unfoldable pub span_digits : Bytes → Bytes × Bytes
span_digits [] = ([], [])
span_digits (c ∷ cs) =
    let (digits, rest) = span_digits cs in if is_digit c then (c ∷ digits, rest) else ([], c ∷ cs)

-- The separator, if a blank follows it.
unfoldable pub separator : Bytes → Option ℕ
separator (c ∷ b ∷ rest) =
    if not ((c == b'.') || (c == b')')) then none else if not (b == b' ') then none else some c
separator (c ∷ []) = none
separator [] = none

unfoldable pub numbered_from : Bytes × Bytes → ℕ × ℕ
numbered_from (digits, rest) =
    if (length digits == 0) || ltb 9 (length digits)
    then (0, b'.')
    else elim (separator rest) [ none ↦ (0, b'.') | some sep ↦ (value_from 0 digits, sep) ]

-- The number and its separator; 0 is no list item.
unfoldable pub parse_numbered_item : Bytes → ℕ × ℕ
parse_numbered_item line = numbered_from (span_digits line)

unfoldable pub bullet_item : Bytes → Option ℕ
bullet_item (c ∷ b ∷ rest) = if ((c == b'-') || (c == b'*')) && (b == b' ') then some c else none
bullet_item (c ∷ []) = none
bullet_item [] = none

unfoldable pub bullet_text : Option ℕ → Bytes
bullet_text none = []
bullet_text (some marker) = marker ∷ b' ' ∷ []

unfoldable pub item_text : ℕ × ℕ → Bytes → Bytes
item_text (zero, sep) line = bullet_text (bullet_item line)
item_text (suc n, sep) line = to_string (suc n + 1) ++ sep ∷ b' ' ∷ []

unfoldable pub propose : Bytes → Bytes
propose tail =
    let line = last_completed_line tail in
    if length line == 0 then [] else item_text (parse_numbered_item line) line
