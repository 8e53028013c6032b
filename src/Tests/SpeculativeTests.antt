-- ===== src/Tests/SpeculativeTests.antt =====
-- speculative/ at concrete inputs.
use reame.Base.{none, true, ◌+◌, ℕ, ◌-◌, ◌≡◌, refl, inl, List, [], ◌∷◌, ◌++◌, arith, list_eq, codes}
use reame.Arca.Decimal.{to_string, is_digit, all_digits, value_from}
use reame.Speculative.FormDraft.{
  propose, item_text, last_completed_line, completed_from, parse_numbered_item, numbered_from,
  span_digits, bullet_item, bullet_text,
}
use reame.Speculative.FormDraft.Items.{propose_numbered, lines}
use reame.Speculative.PromptLookup.{
  Config, find_draft, lookup_loop, last_occurrence, occurs_at, found_draft, continuation, longest,
  shortest,
}
use reame.Speculative.PromptLookup.Latest.{Looked, find_draft-Looked}

abbrev cfg : Config
cfg = record { max_ngram = 3; min_ngram = 1 }

abbrev history : List ℕ
history = 1 ∷ 2 ∷ 3 ∷ 1 ∷ 2 ∷ []

find_draft-Looked_example :
    Looked history 2 (shortest cfg - 1) (longest cfg) (find_draft cfg history 2)
find_draft-Looked_example = find_draft-Looked cfg history 2 (omega arith)

-- 1, 2 was followed by 3, 1.
drafts_three_one : find_draft cfg history 2 ≡ 3 ∷ 1 ∷ []
unfolding find_draft lookup_loop last_occurrence occurs_at found_draft continuation longest shortest
    list_eq
drafts_three_one = refl

seven_digits : all_digits (codes "07") ≡ true
unfolding all_digits is_digit
seven_digits = refl

seven : value_from 0 (codes "07") ≡ 7
unfolding value_from
seven = refl

propose_numbered_example :
    propose (lines none ++ ((codes "07" ++ b'.' ∷ b' ' ∷ codes "mix") ++ b'\n' ∷ []))
    ≡ to_string (value_from 0 (codes "07") + 1) ++ b'.' ∷ b' ' ∷ []
propose_numbered_example =
    propose_numbered none (codes "07") (codes "mix") b'.' seven_digits (omega arith) (omega arith)
      (omega (arith, seven)) (inl refl) (omega arith, (omega arith, (omega arith, tt)))

bullet_goes_on : propose (codes "a\n- b\n") ≡ codes "- "
unfolding propose item_text last_completed_line completed_from parse_numbered_item numbered_from
    span_digits bullet_item bullet_text is_digit
bullet_goes_on = refl
