-- ===== src/Speculative/PromptLookup.antt =====
-- speculative/prompt_lookup.cpp: a draft from an earlier occurrence of the tail.
-- The Config's numbers are ints; one below 0 acts as 0 does.
pub mod Latest
use reame.Base.{
  ℕ, zero, suc, ◌+◌, ◌-◌, min, max, Bool, true, false, not, ◌&&◌, Option, none, some, List, [], ltb,
  ◌==◌, if◌then◌else◌, length, take, drop, list_eq,
}

pub record Config : Type 0 where
  pub max_ngram : ℕ
  pub min_ngram : ℕ

-- The `n` tokens at `start` are the tail.
unfoldable pub occurs_at : List ℕ → ℕ → ℕ → Bool
occurs_at history n start =
    list_eq (drop (length history - n) history) (take n (drop start history))

-- `for (start = …; start-- > 0;)`: the last occurrence below `start`.
unfoldable pub last_occurrence : List ℕ → ℕ → ℕ → Option ℕ
last_occurrence history n zero = none
last_occurrence history n (suc start) =
    let rest = last_occurrence history n start in
    if occurs_at history n start then some start else rest

unfoldable pub continuation : List ℕ → ℕ → ℕ → List ℕ
continuation history cont n_draft = take (min (length history - cont) n_draft) (drop cont history)

unfoldable pub found_draft : List ℕ → ℕ → ℕ → Option ℕ → List ℕ → List ℕ
found_draft history n n_draft none rest = rest
found_draft history n n_draft (some start) rest = continuation history (start + n) n_draft

-- The loop over `n`, `rounds` of them downwards.
unfoldable pub lookup_loop : List ℕ → ℕ → ℕ → ℕ → List ℕ
lookup_loop history n_draft zero n = []
lookup_loop history n_draft (suc rounds) n =
    let rest = lookup_loop history n_draft rounds (n - 1) in
    if ltb (length history) (n + 1)
    then rest
    else found_draft history n n_draft (last_occurrence history n (length history - n)) rest

unfoldable pub longest : Config → ℕ
longest cfg = max cfg.max_ngram 1

-- std::clamp.
unfoldable pub shortest : Config → ℕ
shortest cfg = min (max cfg.min_ngram 1) (longest cfg)

unfoldable pub find_draft : Config → List ℕ → ℕ → List ℕ
find_draft cfg history n_draft =
    if n_draft == 0
    then []
    else lookup_loop history n_draft (longest cfg + 1 - shortest cfg) (longest cfg)
