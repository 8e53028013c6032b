-- ===== src/Sampler/Choice.antt =====
-- core/sampler.cpp: what greedy sampling chooses.
use reame.Base.{
  ℕ, suc, ◌+◌, ◌-◌, ◌≤◌, ◌<◌, ◌≡◌, refl, ◌∙◌, subst, inl, inr, true, some, List, [], ◌∷◌, arith,
  Bool-cases, Option-cases, not, ◌&&◌, ltb, length, length-set, get_elem?, drop,
}
use reame.Sampler.{
  Floats, Random, Sampler, penalize_one, penalize, argmax_from, argmax, one_hot, is_greedy,
  penalized, distribution, sample,
}
use reame.Sampler.Greedy.{FloatFacts, argmax-one_hot}

module _ {F R : Type 0} (fl : Floats F) (random : Random R F)
    (ranked : List F → ℕ → List ℕ → List ℕ) where
  length-penalize_one :
      (penalty : F) (logits : List F) (t : ℕ)
      → length (penalize_one fl penalty logits t) ≡ length logits
  unfolding penalize_one
  length-penalize_one penalty logits t = elim (Option-cases (get_elem? logits t)) [
    | inl e ↦ rw (e, penalize_one) refl
    | inr (l, e) ↦ rw (e, penalize_one) (length-set logits t _)
  ]

  length-penalize :
      (penalty : F) (logits : List F) (ts : List ℕ)
      → length (penalize fl penalty logits ts) ≡ length logits
  unfolding penalize
  length-penalize penalty logits [] = refl
  length-penalize penalty logits (t ∷ ts) =
      length-penalize penalty (penalize_one fl penalty logits t) ts
      ∙ length-penalize_one penalty logits t

  pub length-penalized :
      (s : Sampler F R) (logits : List F) (recent : List ℕ)
      → length (penalized fl random ranked s logits recent) ≡ length logits
  unfolding penalized
  length-penalized s logits recent =
      elim (Bool-cases (not (fl.feq s.repeat_penalty fl.fone) && ltb 0 s.repeat_last_n)) [
        | inl e ↦ rw e (
            length-penalize s.repeat_penalty logits (drop (length recent - s.repeat_last_n) recent))
        | inr e ↦ rw e refl
      ]

  argmax_from-within :
      (best : F) (at i n : ℕ) (xs : List F)
      → at < n
      → i + length xs ≤ n
      → argmax_from fl best at i xs < n
  unfolding argmax_from
  argmax_from-within best at i n [] h k = h
  argmax_from-within best at i n (x ∷ xs) h k = elim (Bool-cases (fl.flt best x)) [
    | inl e ↦ rw (e, argmax_from) (argmax_from-within x i (suc i) n xs (omega arith) (omega arith))
    | inr e ↦ rw (e, argmax_from) (argmax_from-within best at (suc i) n xs h (omega arith))
  ]

  argmax-within : (xs : List F) → 0 < length xs → argmax fl xs < length xs
  unfolding argmax
  argmax-within [] h = absurd (omega arith)
  argmax-within (x ∷ xs) h =
      argmax_from-within x 0 1 (length (x ∷ xs)) xs (omega arith) (omega arith)

  -- The token of the largest penalized logit.
  unfoldable pub greedy_choice : Sampler F R → List F → List ℕ → ℕ
  greedy_choice s logits recent = argmax fl (penalized fl random ranked s logits recent)

  greedy_choice-within :
      (s : Sampler F R) (logits : List F) (recent : List ℕ)
      → 0 < length logits
      → greedy_choice s logits recent < length logits
  unfolding greedy_choice
  greedy_choice-within s logits recent h =
      subst (λ n. argmax fl (penalized fl random ranked s logits recent) < n)
        (length-penalized s logits recent)
        (argmax-within (penalized fl random ranked s logits recent)
          (omega (arith, length-penalized s logits recent)))

  -- The greedy distribution has all of its mass on the choice.
  pub distribution-greedy :
      (s : Sampler F R) (logits : List F) (recent : List ℕ)
      → is_greedy fl random ranked s ≡ true
      → 0 < length logits
      → (distribution fl random ranked s logits recent
          ≡ some (one_hot fl (length logits) (greedy_choice s logits recent)))
        × (greedy_choice s logits recent < length logits)
  unfolding distribution greedy_choice
  distribution-greedy s [] recent g h = absurd (omega arith)
  distribution-greedy s (l ∷ ls) recent g h =
      (rw (g, length-penalized s (l ∷ ls) recent) refl, greedy_choice-within s (l ∷ ls) recent h)

  -- Greedy sampling leaves the random generator alone and gives `greedy_choice`, on logits that are
  -- not empty.
  pub sample-greedy :
      FloatFacts fl random
      → (s : Sampler F R) (logits : List F) (recent : List ℕ) → is_greedy fl random ranked s ≡ true
      → 0 < length logits
      → sample fl random ranked s logits recent ≡ some (s, greedy_choice s logits recent)
  unfolding sample
  sample-greedy facts s logits recent g h =
      let (dist, within) = distribution-greedy s logits recent g h in
      rw (dist, sample)
        (rw
          (g, argmax-one_hot fl random facts (length logits) (greedy_choice s logits recent) within)
          refl)
