-- ===== src/Speculative/Decoder/Rows.antt =====
-- speculative/batch_verifier.cpp: greedy verification keeps what greedy decoding would choose.
use reame.Base.{
  ltb, ◌&&◌, ℕ, ◌<◌, ◌≡◌, refl, sym, ◌∙◌, ap, inl, inr, true, Option, none, some, List, [], ◌∷◌,
  ◌++◌, arith, Bool-cases, ◌==◌, length,
}
use mathlib.Core.List.{append_assoc, append-nil}
use reame.Llama.{Llama}
use reame.Llama.Kv.{Kv}
use reame.Sampler.{Floats, Random, Sampler, one_hot, is_greedy}
use reame.Sampler.Greedy.{
  FloatFacts, ZeroOne-one_hot, get_or-one_hot_other, accept_token-one_hot, corrected-one_hot,
}
use reame.Sampler.Choice.{distribution-greedy}
use reame.Speculative.Verifier.{verify_loop}
use reame.Speculative.Decoder.{one_hots}
use reame.Speculative.Decoder.Greedy.{next_token, AreGreedy, rows_of}

module _ {F R W : Type 0} (fl : Floats F) (random : Random R F)
    (ranked : List F → ℕ → List ℕ → List ℕ) (target : Llama W (List F)) (k : Kv target)
    (s : Sampler F R) where
  -- What the acceptance loop says of a draft behind `h`: all of its tokens are choices, or those in
  -- front of the first that is not one are, and the corrected token is the choice there.
  abbrev pub IsVerified : List ℕ → List ℕ → List ℕ → R × Option (List ℕ × Option ℕ) → Type 0
  IsVerified h ds before (rng, none) = Unit
  IsVerified h ds before (rng, some (accepted, none)) =
      (accepted ≡ before ++ ds) × AreGreedy fl random ranked target k s h ds
  IsVerified h ds before (rng, some (accepted, some t)) =
      (kept : List ℕ) × (accepted ≡ before ++ kept)
      × (length kept < length ds)
      × ((d : ℕ) × (rest : List ℕ) × ds ≡ kept ++ d ∷ rest)
      × AreGreedy fl random ranked target k s h (kept ++ t ∷ [])

  IsVerified-step :
      (h : List ℕ) (d : ℕ) (ds before : List ℕ) (x : R × Option (List ℕ × Option ℕ))
      → d ≡ next_token fl random ranked target k s h
      → IsVerified (h ++ d ∷ []) ds (before ++ d ∷ []) x
      → IsVerified h (d ∷ ds) before x
  IsVerified-step h d ds before (rng, none) e v = tt
  IsVerified-step h d ds before (rng, some (accepted, none)) e (a, g) =
      (a ∙ append_assoc before (d ∷ []) ds, (e, g))
  IsVerified-step h d ds before (rng, some (accepted, some t)) e (kept, a, l, (c, rest, w), g) = (
    d ∷ kept,
    a ∙ append_assoc before (d ∷ []) kept,
    omega (arith, l),
    (c, rest, ap (λ us. d ∷ us) w),
    (e, g),
  )

  pub verify_loop-IsVerified :
      FloatFacts fl random
      → ((h : List ℕ) → 0 < length (k.predict h))
      → is_greedy fl random ranked s ≡ true
      → (n_vocab : ℕ) (rng : R) (h ds before : List ℕ)
      → IsVerified h ds before (
          verify_loop fl random ranked s rng h ds
            (one_hots fl n_vocab ds)
            (rows_of fl random ranked target k s h ds)
            before)
  unfolding verify_loop one_hots
  verify_loop-IsVerified facts filled g n_vocab rng h [] before = (sym (append-nil before), tt)
  verify_loop-IsVerified facts filled g n_vocab rng h (d ∷ ds) before =
      let a = next_token fl random ranked target k s h in
      let n = length (k.predict h) in
      let (dist, within) = distribution-greedy fl random ranked s (k.predict h) h g (filled h) in
      let judged =
        accept_token-one_hot fl random facts rng n a d (one_hot fl n_vocab d) within
          (ZeroOne-one_hot fl random facts n_vocab d) in
      elim (Bool-cases (ltb d (length (one_hot fl n a)) && ltb d (length (one_hot fl n_vocab d)))) [
        | inr out ↦ rw (dist, verify_loop) (rw (out, verify_loop) tt)
        | inl in_rows ↦ elim (Bool-cases (d == a)) [
          | inl same ↦
              rw (dist, verify_loop)
                (rw (in_rows, verify_loop)
                  (rw (judged ∙ same, verify_loop)
                    (IsVerified-step h d ds before
                      (verify_loop fl random ranked s (random.uniform rng).0 (h ++ d ∷ []) ds
                        (one_hots fl n_vocab ds)
                        (rows_of fl random ranked target k s (h ++ d ∷ []) ds) (before ++ d ∷ []))
                      (ground arith)
                      (verify_loop-IsVerified facts filled g n_vocab (random.uniform rng).0
                        (h ++ d ∷ []) ds (before ++ d ∷ [])))))
          | inr other ↦
              let choice =
                corrected-one_hot fl random facts (random.uniform rng).0 n a (one_hot fl n_vocab d)
                  within (ZeroOne-one_hot fl random facts n_vocab d)
                  (get_or-one_hot_other fl random facts n_vocab d a (ground arith)) in
              rw (dist, verify_loop)
                (rw (in_rows, verify_loop)
                  (rw (judged ∙ other, verify_loop)
                    ([], sym (append-nil before), omega arith, (d, ds, refl), (choice, tt))))
        ]
      ]
