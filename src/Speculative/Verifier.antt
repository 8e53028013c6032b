-- ===== src/Speculative/Verifier.antt =====
-- speculative/draft_generator.cpp and speculative/batch_verifier.cpp: the rollout of the draft model,
-- and the check of a draft by one batched pass of the target.
use reame.Base.{
  ◌&&◌, ℕ, zero, suc, ◌-◌, ltb, true, false, Option, none, some, List, [], ◌∷◌, ◌++◌, ◌==◌,
  if◌then◌else◌, length, take, get_or,
}
use reame.Llama.{Llama}
use reame.Sampler.{Floats, Random, Sampler, distribution, draw, pick}
use reame.Speculative.Acceptance.{accept_token, residual_distribution}

pub record DraftResult (F : Type 0) : Type 0 where
  pub tokens : List ℕ
  pub probs : List (List F)

-- `corrected` is `corrected_token`, if `has_correction`.
pub record Verification : Type 0 where
  pub accepted : List ℕ
  pub rejected_count : ℕ
  pub corrected : Option ℕ

-- All tokens but the last.
unfoldable pub front : List ℕ → List ℕ
front ts = take (length ts - 1) ts

module _ {F R : Type 0} (fl : Floats F) (random : Random R F)
    (ranked : List F → ℕ → List ℕ → List ℕ) where
  -- One token of the rollout, and the sampler behind it.
  unfoldable pub draft_token :
      Sampler F R → Option (List F) → List ℕ → Option (Sampler F R × List F × ℕ)
  draft_token s none history = none
  draft_token s (some logits) history = elim (distribution fl random ranked s logits history) [
    | none ↦ none
    | some probs ↦ elim (draw fl random ranked s probs) [
      | none ↦ none
      | some (s', next) ↦ some (s', probs, next)
    ]
  ]

  -- The loop of `generate_draft`, `rounds` times at most. `none` is an exception; what the backend
  -- and the sampler did before stays done.
  unfoldable pub rollout :
      {V : Type 0}
      → Llama V (List F)
      → ℕ
      → V
      → Sampler F R
      → ℕ
      → List ℕ
      → DraftResult F
      → V × Sampler F R × Option (DraftResult F)
  rollout b zero v s cur history out = (v, s, some out)
  rollout b (suc rounds) v s cur history out =
      let (v', logits) = b.decode_append v (cur ∷ []) in
      elim (draft_token s logits history) [
        | none ↦ (v', s, none)
        | some (s', probs, next) ↦
            let out' : DraftResult F = record {
              tokens = out.tokens ++ next ∷ [];
              probs = out.probs ++ probs ∷ [];
            } in
            elim (next == b.eos_token) [
              | true ↦ (v', s', some out')
              | false ↦ rollout b rounds v' s' next (history ++ next ∷ []) out'
            ]
      ]

  -- `n_tokens` overrides the configured length when it is above 0.
  unfoldable pub generate_draft :
      {V : Type 0}
      → Llama V (List F)
      → ℕ
      → V
      → Sampler F R
      → ℕ
      → List ℕ
      → ℕ
      → V × Sampler F R × Option (DraftResult F)
  generate_draft b draft_tokens v s last_token recent n_tokens =
      rollout b (if ltb 0 n_tokens then n_tokens else draft_tokens) v s last_token recent
        (record { tokens = []; probs = [] })

  -- The acceptance loop; `none` is an exception, or an access out of bounds: a row of logits or of
  -- draft probabilities that is not there, or a drafted token beyond its row.
  unfoldable pub verify_loop :
      Sampler F R
      → R
      → List ℕ
      → List ℕ
      → List (List F)
      → List (List F)
      → List ℕ
      → R × Option (List ℕ × Option ℕ)
  verify_loop s rng history [] probs logits accepted = (rng, some (accepted, none))
  verify_loop s rng history (d ∷ ds) [] logits accepted = (rng, none)
  verify_loop s rng history (d ∷ ds) (q ∷ qs) [] accepted = (rng, none)
  verify_loop s rng history (d ∷ ds) (q ∷ qs) (l ∷ ls) accepted =
      elim (distribution fl random ranked s l history) [
        | none ↦ (rng, none)
        | some target ↦ elim (ltb d (length target) && ltb d (length q)) [
          | false ↦ (rng, none)
          | true ↦
              let (rng', r) = random.uniform rng in
              elim (accept_token fl (get_or target d fl.fzero) (get_or q d fl.fzero) r) [
                | true ↦ verify_loop s rng' (history ++ d ∷ []) ds qs ls (accepted ++ d ∷ [])
                | false ↦
                    let (rng'', r') = random.uniform rng' in
                    (
                      rng'',
                      some (accepted, some (pick fl r' 0 0 (residual_distribution fl target q))),
                    )
              ]
        ]
      ]

  unfoldable pub verified : DraftResult F → R × Option (List ℕ × Option ℕ) → R × Option Verification
  verified draft (rng, none) = (rng, none)
  verified draft (rng, some (accepted, corrected)) = (
    rng,
    some (record {
      accepted = accepted;
      rejected_count = length draft.tokens - length accepted;
      corrected = corrected;
    }),
  )

  unfoldable pub checked_rows :
      {W : Type 0}
      → W × Option (List (List F))
      → R
      → DraftResult F
      → Sampler F R
      → List ℕ
      → W × R × Option Verification
  checked_rows (w, none) rng draft s recent = (w, rng, none)
  checked_rows (w, some rows) rng draft s recent =
      let (rng', vr) = verified draft (verify_loop s rng recent draft.tokens draft.probs rows []) in
      (w, rng', vr)

  unfoldable pub verify_batch :
      {W : Type 0}
      → Llama W (List F)
      → W
      → ℕ
      → DraftResult F
      → Sampler F R
      → R
      → List ℕ
      → W × R × Option Verification
  verify_batch b w last_token draft s rng recent =
      if length draft.tokens == 0
      then (w, rng, none)
      else checked_rows (b.decode_batch w (last_token ∷ front draft.tokens)) rng draft s recent
