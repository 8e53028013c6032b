-- ===== src/Engine/Loop.antt =====
-- core/engine.cpp: the generation loop emits greedy choices.
use reame.Base.{
  ◌⊎◌, ◌≤◌, ◌+◌, ltb, ◌&&◌, some, ℕ, zero, suc, ◌<◌, ◌≡◌, refl, ◌∙◌, ap, inl, inr, Bool, true, ◌||◌,
  Option, List, [], ◌∷◌, ◌++◌, arith, Bool-cases, Option-cases, ◌==◌, leb, length, length-append,
  Bytes,
}
use reame.Llama.{Llama}
use reame.Llama.Kv.{Kv}
use reame.Sampler.{Floats, Random, Sampler, is_greedy}
use reame.Sampler.Greedy.{FloatFacts}
use reame.Sampler.Choice.{sample-greedy}
use reame.Cache.Store.{Files}
use reame.Cache.Manager.{Zstd}
use reame.Engine.{Produced, stopped, broken, produce}
use reame.Speculative.Decoder.Greedy.{
  next_token, GreedyRun, chosen, GreedyEnd, full, ends, declined,
}

module _ {D W F R C : Type 0} (f : Files D) (zstd : Option Zstd) (b : Llama W (List F))
    (fl : Floats F) (random : Random R F) (ranked : List F → ℕ → List ℕ → List ℕ)
    (callback : C → Bytes → C × Bool) (k : Kv b) (s : Sampler F R) (max_tokens : ℕ) (c₀ : C)
    (prompt : List ℕ) where
  -- The callback is told of the text of a token.
  abbrev pub on_token : C → ℕ → C × Option Bool
  on_token c t = ((callback c (b.token_piece t)).0, some (callback c (b.token_piece t)).1)

  -- The budget and the context have room for a token behind `h`; behind the prompt the context is not
  -- asked.
  abbrev pub has_room : List ℕ → Bool
  has_room h =
      ltb (length h) (length prompt + max_tokens)
      && (ltb (length h) b.context_length || (length h == length prompt))

  abbrev pub IsRun : List ℕ → C → Type 0
  IsRun = GreedyRun fl random ranked b k s on_token has_room prompt c₀

  abbrev pub IsEnd : List ℕ → C → Type 0
  IsEnd = GreedyEnd fl random ranked b k s on_token has_room prompt c₀

  -- The tokens are those of the KV, if these are as many.
  abbrev pub Mirrors : W → List ℕ → Type 0
  Mirrors w tokens = length (k.kv w) ≡ length tokens → k.kv w ≡ tokens

  abbrev pub LoopOk : Produced W C → Type 0
  LoopOk (broken c) = (h : List ℕ) × IsRun h c
  LoopOk (stopped w c tokens) = IsEnd tokens c × Mirrors w tokens

  pub produce-LoopOk :
      FloatFacts fl random
      → ((h : List ℕ) → 0 < length (k.predict h))
      → is_greedy fl random ranked s ≡ true
      → (rounds : ℕ) (w : W) (c : C) (tokens : List ℕ) → IsRun tokens c
      → k.kv w ≡ tokens
      → length tokens + rounds ≡ length prompt + max_tokens
      → length prompt ≤ length tokens
      → ((length tokens < b.context_length) ⊎ (length tokens ≡ length prompt))
      → LoopOk (produce f zstd b fl random ranked callback rounds w s c tokens (k.predict tokens))
  unfolding produce
  produce-LoopOk facts filled greedy zero w c tokens run held spent more inside =
      (full tokens c run (ground arith), λ same. held)
  produce-LoopOk facts filled greedy (suc rounds) w c tokens run held left more inside =
      let room : has_room tokens ≡ true = ground arith in
      let next = next_token fl random ranked b k s tokens in
      let longer = tokens ++ next ∷ [] in
      let choice =
        sample-greedy fl random ranked facts s (k.predict tokens) tokens greedy (filled tokens) in
      elim (Bool-cases (b.is_eog next)) [
        | inl e ↦ rw (choice, produce) (rw (e, produce) (ends tokens c run room e, λ same. held))
        | inr e ↦
            let c' = (callback c (b.token_piece next)).0 in
            let grown : length longer ≡ suc (length tokens) =
              omega (arith, length-append tokens (next ∷ [])) in
            elim (Bool-cases (callback c (b.token_piece next)).1) [
              | inr no_more ↦
                  rw (choice, produce)
                    (rw (e, produce)
                      (rw (no_more, produce)
                        (declined tokens c next run room refl e (ap some no_more), λ same. held)))
              | inl wanted ↦
                  let run' : IsRun longer c' =
                    chosen tokens c next run room refl e (ap some wanted) in
                  elim (Bool-cases (leb b.context_length (length longer) || (rounds == 0))) [
                    | inl full_up ↦
                        rw (choice, produce)
                          (rw (e, produce)
                            (rw (wanted, produce)
                              (rw (full_up, produce)
                                (
                                  full longer c' run' (ground (arith, grown, left)),
                                  λ same. absurd (
                                      omega (
                                        arith,
                                        same,
                                        ap length held,
                                        length-append tokens (next ∷ []),
                                      )),
                                ))))
                    | inr room ↦ elim (Option-cases (b.decode_append w (next ∷ [])).1) [
                      | inl failed ↦
                          rw (choice, produce)
                            (rw (e, produce)
                              (rw (wanted, produce)
                                (rw (room, produce) (rw (failed, produce) (longer, run')))))
                      | inr (logits, read) ↦
                          let (kv, predicted) = k.kv-append w (next ∷ []) logits read in
                          let held' : k.kv (b.decode_append w (next ∷ [])).0 ≡ longer =
                            kv ∙ ap (λ ts. ts ++ next ∷ []) held in
                          let after = predicted ∙ ap (λ ts. k.predict (ts ++ next ∷ [])) held in
                          rw (choice, produce)
                            (rw (e, produce)
                              (rw (wanted, produce)
                                (rw (room, produce)
                                  (rw (read, produce)
                                    (rw after (
                                      produce-LoopOk facts filled greedy rounds
                                        (b.decode_append w (next ∷ [])).0 c' longer run' held'
                                        (omega (arith, grown, left)) (omega (arith, grown, more))
                                        (inl (ground (arith, grown)))))))))
                    ]
                  ]
            ]
      ]
