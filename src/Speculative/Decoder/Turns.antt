-- ===== src/Speculative/Decoder/Turns.antt =====
-- speculative/speculative_decoder.cpp: each turn of the loop advances, so the loop ends.
use reame.Base.{
  ℕ, zero, suc, ◌+◌, ◌-◌, ◌*◌, ◌≤◌, ◌<◌, ◌≡◌, ◌≢◌, ◌⊎◌, refl, sym, ◌∙◌, subst, inl, inr, Bool, true,
  false, not, ◌&&◌, ◌||◌, Option, none, some, List, [], ◌∷◌, arith, Bool-cases, ltb, leb, ◌==◌,
  if◌then◌else◌, length,
}
use reame.Llama.{Llama}
use reame.Sampler.{Floats, Random, Sampler, sample}
use reame.Corpus.{Corpus}
use reame.Speculative.Verifier.{DraftResult, verify_batch}
use reame.Speculative.Decoder.{
  Mode, model_draft, lookup_draft, Rates, Decoder, Run, Turn, goes, returns, throws, is_model_mode,
  pushed, set_active, set_draft, model_rollout, drafted, drafted_turn, sampled_turn, plain_logits,
  plain_turn, guarded, turn, wants_more, run_loop, n_draft, draft_vocab, in_vocab,
}
use reame.Speculative.Decoder.Stream.{
  unfinished, started, ended, enough_turns, draft_ready, generate_stream,
}
use reame.Speculative.Decoder.Progress.{
  Wanted-cases, one_if-le, turns_left, Advances, Same, verified_turn-Advances,
  verify_batch-GivesNew,
}

abbrev pub Mode-cases : (m : Mode) → (m ≡ model_draft) ⊎ (m ≡ lookup_draft)
Mode-cases model_draft = inl refl
Mode-cases lookup_draft = inr refl

abbrev pub Turn-cases :
    {A : Type 0} (t : Turn A)
    → ((a : A) × t ≡ goes a) ⊎ (((a : A) × t ≡ returns a) ⊎ ((a : A) × t ≡ throws a))
Turn-cases (goes a) = inl (a, refl)
Turn-cases (returns a) = inr (inl (a, refl))
Turn-cases (throws a) = inr (inr (a, refl))

module _ {F R W V C : Type 0} (fl : Floats F) (random : Random R F)
    (ranked : List F → ℕ → List ℕ → List ℕ) (rates : Rates) (target : Llama W (List F))
    (drafter : Llama V (List F)) (on_token : C → ℕ → C × Option Bool) where
  -- A draft leaves the run as it was, but for what the models and the sampler own.
  drafted_turn-Advances :
      (max_tokens : ℕ) (r : Run W V F R C) (x : Run W V F R C × Option (DraftResult F))
      → r.emitted < max_tokens
      → r.lookup_skip ≡ false
      → r.decoder.speculative_active ≡ true
      → Same r (x.0, true)
      → Advances max_tokens
          (turns_left max_tokens r)
          (drafted_turn fl random ranked rates target drafter on_token max_tokens x)
  unfolding drafted_turn set_active
  drafted_turn-Advances max_tokens r (r', none) m k a h = rw (h.0, k, a) (omega arith)
  drafted_turn-Advances max_tokens r (r', some draft) m k a h =
      elim (Bool-cases (length draft.tokens == 0)) [
        | inl empty ↦ elim (Bool-cases (is_model_mode r'.decoder.cfg.mode)) [
          | inl model ↦ rw (empty, model, h.0, k, a) (omega arith)
          | inr lookup ↦ rw (empty, lookup, h.0, h.2, k, a) (omega arith)
        ]
        | inr filled ↦
            elim (Bool-cases (
              not (is_model_mode r'.decoder.cfg.mode || in_vocab target.vocab_size draft.tokens))) [
                | inl out ↦ rw (filled, out) tt
                | inr in_bounds ↦
                    rw (filled, in_bounds, sym h.0, sym h.1, sym h.2)
                      (verified_turn-Advances fl random ranked rates target drafter on_token
                        max_tokens draft r'
                        (verify_batch fl random ranked target r'.target r'.cur draft r'.sampler
                          r'.accept_rng r'.history)
                        (omega (arith, h.0)) (h.1 ∙ k) (h.2 ∙ a)
                        (verify_batch-GivesNew fl random ranked rates target drafter on_token
                          r'.target r'.cur draft r'.sampler r'.accept_rng r'.history))
              ]
      ]

  model_rollout-Same :
      (draft : Option V) (r : Run W V F R C) (n : ℕ)
      → Same r ((model_rollout fl random ranked rates target drafter on_token draft r n).0, true)
  unfolding model_rollout set_draft
  model_rollout-Same none r n = (refl, refl, refl)
  model_rollout-Same (some v) r n = (refl, refl, refl)

  drafted-Same :
      (corpus : Option Corpus) (r : Run W V F R C)
      → Same r ((drafted fl random ranked rates target drafter on_token corpus r).0, true)
  unfolding drafted
  drafted-Same corpus r = elim (Mode-cases r.decoder.cfg.mode) [
    | inl e ↦
        rw (e, drafted)
          (model_rollout-Same r.decoder.draft r
            (n_draft fl random ranked rates target drafter on_token r))
    | inr e ↦ rw (e, drafted) (refl, refl, refl)
  ]

  sampled_turn-Advances :
      (max_tokens : ℕ) (r : Run W V F R C) (o : Option (Sampler F R × ℕ))
      → r.emitted < max_tokens
      → Advances max_tokens
          (2 * (max_tokens - r.emitted))
          (sampled_turn fl random ranked rates target drafter on_token r o)
  unfolding sampled_turn pushed
  sampled_turn-Advances max_tokens r none m = tt
  sampled_turn-Advances max_tokens r (some (s, next)) m = elim (Bool-cases (target.is_eog next)) [
    | inl e ↦ rw (e, sampled_turn) tt
    | inr e ↦ elim (Wanted-cases (on_token r.client next).1) [
      | inl broken ↦ rw (e, sampled_turn) (rw (broken, sampled_turn) tt)
      | inr (inl unwanted) ↦ rw (e, sampled_turn) (rw (unwanted, sampled_turn) tt)
      | inr (inr wanted) ↦
          rw (e, sampled_turn)
            (rw (wanted, sampled_turn)
              (omega (arith, one_if-le r.decoder.speculative_active (not r.lookup_skip))))
    ]
  ]

  plain_logits-Advances :
      (max_tokens : ℕ) (r : Run W V F R C) (x : W × Option (List F))
      → r.emitted < max_tokens
      → Advances max_tokens
          (2 * (max_tokens - r.emitted))
          (plain_logits fl random ranked rates target drafter on_token r x)
  unfolding plain_logits
  plain_logits-Advances max_tokens r (w, none) m = tt
  plain_logits-Advances max_tokens r (w, some logits) m =
      sampled_turn-Advances max_tokens
        (record r { target = w; base = r.base + 1; lookup_skip = false })
        (sample fl random ranked r.sampler logits r.history) m

  Advances-weaken :
      (max_tokens m n : ℕ) (t : Turn (Run W V F R C))
      → m ≤ n
      → Advances max_tokens m t
      → Advances max_tokens n t
  Advances-weaken max_tokens m n (goes r) h a = omega (arith, a)
  Advances-weaken max_tokens m n (returns r) h a = tt
  Advances-weaken max_tokens m n (throws r) h a = tt

  unguarded_turn-Advances :
      (corpus : Option Corpus) (max_tokens n : ℕ) (r : Run W V F R C)
      → r.emitted < max_tokens
      → turns_left max_tokens r ≤ n
      → Advances max_tokens n (
          if r.decoder.speculative_active && not r.lookup_skip
          then drafted_turn fl random ranked rates target drafter on_token max_tokens
              (drafted fl random ranked rates target drafter on_token corpus r)
          else plain_turn fl random ranked rates target drafter on_token r)
  unfolding plain_turn
  unguarded_turn-Advances corpus max_tokens n r m le =
      elim (Bool-cases (r.decoder.speculative_active && not r.lookup_skip)) [
        | inl drafts ↦ rw drafts (
            Advances-weaken max_tokens (turns_left max_tokens r) n
              (drafted_turn fl random ranked rates target drafter on_token max_tokens
                (drafted fl random ranked rates target drafter on_token corpus r))
              le
              (drafted_turn-Advances max_tokens r
                (drafted fl random ranked rates target drafter on_token corpus r) m (ground arith)
                (ground arith) (drafted-Same corpus r)))
        | inr plain ↦ rw plain (
            Advances-weaken max_tokens (2 * (max_tokens - r.emitted)) n
              (plain_logits fl random ranked rates target drafter on_token r
                (target.decode_append r.target (r.cur ∷ [])))
              (omega arith)
              (plain_logits-Advances max_tokens r (target.decode_append r.target (r.cur ∷ [])) m))
      ]

  turn-Advances :
      (corpus : Option Corpus) (max_tokens : ℕ) (r : Run W V F R C)
      → r.emitted < max_tokens
      → Advances max_tokens
          (turns_left max_tokens r)
          (turn fl random ranked rates target drafter on_token corpus max_tokens r)
  unfolding turn guarded set_active
  turn-Advances corpus max_tokens r m =
      elim (Bool-cases (
        r.decoder.speculative_active
        && (is_model_mode r.decoder.cfg.mode
            && leb (draft_vocab fl random ranked rates target drafter on_token r.decoder) r.cur))) [
              | inl outside ↦
                  let r' : Run W V F R C = record r {
                    decoder = record (r.decoder) { speculative_active = false };
                  } in
                  rw outside (
                    unguarded_turn-Advances corpus max_tokens (turns_left max_tokens r) r' m
                      (omega arith))
              | inr inside ↦ rw inside (
                  unguarded_turn-Advances corpus max_tokens (turns_left max_tokens r) r m
                    (omega arith))
            ]

  -- The loop of generate_stream ends, whatever the models, the sampler and the callback do: twice
  -- as many turns as there are tokens left to emit, and two more, are enough.
  pub run_loop_total :
      (corpus : Option Corpus) (max_tokens fuel : ℕ) (r : Run W V F R C)
      → turns_left max_tokens r < fuel
      → (t : Turn (Run W V F R C)) × run_loop fl random ranked rates target drafter on_token corpus
            max_tokens fuel r
          ≡ some t
  unfolding run_loop
  run_loop_total corpus max_tokens zero r h = absurd (omega arith)
  run_loop_total corpus max_tokens (suc fuel) r h =
      elim (Bool-cases (wants_more fl random ranked rates target drafter on_token max_tokens r)) [
        | inr full ↦ rw (full, run_loop) (returns r, refl)
        | inl more ↦
            let advances = turn-Advances corpus max_tokens r (unfold wants_more in ground arith) in
            elim (Turn-cases
              (turn fl random ranked rates target drafter on_token corpus max_tokens r)) [
                | inl (r', e) ↦
                    rw (more, run_loop)
                      (rw (e, run_loop)
                        (run_loop_total corpus max_tokens fuel r' (
                          omega (
                            arith,
                            h,
                            subst (Advances max_tokens (turns_left max_tokens r)) e advances,
                          ))))
                | inr (inl (r', e)) ↦ rw (more, run_loop) (rw (e, run_loop) (returns r', refl))
                | inr (inr (r', e)) ↦ rw (more, run_loop) (rw (e, run_loop) (throws r', refl))
              ]
      ]

  pub started-finishes :
      (corpus : Option Corpus) (max_tokens : ℕ) (r : Run W V F R C) (x : W × Bool)
      → r.emitted ≡ 0
      → started fl random ranked rates target drafter on_token corpus max_tokens r x ≢ unfinished
  unfolding started ended enough_turns
  started-finishes corpus max_tokens r (w, false) h e = cc e
  started-finishes corpus max_tokens r (w, true) h e =
      let r' : Run W V F R C = record r {
        target = w;
        decoder =
            draft_ready fl random ranked rates target drafter on_token r.decoder r.history r.base;
      } in
      let (t, done) =
        run_loop_total corpus max_tokens (2 * max_tokens + 3) r'
          (omega (arith, h, one_if-le r'.decoder.speculative_active (not r'.lookup_skip))) in
      cc (
        subst
          (λ o.
            ended fl random ranked rates target drafter on_token r.decoder.cfg.mode corpus o
            ≡ unfinished)
          done e)

  -- generate_stream ends on every input, with a refusal, a return or an exception, whatever the
  -- models, the samplers and the callback do: it takes at most two turns for each token of the budget
  -- and three more.
  pub generate_stream_ends :
      (d : Decoder V) (corpus : Option Corpus) (w : W) (sampler : Sampler F R) (rng : R)
      (client : C) (max_tokens : ℕ) (prompt : List ℕ) (kv_ready : ℕ)
      → generate_stream fl random ranked rates target drafter on_token d corpus w sampler rng client
          max_tokens prompt kv_ready
        ≢ unfinished
  unfolding generate_stream
  generate_stream_ends d corpus w sampler rng client max_tokens prompt kv_ready =
      elim (Bool-cases (length prompt == 0)) [
        | inl e ↦ rw e (λ h. cc h)
        | inr e ↦ elim (Bool-cases (ltb target.context_length (length prompt))) [
          | inl long ↦ rw (e, long) (λ h. cc h)
          | inr short ↦ elim (Bool-cases (ltb (length prompt - 1) kv_ready)) [
            | inl beyond ↦ rw (e, short, beyond) (λ h. cc h)
            | inr fits ↦ rw (e, short, fits) (started-finishes corpus max_tokens _ _ refl)
          ]
        ]
      ]
