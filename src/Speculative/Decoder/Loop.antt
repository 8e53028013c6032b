-- ===== src/Speculative/Decoder/Loop.antt =====
-- speculative/speculative_decoder.cpp: each turn of the loop keeps the run in step.
use reame.Base.{
  ℕ, zero, suc, ◌+◌, ◌^◌, ◌≤◌, ◌<◌, ◌≡◌, refl, sym, ◌∙◌, ap, subst, inl, inr, Bool, true, false,
  not, ◌&&◌, ◌||◌, Option, some, List, [], ◌∷◌, ◌++◌, arith, Bool-cases, Option-cases, ◌==◌, length,
  length-append,
}
use reame.Corpus.{Corpus}
use reame.Llama.{Llama}
use reame.Llama.Kv.{Kv}
use reame.Sampler.{Floats, Random, Sampler, is_greedy, sample}
use reame.Sampler.Greedy.{FloatFacts}
use reame.Sampler.Choice.{sample-greedy}
use reame.Speculative.Decoder.{
  lookup_draft, Rates, Run, Turn, is_model_mode, pushed, drafted, drafted_turn, sampled_turn,
  plain_logits, plain_turn, guarded, turn, wants_more, run_loop, n_draft, looked_up, one_hots,
  in_vocab,
}
use reame.Speculative.Decoder.Greedy.{next_token, broke, callback_broke, declined, ends, full}
use reame.Speculative.Decoder.Length.{looked_up-short}
use reame.Speculative.Decoder.Lossless.{
  has_room, wants_more-room, Settled, Synced, InStep, TurnOk, RunOk, pushed-Settled,
}
use reame.Speculative.Decoder.Progress.{Wanted-cases}
use reame.Speculative.Decoder.Steps.{batch-TurnOk}
use reame.Speculative.Decoder.Turns.{Turn-cases}

module _ {F R W V C : Type 0} (fl : Floats F) (random : Random R F)
    (ranked : List F → ℕ → List ℕ → List ℕ) (rates : Rates) (target : Llama W (List F))
    (drafter : Llama V (List F)) (on_token : C → ℕ → C × Option Bool) (k : Kv target)
    (s : Sampler F R) (max_tokens : ℕ) (c₀ : C) (prompt : List ℕ) (facts : FloatFacts fl random)
    (filled : (h : List ℕ) → 0 < length (k.predict h))
    (greedy : is_greedy fl random ranked s ≡ true) where
  abbrev Ok : Turn (Run W V F R C) → Type 0
  Ok = TurnOk fl random ranked rates target drafter on_token k s max_tokens c₀ prompt

  abbrev IsSettled : Run W V F R C → Type 0
  IsSettled = Settled fl random ranked rates target drafter on_token k s max_tokens c₀ prompt

  abbrev IsSynced : Run W V F R C → Type 0
  IsSynced = Synced fl random ranked rates target drafter on_token k s max_tokens c₀ prompt

  abbrev room_left : List ℕ → Bool
  room_left = has_room fl random ranked rates target drafter on_token k s max_tokens c₀ prompt

  looked_up_turn-TurnOk :
      (n_vocab : ℕ) (ds : List ℕ) (r : Run W V F R C)
      → IsSettled r
      → IsSynced r
      → room_left r.history ≡ true
      → length r.history + length ds < 2 ^ 32
      → Ok (
          drafted_turn fl random ranked rates target drafter on_token max_tokens
            (r, some (record { tokens = ds; probs = one_hots fl n_vocab ds })))
  unfolding drafted_turn is_model_mode
  looked_up_turn-TurnOk n_vocab [] r v y room small =
      let lookup : is_model_mode r.decoder.cfg.mode ≡ false = ap is_model_mode v.mode in
      rw lookup (record {
        settled = record {
          sampler = v.sampler;
          mode = v.mode;
          greedy = v.greedy;
          lengths = v.lengths;
        };
        synced = λ more. record { held = y.held; based = y.based };
      })
  looked_up_turn-TurnOk n_vocab (d ∷ ds) r v y room small =
      let some_draft : (length (d ∷ ds) == 0) ≡ false = ground arith in
      elim (Bool-cases
        (not (is_model_mode r.decoder.cfg.mode || in_vocab target.vocab_size (d ∷ ds)))) [
          | inl out ↦ rw (some_draft, out) (broke r.history r.client v.greedy)
          | inr in_bounds ↦
              rw (some_draft, in_bounds)
                (batch-TurnOk fl random ranked rates target drafter on_token k s max_tokens c₀
                  prompt facts filled greedy n_vocab d ds r v y room small)
        ]

  drafted-lookup :
      (corpus : Option Corpus) (r : Run W V F R C)
      → r.decoder.cfg.mode ≡ lookup_draft
      → drafted fl random ranked rates target drafter on_token corpus r ≡ (
        r,
        some (record {
          tokens =
              looked_up fl random ranked rates target drafter on_token r.decoder.cfg corpus
                r.history
                (n_draft fl random ranked rates target drafter on_token r);
          probs = one_hots fl target.vocab_size (
              looked_up fl random ranked rates target drafter on_token r.decoder.cfg corpus
                r.history
                (n_draft fl random ranked rates target drafter on_token r));
        }),
      )
  unfolding drafted
  drafted-lookup corpus r e = rw e refl

  sampled_turn-TurnOk :
      (r : Run W V F R C)
      → IsSettled r
      → room_left r.history ≡ true
      → k.kv r.target ≡ r.history
      → r.base ≡ length r.history
      → Ok (
          sampled_turn fl random ranked rates target drafter on_token r
            (some (s, next_token fl random ranked target k s r.history)))
  unfolding sampled_turn
  sampled_turn-TurnOk r v room held base =
      let next = next_token fl random ranked target k s r.history in
      elim (Bool-cases (target.is_eog next)) [
        | inl e ↦ rw (e, sampled_turn) (ends r.history r.client v.greedy room e)
        | inr e ↦ elim (Wanted-cases (on_token r.client next).1) [
          | inl broken ↦
              rw (e, sampled_turn)
                (rw (broken, sampled_turn)
                  (callback_broke r.history r.client next v.greedy room refl e broken))
          | inr (inl unwanted) ↦
              rw (e, sampled_turn)
                (rw (unwanted, sampled_turn)
                  (declined r.history r.client next v.greedy room refl e unwanted))
          | inr (inr wanted) ↦
              let r' : Run W V F R C = record r { sampler = s } in
              let v' : IsSettled r' = record {
                sampler = refl;
                mode = v.mode;
                greedy = v.greedy;
                lengths = v.lengths;
              } in
              rw (e, sampled_turn)
                (rw (wanted, sampled_turn)
                  (record {
                    settled =
                        pushed-Settled fl random ranked rates target drafter on_token k s max_tokens
                          c₀ prompt r' next v' room refl e wanted;
                    synced = λ more.
                        unfold pushed in
                        record {
                          held = ap (λ hs. hs ++ next ∷ []) (sym held);
                          based = base ∙ ap length (sym held);
                        };
                  }))
        ]
      ]

  plain_turn-TurnOk :
      (r : Run W V F R C)
      → IsSettled r
      → IsSynced r
      → room_left r.history ≡ true
      → Ok (plain_turn fl random ranked rates target drafter on_token r)
  unfolding plain_turn plain_logits
  plain_turn-TurnOk r v y room =
      elim (Option-cases (target.decode_append r.target (r.cur ∷ [])).1) [
        | inl failed ↦ rw failed (broke r.history r.client v.greedy)
        | inr (logits, read) ↦
            let (kv, predicted) = k.kv-append r.target (r.cur ∷ []) logits read in
            let w = (target.decode_append r.target (r.cur ∷ [])).0 in
            let r' : Run W V F R C = record r {
              target = w;
              base = r.base + 1;
              lookup_skip = false;
            } in
            let here : logits ≡ k.predict r.history = predicted ∙ ap k.predict (sym y.held) in
            let choice =
              ap (λ u. sample fl random ranked u logits r.history) v.sampler
              ∙ ap (λ l. sample fl random ranked s l r.history) here
              ∙ sample-greedy fl random ranked facts s (k.predict r.history) r.history greedy
                  (filled r.history) in
            rw (read, choice)
              (sampled_turn-TurnOk r'
                (record {
                  sampler = v.sampler;
                  mode = v.mode;
                  greedy = v.greedy;
                  lengths = v.lengths;
                })
                room (kv ∙ sym y.held)
                (omega
                  (arith, y.based, ap length y.held, length-append (k.kv r.target) (r.cur ∷ []))))
      ]

  guarded-lookup :
      (r : Run W V F R C)
      → r.decoder.cfg.mode ≡ lookup_draft
      → guarded fl random ranked rates target drafter on_token r ≡ r
  unfolding guarded is_model_mode
  guarded-lookup r e =
      let lookup : is_model_mode r.decoder.cfg.mode ≡ false = ap is_model_mode e in
      elim (Bool-cases r.decoder.speculative_active) [
        | inl a ↦ rw (a, lookup) refl
        | inr a ↦ rw a refl
      ]

  n_draft-fits :
      target.context_length < 2 ^ 32
      → (n : ℕ) (r : Run W V F R C)
      → wants_more fl random ranked rates target drafter on_token max_tokens r ≡ true
      → n ≤ n_draft fl random ranked rates target drafter on_token r
      → length r.history + n < 2 ^ 32
  unfolding n_draft wants_more
  n_draft-fits narrow n r more h =
      let inside : length r.history < target.context_length = ground arith in
      omega (arith, narrow, h, inside)

  room_for :
      (r : Run W V F R C)
      → wants_more fl random ranked rates target drafter on_token max_tokens r ≡ true
      → InStep fl random ranked rates target drafter on_token k s max_tokens c₀ prompt r
      → room_left r.history ≡ true
  room_for r more i =
      sym (
        wants_more-room fl random ranked rates target drafter on_token k s max_tokens c₀ prompt r
          i.settled)
      ∙ more

  turn-TurnOk :
      target.context_length < 2 ^ 32
      → (corpus : Option Corpus) (r : Run W V F R C)
      → wants_more fl random ranked rates target drafter on_token max_tokens r ≡ true
      → InStep fl random ranked rates target drafter on_token k s max_tokens c₀ prompt r
      → Ok (turn fl random ranked rates target drafter on_token corpus max_tokens r)
  unfolding turn
  turn-TurnOk narrow corpus r more i =
      elim (Bool-cases (r.decoder.speculative_active && not r.lookup_skip)) [
        | inl e ↦
            rw (guarded-lookup r i.settled.mode, e, drafted-lookup corpus r i.settled.mode)
              (looked_up_turn-TurnOk target.vocab_size
                (looked_up fl random ranked rates target drafter on_token r.decoder.cfg corpus
                  r.history (n_draft fl random ranked rates target drafter on_token r))
                r i.settled (i.synced more) (room_for r more i)
                (n_draft-fits narrow _ r more (
                  looked_up-short fl random ranked rates target drafter on_token r.decoder.cfg
                    corpus r.history (n_draft fl random ranked rates target drafter on_token r))))
        | inr e ↦
            rw (guarded-lookup r i.settled.mode, e)
              (plain_turn-TurnOk r i.settled (i.synced more) (room_for r more i))
      ]

  pub run_loop-RunOk :
      target.context_length < 2 ^ 32
      → (corpus : Option Corpus) (fuel : ℕ) (r : Run W V F R C)
      → InStep fl random ranked rates target drafter on_token k s max_tokens c₀ prompt r
      → RunOk fl random ranked rates target drafter on_token k s max_tokens c₀ prompt
          (run_loop fl random ranked rates target drafter on_token corpus max_tokens fuel r)
  unfolding run_loop
  run_loop-RunOk narrow corpus zero r i = tt
  run_loop-RunOk narrow corpus (suc fuel) r i =
      elim (Bool-cases (wants_more fl random ranked rates target drafter on_token max_tokens r)) [
        | inr enough ↦
            rw (enough, run_loop)
              (full r.history r.client i.settled.greedy (
                sym (
                  wants_more-room fl random ranked rates target drafter on_token k s max_tokens c₀
                    prompt r i.settled)
                ∙ enough))
        | inl more ↦
            let ok = turn-TurnOk narrow corpus r more i in
            elim (Turn-cases
              (turn fl random ranked rates target drafter on_token corpus max_tokens r)) [
                | inl (r', e) ↦
                    rw (more, run_loop)
                      (rw (e, run_loop) (run_loop-RunOk narrow corpus fuel r' (subst Ok e ok)))
                | inr (inl (r', e)) ↦ rw (more, run_loop) (rw (e, run_loop) (subst Ok e ok))
                | inr (inr (r', e)) ↦ rw (more, run_loop) (rw (e, run_loop) (subst Ok e ok))
              ]
      ]
