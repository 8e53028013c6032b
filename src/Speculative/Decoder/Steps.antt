-- ===== src/Speculative/Decoder/Steps.antt =====
-- speculative/speculative_decoder.cpp: a turn with a draft keeps the run in step.
use reame.Base.{
  ℕ, ◌+◌, ◌-◌, ◌^◌, ◌<◌, ◌≡◌, refl, sym, ◌∙◌, ap, subst, inl, inr, Bool, true, false, not, ◌||◌,
  Option, none, some, List, [], ◌∷◌, ◌++◌, arith, Bool-cases, Option-cases, ◌==◌, ltb, length,
  length-append,
}
use mathlib.Core.List.{append_assoc}
use reame.Llama.{Llama}
use reame.Llama.Kv.{Kv}
use reame.Sampler.{Floats, Random, Sampler, is_greedy}
use reame.Sampler.Greedy.{FloatFacts}
use reame.Speculative.Verifier.{
  Verification, verified, checked_rows, front, verify_batch, verify_loop,
}
use reame.Speculative.Decoder.{
  Rates, Decoder, Run, Turn, goes, returns, throws, adapt_draft_length, maybe_auto_disable, counted,
  new_tokens, emit_all, synced, settled, emission, verified_turn, wants_more, one_hots,
}
use reame.Speculative.Decoder.Greedy.{broke, AreGreedy, rows_of, predictions-rows_of}
use reame.Speculative.Decoder.Lossless.{
  last_of, append-front, has_room, Settled, Synced, TurnOk, EmitOk, emit_all-EmitOk,
}
use reame.Speculative.Decoder.Rows.{IsVerified, verify_loop-IsVerified}
use reame.Speculative.Decoder.Verified.{
  SyncOk, HasRead, verification, synced-SyncOk, new_tokens-AreGreedy,
}

adapt_draft_length-mode :
    {V : Type 0} (rates : Rates) (a n : ℕ) (d : Decoder V)
    → (adapt_draft_length rates a n d).cfg ≡ d.cfg
unfolding adapt_draft_length
adapt_draft_length-mode rates a n d = elim (Bool-cases (n == 0)) [
  | inl e ↦ rw e refl
  | inr e ↦ elim (Bool-cases (rates.high a n)) [
    | inl h ↦ rw (e, h) refl
    | inr h ↦ elim (Bool-cases (rates.low a n)) [
      | inl l ↦ rw (e, h, l) refl
      | inr l ↦ rw (e, h, l) refl
    ]
  ]
]

maybe_auto_disable-mode :
    {V : Type 0} (rates : Rates) (d : Decoder V) → (maybe_auto_disable rates d).cfg ≡ d.cfg
unfolding maybe_auto_disable
maybe_auto_disable-mode rates d =
    elim (Bool-cases
      (not d.speculative_active || ltb d.total_draft_tokens d.cfg.disable_after_drafted)) [
        | inl e ↦ rw e refl
        | inr e ↦ elim (Bool-cases (rates.poor d.total_accepted_tokens d.total_draft_tokens)) [
          | inl p ↦ rw (e, p) refl
          | inr p ↦ rw (e, p) refl
        ]
      ]

module _ {F R W V C : Type 0} (fl : Floats F) (random : Random R F)
    (ranked : List F → ℕ → List ℕ → List ℕ) (rates : Rates) (target : Llama W (List F))
    (drafter : Llama V (List F)) (on_token : C → ℕ → C × Option Bool) (k : Kv target)
    (s : Sampler F R) (max_tokens : ℕ) (c₀ : C) (prompt : List ℕ) where
  abbrev room_left : List ℕ → Bool
  room_left = has_room fl random ranked rates target drafter on_token k s max_tokens c₀ prompt

  -- The emission of all of `ts` puts the run in step again.
  settled-TurnOk :
      (n : ℕ) (vr : Verification) (ts : List ℕ) (r r' : Run W V F R C) (x : Turn (Run W V F R C))
      → 0 < length ts
      → r'.history ≡ r.history
      → k.kv r'.target ≡ r.history ++ front ts
      → r'.base ≡ length (k.kv r'.target)
      → EmitOk fl random ranked rates target drafter on_token k s max_tokens c₀ prompt ts r' x
      → TurnOk fl random ranked rates target drafter on_token k s max_tokens c₀ prompt
          (settled fl random ranked rates target drafter on_token n vr x)
  unfolding settled
  settled-TurnOk n vr ts r r' (returns r'') l h held base ok = ok
  settled-TurnOk n vr ts r r' (throws r'') l h held base ok = ok
  settled-TurnOk n vr ts r r' (goes r'') l h held base (v, w, b, ends) = record {
    settled = record {
      sampler = v.sampler;
      mode =
          ap (λ c. c.mode)
            (maybe_auto_disable-mode rates
                (adapt_draft_length rates (length vr.accepted) n r''.decoder)
              ∙ adapt_draft_length-mode rates (length vr.accepted) n r''.decoder)
          ∙ v.mode;
      greedy = v.greedy;
      lengths = v.lengths;
    };
    synced = λ more.
        let (history, cur) = ends (unfold wants_more in more) in
        let now : k.kv r''.target ≡ r.history ++ front ts = ap k.kv w ∙ held in
        record {
          held =
              history
              ∙ ap (λ hs. hs ++ ts) h
              ∙ append-front r.history ts r'.cur l
              ∙ ap (λ hs. hs ++ last_of r'.cur ts ∷ []) (sym now)
              ∙ ap (λ t. k.kv r''.target ++ t ∷ []) (sym cur);
          based = b ∙ base ∙ ap (λ x. length (k.kv x)) (sym w);
        };
  }

  emission-TurnOk :
      (n : ℕ) (vr : Verification) (r : Run W V F R C) (x : Run W V F R C × Bool)
      → 0 < length (new_tokens vr)
      → AreGreedy fl random ranked target k s r.history (new_tokens vr)
      → room_left r.history ≡ true
      → SyncOk fl random ranked rates target drafter on_token k s max_tokens c₀ prompt
          (new_tokens vr)
          r
          x
      → TurnOk fl random ranked rates target drafter on_token k s max_tokens c₀ prompt
          (emission fl random ranked rates target drafter on_token max_tokens n vr x)
  unfolding emission
  emission-TurnOk n vr r (r', false) l g room ok = broke r'.history r'.client ok.greedy
  emission-TurnOk n vr r (r', true) l g room (v, h, c, held, base) =
      settled-TurnOk n vr (new_tokens vr) r r'
        (emit_all fl random ranked rates target drafter on_token max_tokens (new_tokens vr) r') l h
        held base
        (emit_all-EmitOk fl random ranked rates target drafter on_token k s max_tokens c₀ prompt
          (new_tokens vr) r' v (ap room_left h ∙ room)
          (subst (λ hs. AreGreedy fl random ranked target k s hs (new_tokens vr)) (sym h) g))

  new_tokens-filled :
      (h ds accepted : List ℕ) (n : ℕ) (corrected : Option ℕ) (rng : R)
      → 0 < length ds
      → IsVerified fl random ranked target k s h ds [] (rng, some (accepted, corrected))
      → 0
        < length (
            new_tokens (
              verification fl random ranked rates target drafter on_token k s max_tokens c₀ prompt
                accepted n corrected))
  unfolding new_tokens
  new_tokens-filled h ds accepted n none rng l (e, g) = rw e l
  new_tokens-filled h ds accepted n (some t) rng l v =
      omega (arith, length-append accepted (t ∷ []))

  -- The run behind the batch: the target has read `ds` but its last token.
  abbrev Ready : List ℕ → Run W V F R C → Type 0
  Ready = HasRead fl random ranked rates target drafter on_token k s max_tokens c₀ prompt

  checked-TurnOk :
      (ds : List ℕ) (probs : List (List F)) (r : Run W V F R C) (w : W)
      (v : R × Option (List ℕ × Option ℕ))
      → Ready ds (record r { target = w })
      → room_left r.history ≡ true
      → IsVerified fl random ranked target k s r.history ds [] v
      → TurnOk fl random ranked rates target drafter on_token k s max_tokens c₀ prompt (
          verified_turn fl random ranked rates target drafter on_token max_tokens
            (record { tokens = ds; probs = probs })
            r
            (
              w,
              (verified fl random ranked (record { tokens = ds; probs = probs }) v).0,
              (verified fl random ranked (record { tokens = ds; probs = probs }) v).1,
            ))
  unfolding verified_turn verified
  checked-TurnOk ds probs r w (rng, none) h room v = broke r.history r.client h.settled.greedy
  checked-TurnOk ds probs r w (rng, some (accepted, corrected)) h room v =
      let vr =
        verification fl random ranked rates target drafter on_token k s max_tokens c₀ prompt
          accepted (length ds - length accepted) corrected in
      let r' : Run W V F R C = record r {
        target = w;
        accept_rng = rng;
        decoder = counted r.decoder (length ds) vr;
      } in
      let h' : Ready ds r' = record {
        settled = record {
          sampler = h.settled.sampler;
          mode = unfold counted in h.settled.mode;
          greedy = h.settled.greedy;
          lengths = h.settled.lengths;
        };
        read = h.read;
        based = h.based;
        filled = h.filled;
        small = h.small;
      } in
      emission-TurnOk (length ds) vr r'
        (synced fl random ranked rates target drafter on_token r' (length ds) vr)
        (new_tokens-filled r.history ds accepted (length ds - length accepted) corrected rng
          h.filled v)
        (new_tokens-AreGreedy fl random ranked rates target drafter on_token k s max_tokens c₀
          prompt r.history ds accepted (length ds - length accepted) corrected rng v)
        room
        (synced-SyncOk fl random ranked rates target drafter on_token k s max_tokens c₀ prompt r' ds
          accepted (length ds - length accepted) corrected rng h' v)

  pub batch-TurnOk :
      FloatFacts fl random
      → ((h : List ℕ) → 0 < length (k.predict h))
      → is_greedy fl random ranked s ≡ true
      → (n_vocab : ℕ) (d : ℕ) (ds : List ℕ) (r : Run W V F R C)
      → Settled fl random ranked rates target drafter on_token k s max_tokens c₀ prompt r
      → Synced fl random ranked rates target drafter on_token k s max_tokens c₀ prompt r
      → room_left r.history ≡ true
      → length r.history + length (d ∷ ds) < 2 ^ 32
      → TurnOk fl random ranked rates target drafter on_token k s max_tokens c₀ prompt (
          verified_turn fl random ranked rates target drafter on_token max_tokens
            (record { tokens = d ∷ ds; probs = one_hots fl n_vocab (d ∷ ds) })
            r
            (verify_batch fl random ranked target r.target r.cur
              (record { tokens = d ∷ ds; probs = one_hots fl n_vocab (d ∷ ds) })
              r.sampler
              r.accept_rng
              r.history))
  unfolding verify_batch checked_rows verified_turn
  batch-TurnOk facts filled greedy n_vocab d ds r v sync room small =
      let batch = r.cur ∷ front (d ∷ ds) in
      let some_draft : (length (d ∷ ds) == 0) ≡ false = ground arith in
      elim (Option-cases (target.decode_batch r.target batch).1) [
        | inl failed ↦ rw (some_draft, failed) (broke r.history r.client v.greedy)
        | inr (rows, read) ↦
            let (kv, logits) = k.kv-batch r.target batch rows read in
            let now : k.kv (target.decode_batch r.target batch).0 ≡ r.history ++ front (d ∷ ds) =
              kv
              ∙ sym (append_assoc (k.kv r.target) (r.cur ∷ []) (front (d ∷ ds)))
              ∙ ap (λ hs. hs ++ front (d ∷ ds)) (sym sync.held) in
            let expected : rows ≡ rows_of fl random ranked target k s r.history (d ∷ ds) =
              logits
              ∙ predictions-rows_of fl random ranked target k s (k.kv r.target) r.cur d ds
              ∙ ap (λ hs. rows_of fl random ranked target k s hs (d ∷ ds)) (sym sync.held) in
            let outcome : Sampler F R → R × Option (List ℕ × Option ℕ) = λ u.
              verify_loop fl random ranked u r.accept_rng r.history (d ∷ ds)
                (one_hots fl n_vocab (d ∷ ds))
                (rows_of fl random ranked target k s r.history (d ∷ ds)) [] in
            rw (some_draft, read, expected)
              (checked-TurnOk (d ∷ ds) (one_hots fl n_vocab (d ∷ ds)) r
                (target.decode_batch r.target batch).0 (outcome r.sampler)
                (record {
                  settled = record {
                    sampler = v.sampler;
                    mode = v.mode;
                    greedy = v.greedy;
                    lengths = v.lengths;
                  };
                  read = now;
                  based = omega (
                    arith,
                    sync.based,
                    ap length sync.held,
                    length-append (k.kv r.target) (r.cur ∷ []),
                  );
                  filled = omega arith;
                  small = small;
                })
                room
                (subst
                  (λ u. IsVerified fl random ranked target k s r.history (d ∷ ds) [] (outcome u))
                  (sym v.sampler)
                  (verify_loop-IsVerified fl random ranked target k s facts filled greedy n_vocab
                    r.accept_rng r.history (d ∷ ds) [])))
      ]
