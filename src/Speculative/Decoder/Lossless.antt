-- ===== src/Speculative/Decoder/Lossless.antt =====
-- speculative/speculative_decoder.cpp: with greedy sampling and drafts by lookup, the emission of
-- choices is a run of greedy decoding.
use reame.Base.{
  ℕ, ltb, ◌+◌, ◌&&◌, length-append, lt→ltb, Option, ◌<◌, ◌≡◌, refl, sym, ◌∙◌, ap, inl, inr, Bool,
  true, false, ◌||◌, none, some, List, [], ◌∷◌, ◌++◌, arith, Bool-cases, leb, length,
}
use mathlib.Core.List.{append_assoc, append-nil}
use reame.Llama.{Llama}
use reame.Llama.Kv.{Kv}
use reame.Sampler.{Floats, Random, Sampler}
use reame.Speculative.Verifier.{front}
use reame.Speculative.Decoder.{
  lookup_draft, Rates, Run, Turn, goes, returns, throws, pushed, emit_all, wants_more,
}
use reame.Speculative.Decoder.Progress.{Wanted-cases}
use reame.Speculative.Decoder.Greedy.{
  front-cons, front-one, next_token, AreGreedy, GreedyRun, chosen, GreedyEnd, ends, declined,
  GreedyBreak, callback_broke,
}

-- The last of `ts`, or `t` before them.
abbrev pub last_of : ℕ → List ℕ → ℕ
last_of t [] = t
last_of t (u ∷ us) = last_of u us

pub append-front :
    (h ts : List ℕ) (t : ℕ) → 0 < length ts → h ++ ts ≡ (h ++ front ts) ++ last_of t ts ∷ []
append-front h [] t l = absurd (omega arith)
append-front h (u ∷ []) t l = rw (front-one u, append-nil h) refl
append-front h (u ∷ v ∷ vs) t l = rw (front-cons u v vs) (
    sym (append_assoc h (u ∷ []) (v ∷ vs))
    ∙ append-front (h ++ u ∷ []) (v ∷ vs) u (omega arith)
    ∙ ap (λ hs. hs ++ last_of v vs ∷ []) (append_assoc h (u ∷ []) (front (v ∷ vs))))

module _ {F R W V C : Type 0} (fl : Floats F) (random : Random R F)
    (ranked : List F → ℕ → List ℕ → List ℕ) (rates : Rates) (target : Llama W (List F))
    (drafter : Llama V (List F)) (on_token : C → ℕ → C × Option Bool) (k : Kv target)
    (s : Sampler F R) (max_tokens : ℕ) (c₀ : C) (prompt : List ℕ) where
  -- The budget and the context have room for a token behind `h`.
  abbrev pub has_room : List ℕ → Bool
  has_room h = ltb (length h) (length prompt + max_tokens) && ltb (length h) target.context_length

  abbrev pub IsGreedyRun : List ℕ → C → Type 0
  IsGreedyRun = GreedyRun fl random ranked target k s on_token has_room prompt c₀

  abbrev pub IsGreedyEnd : Run W V F R C → Type 0
  IsGreedyEnd r =
      GreedyEnd fl random ranked target k s on_token has_room prompt c₀ r.history r.client

  abbrev pub IsGreedyBreak : Run W V F R C → Type 0
  IsGreedyBreak r =
      GreedyBreak fl random ranked target k s on_token has_room prompt c₀ r.history r.client

  -- The sampler is the given one, drafts come by lookup, and the history and what the callback owns are
  -- those of greedy decoding.
  pub record Settled (r : Run W V F R C) : Type 0 where
    pub sampler : r.sampler ≡ s
    pub mode : r.decoder.cfg.mode ≡ lookup_draft
    pub greedy : IsGreedyRun r.history r.client
    pub lengths : length r.history ≡ length prompt + r.emitted

  -- The target holds the history but its newest token.
  pub record Synced (r : Run W V F R C) : Type 0 where
    pub held : r.history ≡ k.kv r.target ++ r.cur ∷ []
    pub based : r.base ≡ length (k.kv r.target)

  -- A run that goes on is in step.
  pub record InStep (r : Run W V F R C) : Type 0 where
    pub settled : Settled r
    pub synced :
        wants_more fl random ranked rates target drafter on_token max_tokens r ≡ true → Synced r

  abbrev pub TurnOk : Turn (Run W V F R C) → Type 0
  TurnOk (goes r) = InStep r
  TurnOk (returns r) = IsGreedyEnd r
  TurnOk (throws r) = IsGreedyBreak r

  -- What the loop ends with.
  abbrev pub RunOk : Option (Turn (Run W V F R C)) → Type 0
  RunOk none = Unit
  RunOk (some (goes r)) = ⊥
  RunOk (some (returns r)) = IsGreedyEnd r
  RunOk (some (throws r)) = IsGreedyBreak r

  pub wants_more-room :
      (r : Run W V F R C)
      → Settled r
      → wants_more fl random ranked rates target drafter on_token max_tokens r ≡ has_room r.history
  unfolding wants_more
  wants_more-room r v =
      let same : ltb r.emitted max_tokens ≡ ltb (length r.history) (length prompt + max_tokens) =
        elim (Bool-cases (ltb r.emitted max_tokens)) [
          | inl e ↦
              e
              ∙ sym (
                  lt→ltb (length r.history) (length prompt + max_tokens)
                    (ground (arith, v.lengths)))
          | inr e ↦ elim (Bool-cases (ltb (length r.history) (length prompt + max_tokens))) [
            | inl f ↦ absurd (ground (arith, v.lengths))
            | inr f ↦ e ∙ sym f
          ]
        ] in
      ap (λ x. x && ltb (length r.history) target.context_length) same

  pub pushed-Settled :
      (r : Run W V F R C) (t : ℕ)
      → Settled r
      → has_room r.history ≡ true
      → t ≡ next_token fl random ranked target k s r.history
      → target.is_eog t ≡ false
      → (on_token r.client t).1 ≡ some true
      → Settled (pushed r (on_token r.client t).0 t)
  unfolding pushed
  pushed-Settled r t v room e n wanted = record {
    sampler = v.sampler;
    mode = v.mode;
    greedy = chosen r.history r.client t v.greedy room e n wanted;
    lengths = omega (arith, v.lengths, length-append r.history (t ∷ []));
  }

  -- What the emission of `ts` leaves: an emission to the end appends them all.
  abbrev pub EmitOk : List ℕ → Run W V F R C → Turn (Run W V F R C) → Type 0
  EmitOk ts r (returns r') = IsGreedyEnd r'
  EmitOk ts r (throws r') = IsGreedyBreak r'
  EmitOk ts r (goes r') =
      Settled r'
      × (r'.target ≡ r.target)
      × (r'.base ≡ r.base)
      × (wants_more fl random ranked rates target drafter on_token max_tokens r' ≡ true
          → (r'.history ≡ r.history ++ ts) × (r'.cur ≡ last_of r.cur ts))

  EmitOk-step :
      (t : ℕ) (ts : List ℕ) (r r' : Run W V F R C) (x : Turn (Run W V F R C))
      → r'.history ≡ r.history ++ t ∷ []
      → r'.target ≡ r.target
      → r'.base ≡ r.base
      → r'.cur ≡ t
      → EmitOk ts r' x
      → EmitOk (t ∷ ts) r x
  EmitOk-step t ts r r' (returns r'') h w b c ok = ok
  EmitOk-step t ts r r' (throws r'') h w b c ok = ok
  EmitOk-step t ts r r' (goes r'') h w b c ok = (
    ok.0,
    ok.1 ∙ w,
    ok.2 ∙ b,
    λ more.
        let (history, cur) = ok.3 more in
        (
          history ∙ ap (λ hs. hs ++ ts) h ∙ append_assoc r.history (t ∷ []) ts,
          cur ∙ ap (λ u. last_of u ts) c,
        ),
  )

  pub emit_all-EmitOk :
      (ts : List ℕ) (r : Run W V F R C)
      → Settled r
      → has_room r.history ≡ true
      → AreGreedy fl random ranked target k s r.history ts
      → EmitOk ts r (emit_all fl random ranked rates target drafter on_token max_tokens ts r)
  unfolding emit_all
  emit_all-EmitOk [] r v room g = (v, refl, refl, λ more. (sym (append-nil r.history), refl))
  emit_all-EmitOk (t ∷ ts) r v room g = elim (Bool-cases (target.is_eog t)) [
    | inl e ↦
        rw (e, emit_all) (ends r.history r.client v.greedy room (ap target.is_eog (sym g.0) ∙ e))
    | inr e ↦ elim (Wanted-cases (on_token r.client t).1) [
      | inl broken ↦
          rw (e, emit_all)
            (rw (broken, emit_all) (callback_broke r.history r.client t v.greedy room g.0 e broken))
      | inr (inl unwanted) ↦
          rw (e, emit_all)
            (rw (unwanted, emit_all) (declined r.history r.client t v.greedy room g.0 e unwanted))
      | inr (inr wanted) ↦
          let r' = pushed r (on_token r.client t).0 t in
          let v' = pushed-Settled r t v room g.0 e wanted in
          elim (Bool-cases
            (leb max_tokens r'.emitted || leb target.context_length (length r'.history))) [
              | inl full_up ↦
                  rw (e, emit_all)
                    (rw (wanted, emit_all)
                      (rw (full_up, emit_all)
                        (
                          v',
                          unfold pushed in refl,
                          unfold pushed in refl,
                          λ more. absurd (unfold wants_more in ground arith),
                        )))
              | inr going ↦
                  let more : wants_more fl random ranked rates target drafter on_token max_tokens r'
                      ≡ true =
                    unfold wants_more in ground arith in
                  rw (e, emit_all)
                    (rw (wanted, emit_all)
                      (rw (going, emit_all)
                        (EmitOk-step t ts r r'
                          (emit_all fl random ranked rates target drafter on_token max_tokens ts r')
                          (unfold pushed in refl) (unfold pushed in refl) (unfold pushed in refl)
                          (unfold pushed in refl)
                          (emit_all-EmitOk ts r' v' (sym (wants_more-room r' v') ∙ more)
                            (unfold pushed in g.1)))))
            ]
    ]
  ]
