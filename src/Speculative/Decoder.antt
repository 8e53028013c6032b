-- ===== src/Speculative/Decoder.antt =====
-- speculative/speculative_decoder.cpp: draft, verification in one batch, and plain decoding.
-- Lengths are not negative here. The clocks are left out, and so are the speeds of the metrics. The
-- doubles of the acceptance rate are the argument `Rates`. `C` is what the token callback owns.
pub mod Stream
pub mod Progress
pub mod Turns
pub mod Greedy
pub mod Rows
pub mod Lossless
pub mod Length
pub mod Verified
pub mod Steps
pub mod Loop
pub mod Prefilled
use reame.Base.{
  ℕ, zero, suc, ◌+◌, ◌-◌, ◌*◌, min, max, Bool, true, false, not, ◌&&◌, ◌||◌, Option, none, some,
  List, [], ◌∷◌, ◌++◌, ltb, leb, ◌==◌, if◌then◌else◌, length, get_or, take, drop, u32, u64, Bytes,
}
use reame.Llama.{Llama}
use reame.Sampler.{Floats, Random, Sampler, sample, one_hot}
use reame.Corpus.{Corpus}
use reame.Corpus
use reame.Speculative.PromptLookup.{find_draft}
use reame.Speculative.PromptLookup
use reame.Speculative.FormDraft.{propose}
use reame.Speculative.Verifier.{DraftResult, Verification, generate_draft, verify_batch}

pub data Mode : Type 0 where
  model_draft lookup_draft : Mode

pub record Config : Type 0 where
  pub mode : Mode
  pub draft_tokens : ℕ
  pub min_draft_tokens : ℕ
  pub max_draft_tokens : ℕ
  pub lookup_max_ngram : ℕ
  pub lookup_min_ngram : ℕ
  pub use_speculative : Bool
  pub disable_after_drafted : ℕ

-- `rate >= 0.9`, `rate <= 0.4` and the acceptance rate below `disable_below_acceptance`, of what
-- was accepted and what was drafted.
pub record Rates : Type 0 where
  pub high : ℕ → ℕ → Bool
  pub low : ℕ → ℕ → Bool
  pub poor : ℕ → ℕ → Bool

-- The fields of SpeculativeDecoder, and what the draft backend owns.
pub record Decoder (V : Type 0) : Type 0 where
  pub cfg : Config
  pub draft : Option V
  pub current_draft_tokens : ℕ
  pub speculative_active : Bool
  pub total_draft_tokens : ℕ
  pub total_accepted_tokens : ℕ
  pub total_rejected_tokens : ℕ
  pub generated_tokens : ℕ

-- The variables of `generate_stream`, with what the target, the samplers and the callback own.
pub record Run (W V F R C : Type 0) : Type 0 where
  pub target : W
  pub decoder : Decoder V
  pub sampler : Sampler F R
  pub accept_rng : R
  pub client : C
  pub history : List ℕ
  pub cur : ℕ
  pub base : ℕ
  pub emitted : ℕ
  pub lookup_skip : Bool

-- How a turn of the loop ends: the next turn, a return, or an exception. An access out of bounds,
-- behind which C++ defines nothing, is taken for an exception.
pub data Turn (A : Type 0) : Type 0 where
  goes returns throws : A → Turn A

abbrev pub turned : {A : Type 0} → Turn A → A
turned (goes a) = a
turned (returns a) = a
turned (throws a) = a

-- std::clamp.
unfoldable pub clamp : ℕ → ℕ → ℕ → ℕ
clamp v lo hi = if ltb v lo then lo else if ltb hi v then hi else v

unfoldable pub has_draft : {V : Type 0} → Option V → Bool
has_draft none = false
has_draft (some v) = true

unfoldable pub is_model_mode : Mode → Bool
is_model_mode model_draft = true
is_model_mode lookup_draft = false

unfoldable pub adapt_draft_length : {V : Type 0} → Rates → ℕ → ℕ → Decoder V → Decoder V
adapt_draft_length rates accepted drafted d =
    if drafted == 0
    then d
    else if rates.high accepted drafted
    then record d { current_draft_tokens = min (d.current_draft_tokens + 2) d.cfg.max_draft_tokens }
    else if rates.low accepted drafted
    then record d { current_draft_tokens = max (d.current_draft_tokens - 2) d.cfg.min_draft_tokens }
    else d

unfoldable pub maybe_auto_disable : {V : Type 0} → Rates → Decoder V → Decoder V
maybe_auto_disable rates d =
    if not d.speculative_active || ltb d.total_draft_tokens d.cfg.disable_after_drafted
    then d
    else if rates.poor d.total_accepted_tokens d.total_draft_tokens
    then record d { speculative_active = false }
    else d

unfoldable pub counted : {V : Type 0} → Decoder V → ℕ → Verification → Decoder V
counted d drafted vr = record d {
  total_draft_tokens = u64 (d.total_draft_tokens + drafted);
  total_accepted_tokens = u64 (d.total_accepted_tokens + length vr.accepted);
  total_rejected_tokens = u64 (d.total_rejected_tokens + vr.rejected_count);
}

-- `new_tokens`.
unfoldable pub new_tokens : Verification → List ℕ
new_tokens vr = elim vr.corrected [ none ↦ vr.accepted | some t ↦ vr.accepted ++ t ∷ [] ]

-- Whether `one_hot[t]` is in bounds for every token of a draft.
unfoldable pub in_vocab : ℕ → List ℕ → Bool
in_vocab n_vocab [] = true
in_vocab n_vocab (t ∷ ts) = ltb t n_vocab && in_vocab n_vocab ts

unfoldable pub one_hots : {F : Type 0} → Floats F → ℕ → List ℕ → List (List F)
one_hots fl n_vocab [] = []
one_hots fl n_vocab (t ∷ ts) = one_hot fl n_vocab t ∷ one_hots fl n_vocab ts

-- A token joins the history.
unfoldable pub pushed : {W V F R C : Type 0} → Run W V F R C → C → ℕ → Run W V F R C
pushed r client t = record r {
  client = client;
  history = r.history ++ t ∷ [];
  emitted = r.emitted + 1;
  decoder = record (r.decoder) { generated_tokens = u64 (r.decoder.generated_tokens + 1) };
  cur = t;
}

module _ {F R W V C : Type 0} (fl : Floats F) (random : Random R F)
    (ranked : List F → ℕ → List ℕ → List ℕ) (rates : Rates) (target : Llama W (List F))
    (drafter : Llama V (List F)) (on_token : C → ℕ → C × Option Bool) where
  -- The constructor; `none` is the EngineError on vocabularies more than 128 apart.
  unfoldable pub construct : Config → Option V → Option (Decoder V)
  construct cfg draft =
      if has_draft draft
        && ltb 128
            (max drafter.vocab_size target.vocab_size - min drafter.vocab_size target.vocab_size)
      then none
      else some (record {
        cfg = cfg;
        draft = draft;
        current_draft_tokens = clamp cfg.draft_tokens cfg.min_draft_tokens cfg.max_draft_tokens;
        speculative_active =
            cfg.use_speculative && (not (is_model_mode cfg.mode) || has_draft draft);
        total_draft_tokens = 0;
        total_accepted_tokens = 0;
        total_rejected_tokens = 0;
        generated_tokens = 0;
      })

  unfoldable pub corpus_draft : Option Corpus → List ℕ → ℕ → List ℕ
  corpus_draft none history n = []
  corpus_draft (some corpus) history n = Corpus.draft corpus history n

  unfoldable pub form_draft : List ℕ → ℕ → List ℕ
  form_draft history n =
      let proposal =
        propose (target.detokenize (drop (length history - min (length history) 48) history)) in
      take n (if length proposal == 0 then [] else target.tokenize proposal false)

  -- The sources without a model, in their order.
  unfoldable pub looked_up : Config → Option Corpus → List ℕ → ℕ → List ℕ
  looked_up cfg corpus history n =
      let found : List ℕ =
        find_draft (record { max_ngram = cfg.lookup_max_ngram; min_ngram = cfg.lookup_min_ngram })
          history n in
      let archived = corpus_draft corpus history n in
      if not (length found == 0)
      then found
      else if not (length archived == 0)
      then archived
      else form_draft history n

  unfoldable pub set_active : Run W V F R C → Bool → Run W V F R C
  set_active r active = record r { decoder = record (r.decoder) { speculative_active = active } }

  unfoldable pub set_draft : Run W V F R C → V → Sampler F R → Run W V F R C
  set_draft r v s = record r { decoder = record (r.decoder) { draft = some v }; sampler = s }

  -- The rollout of the draft model, or of the target where there is no draft model.
  unfoldable pub model_rollout :
      Option V → Run W V F R C → ℕ → Run W V F R C × Option (DraftResult F)
  model_rollout (some v) r n =
      let (v', s, out) =
        generate_draft fl random ranked drafter r.decoder.cfg.draft_tokens v r.sampler r.cur
          r.history n in
      (set_draft r v' s, out)
  model_rollout none r n =
      let (w, s, out) =
        generate_draft fl random ranked target r.decoder.cfg.draft_tokens r.target r.sampler r.cur
          r.history n in
      (record r { target = w; sampler = s }, out)

  unfoldable pub n_draft : Run W V F R C → ℕ
  n_draft r = min r.decoder.current_draft_tokens (target.context_length - length r.history)

  -- `none` is an exception of the draft model.
  unfoldable pub drafted : Option Corpus → Run W V F R C → Run W V F R C × Option (DraftResult F)
  drafted corpus r = elim r.decoder.cfg.mode [
    | model_draft ↦ model_rollout r.decoder.draft r (n_draft r)
    | lookup_draft ↦
        let tokens = looked_up r.decoder.cfg corpus r.history (n_draft r) in
        (r, some (record { tokens = tokens; probs = one_hots fl target.vocab_size tokens }))
  ]

  -- The loop of the emission: to its end, a return from `generate_stream`, or an exception of the
  -- callback, which is the `none` of `on_token`.
  unfoldable pub emit_all : ℕ → List ℕ → Run W V F R C → Turn (Run W V F R C)
  emit_all max_tokens [] r = goes r
  emit_all max_tokens (t ∷ ts) r = elim (target.is_eog t) [
    | true ↦ returns r
    | false ↦
        let (client, wanted) = on_token r.client t in
        elim wanted [
          | none ↦ throws (record r { client = client })
          | some more ↦ elim more [
            | false ↦ returns (record r { client = client })
            | true ↦
                let r' = pushed r client t in
                elim (leb max_tokens r'.emitted || leb target.context_length (length r'.history)) [
                  | true ↦ goes r'
                  | false ↦ emit_all max_tokens ts r'
                ]
          ]
        ]
  ]

  unfoldable pub truncate_draft : ℕ → Option V → Option V × Bool
  truncate_draft keep none = (none, true)
  truncate_draft keep (some v) = let (v', ok) = drafter.truncate_to v keep in (some v', ok)

  -- Both models back to `keep` positions; the draft model in its mode only.
  unfoldable pub rolled_back : ℕ → Run W V F R C → Run W V F R C × Bool
  rolled_back keep r =
      let (w, ok) = target.truncate_to r.target keep in
      let (draft, ok') = truncate_draft keep r.decoder.draft in
      let r' : Run W V F R C = record r { target = w; base = keep } in
      if not ok
      then (record r { target = w }, false)
      else if is_model_mode r.decoder.cfg.mode
      then (record r' { decoder = record (r.decoder) { draft = draft } }, ok')
      else (r', true)

  -- The KV sync; `false` is an exception.
  unfoldable pub synced : Run W V F R C → ℕ → Verification → Run W V F R C × Bool
  synced r n vr = elim vr.corrected [
    | none ↦ (record r { base = r.base + n }, true)
    | some t ↦ rolled_back (u32 (r.base + 1 + length vr.accepted)) r
  ]

  unfoldable pub settled : ℕ → Verification → Turn (Run W V F R C) → Turn (Run W V F R C)
  settled n vr (returns r) = returns r
  settled n vr (throws r) = throws r
  settled n vr (goes r) = goes (record r {
    decoder = maybe_auto_disable rates (adapt_draft_length rates (length vr.accepted) n r.decoder);
  })

  unfoldable pub emission : ℕ → ℕ → Verification → Run W V F R C × Bool → Turn (Run W V F R C)
  emission max_tokens n vr (r, false) = throws r
  emission max_tokens n vr (r, true) = settled n vr (emit_all max_tokens (new_tokens vr) r)

  unfoldable pub verified_turn :
      ℕ → DraftResult F → Run W V F R C → W × R × Option Verification → Turn (Run W V F R C)
  verified_turn max_tokens draft r (w, rng, none) =
      throws (record r { target = w; accept_rng = rng })
  verified_turn max_tokens draft r (w, rng, some vr) =
      let n = length draft.tokens in
      emission max_tokens n vr
        (synced (record r { target = w; accept_rng = rng; decoder = counted r.decoder n vr }) n vr)

  -- A draft that throws turns the speculation off; one that is empty does so in the model mode, and
  -- else makes the next turn a plain one. A drafted token beyond the vocabulary is written out of
  -- bounds where the lookup makes its distribution.
  unfoldable pub drafted_turn : ℕ → Run W V F R C × Option (DraftResult F) → Turn (Run W V F R C)
  drafted_turn max_tokens (r, none) = goes (set_active r false)
  drafted_turn max_tokens (r, some draft) =
      if length draft.tokens == 0
      then (if is_model_mode r.decoder.cfg.mode
          then goes (set_active r false)
          else goes (record r { lookup_skip = true }))
      else if not (is_model_mode r.decoder.cfg.mode || in_vocab target.vocab_size draft.tokens)
      then throws r
      else verified_turn max_tokens draft r (
          verify_batch fl random ranked target r.target r.cur draft r.sampler r.accept_rng
            r.history)

  unfoldable pub sampled_turn : Run W V F R C → Option (Sampler F R × ℕ) → Turn (Run W V F R C)
  sampled_turn r none = throws r
  sampled_turn r (some (s, next)) = elim (target.is_eog next) [
    | true ↦ returns (record r { sampler = s })
    | false ↦
        let (client, wanted) = on_token r.client next in
        elim wanted [
          | none ↦ throws (record r { sampler = s; client = client })
          | some more ↦ elim more [
            | false ↦ returns (record r { sampler = s; client = client })
            | true ↦ goes (pushed (record r { sampler = s }) client next)
          ]
        ]
  ]

  unfoldable pub plain_logits : Run W V F R C → W × Option (List F) → Turn (Run W V F R C)
  plain_logits r (w, none) = throws (record r { target = w; lookup_skip = false })
  plain_logits r (w, some logits) =
      let r' : Run W V F R C = record r { target = w; base = r.base + 1; lookup_skip = false } in
      sampled_turn r' (sample fl random ranked r.sampler logits r.history)

  unfoldable pub plain_turn : Run W V F R C → Turn (Run W V F R C)
  plain_turn r = plain_logits r (target.decode_append r.target (r.cur ∷ []))

  unfoldable pub draft_vocab : Decoder V → ℕ
  draft_vocab d =
      if is_model_mode d.cfg.mode && has_draft d.draft
      then drafter.vocab_size
      else target.vocab_size

  -- A token that the draft model does not have ends the speculation.
  unfoldable pub guarded : Run W V F R C → Run W V F R C
  guarded r =
      if r.decoder.speculative_active
        && (is_model_mode r.decoder.cfg.mode && leb (draft_vocab r.decoder) r.cur)
      then set_active r false
      else r

  unfoldable pub turn : Option Corpus → ℕ → Run W V F R C → Turn (Run W V F R C)
  turn corpus max_tokens r₀ =
      let r = guarded r₀ in
      if r.decoder.speculative_active && not r.lookup_skip
      then drafted_turn max_tokens (drafted corpus r)
      else plain_turn r

  unfoldable pub wants_more : ℕ → Run W V F R C → Bool
  wants_more max_tokens r = ltb r.emitted max_tokens && ltb (length r.history) target.context_length

  -- The loop of `generate_stream`; `none` is that the turns do not suffice.
  unfoldable pub run_loop : Option Corpus → ℕ → ℕ → Run W V F R C → Option (Turn (Run W V F R C))
  run_loop corpus max_tokens zero r = none
  run_loop corpus max_tokens (suc fuel) r = elim (wants_more max_tokens r) [
    | false ↦ some (returns r)
    | true ↦ elim (turn corpus max_tokens r) [
      | goes r' ↦ run_loop corpus max_tokens fuel r'
      | returns r' ↦ some (returns r')
      | throws r' ↦ some (throws r')
    ]
  ]
