-- ===== src/Speculative/Decoder/Prefilled.antt =====
-- speculative/speculative_decoder.cpp: from the prefill to the end of `generate_stream`.
use reame.Base.{
  ℕ, suc, ◌-◌, ◌≤◌, ◌<◌, ◌≡◌, ◌⊎◌, refl, ◌∙◌, ap, Bool, true, Option, List, [], ◌∷◌, ◌++◌, arith,
  length, take, get_or,
}
use reame.Corpus.{Corpus}
use reame.Llama.{Llama}
use reame.Llama.Kv.{Kv}
use reame.Sampler.{Floats, Random, Sampler}
use reame.Speculative.Decoder.{lookup_draft, Rates, Decoder, Run, goes, returns, throws}
use reame.Speculative.Decoder.Stream.{Streamed, refused, unfinished, finished, observed}
use reame.Speculative.Decoder.Lossless.{IsGreedyEnd, IsGreedyBreak}

pub take-last :
    (ts : List ℕ) → 0 < length ts → ts ≡ take (length ts - 1) ts ++ get_or ts (length ts - 1) 0 ∷ []
take-last [] h = absurd (omega arith)
take-last (t ∷ []) h = refl
take-last (t ∷ u ∷ us) h =
    ap (λ hs. t ∷ hs) (take-last (u ∷ us) (omega arith))
    ∙ ap (λ n. t ∷ (take n (u ∷ us) ++ get_or (u ∷ us) n 0 ∷ [])) {x = suc (length us) - 1}
        {y = length us} (omega arith)
    ∙ ap (λ n. take n (t ∷ u ∷ us) ++ get_or (t ∷ u ∷ us) n 0 ∷ []) {x = suc (length us)}
        {y = suc (suc (length us)) - 1} (omega arith)

module _ {F R W V C : Type 0} (fl : Floats F) (random : Random R F)
    (ranked : List F → ℕ → List ℕ → List ℕ) (rates : Rates) (target : Llama W (List F))
    (drafter : Llama V (List F)) (on_token : C → ℕ → C × Option Bool) (k : Kv target)
    (s : Sampler F R) where
  -- The target holds the first `kv_ready` tokens of the prompt, if it is to go on from there.
  abbrev pub IsReady : W → List ℕ → ℕ → Type 0
  IsReady w prompt kv_ready = (kv_ready ≡ 0) ⊎ (k.kv w ≡ take kv_ready prompt)

  abbrev PrefillOk : List ℕ → ℕ → W × Bool → Type 0
  PrefillOk prompt base x = x.1 ≡ true → k.kv x.0 ≡ take base prompt

  -- What a call may end with: a refusal of a prompt, or of ready positions, that do not fit; where
  -- greedy decoding ends; or where an exception leaves it. The corpus is told of the history.
  abbrev pub StreamOk : ℕ → C → List ℕ → ℕ → Option Corpus → Streamed W V F R C → Type 0
  StreamOk max_tokens client prompt kv_ready corpus (refused e c) =
      (length prompt ≡ 0) ⊎ (target.context_length < length prompt) ⊎ (length prompt ≤ kv_ready)
  StreamOk max_tokens client prompt kv_ready corpus unfinished = ⊥
  StreamOk max_tokens client prompt kv_ready corpus (finished (goes r) c) = ⊥
  StreamOk max_tokens client prompt kv_ready corpus (finished (returns r) c) =
      IsGreedyEnd fl random ranked rates target drafter on_token k s max_tokens client prompt r
      × (c ≡ observed corpus r.history)
  StreamOk max_tokens client prompt kv_ready corpus (finished (throws r) c) =
      IsGreedyBreak fl random ranked rates target drafter on_token k s max_tokens client prompt r
      × (c ≡ observed corpus r.history)

  -- The run that the loop starts from.
  record Fresh (client : C) (prompt : List ℕ) (r : Run W V F R C) : Type 0 where
    sampler : r.sampler ≡ s
    mode : r.decoder.cfg.mode ≡ lookup_draft
    history : r.history ≡ prompt
    owned : r.client ≡ client
    emitted : r.emitted ≡ 0
    base : r.base ≡ length prompt - 1
    cur : r.cur ≡ get_or prompt (length prompt - 1) 0
    filled : 0 < length prompt
