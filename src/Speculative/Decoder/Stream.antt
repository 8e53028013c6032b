-- ===== src/Speculative/Decoder/Stream.antt =====
-- speculative/speculative_decoder.cpp: `generate_stream`, from the prompt to the archive.
use reame.Base.{
  ℕ, ◌+◌, ◌-◌, ◌*◌, Bool, true, false, not, ◌&&◌, Option, none, some, List, ltb, ◌==◌,
  if◌then◌else◌, length, get_or, take, drop,
}
use reame.Llama.{Llama}
use reame.Sampler.{Floats, Random, Sampler}
use reame.Corpus.{Corpus, observe}
use reame.Speculative.Decoder.{
  Mode, model_draft, lookup_draft, Rates, Decoder, Run, Turn, throws, turned, is_model_mode,
  run_loop,
}

pub data StreamError : Type 0 where
  empty_prompt prompt_too_long kv_ready_too_long : StreamError

-- What a call leaves: refused with an EngineError, out of turns, or a run that returned or threw,
-- with the corpus.
pub data Streamed (W V F R C : Type 0) : Type 0 where
  refused : StreamError → Option Corpus → Streamed W V F R C
  unfinished : Streamed W V F R C
  finished : Turn (Run W V F R C) → Option Corpus → Streamed W V F R C

unfoldable pub observed : Option Corpus → List ℕ → Option Corpus
observed none tokens = none
observed (some corpus) tokens = some (observe corpus tokens)

-- The corpus of the ObserveGuard: it is told of the history on every way out, in the lookup mode.
unfoldable pub archived : Mode → Option Corpus → List ℕ → Option Corpus
archived model_draft corpus tokens = corpus
archived lookup_draft corpus tokens = observed corpus tokens

module _ {F R W V C : Type 0} (fl : Floats F) (random : Random R F)
    (ranked : List F → ℕ → List ℕ → List ℕ) (rates : Rates) (target : Llama W (List F))
    (drafter : Llama V (List F)) (on_token : C → ℕ → C × Option Bool) where
  unfoldable pub appended : W → List ℕ → W × Bool
  appended w ts =
      let (w', logits) = target.decode_append w ts in
      elim logits [ none ↦ (w', false) | some l ↦ (w', true) ]

  -- The target reads the history but its newest token, of which it holds `kv_ready` tokens.
  unfoldable pub prefill_target : W → List ℕ → ℕ → ℕ → W × Bool
  prefill_target w history base kv_ready =
      if kv_ready == 0
      then (if ltb 0 base
          then appended (target.reset w) (take base history)
          else (target.reset w, true))
      else if ltb kv_ready base
      then appended w (drop kv_ready (take base history))
      else (w, true)

  -- The draft model reads the same; an exception turns the speculation off.
  unfoldable pub prefill_draft : Decoder V → V → List ℕ → ℕ → Decoder V
  prefill_draft d v history base =
      if not (ltb 0 base)
      then record d { draft = some (drafter.reset v) }
      else let (v', logits) = drafter.decode_append (drafter.reset v) (take base history) in
        elim logits [
          | none ↦ record d { draft = some v'; speculative_active = false }
          | some l ↦ record d { draft = some v' }
        ]

  unfoldable pub draft_ready : Decoder V → List ℕ → ℕ → Decoder V
  draft_ready d history base =
      if d.speculative_active && is_model_mode d.cfg.mode
      then elim d.draft [ none ↦ d | some v ↦ prefill_draft d v history base ]
      else d

  unfoldable pub ended : Mode → Option Corpus → Option (Turn (Run W V F R C)) → Streamed W V F R C
  ended mode corpus none = unfinished
  ended mode corpus (some t) = finished t (archived mode corpus (turned t).history)

  -- Twice the tokens and two more turns.
  unfoldable pub enough_turns : ℕ → ℕ
  enough_turns max_tokens = 2 * max_tokens + 3

  unfoldable pub started : Option Corpus → ℕ → Run W V F R C → W × Bool → Streamed W V F R C
  started corpus max_tokens r (w, false) =
      finished (throws (record r { target = w })) (archived r.decoder.cfg.mode corpus r.history)
  started corpus max_tokens r (w, true) = ended r.decoder.cfg.mode corpus (
      run_loop fl random ranked rates target drafter on_token corpus max_tokens
        (enough_turns max_tokens)
        (record r { target = w; decoder = draft_ready r.decoder r.history r.base }))

  -- `sampler` and `rng` are those that the seed makes.
  unfoldable pub generate_stream :
      Decoder V → Option Corpus → W → Sampler F R → R → C → ℕ → List ℕ → ℕ → Streamed W V F R C
  generate_stream d corpus w sampler rng client max_tokens prompt kv_ready =
      let base = length prompt - 1 in
      if length prompt == 0
      then refused empty_prompt corpus
      else if ltb target.context_length (length prompt)
      then refused prompt_too_long corpus
      else if ltb base kv_ready
      then refused kv_ready_too_long (archived d.cfg.mode corpus prompt)
      else started corpus max_tokens
          (record {
            target = w;
            decoder = d;
            sampler = sampler;
            accept_rng = rng;
            client = client;
            history = prompt;
            cur = get_or prompt base 0;
            base = base;
            emitted = 0;
            lookup_skip = false;
          })
          (prefill_target w prompt base kv_ready)
