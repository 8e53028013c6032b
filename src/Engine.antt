-- ===== src/Engine.antt =====
-- core/engine.cpp: the checks of the configuration, and a generation without scheduler and decoder.
-- The text callback, the files, zstd and the model are arguments; `C` is what the callback owns, and the
-- callback is taken to throw nothing.
pub mod Loop
pub mod Coherent
pub mod Answers
use reame.Base.{
  ℕ, zero, suc, ◌-◌, Bool, true, false, not, ◌&&◌, ◌||◌, Option, none, some, List, [], ◌∷◌, ◌++◌,
  ltb, leb, ◌==◌, if◌then◌else◌, length, take, drop, get_or, list_eq, Bytes, codes,
}
use reame.Llama.{Llama}
use reame.Sampler.{Floats, Random, Sampler, sample}
use reame.Cache.Store.{Files}
use reame.Cache.Manager.{Zstd, Manager}
use reame.Cache.Prefix.{PrefixCache, prefill}
use reame.Speculative.Verifier.{front}

-- The fields of ReameEngine::Config that `validate` and the questions about it read. A number below
-- 0 acts as 0 does.
pub record Config : Type 0 where
  pub model_path : Bytes
  pub draft_model_path : Bytes
  pub n_ctx : ℕ
  pub n_threads : ℕ
  pub kv_cache_type : Bytes
  pub use_speculative : Bool
  pub use_prompt_lookup : Bool
  pub cache_dir : Bytes
  pub n_parallel : ℕ

pub data ConfigError : Type 0 where
  no_model_path bad_n_ctx bad_n_threads bad_kv_cache_type bad_n_parallel parallel_speculation
        parallel_cache :
      ConfigError

unfoldable pub empty : Bytes → Bool
empty s = length s == 0

-- `none` is that the configuration is accepted.
unfoldable pub validate : Config → Option ConfigError
validate c =
    if empty c.model_path
    then some no_model_path
    else if c.n_ctx == 0
    then some bad_n_ctx
    else if c.n_threads == 0
    then some bad_n_threads
    else if not (list_eq c.kv_cache_type (codes "f16"))
        && (not (list_eq c.kv_cache_type (codes "q8_0"))
            && not (list_eq c.kv_cache_type (codes "q4_0")))
    then some bad_kv_cache_type
    else if ltb c.n_parallel 1
    then some bad_n_parallel
    else if ltb 1 c.n_parallel && (c.use_prompt_lookup || not (empty c.draft_model_path))
    then some parallel_speculation
    else if ltb 1 c.n_parallel && not (empty c.cache_dir)
    then some parallel_cache
    else none

unfoldable pub wants_draft_backend : Config → Bool
wants_draft_backend c =
    c.use_speculative && (not c.use_prompt_lookup && not (empty c.draft_model_path))

unfoldable pub speculation_silently_off : Config → Bool → Bool
speculation_silently_off c decoder_built =
    c.use_speculative
    && (c.use_prompt_lookup || not (empty c.draft_model_path))
    && not decoder_built

-- The fields of Impl that a generation reads and writes; `cache` is `prefix_cache`.
pub record Engine (D W : Type 0) : Type 0 where
  pub backend : W
  pub manager : Manager D
  pub cache : Option PrefixCache
  pub context_tokens : List ℕ

-- How the generation loop ends: with the tokens, or with an exception, behind which nothing is said
-- of the model.
pub data Produced (W C : Type 0) : Type 0 where
  stopped : W → C → List ℕ → Produced W C
  broken : C → Produced W C

pub data GenerateError : Type 0 where
  no_tokens prompt_too_long : GenerateError

-- A call is refused, returns or throws.
pub data Generated (D W C : Type 0) : Type 0 where
  refused : GenerateError → Engine D W → Generated D W C
  returned : Engine D W → C → Generated D W C
  thrown : C → Generated D W C

module _ {D W F R C : Type 0} (f : Files D) (zstd : Option Zstd) (b : Llama W (List F))
    (fl : Floats F) (random : Random R F) (ranked : List F → ℕ → List ℕ → List ℕ)
    (callback : C → Bytes → C × Bool) where
  -- The loop, with the number of rounds that the budget has left.
  unfoldable pub produce : ℕ → W → Sampler F R → C → List ℕ → List F → Produced W C
  produce zero w s c tokens logits = stopped w c tokens
  produce (suc rounds) w s c tokens logits = elim (sample fl random ranked s logits tokens) [
    | none ↦ broken c
    | some (s', next) ↦ elim (b.is_eog next) [
      | true ↦ stopped w c tokens
      | false ↦
          let (c', wanted) = callback c (b.token_piece next) in
          elim wanted [
            | false ↦ stopped w c' tokens
            | true ↦ elim (leb b.context_length (length (tokens ++ next ∷ [])) || (rounds == 0)) [
              | true ↦ stopped w c' (tokens ++ next ∷ [])
              | false ↦
                  let (w', after) = b.decode_append w (next ∷ []) in
                  elim after [
                    | none ↦ broken c'
                    | some logits' ↦ produce rounds w' s' c' (tokens ++ next ∷ []) logits'
                  ]
            ]
          ]
    ]
  ]

  -- `estende`: the new request extends what the KV holds.
  unfoldable pub extends : Engine D W → List ℕ → Bool
  extends e tokens =
      let context = e.context_tokens in
      not (length context == 0)
      && (ltb (length context) (length tokens)
          && ((b.n_past e.backend == length context)
              && list_eq context (take (length context) tokens)))

  -- The last token behind a prefill of the others.
  unfoldable pub cached_logits :
      List ℕ → Option (Manager D × W × ℕ) → Option (Manager D × W × Option (List F))
  cached_logits tokens none = none
  cached_logits tokens (some (m, w, restored)) =
      let (w', logits) = b.decode_append w (get_or tokens (length tokens - 1) 0 ∷ []) in
      some (m, w', logits)

  -- The prefill: the manager, the model and the logits behind `tokens`; `none` is an exception of the
  -- prefix cache.
  unfoldable pub prefilled : Engine D W → List ℕ → Option (Manager D × W × Option (List F))
  prefilled e tokens =
      if extends e tokens
      then (let (w, logits) = b.decode_append e.backend (drop (length e.context_tokens) tokens) in
          some (e.manager, w, logits))
      else elim e.cache [
        | some cache ↦
            cached_logits tokens (prefill f zstd b cache e.manager e.backend (front tokens))
        | none ↦ let (w, logits) = b.decode e.backend tokens in some (e.manager, w, logits)
      ]

  unfoldable pub concluded : Engine D W → Manager D → Produced W C → Generated D W C
  concluded e m (stopped w c tokens) =
      returned (record e { backend = w; manager = m; context_tokens = tokens }) c
  concluded e m (broken c) = thrown c

  unfoldable pub generated :
      Engine D W
      → Sampler F R
      → C
      → ℕ
      → List ℕ
      → Option (Manager D × W × Option (List F))
      → Generated D W C
  generated e s c max_tokens tokens none = thrown c
  generated e s c max_tokens tokens (some (m, w, none)) = thrown c
  generated e s c max_tokens tokens (some (m, w, some logits)) =
      concluded e m (produce max_tokens w s c tokens logits)

  -- The callback is told of the prompt, where that is asked for.
  unfoldable pub echoed : Bool → C → Bytes → C × Bool
  echoed false c prompt = (c, true)
  echoed true c prompt = callback c prompt

  -- `generate_stream_impl` without scheduler and decoder; `s` is the sampler that the seed makes.
  unfoldable pub generate_stream_impl :
      Engine D W → Sampler F R → C → Bool → ℕ → Bytes → Generated D W C
  generate_stream_impl e s c echo_prompt max_tokens prompt =
      let tokens = b.tokenize prompt true in
      let (c', wanted) = echoed echo_prompt c prompt in
      if length tokens == 0
      then refused no_tokens e
      else if ltb b.context_length (length tokens)
      then refused prompt_too_long e
      else if not wanted
      then returned e c'
      else generated e s c' max_tokens tokens (prefilled e tokens)
