-- ===== src/Engine/Answers.antt =====
-- core/engine.cpp: the transparent cache of exact answers in front of a generation.
-- `hash` is std::hash; `arca` is the view of the archive that core/arca_cache.hpp declares.
use reame.Base.{
  ℕ, Bool, false, not, ◌&&◌, Option, none, some, List, [], ◌∷◌, ◌++◌, if◌then◌else◌, Bytes, codes,
}
use reame.Arca.Decimal.{to_string}
use reame.Llama.{Llama}
use reame.Sampler.{Floats, Random, Sampler, is_greedy}
use reame.Cache.Store.{Files, hex64}
use reame.Cache.Manager.{Zstd}
use reame.Engine.{Engine, Generated, refused, returned, thrown, generate_stream_impl}

pub record ArcaCache (A : Type 0) : Type 0 where
  pub get : A → Bytes → A × Option Bytes
  pub set : A → Bytes → Bytes → A

-- `max_tokens` is not negative here.
unfoldable pub cache_key : (Bytes → ℕ) → Bytes → Bytes → ℕ → Bytes
cache_key hash model_tag prompt max_tokens =
    codes "resp:" ++ hex64 (hash (model_tag ++ 0x1f ∷ to_string max_tokens ++ 0x1f ∷ prompt))

-- The callback that also keeps what it is told.
unfoldable pub accumulating :
    {C : Type 0} → (C → Bytes → C × Bool) → C × Bytes → Bytes → (C × Bytes) × Bool
accumulating callback (c, told) piece =
    let (c', wanted) = callback c piece in ((c', told ++ piece), wanted)

-- What a call leaves: the archive's view, and the generation or the answer of the archive.
pub data Answered (A D W C : Type 0) : Type 0 where
  by_archive : A → Engine D W → C → Answered A D W C
  by_model : A → Generated D W C → Answered A D W C

module _ {A D W F R C : Type 0} (arca : ArcaCache A) (hash : Bytes → ℕ) (model_tag : Bytes)
    (f : Files D) (zstd : Option Zstd) (b : Llama W (List F)) (fl : Floats F) (random : Random R F)
    (ranked : List F → ℕ → List ℕ → List ℕ) (callback : C → Bytes → C × Bool) where
  -- A generation that returns is kept; `told` is what its callback was told.
  unfoldable pub kept_answer : A → Bytes → Generated D W (C × Bytes) → Answered A D W C
  kept_answer a key (refused why e) = by_model a (refused why e)
  kept_answer a key (thrown (c, told)) = by_model a (thrown c)
  kept_answer a key (returned e (c, told)) = by_model (arca.set a key told) (returned e c)

  unfoldable pub answered :
      Engine D W → Sampler F R → C → ℕ → Bytes → Bytes → A × Option Bytes → Answered A D W C
  answered e s c max_tokens prompt key (a, some hit) = by_archive a e (callback c hit).0
  answered e s c max_tokens prompt key (a, none) = kept_answer a key (
      generate_stream_impl f zstd b fl random ranked (accumulating callback) e s (c, []) false
        max_tokens prompt)

  -- `generate_stream`, with an archive if `attached`.
  unfoldable pub generate_stream :
      Bool → A → Engine D W → Sampler F R → C → Bool → ℕ → Bytes → Answered A D W C
  generate_stream attached a e s c echo_prompt max_tokens prompt =
      let key = cache_key hash model_tag prompt max_tokens in
      if attached && (is_greedy fl random ranked s && not echo_prompt)
      then answered e s c max_tokens prompt key (arca.get a key)
      else by_model a (
          generate_stream_impl f zstd b fl random ranked callback e s c echo_prompt max_tokens
            prompt)
