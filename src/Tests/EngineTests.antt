-- ===== src/Tests/EngineTests.antt =====
-- core/engine.cpp at concrete inputs: the toy model behind the prefix cache.
use reame.Base.{
  ℕ, ◌≡◌, ◌≢◌, refl, inr, Bool, true, false, none, some, List, [], ◌∷◌, ◌++◌, arith, codes, list_eq,
}
use reame.Sampler.{is_greedy}
use reame.Speculative.Verifier.{front}
use reame.Engine.{Config, Engine, generate_stream_impl, validate, empty}
use reame.Engine.Coherent.{IsCoherent, GeneratedOk, generate_stream_impl-IsCoherent}
use reame.Tests.StoreTests.{Disk, in_memory}
use reame.Tests.ManagerTests.{zstd, zstd-unpacks}
use reame.Tests.DecoderTests.{toy, toy_kv, floats, still, unranked, greedy, facts, guess-filled}
use reame.Tests.PrefixTests.{
  in_memory_laws, cached, blank, IsPrompt, keys_apart, states_fit, blank-IsSound,
}

abbrev kept_text : List ℕ → List ℕ → List ℕ × Bool
kept_text told piece = (told ++ piece, true)

abbrev engine : Engine Disk (List ℕ)
engine = record { backend = []; manager = blank; cache = some cached; context_tokens = [] }

engine-IsCoherent :
    IsCoherent in_memory in_memory_laws
      (some zstd)
      toy
      toy_kv
      cached
      IsPrompt
      floats
      still
      unranked
      kept_text
      greedy
      engine
engine-IsCoherent = record { mirrors = λ same. refl; cached = inr refl; sound = blank-IsSound }

abbrev text : List ℕ
text = 0 ∷ 1 ∷ 2 ∷ 0 ∷ 1 ∷ 2 ∷ []

generate_stream_impl-IsCoherent_example :
    GeneratedOk in_memory in_memory_laws
      (some zstd)
      toy
      toy_kv
      cached
      IsPrompt
      floats
      still
      unranked
      kept_text
      greedy
      3
      ([], true)
      text
      engine
      (generate_stream_impl in_memory
        (some zstd)
        toy
        floats
        still
        unranked
        kept_text
        engine
        greedy
        []
        false
        3
        text)
unfolding front is_greedy
generate_stream_impl-IsCoherent_example =
    generate_stream_impl-IsCoherent in_memory in_memory_laws (some zstd) toy toy_kv cached IsPrompt
      floats still unranked kept_text greedy zstd-unpacks keys_apart states_fit facts guess-filled
      refl engine [] false 3 text refl (omega arith) engine-IsCoherent

abbrev parallel : Config
parallel = record {
  model_path = codes "m.gguf";
  draft_model_path = [];
  n_ctx = 4096;
  n_threads = 4;
  kv_cache_type = codes "q8_0";
  use_speculative = true;
  use_prompt_lookup = false;
  cache_dir = [];
  n_parallel = 4;
}

accepted : validate parallel ≡ none
unfolding validate empty list_eq
accepted = refl

-- A cache type that llama.cpp does not know is refused.
wrong_cache_type : validate (record parallel { kv_cache_type = codes "q5_1" }) ≢ none
unfolding validate empty list_eq
wrong_cache_type h = absurd (cc h)
