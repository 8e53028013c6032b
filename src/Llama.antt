-- ===== src/Llama.antt =====
-- include/reame/core/llama_backend.hpp: the seam to the model, as the single-sequence code uses it.
-- Its implementations are glue to other libraries, so the backend is an argument everywhere. `W` is
-- what it owns, `L` its logits. `none` and `false` are an exception; the text calls and
-- `state_data` are taken to throw none.
pub mod Kv
use reame.Base.{ℕ, Bool, Option, List, Bytes}

pub record Llama (W L : Type 0) : Type 0 where
  pub tokenize : Bytes → Bool → List ℕ
  pub detokenize : List ℕ → Bytes
  pub token_piece : ℕ → Bytes
  pub decode : W → List ℕ → W × Option L
  pub decode_append : W → List ℕ → W × Option L
  pub decode_batch : W → List ℕ → W × Option (List L)
  pub truncate_to : W → ℕ → W × Bool
  pub reset : W → W
  pub state_data : W → Bytes
  pub set_state : W → Bytes → ℕ → W × Bool
  pub n_past : W → ℕ
  pub vocab_size : ℕ
  pub context_length : ℕ
  pub eos_token : ℕ
  pub is_eog : ℕ → Bool
  pub supports_rollback : Bool
