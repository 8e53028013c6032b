-- ===== src/Llama/Kv.antt =====
-- include/reame/core/llama_backend.hpp: what the comments of LlamaBackend promise.
use reame.Base.{ℕ, ◌≤◌, ◌≡◌, true, some, List, [], ◌∷◌, ◌++◌, length, take}
use reame.Llama.{Llama}

-- The logits behind each token of a batch that follows `seen`.
unfoldable pub predictions {ℓ} : {L : Type ℓ} → (List ℕ → L) → List ℕ → List ℕ → List L
predictions predict seen [] = []
predictions predict seen (t ∷ ts) =
    let here = seen ++ t ∷ [] in predict here ∷ predictions predict here ts

-- `kv w` are the tokens whose positions the sequence holds, and `predict` gives the logits behind
-- a row of tokens. A call that throws promises nothing.
pub record Kv {W L : Type 0} (b : Llama W L) : Type 0 where
  pub kv : W → List ℕ
  pub predict : List ℕ → L
  pub n_past-kv : (w : W) → b.n_past w ≡ length (kv w)
  pub kv-reset : (w : W) → kv (b.reset w) ≡ []
  pub kv-decode :
      (w : W) (ts : List ℕ) (l : L)
      → (b.decode w ts).1 ≡ some l
      → (kv (b.decode w ts).0 ≡ ts) × (l ≡ predict ts)
  pub kv-append :
      (w : W) (ts : List ℕ) (l : L)
      → (b.decode_append w ts).1 ≡ some l
      → (kv (b.decode_append w ts).0 ≡ kv w ++ ts) × (l ≡ predict (kv w ++ ts))
  pub kv-batch :
      (w : W) (ts : List ℕ) (ls : List L)
      → (b.decode_batch w ts).1 ≡ some ls
      → (kv (b.decode_batch w ts).0 ≡ kv w ++ ts) × (ls ≡ predictions predict (kv w) ts)
  pub kv-truncate :
      (w : W) (n : ℕ)
      → n ≤ length (kv w)
      → (b.truncate_to w n).1 ≡ true
      → kv (b.truncate_to w n).0 ≡ take n (kv w)
  pub kv-state :
      (w w' : W)
      → (b.set_state w' (b.state_data w) (length (kv w))).1 ≡ true
      → kv (b.set_state w' (b.state_data w) (length (kv w))).0 ≡ kv w
