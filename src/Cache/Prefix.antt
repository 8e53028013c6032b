-- ===== src/Cache/Prefix.antt =====
-- cache/prefix_cache.cpp: snapshots of a prompt's KV at block boundaries, shared by prompts.
-- The file system, zstd and the model are arguments. Calls run one after the other.
pub mod Keys
pub mod Exact
pub mod Prefill
use reame.Base.{
  ℕ, zero, suc, ◌+◌, max, Bool, true, false, Option, none, some, List, [], ◌∷◌, ◌++◌, ltb, leb,
  ◌==◌, if◌then◌else◌, length, take, drop, Bytes, codes, u32,
}
use reame.Llama.{Llama}
use reame.Corpus.{token_bytes}
use reame.Arca.Decimal.{to_string}
use reame.Cache.Store.{Files, checksum}
use reame.Cache.Manager.{Zstd, Backend, Manager, store_state, load_state}
use reame.Cache.Manager

pub record PrefixCache : Type 0 where
  pub model_tag : Bytes
  pub block_tokens : ℕ

-- The constructor, whose `block_tokens` is not negative here.
unfoldable pub prefix_cache : Bytes → ℕ → PrefixCache
prefix_cache model_tag block_tokens = record {
  model_tag = model_tag;
  block_tokens = u32 (max block_tokens 1);
}

-- The loop over `b`, for `rounds` at most: a block has a token at least.
unfoldable pub blocks_from : ℕ → ℕ → ℕ → ℕ → List ℕ
blocks_from zero block size b = []
blocks_from (suc rounds) block size b =
    let rest = blocks_from rounds block size (u32 (b + block)) in
    if ltb b size then b ∷ rest else []

unfoldable pub boundaries : PrefixCache → ℕ → List ℕ
boundaries c size =
    blocks_from size c.block_tokens size c.block_tokens
    ++ (if ltb 0 size then u32 size ∷ [] else [])

unfoldable pub key_for : PrefixCache → List ℕ → ℕ → Bytes
key_for c prefix n =
    let raw = c.model_tag ++ 0 ∷ token_bytes (take n prefix) in
    codes "pfx-"
    ++ (to_string (checksum raw)
        ++ (codes "-" ++ (to_string (checksum (raw ++ b'x' ∷ [])) ++ (codes "-n" ++ to_string n))))

unfoldable pub last_first : List ℕ → List ℕ
last_first [] = []
last_first (b ∷ bs) = last_first bs ++ b ∷ []

-- What LlamaBackend is to the manager.
abbrev pub snapshots : {W L : Type 0} → Llama W L → Backend W
snapshots b = record { state_data = b.state_data; set_state = b.set_state }

module _ {D W L : Type 0} (f : Files D) (zstd : Option Zstd) (b : Llama W L) (c : PrefixCache) where
  -- The loop over the boundaries, the longest first: the first that loads.
  unfoldable pub restore : Manager D → W → List ℕ → List ℕ → Manager D × W × ℕ
  restore m w prefix [] = (m, w, 0)
  restore m w prefix (n ∷ ns) =
      let (m', w', ok) = load_state f zstd (snapshots b) m w (key_for c prefix n) in
      elim ok [ true ↦ (m', w', n) | false ↦ restore m' w' prefix ns ]

  unfoldable pub decoded : Manager D → W → List ℕ → ℕ → ℕ → W × Option L → Option (Manager D × W)
  decoded m w prefix pos n (w', none) = none
  decoded m w prefix pos n (w', some logits) =
      elim (store_state f zstd (snapshots b) m w' (key_for c prefix n) n) [
        | none ↦ none
        | some (m', stored) ↦ some (m', w')
      ]

  -- The loop that decodes block by block; `none` is an exception.
  unfoldable pub extend : Manager D → W → List ℕ → ℕ → ℕ → List ℕ → Option (Manager D × W)
  extend m w prefix restored pos [] = some (m, w)
  extend m w prefix restored pos (n ∷ ns) = elim (leb n restored) [
    | true ↦ extend m w prefix restored pos ns
    | false ↦ elim (decoded m w prefix pos n (b.decode_append w (drop pos (take n prefix)))) [
      | none ↦ none
      | some (m', w') ↦ extend m' w' prefix restored n ns
    ]
  ]

  unfoldable pub prefill_from : List ℕ → Manager D × W × ℕ → Option (Manager D × W × ℕ)
  prefill_from prefix (m, w, restored) =
      elim (extend m (if restored == 0 then b.reset w else w) prefix restored restored
        (boundaries c (length prefix))) [ none ↦ none | some (m', w') ↦ some (m', w', restored) ]

  unfoldable pub prefill : Manager D → W → List ℕ → Option (Manager D × W × ℕ)
  prefill m w prefix =
      if length prefix == 0
      then some (m, b.reset w, 0)
      else prefill_from prefix (restore m w prefix (last_first (boundaries c (length prefix))))

  -- The loop of `prefetch`.
  unfoldable pub prefetch_first : Manager D → List ℕ → List ℕ → Manager D × Bool
  prefetch_first m prefix [] = (m, false)
  prefetch_first m prefix (n ∷ ns) =
      let (m', ready) = Manager.prefetch f zstd m (key_for c prefix n) in
      elim ready [ true ↦ (m', true) | false ↦ prefetch_first m' prefix ns ]

  unfoldable pub prefetch : Manager D → List ℕ → Manager D × Bool
  prefetch m prefix =
      if length prefix == 0
      then (m, false)
      else prefetch_first m prefix (last_first (boundaries c (length prefix)))
