-- ===== src/Cache/Manager.antt =====
-- cache/cache_manager.cpp and cache/cache_serializer.cpp: KV snapshots on the disk store.
-- The file system, zstd and the backend are arguments. A call that throws is `none`. The staging
-- mutex is left out: calls run one after the other.
pub mod Restored
pub mod Sound
use reame.Base.{
  ℕ, ◌+◌, Bool, true, false, not, ◌||◌, Option, none, some, List, [], ◌∷◌, ◌++◌, ltb, ◌==◌,
  if◌then◌else◌, length, take, drop, Bytes, list_eq, le_bytes, from_le, u64, sub64, codes,
}
use reame.Corpus.{token_bytes}
use reame.Arca.Decimal.{to_string}
use reame.Cache.Store.{Store, Files, put, get, remove, checksum}

-- ZSTD_compress and ZSTD_decompress with the checks on their results.
pub record Zstd : Type 0 where
  pub pack : Bytes → Option Bytes
  pub unpack : Bytes → Option Bytes

-- LlamaBackend: `set_state` may throw, which is `false`; `state_data` is taken to throw nothing.
pub record Backend (W : Type 0) : Type 0 where
  pub state_data : W → Bytes
  pub set_state : W → Bytes → ℕ → W × Bool

pub record Stats : Type 0 where
  pub hits : ℕ
  pub misses : ℕ
  pub stores : ℕ

-- Pronta.
pub record Staged : Type 0 where
  pub state : Bytes
  pub n_past : ℕ

pub record Manager (D : Type 0) : Type 0 where
  pub store : Store D
  pub compresses : Bool
  pub staging_budget : ℕ
  pub staging : List (Bytes × Staged)
  pub staging_lru : List Bytes
  pub staging_used : ℕ
  pub stats : Stats

-- `zstd` is `none` in a build without REAME_HAS_ZSTD.
unfoldable pub compress : Option Zstd → Bytes → Option Bytes
compress none data' = some (b'R' ∷ data')
compress (some z) data' = elim (z.pack data') [ none ↦ none | some out ↦ some (b'Z' ∷ out) ]

unfoldable pub unpack_zstd : Option Zstd → Bytes → Option Bytes
unpack_zstd none frame = none
unpack_zstd (some z) frame = z.unpack frame

unfoldable pub decompress : Option Zstd → Bytes → Option Bytes
decompress zstd [] = none
decompress zstd (flag ∷ rest) =
    if flag == b'R' then some rest else if flag == b'Z' then unpack_zstd zstd rest else none

abbrev pub magic : Bytes
magic = codes "SVK1"

unfoldable pub envelope : ℕ → Bytes → Bytes
envelope n_past packed = magic ++ (le_bytes 8 (checksum packed) ++ (le_bytes 4 n_past ++ packed))

-- What an entry holds, if its header, checksum and compression are sound.
unfoldable pub open_envelope : Option Zstd → Bytes → Option Staged
open_envelope zstd entry =
    let packed = drop 16 entry in
    if ltb (length entry) 16 || not (list_eq (take 4 entry) magic)
    then none
    else if not (checksum packed == from_le (take 8 (drop 4 entry)))
    then none
    else elim (decompress zstd packed) [
      | none ↦ none
      | some state ↦ some (record { state = state; n_past = from_le (take 4 (drop 12 entry)) })
    ]

unfoldable pub make_key : Bytes → List ℕ → Bytes
make_key model_tag tokens =
    let raw = model_tag ++ 0 ∷ token_bytes tokens in
    codes "kv-"
    ++ (to_string (checksum raw)
        ++ (codes "-"
            ++ (to_string (checksum (raw ++ b'x' ∷ []))
                ++ (codes "-n" ++ to_string (length tokens)))))

unfoldable pub find_staged : Bytes → List (Bytes × Staged) → Option Staged
find_staged key [] = none
find_staged key ((k, p) ∷ ps) = if list_eq k key then some p else find_staged key ps

unfoldable pub erase_staged : Bytes → List (Bytes × Staged) → List (Bytes × Staged)
erase_staged key [] = []
erase_staged key ((k, p) ∷ ps) = if list_eq k key then ps else (k, p) ∷ erase_staged key ps

unfoldable pub remove_key : Bytes → List Bytes → List Bytes
remove_key key [] = []
remove_key key (k ∷ ks) = if list_eq k key then remove_key key ks else k ∷ remove_key key ks

unfoldable pub count_hit : Stats → Stats
count_hit s = record s { hits = u64 (s.hits + 1) }

unfoldable pub count_miss : Stats → Stats
count_miss s = record s { misses = u64 (s.misses + 1) }

unfoldable pub packed_state : Option Zstd → Bool → Bytes → Option Bytes
packed_state zstd true raw = compress zstd raw
packed_state zstd false raw = some (b'R' ∷ raw)

module _ {D : Type 0} (f : Files D) (zstd : Option Zstd) where
  unfoldable pub counted_store : Store D × Bool → Manager D → Manager D × Bool
  counted_store (store, false) m = (record m { store = store }, false)
  counted_store (store, true) m = (
    record m { store = store; stats = record (m.stats) { stores = u64 (m.stats.stores + 1) } },
    true,
  )

  -- The loop at the end of `prefetch`, over the keys from the least recent on.
  unfoldable pub evict_staged : Manager D → List Bytes → Manager D
  evict_staged m [] = record m { staging_lru = [] }
  evict_staged m (k ∷ []) = record m { staging_lru = k ∷ [] }
  evict_staged m (k ∷ j ∷ ks) = elim (ltb m.staging_budget m.staging_used) [
    | false ↦ record m { staging_lru = k ∷ j ∷ ks }
    | true ↦ elim (find_staged k m.staging) [
      | none ↦ evict_staged m (j ∷ ks)
      | some p ↦
          evict_staged
            (record m {
              staging = erase_staged k m.staging;
              staging_used = sub64 m.staging_used (length p.state);
            })
            (j ∷ ks)
    ]
  ]

  unfoldable pub stage : Manager D → Bytes → Staged → Manager D
  stage m key p =
      evict_staged
        (record m {
          staging = (key, p) ∷ erase_staged key m.staging;
          staging_used = u64 (m.staging_used + length p.state);
        })
        (m.staging_lru ++ key ∷ [])

  unfoldable pub drop_stored : Manager D → Bytes → Manager D
  drop_stored m key = record m { store = (remove f m.store key).0 }

  unfoldable pub prefetch_entry : Manager D → Bytes → Option Bytes → Manager D × Bool
  prefetch_entry m key none = (m, false)
  prefetch_entry m key (some entry) = elim (open_envelope zstd entry) [
    | none ↦ (drop_stored m key, false)
    | some p ↦ (stage m key p, true)
  ]

  unfoldable pub prefetch : Manager D → Bytes → Manager D × Bool
  prefetch m key = if m.staging_budget == 0 then (m, false) else elim (find_staged key m.staging) [
    | some p ↦ (m, true)
    | none ↦
        let (store, entry) = get f m.store key in
        prefetch_entry (record m { store = store }) key entry
  ]

  unfoldable pub take_staged : Manager D → Bytes → Staged → Manager D
  take_staged m key p = record m {
    staging = erase_staged key m.staging;
    staging_lru = remove_key key m.staging_lru;
    staging_used = sub64 m.staging_used (length p.state);
  }

  module _ {W : Type 0} (b : Backend W) where
    unfoldable pub store_state : Manager D → W → Bytes → ℕ → Option (Manager D × Bool)
    store_state m w key n_past = elim (packed_state zstd m.compresses (b.state_data w)) [
      | none ↦ none
      | some packed ↦ some (counted_store (put f m.store key (envelope n_past packed)) m)
    ]

    unfoldable pub restored : Manager D → Bytes → W × Bool → Manager D × W × Bool
    restored m key (w, true) = (record m { stats = count_hit m.stats }, w, true)
    restored m key (w, false) =
        (record (drop_stored m key) { stats = count_miss m.stats }, w, false)

    unfoldable pub load_entry : Manager D → W → Bytes → Option Bytes → Manager D × W × Bool
    load_entry m w key none = (record m { stats = count_miss m.stats }, w, false)
    load_entry m w key (some entry) = elim (open_envelope zstd entry) [
      | none ↦ (record (drop_stored m key) { stats = count_miss m.stats }, w, false)
      | some p ↦ restored m key (b.set_state w p.state p.n_past)
    ]

    unfoldable pub load_state : Manager D → W → Bytes → Manager D × W × Bool
    load_state m w key = elim (find_staged key m.staging) [
      | some p ↦ restored (take_staged m key p) key (b.set_state w p.state p.n_past)
      | none ↦
          let (store, entry) = get f m.store key in
          load_entry (record m { store = store }) w key entry
    ]
