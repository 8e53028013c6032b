-- ===== src/Tests/ManagerTests.antt =====
-- cache/cache_manager.cpp at concrete inputs.
use reame.Base.{
  ℕ, ◌+◌, ◌^◌, ◌≡◌, ◌<◌, refl, sym, subst, ap, true, some, some_inj, [], ◌∷◌, arith, Bytes, codes,
  length,
}
use reame.Cache.Store.{put, refuses, written}
use reame.Cache.Manager.{
  Zstd, Backend, Manager, envelope, find_staged, compress, packed_state, counted_store, store_state,
  load_state,
}
use reame.Cache.Manager.Restored.{load_state-store_state}
use reame.Tests.StoreTests.{Disk, in_memory, in_memory-reads_back, two}

-- zstd that packs nothing.
abbrev pub zstd : Zstd
zstd = record { pack = λ d. some d; unpack = λ d. some d }

-- A backend whose state is its bytes and a position.
abbrev backend : Backend (Bytes × ℕ)
backend = record { state_data = λ w. w.0; set_state = λ w d n. ((d, n), true) }

abbrev pub manager : Manager Disk
manager = record {
  store = record two { max_bytes = 0 };
  compresses = true;
  staging_budget = 8;
  staging = [];
  staging_lru = [];
  staging_used = 0;
  stats = record { hits = 0; misses = 0; stores = 0 };
}

abbrev after : Manager Disk
after =
    (counted_store in_memory (some zstd)
      (put in_memory (record two { max_bytes = 0 }) (codes "k") (envelope 5 (b'Z' ∷ codes "kv")))
      manager).0

stored_after :
    store_state in_memory (some zstd) backend manager (codes "kv", 5) (codes "k") 5
    ≡ some (after, true)
unfolding store_state packed_state compress counted_store put refuses written
stored_after = refl

packed_small :
    (packed : Bytes)
    → packed_state (some zstd) true (codes "kv") ≡ some packed
    → length (codes "k") + length packed + 20 < 2 ^ 64
unfolding packed_state compress
packed_small packed h = omega (arith, ap length (sym (some_inj h)))

pub zstd-unpacks :
    (z : Zstd) → some zstd ≡ some z → (d p : Bytes) → z.pack d ≡ some p → z.unpack p ≡ some d
zstd-unpacks z e d p h =
    subst (λ y. y.pack d ≡ some p → y.unpack p ≡ some d) (some_inj e) (λ packed. sym packed) h

load_state-store_state_example :
    ((load_state in_memory (some zstd) backend after ([], 0) (codes "k")).1 ≡ (codes "kv", 5))
    × ((load_state in_memory (some zstd) backend after ([], 0) (codes "k")).2 ≡ true)
load_state-store_state_example =
    load_state-store_state in_memory (some zstd) backend in_memory-reads_back zstd-unpacks manager
      after (codes "kv", 5) ([], 0) (codes "k") 5 (omega arith) (omega arith) packed_small
      (unfold find_staged in refl) stored_after
