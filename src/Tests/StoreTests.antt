-- ===== src/Tests/StoreTests.antt =====
-- cache/disk_cache_store.cpp at concrete inputs.
use reame.Base.{
  ℕ, ◌≤◌, ◌<◌, ◌≡◌, refl, ◌⊎◌, true, false, Option, none, some, [], ◌∷◌, arith, if◌then◌else◌,
  Bytes, list_eq, list_eq_refl, le_bytes, from_le,
}
use reame.Cache.Store.{
  Files, Store, Entry, entry_size, put, get, find, clear, evict_until_fits, evict_loop, evict_one,
  over_budget, remove, drop_entry, written, record_entry, refuses, file_name, checksum, fnv_from,
  hex64, hex_from, hex_digit, file_bytes, read_entry, read_payload, read_bytes, got, erase,
  oldest_from, older, contains,
}
use reame.Cache.Store.Account.{IsValid}
use reame.Cache.Store.Entries.{sum_sizes}
use reame.Cache.Store.Put.{put-IsValid, put-budget}
use reame.Cache.Store.Reads.{get-IsValid, clear_empties}
use reame.Cache.Store.Recall.{get-put}
use reame.Cache.Store.Lru.{evict_until_fits-lru}

abbrev pub Disk : Type 0
Disk = Bytes → Option Bytes

-- A directory whose writes succeed.
abbrev pub in_memory : Files Disk
in_memory = record {
  read = λ d p. d p;
  write = λ d p c. (true, λ q. if list_eq p q then some c else d q);
  delete = λ d p q. if list_eq p q then none else d q;
}

pub in_memory-reads_back :
    (d : Disk) (name bytes : Bytes)
    → (in_memory.write d name bytes).0 ≡ true
    → in_memory.read (in_memory.write d name bytes).1 name ≡ some bytes
in_memory-reads_back d name bytes h = rw (list_eq_refl name) refl

abbrev pub key : ℕ → Bytes
key n = n ∷ []

-- Two entries of 8 bytes each under a budget of 20.
abbrev pub two : Store Disk
two = record {
  disk = λ p. none;
  max_bytes = 20;
  entries =
      (key 1, record { path = key 1; size = 8; recency = 2 })
      ∷ (key 2, record { path = key 2; size = 8; recency = 1 })
      ∷ [];
  total_bytes = 16;
  next_recency = 3;
}

two-IsValid : IsValid two
unfolding find list_eq sum_sizes
two-IsValid = record {
  unique = (refl, (refl, tt));
  total = refl;
  range = omega arith;
  fresh = omega arith;
  untied = omega arith;
}

put-IsValid_example : IsValid (put in_memory two (key 3) (7 ∷ 8 ∷ [])).0
unfolding entry_size
put-IsValid_example =
    put-IsValid in_memory two (key 3) (7 ∷ 8 ∷ []) two-IsValid (omega arith) (omega arith)

put-budget_example : (put in_memory two (key 3) (7 ∷ 8 ∷ [])).0.total_bytes ≤ 20
unfolding entry_size
put-budget_example =
    put-budget in_memory two (key 3) (7 ∷ 8 ∷ []) two-IsValid (omega arith) (omega arith)
      (omega arith) (omega arith)

get-IsValid_example : IsValid (get in_memory two (key 2)).0
get-IsValid_example = get-IsValid in_memory two (key 2) two-IsValid (omega arith)

abbrev after_put : Store Disk
after_put = (put in_memory two (key 3) (7 ∷ 8 ∷ [])).0

-- The older of the two makes room; what was put is read back.
put_evicts : contains after_put (key 2) ≡ false
unfolding contains put refuses entry_size evict_until_fits evict_loop evict_one over_budget remove
    drop_entry written record_entry find erase oldest_from older list_eq
put_evicts = refl

put_get : (get in_memory after_put (key 3)).1 ≡ some (7 ∷ 8 ∷ [])
unfolding get put refuses entry_size evict_until_fits evict_loop evict_one over_budget remove
    drop_entry written record_entry find erase oldest_from older list_eq file_name checksum fnv_from
    hex64 hex_from hex_digit file_bytes read_entry read_payload read_bytes got le_bytes from_le
put_get = refl

clear_empties_example :
    IsValid (clear in_memory two)
    × ((clear in_memory two).entries ≡ [])
    × ((clear in_memory two).total_bytes ≡ 0)
clear_empties_example = clear_empties in_memory two two-IsValid

evict_until_fits-lru_example :
    ((j : Bytes) (x : Entry)
      → find j (evict_until_fits in_memory two 7).entries ≡ some x
      → find j two.entries ≡ some x)
    × ((k : Bytes) (e : Entry)
        → find k two.entries ≡ some e
        → (find k (evict_until_fits in_memory two 7).entries ≡ some e)
          ⊎ ((find k (evict_until_fits in_memory two 7).entries ≡ none)
              × ((j : Bytes) (x : Entry)
                  → find j (evict_until_fits in_memory two 7).entries ≡ some x
                  → e.recency < x.recency)))
evict_until_fits-lru_example = evict_until_fits-lru in_memory two 7 two-IsValid

stored_third : (put in_memory two (key 3) (7 ∷ 8 ∷ [])).1 ≡ true
unfolding put refuses entry_size written
stored_third = refl

get-put_example :
    (get in_memory (put in_memory two (key 3) (7 ∷ 8 ∷ [])).0 (key 3)).1 ≡ some (7 ∷ 8 ∷ [])
get-put_example =
    get-put in_memory in_memory-reads_back two (key 3) (7 ∷ 8 ∷ []) (omega arith) (omega arith)
      stored_third
