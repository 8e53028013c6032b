-- ===== src/Cache/Store.antt =====
-- cache/disk_cache_store.cpp: an LRU byte store with one file per entry.
-- The file system is an argument. std::map is an association list, the newest key first: the
-- order is seen only by ties of `recency`, which there are none of.
pub mod Entries
pub mod Account
pub mod Put
pub mod Reads
pub mod Lru
pub mod Recall
pub mod Keeps
pub mod Written
use reame.Base.{
  ℕ, zero, suc, ◌+◌, ◌-◌, ◌/◌, ◌%◌, Bool, true, false, not, ◌&&◌, ◌||◌, Option, none, some, List,
  [], ◌∷◌, ◌++◌, ltb, leb, ◌==◌, if◌then◌else◌, length, take, drop, Bytes, list_eq, le_bytes,
  from_le, u32, u64, sub64, bit_xor, ◌*◌,
}

-- FNV-1a, 64 bits (KVCacheSerializer::checksum).
unfoldable pub fnv_from : ℕ → Bytes → ℕ
fnv_from h [] = h
fnv_from h (c ∷ cs) = fnv_from (u64 (bit_xor h c * 0x100_0000_01b3)) cs

unfoldable pub checksum : Bytes → ℕ
checksum bytes = fnv_from 0xcbf2_9ce4_8422_2325 bytes

unfoldable pub hex_digit : ℕ → ℕ
hex_digit d = if ltb d 10 then d + b'0' else d - 10 + b'a'

-- The `n` low digits, the last first.
unfoldable pub hex_from : ℕ → ℕ → Bytes → Bytes
hex_from zero v out = out
hex_from (suc n) v out = hex_from n (v / 16) (hex_digit (v % 16) ∷ out)

unfoldable pub hex64 : ℕ → Bytes
hex64 v = hex_from 16 v []

-- The name of an entry's file, within the directory.
unfoldable pub file_name : Bytes → Bytes
file_name key = hex64 (checksum key) ++ b'.' ∷ b'k' ∷ b'v' ∷ b'c' ∷ []

-- std::filesystem and the streams over the cache directory. `read` is `none` where the file cannot
-- be opened; a failed `write` says `false`, as the stream does before it is flushed, and what it leaves
-- on disk is open. `delete`, fs::remove, is taken to throw nothing.
pub record Files (D : Type 0) : Type 0 where
  pub read : D → Bytes → Option Bytes
  pub write : D → Bytes → Bytes → Bool × D
  pub delete : D → Bytes → D

pub record Entry : Type 0 where
  pub path : Bytes
  pub size : ℕ
  pub recency : ℕ

abbrev pub Entries : Type 0
Entries = List (Bytes × Entry)

pub record Store (D : Type 0) : Type 0 where
  pub disk : D
  pub max_bytes : ℕ
  pub entries : Entries
  pub total_bytes : ℕ
  pub next_recency : ℕ

unfoldable pub find : Bytes → Entries → Option Entry
find key [] = none
find key ((k, e) ∷ es) = if list_eq k key then some e else find key es

unfoldable pub erase : Bytes → Entries → Entries
erase key [] = []
erase key ((k, e) ∷ es) = if list_eq k key then es else (k, e) ∷ erase key es

unfoldable pub older : Bytes × Entry → Bytes × Entry → Bytes × Entry
older best x = if ltb x.1.recency best.1.recency then x else best

-- The entry that std::min_element finds by recency: `best` is the least so far.
unfoldable pub oldest_from : Bytes × Entry → Entries → Bytes × Entry
oldest_from best [] = best
oldest_from best (x ∷ es) = oldest_from (older best x) es

-- A write to an entry that is there (`it->second.recency = …`).
unfoldable pub set_recency : Bytes → ℕ → Entries → Entries
set_recency key n [] = []
set_recency key n ((k, e) ∷ es) =
    if list_eq k key then (k, record e { recency = n }) ∷ es else (k, e) ∷ set_recency key n es

unfoldable pub entry_size : Bytes → Bytes → ℕ
entry_size key payload = u64 (4 + length key + length payload)

unfoldable pub contains : {D : Type 0} → Store D → Bytes → Bool
contains s key = elim (find key s.entries) [ none ↦ false | some e ↦ true ]

unfoldable pub size_bytes : {D : Type 0} → Store D → ℕ
size_bytes s = s.total_bytes

unfoldable pub count : {D : Type 0} → Store D → ℕ
count s = length s.entries

-- `in.read(p, n)`: the bytes and the rest, or a failed stream.
unfoldable pub read_bytes : ℕ → Bytes → Option (Bytes × Bytes)
read_bytes n bytes = if ltb (length bytes) n then none else some (take n bytes, drop n bytes)

-- The file of an entry: u32 key length, key bytes, payload.
unfoldable pub file_bytes : Bytes → Bytes → Bytes
file_bytes key payload = le_bytes 4 (length key) ++ (key ++ payload)

-- What `get` reads of a file: the payload, if the stored key is `key` and nothing is cut short.
unfoldable pub read_payload : ℕ → Bytes → Bytes → Option Bytes
read_payload size key bytes = elim (read_bytes 4 bytes) [
  | none ↦ none
  | some (header, rest) ↦ elim (read_bytes (from_le header) rest) [
    | none ↦ none
    | some (stored, body) ↦
        if list_eq stored key
        then elim (read_bytes (sub64 (sub64 size 4) (length key)) body) [
          | none ↦ none
          | some (payload, tail) ↦ some payload
        ]
        else none
  ]
]

module _ {D : Type 0} (f : Files D) where
  unfoldable pub drop_entry : Bytes → Option Entry → Store D → Store D × Bool
  drop_entry key none s = (s, false)
  drop_entry key (some e) s = (
    record s {
      disk = f.delete s.disk e.path;
      total_bytes = sub64 s.total_bytes e.size;
      entries = erase key s.entries;
    },
    true,
  )

  unfoldable pub remove : Store D → Bytes → Store D × Bool
  remove s key = drop_entry key (find key s.entries) s

  unfoldable pub clear_loop : Entries → Store D → Store D
  clear_loop [] s = s
  clear_loop ((k, e) ∷ es) s = clear_loop es (remove s k).0

  -- `while (!entries_.empty()) remove(entries_.begin()->first)`
  unfoldable pub clear : Store D → Store D
  clear s = clear_loop s.entries s

  -- One round of `evict_until_fits`.
  unfoldable pub evict_one : Entries → Store D → Store D
  evict_one [] s = s
  evict_one (x ∷ es) s = (remove s (oldest_from x es).0).0

  unfoldable pub over_budget : Store D → ℕ → Bool
  over_budget s incoming = elim s.entries [
    | [] ↦ false
    | x ∷ es ↦ ltb s.max_bytes (u64 (s.total_bytes + incoming))
  ]

  unfoldable pub evict_loop : ℕ → Store D → ℕ → Store D
  evict_loop zero s incoming = s
  evict_loop (suc fuel) s incoming = elim (over_budget s incoming) [
    | true ↦ evict_loop fuel (evict_one s.entries s) incoming
    | false ↦ s
  ]

  unfoldable pub evict_until_fits : Store D → ℕ → Store D
  evict_until_fits s incoming =
      if s.max_bytes == 0 then s else evict_loop (length s.entries) s incoming

  unfoldable pub record_entry : Store D → D → Bytes → ℕ → Store D
  record_entry s disk key incoming = record s {
    disk = disk;
    entries =
        (key, record { path = file_name key; size = incoming; recency = s.next_recency })
        ∷ s.entries;
    total_bytes = u64 (s.total_bytes + incoming);
    next_recency = u64 (s.next_recency + 1);
  }

  unfoldable pub written : Bool × D → Store D → Bytes → ℕ → Store D × Bool
  written (true, d) s key incoming = (record_entry s d key incoming, true)
  written (false, d) s key incoming = (record s { disk = f.delete d (file_name key) }, false)

  -- Larger than the whole budget.
  unfoldable pub refuses : Store D → ℕ → Bool
  refuses s incoming = not (s.max_bytes == 0) && ltb s.max_bytes incoming

  -- The key is absent after `remove`, so the assignment to `entries_[key]` inserts.
  unfoldable pub put : Store D → Bytes → Bytes → Store D × Bool
  put s key data' =
      let incoming = entry_size key data' in
      if refuses s incoming
      then (s, false)
      else let s' = evict_until_fits (remove s key).0 incoming in
        written (f.write s'.disk (file_name key) (file_bytes key data')) s' key incoming

  unfoldable pub got : Option Bytes → Store D → Bytes → Store D × Option Bytes
  got none s key = ((remove s key).0, none)
  got (some payload) s key = (
    record s {
      entries = set_recency key s.next_recency s.entries;
      next_recency = u64 (s.next_recency + 1);
    },
    some payload,
  )

  unfoldable pub read_entry : Store D → Bytes → Entry → Option Bytes
  read_entry s key e = elim (f.read s.disk e.path) [
    | none ↦ none
    | some bytes ↦ read_payload e.size key bytes
  ]

  unfoldable pub get : Store D → Bytes → Store D × Option Bytes
  get s key = elim (find key s.entries) [
    | none ↦ (s, none)
    | some e ↦ got (read_entry s key e) s key
  ]
