-- ===== src/Cache/Store/Recall.antt =====
-- cache/disk_cache_store.cpp: what `put` writes, `get` reads back.
use reame.Base.{
  ℕ, ◌+◌, ◌^◌, ◌<◌, ◌≡◌, refl, sym, subst, ◌∙◌, ap, inl, inr, Bool, true, false, none, some, List,
  [], ◌∷◌, ◌++◌, arith, Bool-cases, ltb, if◌then◌else◌, length, length-append, take-length-append,
  drop-length-append, Bytes, list_eq, list_eq_refl, sub64, le_bytes, from_le, from_le-le_bytes_four,
  length-le_bytes,
}
use mathlib.Core.List.{append-nil}
use reame.Cache.Store.{
  Files, Store, Entry, find, entry_size, file_name, file_bytes, read_bytes, read_payload, refuses,
  remove, evict_until_fits, written, record_entry, put, got, read_entry, get,
}

read_bytes-append : (xs ys : Bytes) → read_bytes (length xs) (xs ++ ys) ≡ some (xs, ys)
unfolding read_bytes
read_bytes-append xs ys =
    let enough : ltb (length (xs ++ ys)) (length xs) ≡ false =
      ground (arith, length-append xs ys) in
    rw (enough, take-length-append xs ys, drop-length-append xs ys) refl

read_bytes-header :
    (v : ℕ) (ys : Bytes) → read_bytes 4 (le_bytes 4 v ++ ys) ≡ some (le_bytes 4 v, ys)
read_bytes-header v ys =
    ap (λ n. read_bytes n (le_bytes 4 v ++ ys)) (sym (length-le_bytes 4 v))
    ∙ read_bytes-append (le_bytes 4 v) ys

read_bytes-all : (xs : Bytes) → read_bytes (length xs) xs ≡ some (xs, [])
read_bytes-all xs =
    subst (λ zs. read_bytes (length xs) zs ≡ some (xs, [])) (append-nil xs)
      (read_bytes-append xs [])

-- The file of an entry gives back its payload, if its length fits the header and the size is a word.
pub read_payload-file_bytes :
    (key value : Bytes)
    → length key < 2 ^ 32
    → length key + length value + 4 < 2 ^ 64
    → read_payload (entry_size key value) key (file_bytes key value) ≡ some value
unfolding read_payload file_bytes
read_payload-file_bytes key value h k =
    let size : sub64 (sub64 (entry_size key value) 4) (length key) ≡ length value =
      unfold entry_size in omega arith in
    let header : from_le (le_bytes 4 (length key)) ≡ length key =
      omega (arith, from_le-le_bytes_four (length key)) in
    rw (read_bytes-header (length key) (key ++ value), read_payload)
      (rw (header, read_bytes-append key value)
        (rw (list_eq_refl key, size, read_bytes-all value) refl))

-- The file of another key gives nothing.
pub read_payload-other :
    (size : ℕ) (key other value : Bytes)
    → length key < 2 ^ 32
    → list_eq key other ≡ false
    → read_payload size other (file_bytes key value) ≡ none
unfolding read_payload file_bytes
read_payload-other size key other value h ne =
    let header : from_le (le_bytes 4 (length key)) ≡ length key =
      omega (arith, from_le-le_bytes_four (length key)) in
    rw (read_bytes-header (length key) (key ++ value), read_payload)
      (rw (header, read_bytes-append key value) (rw ne refl))

find-head :
    (key : Bytes) (e : Entry) (es : List (Bytes × Entry)) → find key ((key, e) ∷ es) ≡ some e
unfolding find
find-head key e es = rw (list_eq_refl key) refl

module _ {D : Type 0} (f : Files D)
    (reads_back : (d : D) (name bytes : Bytes)
      → (f.write d name bytes).0 ≡ true
      → f.read (f.write d name bytes).1 name ≡ some bytes) where
  read_entry-back :
      (s : Store D) (key value : Bytes) (e : Entry)
      → length key < 2 ^ 32
      → length key + length value + 4 < 2 ^ 64
      → e.size ≡ entry_size key value
      → f.read s.disk e.path ≡ some (file_bytes key value)
      → read_entry f s key e ≡ some value
  unfolding read_entry
  read_entry-back s key value e h k size back =
      rw (back, read_entry) (rw size (read_payload-file_bytes key value h k))

  get-found :
      (s : Store D) (key value : Bytes) (e : Entry)
      → find key s.entries ≡ some e
      → read_entry f s key e ≡ some value
      → (get f s key).1 ≡ some value
  unfolding get got
  get-found s key value e found back = rw (found, get) (rw (back, got) refl)

  get-written :
      (s : Store D) (key value : Bytes)
      → length key < 2 ^ 32
      → length key + length value + 4 < 2 ^ 64
      → (f.write s.disk (file_name key) (file_bytes key value)).0 ≡ true
      → (get f
          (record_entry f s
            (f.write s.disk (file_name key) (file_bytes key value)).1
            key
            (entry_size key value))
          key).1
        ≡ some value
  unfolding record_entry
  get-written s key value h k ok =
      let stored : Entry = record {
        path = file_name key;
        size = entry_size key value;
        recency = s.next_recency;
      } in
      let s' =
        record_entry f s (f.write s.disk (file_name key) (file_bytes key value)).1 key
          (entry_size key value) in
      get-found s' key value stored (find-head key stored s.entries) (
        read_entry-back s' key value stored h k refl
          (reads_back s.disk (file_name key) (file_bytes key value) ok))

  written-true :
      (w : Bool × D) (s : Store D) (key : Bytes) (incoming : ℕ)
      → (written f w s key incoming).1 ≡ true
      → (w.0 ≡ true) × ((written f w s key incoming).0 ≡ record_entry f s w.1 key incoming)
  unfolding written
  written-true (true, d) s key incoming h = (refl, refl)
  written-true (false, d) s key incoming h = cc

  -- Right after a put that succeeds, get with its key returns its payload, for keys shorter than 2^32
  -- and a file shorter than 2^64, where a file that is written whole reads back as it was written.
  pub get-put :
      (s : Store D) (key value : Bytes)
      → length key < 2 ^ 32
      → length key + length value + 4 < 2 ^ 64
      → (put f s key value).1 ≡ true
      → (get f (put f s key value).0 key).1 ≡ some value
  unfolding put
  get-put s key value h k ok = elim (Bool-cases (refuses f s (entry_size key value))) [
    | inl e ↦ ground arith
    | inr e ↦
        let s' = evict_until_fits f (remove f s key).0 (entry_size key value) in
        let w = f.write s'.disk (file_name key) (file_bytes key value) in
        let (stored, same) = written-true w s' key (entry_size key value) (
          subst
            (λ t. (if t then (s, false) else written f w s' key (entry_size key value)).1 ≡ true) e
            ok) in
        rw (e, same) (get-written s' key value h k stored)
  ]
