-- ===== src/Cache/Store/Written.antt =====
-- cache/disk_cache_store.cpp: a put of a payload of which `P` holds keeps that of all that is read.
use reame.Base.{
  ℕ, zero, suc, ◌+◌, ◌^◌, ◌<◌, ◌≡◌, refl, sym, ap, subst, ◌∙◌, inl, inr, true, false, Option, none,
  some, some_inj, [], ◌∷◌, Bool-cases, Option-cases, length, Bytes, list_eq, list_eq_iff, ◌==◌,
}
use reame.Cache.Store.{
  Entry, Entries, Store, Files, find, oldest_from, remove, drop_entry, evict_one, evict_loop,
  evict_until_fits, over_budget, read_entry, read_payload, file_bytes, file_name, entry_size, put,
  refuses, written, record_entry,
}
use reame.Cache.Store.Recall.{read_payload-file_bytes, read_payload-other}
use reame.Cache.Store.Entries.{Unique, find-erase_self, find-erase-none}
use reame.Cache.Store.Keeps.{
  FilesLaws, Keeps, read_entry-Fewer, remove-Keeps, evict_until_fits-Keeps,
}

module _ {D : Type 0} (f : Files D) (laws : FilesLaws f) (P : Bytes → Bytes → Type 0) where
  remove-absent :
      (s : Store D) (key j : Bytes)
      → find j s.entries ≡ none
      → find j (remove f s key).0.entries ≡ none
  unfolding remove drop_entry
  remove-absent s key j h = elim (Option-cases (find key s.entries)) [
    | inl absent ↦ rw (absent, drop_entry) h
    | inr (x, there) ↦ rw (there, drop_entry) (find-erase-none key j s.entries h)
  ]

  remove-absent_self :
      (s : Store D) (key : Bytes) → Unique s.entries → find key (remove f s key).0.entries ≡ none
  unfolding remove drop_entry
  remove-absent_self s key u = elim (Option-cases (find key s.entries)) [
    | inl absent ↦ rw (absent, drop_entry) absent
    | inr (x, there) ↦ rw (there, drop_entry) (find-erase_self key s.entries u)
  ]

  evict_loop-absent :
      (fuel : ℕ) (s : Store D) (incoming : ℕ) (j : Bytes)
      → find j s.entries ≡ none
      → find j (evict_loop f fuel s incoming).entries ≡ none
  unfolding evict_loop evict_one
  evict_loop-absent zero s incoming j h = h
  evict_loop-absent (suc fuel) s incoming j h = elim (Bool-cases (over_budget f s incoming)) [
    | inl over ↦
        rw (over, evict_loop)
          (evict_loop-absent fuel (evict_one f s.entries s) incoming j (go s.entries))
    | inr fits ↦ rw (fits, evict_loop) h
  ]
    where
      go : (es : Entries) → find j (evict_one f es s).entries ≡ none
      go [] = h
      go (x ∷ es) = remove-absent s (oldest_from x es).0 j h

  evict_until_fits-absent :
      (s : Store D) (incoming : ℕ) (j : Bytes)
      → find j s.entries ≡ none
      → find j (evict_until_fits f s incoming).entries ≡ none
  unfolding evict_until_fits
  evict_until_fits-absent s incoming j h = elim (Bool-cases (s.max_bytes == 0)) [
    | inl free ↦ rw free h
    | inr limited ↦ rw limited (evict_loop-absent (length s.entries) s incoming j h)
  ]

  -- What an entry reads once the file of `key` is written.
  read_entry-written :
      (s s' : Store D) (key value : Bytes) (k : Bytes) (e : Entry) (payload : Bytes)
      → (f.write s.disk (file_name key) (file_bytes key value)).0 ≡ true
      → s'.disk ≡ (f.write s.disk (file_name key) (file_bytes key value)).1
      → length key < 2 ^ 32
      → list_eq key k ≡ false
      → read_entry f s' k e ≡ some payload
      → read_entry f s k e ≡ some payload
  unfolding read_entry
  read_entry-written s s' key value k e payload ok disk h other read =
      elim (Option-cases (f.read s'.disk e.path)) [
        | inl gone ↦ cc (sym (opened none gone) ∙ read)
        | inr (bytes, there) ↦
            elim (laws.write-reads s.disk (file_name key) (file_bytes key value) e.path bytes ok
              (subst (λ d. f.read d e.path ≡ some bytes) disk there)) [
                | inl (p, b) ↦ cc (
                  sym (opened (some bytes) there) ∙ read,
                  ap (read_payload e.size k) b,
                  read_payload-other e.size key k value h other,
                )
                | inr old ↦ rw (old, read_entry) (sym (opened (some bytes) there) ∙ read)
              ]
      ]
    where
      opened :
          (o : Option Bytes)
          → f.read s'.disk e.path ≡ o
          → read_entry f s' k e ≡ elim o [ none ↦ none | some bytes ↦ read_payload e.size k bytes ]
      opened o there = rw (there, read_entry) refl

  -- The new entry reads back what was put.
  put_payload :
      (s : Store D) (key value payload : Bytes)
      → (f.write s.disk (file_name key) (file_bytes key value)).0 ≡ true
      → f.read (f.write s.disk (file_name key) (file_bytes key value)).1 (file_name key)
        ≡ some (file_bytes key value)
      → length key < 2 ^ 32
      → length key + length value + 4 < 2 ^ 64
      → P key value
      → read_entry f
          (record_entry f s
            (f.write s.disk (file_name key) (file_bytes key value)).1
            key
            (entry_size key value))
          key
          (record { path = file_name key; size = entry_size key value; recency = s.next_recency })
        ≡ some payload
      → P key payload
  unfolding read_entry record_entry
  put_payload s key value payload ok back h l holds read =
      subst (P key)
        (some_inj (sym (rw (back, read_entry) (read_payload-file_bytes key value h l)) ∙ read))
        holds

  written-Keeps :
      (s : Store D) (key value : Bytes)
      → Keeps f laws P s
      → find key s.entries ≡ none
      → length key < 2 ^ 32
      → length key + length value + 4 < 2 ^ 64
      → P key value
      → Keeps f laws P
          (written f
            (f.write s.disk (file_name key) (file_bytes key value))
            s
            key
            (entry_size key value)).0
  unfolding written record_entry find
  written-Keeps s key value v absent h l holds =
      let file = f.write s.disk (file_name key) (file_bytes key value) in
      elim (Bool-cases file.0) [
        | inl ok ↦
            let s' = record_entry f s file.1 key (entry_size key value) in
            rw ok (record {
              unique = (absent, v.unique);
              reads = λ k e payload found read. elim (Bool-cases (list_eq key k)) [
                | inl same ↦
                    let e_is : (record {
                      path = file_name key;
                      size = entry_size key value;
                      recency = s.next_recency;
                    })
                        ≡ e =
                      some_inj (sym (rw (same, find) refl) ∙ found) in
                    let exact : P key payload =
                      put_payload s key value payload ok
                        (laws.reads-back s.disk (file_name key) (file_bytes key value) ok) h l holds
                        (subst (λ x. read_entry f s' key x ≡ some payload) (sym e_is)
                          (subst (λ j. read_entry f s' j e ≡ some payload)
                            (sym ((list_eq_iff key k).0 same)) read)) in
                    subst (λ j. P j payload) ((list_eq_iff key k).0 same) exact
                | inr other ↦
                    v.reads k e payload (sym (rw (other, find) refl) ∙ found)
                      (read_entry-written s s' key value k e payload ok refl h other read)
              ];
            })
        | inr failed ↦ rw failed (record {
          unique = v.unique;
          reads = λ k e payload found read. v.reads k e payload found (
              read_entry-Fewer f laws P s (record s { disk = f.delete file.1 (file_name key) }) k e
                e payload
                (λ q bytes.
                  laws.failed-reads s.disk (file_name key) (file_bytes key value) q bytes failed)
                refl refl read);
        })
      ]

  pub put-Keeps :
      (s : Store D) (key value : Bytes)
      → Keeps f laws P s
      → length key < 2 ^ 32
      → length key + length value + 4 < 2 ^ 64
      → P key value
      → Keeps f laws P (put f s key value).0
  unfolding put
  put-Keeps s key value v h l holds = elim (Bool-cases (refuses f s (entry_size key value))) [
    | inl no_room ↦ rw no_room v
    | inr fits ↦
        let s' = evict_until_fits f (remove f s key).0 (entry_size key value) in
        rw fits (
          written-Keeps s' key value
            (evict_until_fits-Keeps f laws P (remove f s key).0 (entry_size key value)
              (remove-Keeps f laws P s key v))
            (evict_until_fits-absent (remove f s key).0 (entry_size key value) key
              (remove-absent_self s key v.unique))
            h l holds)
  ]
