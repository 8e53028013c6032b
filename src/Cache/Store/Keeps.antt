-- ===== src/Cache/Store/Keeps.antt =====
-- cache/disk_cache_store.cpp: what holds of every payload that was put holds of all that is read.
use reame.Base.{
  ℕ, zero, suc, ◌≡◌, ◌⊎◌, refl, sym, ap, subst, ◌∙◌, inl, inr, true, false, Option, none, some,
  some_inj, [], ◌∷◌, Bool-cases, Option-cases, length, Bytes, list_eq, list_eq_iff, ◌==◌,
}
use reame.Cache.Store.{
  Entry, Entries, Store, Files, find, erase, set_recency, oldest_from, remove, drop_entry,
  evict_one, evict_loop, evict_until_fits, over_budget, read_entry, read_payload, got, get,
}
use reame.Cache.Store.Entries.{
  Unique, find-erase_self, find-erase_ne, erase-Unique, set_recency-Unique,
}

-- A write or a removal leaves the other files alone; a file that is written whole reads back so, and one
-- whose write fails is gone when it is removed.
pub record FilesLaws {D : Type 0} (f : Files D) : Type 0 where
  pub delete-reads :
      (d : D) (p q bytes : Bytes) → f.read (f.delete d p) q ≡ some bytes → f.read d q ≡ some bytes
  pub reads-back :
      (d : D) (p content : Bytes)
      → (f.write d p content).0 ≡ true
      → f.read (f.write d p content).1 p ≡ some content
  pub write-reads :
      (d : D) (p content q bytes : Bytes)
      → (f.write d p content).0 ≡ true
      → f.read (f.write d p content).1 q ≡ some bytes
      → ((q ≡ p) × (bytes ≡ content)) ⊎ (f.read d q ≡ some bytes)
  pub failed-reads :
      (d : D) (p content q bytes : Bytes)
      → (f.write d p content).0 ≡ false
      → f.read (f.delete (f.write d p content).1 p) q ≡ some bytes
      → f.read d q ≡ some bytes

find-set_recency :
    (k j : Bytes) (n : ℕ) (es : Entries) (x : Entry)
    → find j (set_recency k n es) ≡ some x
    → (e : Entry) × (find j es ≡ some e) × (e.path ≡ x.path) × (e.size ≡ x.size)
unfolding find set_recency
find-set_recency k j n [] x h = absurd (cc h)
find-set_recency k j n ((i, e) ∷ es) x h = elim (Bool-cases (list_eq i k)) [
  | inl touched ↦ elim (Bool-cases (list_eq i j)) [
    | inl same ↦
        let found : some (record e { recency = n }) ≡ some x =
          sym (rw (touched, set_recency) (rw (same, find) refl)) ∙ h in
        rw (same, find)
          (e, refl, ap (λ y. y.path) (some_inj found), ap (λ y. y.size) (some_inj found))
    | inr other ↦
        let found : find j es ≡ some x =
          sym (rw (touched, set_recency) (rw (other, find) refl)) ∙ h in
        rw (other, find) (x, found, refl, refl)
  ]
  | inr passed ↦ elim (Bool-cases (list_eq i j)) [
    | inl same ↦
        let found : some e ≡ some x = sym (rw (passed, set_recency) (rw (same, find) refl)) ∙ h in
        rw (same, find)
          (e, refl, ap (λ y. y.path) (some_inj found), ap (λ y. y.size) (some_inj found))
    | inr other ↦
        let found : find j (set_recency k n es) ≡ some x =
          sym (rw (passed, set_recency) (rw (other, find) refl)) ∙ h in
        rw (other, find) (find-set_recency k j n es x found)
  ]
]

module _ {D : Type 0} (f : Files D) (laws : FilesLaws f) (P : Bytes → Bytes → Type 0) where
  -- Each key once, and what an entry's file gives for its key satisfies `P`.
  pub record Keeps (s : Store D) : Type 0 where
    pub unique : Unique s.entries
    pub reads :
        (k : Bytes) (e : Entry) (payload : Bytes)
        → find k s.entries ≡ some e
        → read_entry f s k e ≡ some payload
        → P k payload

  -- Every file of `d'` is one of `d`.
  abbrev pub Fewer : D → D → Type 0
  Fewer d' d = (q bytes : Bytes) → f.read d' q ≡ some bytes → f.read d q ≡ some bytes

  pub read_entry-Fewer :
      (s s' : Store D) (k : Bytes) (e e' : Entry) (payload : Bytes)
      → Fewer s'.disk s.disk
      → e.path ≡ e'.path
      → e.size ≡ e'.size
      → read_entry f s' k e' ≡ some payload
      → read_entry f s k e ≡ some payload
  unfolding read_entry
  read_entry-Fewer s s' k e e' payload fewer p z h = elim (Option-cases (f.read s'.disk e'.path)) [
    | inl gone ↦ cc (sym (opened none gone) ∙ h)
    | inr (bytes, there) ↦
        rw (p, read_entry)
          (rw (fewer e'.path bytes there) (rw z (sym (opened (some bytes) there) ∙ h)))
  ]
    where
      opened :
          (o : Option Bytes)
          → f.read s'.disk e'.path ≡ o
          → read_entry f s' k e'
            ≡ elim o [ none ↦ none | some bytes ↦ read_payload e'.size k bytes ]
      opened o there = rw (there, read_entry) refl

  pub remove-Keeps : (s : Store D) (key : Bytes) → Keeps s → Keeps (remove f s key).0
  unfolding remove drop_entry
  remove-Keeps s key v = elim (Option-cases (find key s.entries)) [
    | inl absent ↦ rw (absent, drop_entry) v
    | inr (x, there) ↦
        rw (there, drop_entry)
          (record {
            unique = erase-Unique key s.entries v.unique;
            reads = λ k e payload found read. elim (Bool-cases (list_eq key k)) [
              | inl same ↦
                  cc (find-erase_self key s.entries v.unique, (list_eq_iff key k).0 same, found)
              | inr other ↦
                  v.reads k e payload (sym (find-erase_ne key k s.entries other) ∙ found) (
                    read_entry-Fewer s
                      (record s { disk = f.delete s.disk x.path; entries = erase key s.entries }) k
                      e e payload (laws.delete-reads s.disk x.path) refl refl
                      (unfold read_entry in read))
            ];
          })
  ]

  evict_one-Keeps : (s : Store D) → Keeps s → Keeps (evict_one f s.entries s)
  unfolding evict_one
  evict_one-Keeps s v = go s.entries
    where
      go : (es : Entries) → Keeps (evict_one f es s)
      go [] = v
      go (x ∷ es) = remove-Keeps s (oldest_from x es).0 v

  evict_loop-Keeps :
      (fuel : ℕ) (s : Store D) (incoming : ℕ) → Keeps s → Keeps (evict_loop f fuel s incoming)
  unfolding evict_loop
  evict_loop-Keeps zero s incoming v = v
  evict_loop-Keeps (suc fuel) s incoming v = elim (Bool-cases (over_budget f s incoming)) [
    | inl over ↦
        rw (over, evict_loop)
          (evict_loop-Keeps fuel (evict_one f s.entries s) incoming (evict_one-Keeps s v))
    | inr fits ↦ rw (fits, evict_loop) v
  ]

  pub evict_until_fits-Keeps :
      (s : Store D) (incoming : ℕ) → Keeps s → Keeps (evict_until_fits f s incoming)
  unfolding evict_until_fits
  evict_until_fits-Keeps s incoming v = elim (Bool-cases (s.max_bytes == 0)) [
    | inl free ↦ rw free v
    | inr limited ↦ rw limited (evict_loop-Keeps (length s.entries) s incoming v)
  ]

  got-Keeps : (o : Option Bytes) (s : Store D) (key : Bytes) → Keeps s → Keeps (got f o s key).0
  unfolding got
  got-Keeps none s key v = remove-Keeps s key v
  got-Keeps (some payload) s key v = record {
    unique = set_recency-Unique key s.next_recency s.entries v.unique;
    reads = λ k e payload' found read.
        let (e', found', p, z) = find-set_recency key k s.next_recency s.entries e found in
        v.reads k e' payload' found' (
          read_entry-Fewer s (record s { entries = set_recency key s.next_recency s.entries }) k e'
            e payload' (λ q b h. h) p z (unfold read_entry in read));
  }

  pub get-Keeps :
      (s : Store D) (key : Bytes)
      → Keeps s
      → Keeps (get f s key).0 × ((payload : Bytes) → (get f s key).1 ≡ some payload → P key payload)
  unfolding get got
  get-Keeps s key v = elim (Option-cases (find key s.entries)) [
    | inl absent ↦ rw (absent, get) (v, λ payload h. absurd (cc h))
    | inr (e, there) ↦ elim (Option-cases (read_entry f s key e)) [
      | inl unread ↦
          rw (there, get) (rw unread (got-Keeps none s key v, λ payload h. absurd (cc h)))
      | inr (payload, read) ↦
          rw (there, get)
            (rw read (
              got-Keeps (some payload) s key v,
              λ payload' h. subst (P key) (some_inj h) (v.reads key e payload there read),
            ))
    ]
  ]
