-- ===== src/Cache/Store/Account.antt =====
-- cache/disk_cache_store.cpp: the accounts of the store, and its budget.
use reame.Base.{
  ℕ, zero, suc, ◌+◌, ◌^◌, ◌≤◌, ◌<◌, ◌≡◌, refl, sym, ap, subst, ◌∙◌, inl, inr, true, false, none,
  some, [], ◌∷◌, arith, Bool-cases, Option-cases, length, All, Bytes, ◌==◌,
}
use reame.Cache.Store.{
  Entry, Entries, Store, Files, find, oldest_from, remove, drop_entry, evict_one, evict_loop,
  evict_until_fits, over_budget,
}
use reame.Cache.Store.Entries.{
  Unique, sum_sizes, RecencyBelow, Untied, find-erase_self, find-erase-none, erase-Unique,
  sum_sizes-erase, length-erase, All-erase, erase-Untied, FoundIn, Unique-FoundIn,
  oldest_from-FoundIn,
}

-- The total is the sum of the entries' sizes, with no wrap; each key stands once; the recencies
-- are below the next one, and no two are equal.
pub record IsValid {D : Type 0} (s : Store D) : Type 0 where
  pub unique : Unique s.entries
  pub total : s.total_bytes ≡ sum_sizes s.entries
  pub range : s.total_bytes < 2 ^ 64
  pub fresh : All (RecencyBelow s.next_recency) s.entries
  pub untied : Untied s.entries

module _ {D : Type 0} (f : Files D) where
  pub remove-IsValid : (s : Store D) (key : Bytes) → IsValid s → IsValid (remove f s key).0
  unfolding remove drop_entry
  remove-IsValid s key v = elim (Option-cases (find key s.entries)) [
    | inl e ↦ rw (e, drop_entry) v
    | inr (x, e) ↦
        rw (e, drop_entry)
          (record {
            unique = erase-Unique key s.entries v.unique;
            total = omega (arith, sum_sizes-erase key s.entries x e, v.total, v.range);
            range = omega arith;
            fresh = All-erase (RecencyBelow s.next_recency) key s.entries v.fresh;
            untied = erase-Untied key s.entries v.untied;
          })
  ]

  pub evict_one-IsValid : (s : Store D) → IsValid s → IsValid (evict_one f s.entries s)
  unfolding evict_one
  evict_one-IsValid s v = go s.entries
    where
      go : (es : Entries) → IsValid (evict_one f es s)
      go [] = v
      go (x ∷ es) = remove-IsValid s (oldest_from x es).0 v

  evict_loop-IsValid :
      (fuel : ℕ) (s : Store D) (incoming : ℕ) → IsValid s → IsValid (evict_loop f fuel s incoming)
  unfolding evict_loop
  evict_loop-IsValid zero s incoming v = v
  evict_loop-IsValid (suc fuel) s incoming v = elim (Bool-cases (over_budget f s incoming)) [
    | inl over ↦
        rw (over, evict_loop)
          (evict_loop-IsValid fuel (evict_one f s.entries s) incoming (evict_one-IsValid s v))
    | inr fits ↦ rw (fits, evict_loop) v
  ]

  pub evict_until_fits-IsValid :
      (s : Store D) (incoming : ℕ) → IsValid s → IsValid (evict_until_fits f s incoming)
  unfolding evict_until_fits
  evict_until_fits-IsValid s incoming v = elim (Bool-cases (s.max_bytes == 0)) [
    | inl unlimited ↦ rw unlimited v
    | inr limited ↦ rw limited (evict_loop-IsValid (length s.entries) s incoming v)
  ]

  -- What an eviction leaves alone, and that it only takes.
  abbrev pub Shrinks : Store D → Store D → Type 0
  Shrinks s s' =
      (s'.max_bytes ≡ s.max_bytes)
      × (s'.next_recency ≡ s.next_recency)
      × (s'.total_bytes ≤ s.total_bytes)
      × ((k : Bytes) → find k s.entries ≡ none → find k s'.entries ≡ none)

  pub remove-Shrinks : (s : Store D) (key : Bytes) → IsValid s → Shrinks s (remove f s key).0
  unfolding remove drop_entry
  remove-Shrinks s key v = elim (Option-cases (find key s.entries)) [
    | inl e ↦ rw (e, drop_entry) (refl, refl, omega arith, λ k h. h)
    | inr (x, e) ↦
        rw (e, drop_entry)
          (
            refl,
            refl,
            omega (arith, sum_sizes-erase key s.entries x e, v.total, v.range),
            λ k h. find-erase-none key k s.entries h,
          )
  ]

  evict_one-Shrinks : (s : Store D) → IsValid s → Shrinks s (evict_one f s.entries s)
  unfolding evict_one
  evict_one-Shrinks s v = go s.entries
    where
      go : (es : Entries) → Shrinks s (evict_one f es s)
      go [] = (refl, refl, omega arith, λ k h. h)
      go (x ∷ es) = remove-Shrinks s (oldest_from x es).0 v

  pub evict_loop-Shrinks :
      (fuel : ℕ) (s : Store D) (incoming : ℕ) → IsValid s → Shrinks s (evict_loop f fuel s incoming)
  unfolding evict_loop
  evict_loop-Shrinks zero s incoming v = (refl, refl, omega arith, λ k h. h)
  evict_loop-Shrinks (suc fuel) s incoming v = elim (Bool-cases (over_budget f s incoming)) [
    | inl over ↦
        rw (over, evict_loop)
          (let (m, n, t, none_stays) = evict_one-Shrinks s v in
            let (m', n', t', none_stays') =
              evict_loop-Shrinks fuel (evict_one f s.entries s) incoming (evict_one-IsValid s v) in
            (m' ∙ m, n' ∙ n, omega arith, λ k h. none_stays' k (none_stays k h)))
    | inr fits ↦ rw (fits, evict_loop) (refl, refl, omega arith, λ k h. h)
  ]

  pub evict_until_fits-Shrinks :
      (s : Store D) (incoming : ℕ) → IsValid s → Shrinks s (evict_until_fits f s incoming)
  unfolding evict_until_fits
  evict_until_fits-Shrinks s incoming v = elim (Bool-cases (s.max_bytes == 0)) [
    | inl unlimited ↦ rw unlimited (refl, refl, omega arith, λ k h. h)
    | inr limited ↦ rw limited (evict_loop-Shrinks (length s.entries) s incoming v)
  ]

  pub remove-length :
      (s : Store D) (key : Bytes) (e : Entry)
      → find key s.entries ≡ some e
      → length (remove f s key).0.entries + 1 ≡ length s.entries
  unfolding remove drop_entry
  remove-length s key e h = rw (h, drop_entry) (length-erase key s.entries e h)

  pub oldest-found :
      (x : Bytes × Entry) (es : Entries) → Unique (x ∷ es) → FoundIn (x ∷ es) (oldest_from x es)
  oldest-found x es u =
      let a = Unique-FoundIn (x ∷ es) u in oldest_from-FoundIn (x ∷ es) x es a.0 a.1

  evict_one-length :
      (s : Store D)
      → IsValid s
      → 0 < length s.entries
      → length (evict_one f s.entries s).entries + 1 ≡ length s.entries
  unfolding evict_one
  evict_one-length s v = go s.entries refl
    where
      go :
          (es : Entries)
          → s.entries ≡ es
          → 0 < length es
          → length (evict_one f es s).entries + 1 ≡ length es
      go [] e h = elim h [ ]
      go (x ∷ es) e h =
          let o = oldest_from x es in
          let found = oldest-found x es (subst Unique e v.unique) in
          subst (λ (ds : Entries). length (remove f s o.0).0.entries + 1 ≡ length ds) e
            (remove-length s o.0 o.1 (subst (λ (ds : Entries). FoundIn ds o) (sym e) found))

  over_budget-nonempty :
      (s : Store D) (incoming : ℕ) → over_budget f s incoming ≡ true → 0 < length s.entries
  unfolding over_budget
  over_budget-nonempty s incoming h = ground arith

  -- As many rounds as there are entries are enough.
  evict_loop_ends :
      (fuel : ℕ) (s : Store D) (incoming : ℕ)
      → IsValid s
      → length s.entries ≤ fuel
      → over_budget f (evict_loop f fuel s incoming) incoming ≡ false
  unfolding evict_loop
  evict_loop_ends zero s incoming v h = elim (Bool-cases (over_budget f s incoming)) [
    | inl over ↦ absurd (omega (arith, over_budget-nonempty s incoming over))
    | inr fits ↦ fits
  ]
  evict_loop_ends (suc fuel) s incoming v h = elim (Bool-cases (over_budget f s incoming)) [
    | inl over ↦
        let shorter = evict_one-length s v (over_budget-nonempty s incoming over) in
        rw (over, evict_loop)
          (evict_loop_ends fuel (evict_one f s.entries s) incoming (evict_one-IsValid s v)
            (omega (arith, shorter)))
    | inr fits ↦ rw (fits, evict_loop) fits
  ]

  within_budget :
      (s : Store D) (incoming : ℕ)
      → IsValid s
      → s.total_bytes + incoming < 2 ^ 64
      → incoming ≤ s.max_bytes
      → over_budget f s incoming ≡ false
      → s.total_bytes + incoming ≤ s.max_bytes
  unfolding over_budget sum_sizes
  within_budget s incoming v room small h = go s.entries refl
    where
      go : (es : Entries) → s.entries ≡ es → s.total_bytes + incoming ≤ s.max_bytes
      go [] e = omega (arith, v.total, ap sum_sizes e)
      go (x ∷ es) e = ground arith

  pub remove-find_self :
      (s : Store D) (key : Bytes) → IsValid s → find key (remove f s key).0.entries ≡ none
  unfolding remove drop_entry
  remove-find_self s key v = elim (Option-cases (find key s.entries)) [
    | inl e ↦ rw (e, drop_entry) e
    | inr (x, e) ↦ rw (e, drop_entry) (find-erase_self key s.entries v.unique)
  ]

  pub evict_until_fits-within :
      (s : Store D) (incoming : ℕ)
      → IsValid s
      → s.total_bytes + incoming < 2 ^ 64
      → (s.max_bytes == 0) ≡ false
      → incoming ≤ s.max_bytes
      → (evict_until_fits f s incoming).total_bytes + incoming ≤ s.max_bytes
  unfolding evict_until_fits
  evict_until_fits-within s incoming v room limited small =
      let s' : Store D = evict_loop f (length s.entries) s incoming in
      let shrinks = evict_loop-Shrinks (length s.entries) s incoming v in
      rw limited (
        subst (λ m. s'.total_bytes + incoming ≤ m) shrinks.0
          (within_budget s' incoming (evict_loop-IsValid (length s.entries) s incoming v)
            (omega (arith, shrinks.2)) (subst (λ m. incoming ≤ m) (sym shrinks.0) small)
            (evict_loop_ends (length s.entries) s incoming v (omega arith))))
