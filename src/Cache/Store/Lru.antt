-- ===== src/Cache/Store/Lru.antt =====
-- cache/disk_cache_store.cpp: which entries an eviction takes.
use reame.Base.{
  ℕ, zero, suc, ◌≤◌, ◌<◌, ◌≡◌, ◌≢◌, refl, sym, subst, ap, ◌∙◌, ◌⊎◌, inl, inr, none, some, [], ◌∷◌,
  arith, Bool-cases, Bytes, length, list_eq, list_eq_iff, ◌==◌, some_inj,
}
use reame.Cache.Store.{
  Entry, Entries, Store, Files, find, erase, oldest_from, remove, drop_entry, evict_one, evict_loop,
  evict_until_fits, over_budget,
}
use reame.Cache.Store.Entries.{
  Unique, Untied, oldest_from-NotOlder, NotOlder, All-find, erase-Differs, find-erase_ne,
  find-erase_self, All-erase,
}
use reame.Cache.Store.Account.{IsValid, evict_one-IsValid, evict_loop-Shrinks, oldest-found}

module _ {D : Type 0} (f : Files D) where
  entries-remove :
      (s : Store D) (key : Bytes) (x : Entry)
      → find key s.entries ≡ some x
      → (remove f s key).0.entries ≡ erase key s.entries
  unfolding remove drop_entry
  entries-remove s key x e = rw (e, drop_entry)

  -- One round takes the one entry that is less recent than all that stay, and changes no other.
  abbrev Evicts : Entries → Entries → Type 0
  Evicts es ds =
      (k : Bytes) (e : Entry)
      → find k es ≡ some e
      → (find k ds ≡ some e)
        ⊎ ((find k ds ≡ none)
            × ((j : Bytes) (x : Entry) → find j ds ≡ some x → e.recency < x.recency))

  erase-oldest :
      (x : Bytes × Entry) (es : Entries)
      → Unique (x ∷ es)
      → Untied (x ∷ es)
      → (j : Bytes) (y : Entry) → find j (erase (oldest_from x es).0 (x ∷ es)) ≡ some y
      → (oldest_from x es).1.recency < y.recency
  erase-oldest x es u t j y h =
      let o = oldest_from x es in
      let least = oldest_from-NotOlder x es in
      let le : o.1.recency ≤ y.recency =
        All-find (λ (e : Entry). o.1.recency ≤ e.recency) j (erase o.0 (x ∷ es)) y
          (All-erase (NotOlder o.1.recency) o.0 (x ∷ es) (least.0, least.1)) h in
      let ne : y.recency ≢ o.1.recency =
        All-find (λ (e : Entry). e.recency ≢ o.1.recency) j (erase o.0 (x ∷ es)) y
          (erase-Differs o.0 (x ∷ es) o.1 t (oldest-found f x es u)) h in
      omega arith

  -- All that is left was there before, as it was.
  abbrev Subset : Entries → Entries → Type 0
  Subset ds es = (j : Bytes) (x : Entry) → find j ds ≡ some x → find j es ≡ some x

  erase-Subset : (k : Bytes) (es : Entries) → Unique es → Subset (erase k es) es
  erase-Subset k es u j x h = elim (Bool-cases (list_eq k j)) [
    | inl same ↦
        cc (h, ap (λ i. find i (erase k es)) ((list_eq_iff k j).0 same), find-erase_self k es u)
    | inr other ↦ sym (find-erase_ne k j es other) ∙ h
  ]

  evict_one-Evicts :
      (s : Store D)
      → IsValid s
      → Subset (evict_one f s.entries s).entries s.entries
        × Evicts s.entries (evict_one f s.entries s).entries
  unfolding evict_one
  evict_one-Evicts s v = go s.entries refl
    where
      go :
          (es : Entries)
          → s.entries ≡ es
          → Subset (evict_one f es s).entries es × Evicts es (evict_one f es s).entries
      go [] e = (λ j x h. rw e at h, λ k x h. inl (rw e h))
      go (x ∷ es) e =
          let u : Unique (x ∷ es) = subst Unique e v.unique in
          let t : Untied (x ∷ es) = subst Untied e v.untied in
          let o = oldest_from x es in
          let found : find o.0 s.entries ≡ some o.1 = ap (find o.0) e ∙ oldest-found f x es u in
          let left : (remove f s o.0).0.entries ≡ erase o.0 (x ∷ es) =
            entries-remove s o.0 o.1 found ∙ ap (erase o.0) e in
          subst (λ (ds : Entries). Subset ds (x ∷ es) × Evicts (x ∷ es) ds) (sym left)
            (
              erase-Subset o.0 (x ∷ es) u,
              λ k y h. elim (Bool-cases (list_eq o.0 k)) [
                | inl same ↦ inr (
                  subst (λ i. find i (erase o.0 (x ∷ es)) ≡ none) ((list_eq_iff o.0 k).0 same)
                      (find-erase_self o.0 (x ∷ es) u),
                  λ j z h'.
                      let y_is : o.1 ≡ y = some_inj (
                        sym (oldest-found f x es u)
                        ∙ ap (λ i. find i (x ∷ es)) ((list_eq_iff o.0 k).0 same)
                        ∙ h) in
                      subst (λ (w : Entry). w.recency < z.recency) y_is
                        (erase-oldest x es u t j z h'),
                )
                | inr other ↦ inl (find-erase_ne o.0 k (x ∷ es) other ∙ h)
              ],
            )

  Evicts-trans :
      (es ds cs : Entries)
      → Subset cs ds
      → ((k : Bytes) → find k ds ≡ none → find k cs ≡ none)
      → Evicts es ds
      → Evicts ds cs
      → Evicts es cs
  Evicts-trans es ds cs sub gone first rest k e h = elim (first k e h) [
    | inl stays ↦ rest k e stays
    | inr (out, older) ↦ inr (gone k out, λ j x h'. older j x (sub j x h'))
  ]

  evict_loop-Evicts :
      (fuel : ℕ) (s : Store D) (incoming : ℕ)
      → IsValid s
      → Subset (evict_loop f fuel s incoming).entries s.entries
        × Evicts s.entries (evict_loop f fuel s incoming).entries
  unfolding evict_loop
  evict_loop-Evicts zero s incoming v = (λ j x h. h, λ k e h. inl h)
  evict_loop-Evicts (suc fuel) s incoming v = elim (Bool-cases (over_budget f s incoming)) [
    | inl over ↦
        let s' = evict_one f s.entries s in
        let v' = evict_one-IsValid f s v in
        let (sub, ev) = evict_one-Evicts s v in
        let (sub', ev') = evict_loop-Evicts fuel s' incoming v' in
        rw (over, evict_loop)
          (
            λ j x h. sub j x (sub' j x h),
            Evicts-trans s.entries s'.entries (evict_loop f fuel s' incoming).entries sub'
                (evict_loop-Shrinks f fuel s' incoming v').3 ev ev',
          )
    | inr fits ↦ rw (fits, evict_loop) (λ j x h. h, λ k e h. inl h)
  ]

  -- Eviction is least-recently-used: whatever it is to make room for, it adds and changes no entry,
  -- and an entry that it takes is less recent than every entry that stays.
  pub evict_until_fits-lru :
      (s : Store D) (incoming : ℕ)
      → IsValid s
      → ((j : Bytes) (x : Entry)
          → find j (evict_until_fits f s incoming).entries ≡ some x
          → find j s.entries ≡ some x)
        × ((k : Bytes) (e : Entry)
            → find k s.entries ≡ some e
            → (find k (evict_until_fits f s incoming).entries ≡ some e)
              ⊎ ((find k (evict_until_fits f s incoming).entries ≡ none)
                  × ((j : Bytes) (x : Entry)
                      → find j (evict_until_fits f s incoming).entries ≡ some x
                      → e.recency < x.recency)))
  unfolding evict_until_fits
  evict_until_fits-lru s incoming v = elim (Bool-cases (s.max_bytes == 0)) [
    | inl unlimited ↦ rw unlimited (λ j x h. h, λ k e h. inl h)
    | inr limited ↦ rw limited (evict_loop-Evicts (length s.entries) s incoming v)
  ]
