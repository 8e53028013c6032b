-- ===== src/Cache/Store/Reads.antt =====
-- cache/disk_cache_store.cpp: `get` and `clear` and the accounts.
use reame.Base.{
  ◌+◌, ◌^◌, ◌<◌, ◌≡◌, refl, sym, ap, ◌∙◌, inl, inr, Option, none, some, [], ◌∷◌, arith,
  Option-cases, Bytes, u64, list_eq_refl,
}
use reame.Cache.Store.{
  Entry, Entries, Store, Files, find, erase, remove, drop_entry, get, got, read_entry, clear,
  clear_loop,
}
use reame.Cache.Store.Entries.{
  sum_sizes, set_recency-Unique, sum_sizes-set_recency, set_recency-RecencyBelow,
  set_recency-Untied,
}
use reame.Cache.Store.Account.{IsValid, remove-IsValid}

module _ {D : Type 0} (f : Files D) where
  got-IsValid :
      (o : Option Bytes) (s : Store D) (key : Bytes)
      → IsValid s
      → s.next_recency + 1 < 2 ^ 64
      → IsValid (got f o s key).0
  unfolding got
  got-IsValid none s key v ticks = remove-IsValid f s key v
  got-IsValid (some payload) s key v ticks = record {
    unique = set_recency-Unique key s.next_recency s.entries v.unique;
    total = v.total ∙ sym (sum_sizes-set_recency key s.next_recency s.entries);
    range = v.range;
    fresh =
        let next : s.next_recency + 1 ≡ u64 (s.next_recency + 1) = omega arith in
        rw (← next) (set_recency-RecencyBelow key s.next_recency s.entries v.fresh);
    untied = set_recency-Untied key s.next_recency s.entries v.fresh v.untied;
  }

  -- A call of `get` keeps the accounts, whether it hits, misses or drops an unreadable entry, as
  -- long as the recency counter stays below 2 ^ 64.
  pub get-IsValid :
      (s : Store D) (key : Bytes)
      → IsValid s
      → s.next_recency + 1 < 2 ^ 64
      → IsValid (get f s key).0
  unfolding get
  get-IsValid s key v ticks = elim (Option-cases (find key s.entries)) [
    | inl e ↦ rw (e, get) v
    | inr (x, e) ↦ rw (e, get) (got-IsValid (read_entry f s key x) s key v ticks)
  ]

  remove_head :
      (s : Store D) (k : Bytes) (e : Entry) (es : Entries)
      → s.entries ≡ (k, e) ∷ es
      → (remove f s k).0.entries ≡ es
  unfolding remove drop_entry find erase
  remove_head s k e es h = ground (arith, list_eq_refl k)

  clear_loop_empties :
      (es : Entries) (s : Store D)
      → IsValid s
      → s.entries ≡ es
      → IsValid (clear_loop f es s) × ((clear_loop f es s).entries ≡ [])
  unfolding clear_loop
  clear_loop_empties [] s v h = (v, h)
  clear_loop_empties ((k, e) ∷ es) s v h =
      clear_loop_empties es (remove f s k).0 (remove-IsValid f s k v) (remove_head s k e es h)

  -- After `clear` the store is empty and its total is 0.
  pub clear_empties :
      (s : Store D)
      → IsValid s
      → IsValid (clear f s) × ((clear f s).entries ≡ []) × ((clear f s).total_bytes ≡ 0)
  unfolding clear sum_sizes
  clear_empties s v =
      let (v', e) = clear_loop_empties s.entries s v refl in (v', e, v'.total ∙ ap sum_sizes e)
