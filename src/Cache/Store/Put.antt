-- ===== src/Cache/Store/Put.antt =====
-- cache/disk_cache_store.cpp: `put` and the accounts.
use reame.Base.{
  All-weaken, ℕ, ◌+◌, ◌^◌, ◌≤◌, ◌<◌, ◌≡◌, subst, ◌∙◌, inl, inr, Bool, true, false, none, arith,
  Bool-cases, Bytes,
}
use reame.Cache.Store.{
  Store, Files, find, remove, evict_until_fits, put, written, record_entry, entry_size, refuses,
}
use reame.Cache.Store.Entries.{sum_sizes}
use reame.Cache.Store.Account.{
  IsValid, Shrinks, remove-IsValid, remove-Shrinks, remove-find_self, evict_until_fits-IsValid,
  evict_until_fits-Shrinks, evict_until_fits-within,
}

module _ {D : Type 0} (f : Files D) where
  -- The state in which `put` writes the file.
  abbrev pub room_for : Store D → Bytes → ℕ → Store D
  room_for s key incoming = evict_until_fits f (remove f s key).0 incoming

  pub room_for-facts :
      (s : Store D) (key : Bytes) (incoming : ℕ)
      → IsValid s
      → IsValid (room_for s key incoming)
        × Shrinks f s (room_for s key incoming)
        × (find key (room_for s key incoming).entries ≡ none)
  room_for-facts s key incoming v =
      let v' = remove-IsValid f s key v in
      let (m, n, t, k) = remove-Shrinks f s key v in
      let (m', n', t', k') = evict_until_fits-Shrinks f (remove f s key).0 incoming v' in
      (
        evict_until_fits-IsValid f (remove f s key).0 incoming v',
        (m' ∙ m, n' ∙ n, omega arith, λ j h. k' j (k j h)),
        k' key (remove-find_self f s key v),
      )

  record_entry-IsValid :
      (s : Store D) (disk : D) (key : Bytes) (incoming : ℕ)
      → IsValid s
      → find key s.entries ≡ none
      → s.total_bytes + incoming < 2 ^ 64
      → s.next_recency + 1 < 2 ^ 64
      → IsValid (record_entry f s disk key incoming)
  unfolding record_entry sum_sizes
  record_entry-IsValid s disk key incoming v absent room ticks = record {
    unique = (absent, v.unique);
    total = omega (arith, v.total);
    range = omega arith;
    fresh = (omega arith, All-weaken s.entries (λ x lt. omega arith) v.fresh);
    untied = (All-weaken s.entries (λ x lt. omega arith) v.fresh, v.untied);
  }

  written-IsValid :
      (result : Bool × D) (s : Store D) (key : Bytes) (incoming : ℕ)
      → IsValid s
      → find key s.entries ≡ none
      → s.total_bytes + incoming < 2 ^ 64
      → s.next_recency + 1 < 2 ^ 64
      → IsValid (written f result s key incoming).0
  unfolding written
  written-IsValid (true, d) s key incoming v absent room ticks =
      record_entry-IsValid s d key incoming v absent room ticks
  written-IsValid (false, d) s key incoming v absent room ticks = record {
    unique = v.unique;
    total = v.total;
    range = v.range;
    fresh = v.fresh;
    untied = v.untied;
  }

  -- A call of `put` keeps the accounts, whether it succeeds, is refused or fails to write, as long
  -- as the byte total and the recency counter stay below 2 ^ 64.
  pub put-IsValid :
      (s : Store D) (key payload : Bytes)
      → IsValid s
      → s.total_bytes + entry_size key payload < 2 ^ 64
      → s.next_recency + 1 < 2 ^ 64
      → IsValid (put f s key payload).0
  unfolding put
  put-IsValid s key payload v room ticks =
      let incoming = entry_size key payload in
      let (v', (_, n, t, _), absent) = room_for-facts s key incoming v in
      elim (Bool-cases (refuses f s incoming)) [
        | inl no_room ↦ rw no_room v
        | inr fits ↦ rw fits (
            written-IsValid _ (room_for s key incoming) key incoming v' absent (omega arith)
              (omega arith))
      ]

  written-within :
      (result : Bool × D) (s : Store D) (key : Bytes) (incoming n : ℕ)
      → s.total_bytes + incoming ≤ n
      → n < 2 ^ 64
      → (written f result s key incoming).0.total_bytes ≤ n
  unfolding written record_entry
  written-within (true, d) s key incoming n h k = omega arith
  written-within (false, d) s key incoming n h k = omega arith

  -- With a budget set, the total is within it after every put that is not refused outright.
  pub put-budget :
      (s : Store D) (key payload : Bytes)
      → IsValid s
      → 0 < s.max_bytes
      → s.max_bytes < 2 ^ 64
      → s.total_bytes + entry_size key payload < 2 ^ 64
      → entry_size key payload ≤ s.max_bytes
      → (put f s key payload).0.total_bytes ≤ s.max_bytes
  unfolding put
  put-budget s key payload v limited range room small =
      let incoming = entry_size key payload in
      let fits : refuses f s incoming ≡ false = unfold refuses in ground arith in
      let s' = (remove f s key).0 in
      let (m, _, t, _) = remove-Shrinks f s key v in
      rw fits (
        written-within _ (room_for s key incoming) key incoming s.max_bytes
          (subst (λ k. (room_for s key incoming).total_bytes + incoming ≤ k) m
            (evict_until_fits-within f s' incoming (remove-IsValid f s key v) (omega arith)
              (ground (arith, m)) (omega (arith, m))))
          range)
