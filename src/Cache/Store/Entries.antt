-- ===== src/Cache/Store/Entries.antt =====
-- cache/disk_cache_store.cpp: the map of entries.
use reame.Base.{
  All-weaken, ℕ, ◌+◌, ◌≤◌, ◌<◌, ◌≡◌, refl, sym, ap, subst, ◌≢◌, inl, inr, false, none, some, [],
  ◌∷◌, arith, Bool-cases, if◌then◌else◌, length, All, Bytes, list_eq, list_eq_refl, list_eq_iff,
  ltb,
}
use reame.Cache.Store.{Entry, Entries, find, erase, set_recency, oldest_from, older}

-- Each key once.
abbrev pub Unique : Entries → Type 0
Unique [] = Unit
Unique ((k, e) ∷ es) = (find k es ≡ none) × Unique es

unfoldable pub sum_sizes : Entries → ℕ
sum_sizes [] = 0
sum_sizes ((k, e) ∷ es) = e.size + sum_sizes es

abbrev pub RecencyBelow : ℕ → Bytes × Entry → Type 0
RecencyBelow n x = x.1.recency < n

abbrev pub Differs : ℕ → Bytes × Entry → Type 0
Differs n x = x.1.recency ≢ n

-- No two entries have the same recency.
abbrev pub Untied : Entries → Type 0
Untied [] = Unit
Untied (x ∷ es) = All (Differs x.1.recency) es × Untied es

pub find-erase_self : (k : Bytes) (es : Entries) → Unique es → find k (erase k es) ≡ none
unfolding find erase
find-erase_self k [] u = refl
find-erase_self k ((j, e) ∷ es) u = elim (Bool-cases (list_eq j k)) [
  | inl same ↦ rw (same, ← (list_eq_iff j k).0 same) u.0
  | inr other ↦ rw (other, erase) (rw (other, find) (find-erase_self k es u.1))
]

pub find-erase_ne :
    (k j : Bytes) (es : Entries) → list_eq k j ≡ false → find j (erase k es) ≡ find j es
unfolding find erase
find-erase_ne k j [] h = refl
find-erase_ne k j ((i, e) ∷ es) h =
    ground (arith, find-erase_ne k j es h, list_eq_iff i k, list_eq_iff i j, list_eq_iff k j)

pub find-erase-none : (k j : Bytes) (es : Entries) → find j es ≡ none → find j (erase k es) ≡ none
unfolding find erase
find-erase-none k j [] h = refl
find-erase-none k j ((i, e) ∷ es) h = ground (arith, find-erase-none k j es)

pub erase-Unique : (k : Bytes) (es : Entries) → Unique es → Unique (erase k es)
unfolding erase
erase-Unique k [] u = tt
erase-Unique k ((j, e) ∷ es) u = elim (Bool-cases (list_eq j k)) [
  | inl same ↦ rw same u.1
  | inr other ↦ rw other (find-erase-none k j es u.0, erase-Unique k es u.1)
]

pub sum_sizes-erase :
    (k : Bytes) (es : Entries) (x : Entry)
    → find k es ≡ some x
    → sum_sizes (erase k es) + x.size ≡ sum_sizes es
unfolding sum_sizes find erase
sum_sizes-erase k [] x h = cc
sum_sizes-erase k ((j, e) ∷ es) x h = ground (arith, sum_sizes-erase k es x)

pub length-erase :
    (k : Bytes) (es : Entries) (x : Entry)
    → find k es ≡ some x
    → length (erase k es) + 1 ≡ length es
unfolding find erase
length-erase k [] x h = cc
length-erase k ((j, e) ∷ es) x h = ground (arith, length-erase k es x)

pub All-erase {ℓ} :
    (P : Bytes × Entry → Type ℓ) (k : Bytes) (es : Entries) → All P es → All P (erase k es)
unfolding erase
All-erase P k [] h = tt
All-erase P k ((j, e) ∷ es) h = elim (Bool-cases (list_eq j k)) [
  | inl same ↦ rw same h.1
  | inr other ↦ rw other (h.0, All-erase P k es h.1)
]

pub erase-Untied : (k : Bytes) (es : Entries) → Untied es → Untied (erase k es)
unfolding erase
erase-Untied k [] u = tt
erase-Untied k ((j, e) ∷ es) u = elim (Bool-cases (list_eq j k)) [
  | inl same ↦ rw same u.1
  | inr other ↦ rw other (All-erase (Differs e.recency) k es u.0, erase-Untied k es u.1)
]

-- The touched entry gets a recency of its own, above all others.
pub set_recency-Untied :
    (k : Bytes) (n : ℕ) (es : Entries)
    → All (RecencyBelow n) es
    → Untied es
    → Untied (set_recency k n es)
unfolding set_recency
set_recency-Untied k n [] h u = tt
set_recency-Untied k n ((j, e) ∷ es) h u = elim (Bool-cases (list_eq j k)) [
  | inl same ↦ rw same (All-weaken es (λ x lt. omega arith) h.1, u.1)
  | inr other ↦ rw other (others es h.1 u.0, set_recency-Untied k n es h.1 u.1)
]
  where
    others :
        (ds : Entries)
        → All (RecencyBelow n) ds
        → All (Differs e.recency) ds
        → All (Differs e.recency) (set_recency k n ds)
    others [] b d = tt
    others ((i, x) ∷ ds) b d = elim (Bool-cases (list_eq i k)) [
      | inl same ↦ rw same (omega (arith, h.0), d.1)
      | inr other ↦ rw other (d.0, others ds b.1 d.1)
    ]

pub set_recency-RecencyBelow :
    (k : Bytes) (n : ℕ) (es : Entries)
    → All (RecencyBelow n) es
    → All (RecencyBelow (n + 1)) (set_recency k n es)
unfolding set_recency
set_recency-RecencyBelow k n [] h = tt
set_recency-RecencyBelow k n ((j, e) ∷ es) h = elim (Bool-cases (list_eq j k)) [
  | inl same ↦ rw same (omega arith, All-weaken es (λ x lt. omega arith) h.1)
  | inr other ↦ rw other (omega (arith, h.0), set_recency-RecencyBelow k n es h.1)
]

pub sum_sizes-set_recency :
    (k : Bytes) (n : ℕ) (es : Entries) → sum_sizes (set_recency k n es) ≡ sum_sizes es
unfolding sum_sizes set_recency
sum_sizes-set_recency k n [] = refl
sum_sizes-set_recency k n ((j, e) ∷ es) = ground (arith, sum_sizes-set_recency k n es)

pub find-set_recency-none :
    (k j : Bytes) (n : ℕ) (es : Entries) → find j es ≡ none → find j (set_recency k n es) ≡ none
unfolding find set_recency
find-set_recency-none k j n [] h = refl
find-set_recency-none k j n ((i, e) ∷ es) h = ground (arith, find-set_recency-none k j n es)

pub set_recency-Unique :
    (k : Bytes) (n : ℕ) (es : Entries) → Unique es → Unique (set_recency k n es)
unfolding set_recency
set_recency-Unique k n [] u = tt
set_recency-Unique k n ((j, e) ∷ es) u = elim (Bool-cases (list_eq j k)) [
  | inl same ↦ rw same u
  | inr other ↦ rw other (find-set_recency-none k j n es u.0, set_recency-Unique k n es u.1)
]

-- An entry of the list is what a lookup of its key finds.
abbrev pub FoundIn : Entries → Bytes × Entry → Type 0
FoundIn ds x = find x.0 ds ≡ some x.1

pub Unique-FoundIn : (es : Entries) → Unique es → All (FoundIn es) es
unfolding find
Unique-FoundIn [] u = tt
Unique-FoundIn ((k, e) ∷ es) u = (rw (list_eq_refl k), All-weaken es step (Unique-FoundIn es u.1))
  where
    step : (x : Bytes × Entry) → FoundIn es x → FoundIn ((k, e) ∷ es) x
    step (j, x) h = elim (Bool-cases (list_eq k j)) [
      | inl same ↦ cc ((list_eq_iff k j).0 same, u.0, h)
      | inr other ↦ rw (other, find) h
    ]

older-FoundIn :
    (ds : Entries) (best x : Bytes × Entry)
    → FoundIn ds best
    → FoundIn ds x
    → FoundIn ds (older best x)
unfolding older
older-FoundIn ds best x h k = elim (Bool-cases (ltb x.1.recency best.1.recency)) [
  | inl e ↦ subst (FoundIn ds) (sym (ap (λ t. if t then x else best) e)) k
  | inr e ↦ subst (FoundIn ds) (sym (ap (λ t. if t then x else best) e)) h
]

older-le :
    (best x : Bytes × Entry)
    → ((older best x).1.recency ≤ best.1.recency) × ((older best x).1.recency ≤ x.1.recency)
unfolding older
older-le best x = ground arith

pub oldest_from-FoundIn :
    (ds : Entries) (best : Bytes × Entry) (es : Entries)
    → FoundIn ds best
    → All (FoundIn ds) es
    → FoundIn ds (oldest_from best es)
unfolding oldest_from
oldest_from-FoundIn ds best [] h a = h
oldest_from-FoundIn ds best (x ∷ es) h a =
    oldest_from-FoundIn ds (older best x) es (older-FoundIn ds best x h a.0) a.1

abbrev pub NotOlder : ℕ → Bytes × Entry → Type 0
NotOlder n x = n ≤ x.1.recency

-- The entry chosen for eviction is the least recent.
pub oldest_from-NotOlder :
    (best : Bytes × Entry) (es : Entries)
    → ((oldest_from best es).1.recency ≤ best.1.recency)
      × All (NotOlder (oldest_from best es).1.recency) es
unfolding oldest_from
oldest_from-NotOlder best [] = (omega arith, tt)
oldest_from-NotOlder best (x ∷ es) =
    let h = oldest_from-NotOlder (older best x) es in
    (omega (arith, h.0, older-le best x), (omega (arith, h.0, older-le best x), h.1))

-- What holds of all entries holds of the one that is found.
pub All-find {ℓ} :
    (P : Entry → Type ℓ) (k : Bytes) (es : Entries) (x : Entry)
    → All (λ y. P y.1) es
    → find k es ≡ some x
    → P x
unfolding find
All-find P k [] x a h = absurd (cc)
All-find P k ((j, e) ∷ es) x a h = elim (Bool-cases (list_eq j k)) [
  | inl same ↦ let e_is_x : e ≡ x = ground arith in subst P e_is_x a.0
  | inr other ↦ All-find P k es x a.1 (ground arith)
]

pub erase-Differs :
    (k : Bytes) (es : Entries) (x : Entry)
    → Untied es
    → find k es ≡ some x
    → All (Differs x.recency) (erase k es)
unfolding erase find
erase-Differs k [] x u h = tt
erase-Differs k ((j, e) ∷ es) x u h = elim (Bool-cases (list_eq j k)) [
  | inl same ↦ rw same (
      let e_is_x : e ≡ x = ground arith in
      subst (λ (t : Entry). All (Differs t.recency) es) e_is_x u.0)
  | inr other ↦ rw other (
      let h' : find k es ≡ some x = ground arith in
      (
        λ same. All-find (λ (y : Entry). y.recency ≢ e.recency) k es x u.0 h' (sym same),
        erase-Differs k es x u.1 h',
      ))
]
