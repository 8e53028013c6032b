-- ===== src/Scheduler/Slots.antt =====
-- core/scheduler.cpp: the sequence ids of the active requests against `slot_used`.
use reame.Base.{
  ℕ, zero, suc, ◌+◌, ◌≤◌, ◌<◌, ◌≡◌, refl, ap, ◌⊎◌, inl, inr, Bool, true, false, Option, none, some,
  List, [], ◌∷◌, ◌++◌, ◌==◌, if◌then◌else◌, arith, Bool-cases, length, length-append, get_elem?,
  set, replicate, length-set,
}
use reame.Scheduler.Attempts.{After, After-map, After-batched, After-admit_loop}
use reame.Scheduler.{
  Request, Backend, State, Failure, decode_failed, request_failed, finish, release, emit, sampled,
  advance, advance_all, finish_all, decoded, batch, admit, admit_loop, admit_one, may_admit,
  slotted, cloned, claim, donor_for, free_slot, slices, fed, grown, stops, step, is_empty,
}

abbrev pub seq_hit : ℕ → Option ℕ → ℕ
seq_hit q none = 0
seq_hit q (some j) = if j == q then 1 else 0

-- How many of the requests hold sequence id `q`.
abbrev pub held : {S : Type 0} → ℕ → List (Request S) → ℕ
held q [] = 0
held q (r ∷ rs) = seq_hit q r.seq_id + held q rs

abbrev pub no_seq : Option ℕ → ℕ
no_seq none = 1
no_seq (some q) = 0

abbrev pub occupied : Option Bool → ℕ
occupied none = 0
occupied (some false) = 0
occupied (some true) = 1

occupied-le : (o : Option Bool) → occupied o ≤ 1
occupied-le none = omega arith
occupied-le (some false) = omega arith
occupied-le (some true) = omega arith

-- How many of the requests have no sequence id.
abbrev pub homeless : {S : Type 0} → List (Request S) → ℕ
homeless [] = 0
homeless (r ∷ rs) = no_seq r.seq_id + homeless rs

abbrev pub count_true : List Bool → ℕ
count_true [] = 0
count_true (false ∷ used) = count_true used
count_true (true ∷ used) = suc (count_true used)

-- The requests `rs` and `active` hold exactly the slots that are marked, each its own.
abbrev pub Slotted : {S : Type 0} → ℕ → List Bool → List (Request S) → List (Request S) → Type 0
Slotted m used rs active =
    ((q : ℕ) → held q rs + held q active ≡ occupied (get_elem? used q))
    × (count_true used ≡ length rs + length active)
    × (homeless rs + homeless active ≡ 0)
    × (length used ≡ m)

held-append :
    {S : Type 0} (q : ℕ) (rs qs : List (Request S)) → held q (rs ++ qs) ≡ held q rs + held q qs
held-append q [] qs = omega arith
held-append q (r ∷ rs) qs = omega (arith, held-append q rs qs)

homeless-append :
    {S : Type 0} (rs qs : List (Request S)) → homeless (rs ++ qs) ≡ homeless rs + homeless qs
homeless-append [] qs = omega arith
homeless-append (r ∷ rs) qs = omega (arith, homeless-append rs qs)

occupied-clear :
    (used : List Bool) (q j : ℕ)
    → occupied (get_elem? (set used q false) j)
      ≡ (if q == j then 0 else occupied (get_elem? used j))
occupied-clear [] q j = ground arith
occupied-clear (u ∷ used) zero zero = ground arith
occupied-clear (u ∷ used) zero (suc j) = ground arith
occupied-clear (u ∷ used) (suc q) zero = ground arith
occupied-clear (u ∷ used) (suc q) (suc j) = ground (arith, occupied-clear used q j)

occupied-mark :
    (used : List Bool) (q j : ℕ)
    → get_elem? used q ≡ some false
    → occupied (get_elem? (set used q true) j) ≡ (if q == j then 1 else occupied (get_elem? used j))
occupied-mark [] q j h = cc
occupied-mark (u ∷ used) zero zero h = ground arith
occupied-mark (u ∷ used) zero (suc j) h = ground arith
occupied-mark (u ∷ used) (suc q) zero h = ground arith
occupied-mark (u ∷ used) (suc q) (suc j) h = ground (arith, occupied-mark used q j h)

count-clear :
    (used : List Bool) (q : ℕ)
    → count_true (set used q false) + occupied (get_elem? used q) ≡ count_true used
count-clear [] q = refl
count-clear (false ∷ used) zero = omega arith
count-clear (true ∷ used) zero = omega arith
count-clear (false ∷ used) (suc q) = count-clear used q
count-clear (true ∷ used) (suc q) = omega (arith, count-clear used q)

count-mark :
    (used : List Bool) (q : ℕ)
    → get_elem? used q ≡ some false
    → count_true (set used q true) ≡ count_true used + 1
count-mark [] q h = cc
count-mark (false ∷ used) zero h = omega arith
count-mark (true ∷ used) zero h = cc
count-mark (false ∷ used) (suc q) h = count-mark used q h
count-mark (true ∷ used) (suc q) h = omega (arith, count-mark used q h)

-- The free slot that the search finds is free, and it finds one unless all are marked.
free_slot_lem :
    (used : List Bool)
    → ((free_slot used ≡ none) × (count_true used ≡ length used))
      ⊎ ((q : ℕ) × (free_slot used ≡ some q) × (get_elem? used q ≡ some false))
unfolding free_slot
free_slot_lem [] = inl (refl, refl)
free_slot_lem (false ∷ used) = inr (0, refl, refl)
free_slot_lem (true ∷ used) = elim (free_slot_lem used) [
  | inl (e, h) ↦ inl (rw e, ap suc h)
  | inr (q, e, h) ↦ inr (suc q, rw e, h)
]

seq_id-admitted :
    {S : Type 0} (d : Option (Request S)) (q : ℕ) (r : Request S)
    → (cloned d (slotted (some q) r)).seq_id ≡ some q
unfolding cloned slotted
seq_id-admitted none q r = refl
seq_id-admitted (some d) q r = refl

module _ {W S L : Type 0} (b : Backend W S L) (n_parallel m : ℕ) where
  -- The first of `rs` is done: its slot is free again.
  Slotted-finish :
      (r : Request S) (rs : List (Request S)) (e : Option Failure) (s : State W S)
      → Slotted m s.slot_used (r ∷ rs) s.active
      → Slotted m (finish b n_parallel r e s).slot_used rs (finish b n_parallel r e s).active
  unfolding finish release
  Slotted-finish r rs e s (exact, count, housed, sized) = go r.seq_id refl
    where
      go :
          (seq : Option ℕ)
          → r.seq_id ≡ seq
          → Slotted m (release b n_parallel s seq).slot_used rs (release b n_parallel s seq).active
      go none h = absurd (ground arith)
      go (some q) h = (
        λ j. ground (
          arith,
          exact j,
          h,
          occupied-clear s.slot_used q j,
          occupied-le (get_elem? s.slot_used j),
        ),
        ground
            (arith, exact q, h, count-clear s.slot_used q, occupied-le (get_elem? s.slot_used q)),
        ground (arith, h),
        omega (arith, length-set s.slot_used q false),
      )

  Slotted-keep :
      (r : Request S) (rs : List (Request S)) (used : List Bool) (active : List (Request S))
      → Slotted m used (r ∷ rs) active
      → Slotted m used rs (active ++ r ∷ [])
  Slotted-keep r rs used active (exact, count, housed, sized) = (
    λ q. omega (arith, exact q, held-append q active (r ∷ [])),
    omega (arith, length-append active (r ∷ [])),
    omega (arith, homeless-append active (r ∷ [])),
    sized,
  )

  Slotted-emit :
      (called : Option Bool × W) (t : ℕ) (r : Request S) (rs : List (Request S)) (s : State W S)
      → Slotted m s.slot_used (r ∷ rs) s.active
      → Slotted m
          (emit b n_parallel called t r s).slot_used
          rs
          (emit b n_parallel called t r s).active
  unfolding emit grown
  Slotted-emit (none, w) t r rs s v =
      Slotted-finish r rs (some request_failed) (record s { world = w }) v
  Slotted-emit (some keep_going, w) t r rs s v =
      elim (Bool-cases (stops b n_parallel keep_going (grown r t))) [
        | inl done ↦ rw done (Slotted-finish (grown r t) rs none (record s { world = w }) v)
        | inr more ↦ rw more (Slotted-keep (grown r t) rs s.slot_used s.active v)
      ]

  Slotted-sampled :
      (drawn : Option (ℕ × S)) (r : Request S) (rs : List (Request S)) (s : State W S)
      → Slotted m s.slot_used (r ∷ rs) s.active
      → Slotted m
          (sampled b n_parallel drawn r s).slot_used
          rs
          (sampled b n_parallel drawn r s).active
  unfolding sampled
  Slotted-sampled none r rs s v = Slotted-finish r rs (some request_failed) s v
  Slotted-sampled (some (t, sampler)) r rs s v = elim (Bool-cases (b.is_eog t)) [
    | inl eog ↦ rw eog (Slotted-finish r rs none s v)
    | inr go ↦
        rw go (Slotted-emit (b.on_token s.world r.id t) t (record r { sampler = sampler }) rs s v)
  ]

  Slotted-advance_all :
      (rows : ℕ → L) (i : ℕ) (rs : List (Request S)) (s : State W S)
      → Slotted m s.slot_used rs s.active
      → Slotted m
          (advance_all b n_parallel rows i rs s).slot_used
          []
          (advance_all b n_parallel rows i rs s).active
  unfolding advance_all advance fed
  Slotted-advance_all rows i [] s v = v
  Slotted-advance_all rows i (r ∷ rs) s v =
      Slotted-advance_all rows (suc i) rs (advance b n_parallel (rows i) r s)
        (Slotted-sampled (b.sample r.sampler (rows i) r.history) (fed r) rs s v)

  Slotted-finish_all :
      (rs : List (Request S)) (s : State W S)
      → Slotted m s.slot_used rs s.active
      → Slotted m (finish_all b n_parallel rs s).slot_used [] (finish_all b n_parallel rs s).active
  unfolding finish_all
  Slotted-finish_all [] s v = v
  Slotted-finish_all (r ∷ rs) s v =
      Slotted-finish_all rs (finish b n_parallel r (some decode_failed) s)
        (Slotted-finish r rs (some decode_failed) s v)

  from_active :
      (s : State W S)
      → Slotted m s.slot_used [] s.active
      → Slotted {S = S} m s.slot_used s.active []
  from_active s (exact, count, housed, sized) =
      (λ q. omega (arith, exact q), omega arith, omega arith, sized)

  Slotted-decoded :
      (result : Option (ℕ → L) × W) (s : State W S)
      → Slotted m s.slot_used [] s.active
      → Slotted m
          (decoded b n_parallel result s).0.slot_used
          []
          (decoded b n_parallel result s).0.active
  unfolding decoded
  Slotted-decoded (none, w) s v =
      Slotted-finish_all s.active (record s { world = w; active = [] }) (from_active s v)
  Slotted-decoded (some rows, w) s v =
      Slotted-advance_all rows 0 s.active (record s { world = w; active = [] }) (from_active s v)

  Slotted-admit_one :
      (s : State W S) (r : Request S)
      → length s.active < m
      → Slotted m s.slot_used [] s.active
      → Slotted m (admit_one b n_parallel s r).slot_used [] (admit_one b n_parallel s r).active
  unfolding admit_one claim
  Slotted-admit_one s r room (exact, count, housed, sized) = elim (free_slot_lem s.slot_used) [
    | inl (e, full) ↦ absurd (omega arith)
    | inr (q, e, free) ↦ rw e (
      λ j. ground (
        arith,
        exact j,
        held-append j s.active (r' q ∷ []),
        occupied-mark s.slot_used q j free,
        free,
        seq_id-admitted (donor_for s r) q r,
      ),
      omega (arith, count-mark s.slot_used q free, length-append s.active (r' q ∷ [])),
      ground (arith, homeless-append s.active (r' q ∷ []), seq_id-admitted (donor_for s r) q r),
      omega (arith, length-set s.slot_used q true),
    )
  ]
    where
      r' : ℕ → Request S
      r' q = cloned (donor_for s r) (slotted (some q) r)

  Slotted-batch :
      (s : State W S)
      → Slotted m s.slot_used [] s.active
      → Slotted m (batch b n_parallel s).0.slot_used [] (batch b n_parallel s).0.active
  unfolding batch
  Slotted-batch s v = elim (Bool-cases (is_empty s.active)) [
    | inl e ↦ rw e v
    | inr e ↦ rw e (Slotted-decoded (b.decode_seqs s.world (slices s.active)) s v)
  ]

  Slotted-admit_loop :
      (rs : List (Request S)) (s : State W S)
      → n_parallel ≤ m
      → Slotted m s.slot_used [] s.active
      → After (λ a. Slotted m a.slot_used [] a.active) (admit_loop b n_parallel rs s)
  Slotted-admit_loop [] s le v = unfold admit_loop in v
  Slotted-admit_loop (r ∷ rs) s le v =
      After-admit_loop b n_parallel (λ a. Slotted m a.slot_used [] a.active) r rs s
        (λ go.
          Slotted-admit_loop rs (admit_one b n_parallel s r) le
            (Slotted-admit_one s r (unfold may_admit in ground arith) v))
        (λ stay. v)

  pub Slotted-step :
      (s : State W S)
      → n_parallel ≤ m
      → Slotted m s.slot_used [] s.active
      → After (λ x. Slotted m x.0.slot_used [] x.0.active) (step b n_parallel s)
  unfolding step admit
  Slotted-step s le v =
      After-batched b n_parallel (λ x. Slotted m x.0.slot_used [] x.0.active)
        (admit_loop b n_parallel s.pending s)
        (After-map (λ a. Slotted m a.slot_used [] a.active)
          (λ a. Slotted m (batch b n_parallel a).0.slot_used [] (batch b n_parallel a).0.active)
          (admit_loop b n_parallel s.pending s) (λ a h. Slotted-batch a h)
          (Slotted-admit_loop s.pending s le v))

pub get_elem?-replicate : (n q : ℕ) → occupied (get_elem? (replicate n false) q) ≡ 0
get_elem?-replicate zero q = refl
get_elem?-replicate (suc n) zero = refl
get_elem?-replicate (suc n) (suc q) = get_elem?-replicate n q

pub count_true-replicate : (n : ℕ) → count_true (replicate n false) ≡ 0
count_true-replicate zero = refl
count_true-replicate (suc n) = count_true-replicate n

pub count_true-le : (used : List Bool) → count_true used ≤ length used
count_true-le [] = omega arith
count_true-le (false ∷ used) = omega (arith, count_true-le used)
count_true-le (true ∷ used) = omega (arith, count_true-le used)
