-- ===== src/Scheduler/Progress.antt =====
-- core/scheduler.cpp: how many steps the requests still take.
use reame.Base.{
  ℕ, suc, ◌+◌, ◌-◌, ◌≤◌, ◌<◌, max, ◌≡◌, refl, ◌∙◌, ap, inl, inr, Bool, true, false, not, Option,
  none, some, List, [], ◌∷◌, ◌++◌, arith, Bool-cases, length, All,
}
use reame.Scheduler.Attempts.{After, After-map, After-admit_loop}
use reame.Scheduler.{
  Attempt, went, threw, batched, Request, Backend, State, Failure, decode_failed, request_failed,
  finish, release, emit, sampled, advance, advance_all, finish_all, decoded, batch, admit,
  admit_loop, admit_one, may_admit, slices, fed, grown, stops, step, is_empty, cloned, slotted,
  donor_for, free_slot, cells_used, donor_waits, find_donor,
}
use reame.Scheduler.Kept.{batch-Kept}
use reame.Scheduler.Positions.{Fresh}

-- A request takes at most one step for each token of its budget, and one if the budget is 0.
unfoldable pub steps_left : {S : Type 0} → Request S → ℕ
steps_left r = max 1 (r.max_tokens - r.emitted)

unfoldable pub work_of : {S : Type 0} → List (Request S) → ℕ
work_of [] = 0
work_of (r ∷ rs) = steps_left r + work_of rs

unfoldable pub work : {W S : Type 0} → State W S → ℕ
work s = work_of s.pending + work_of s.active

pub work_of-append :
    {S : Type 0} (rs qs : List (Request S)) → work_of (rs ++ qs) ≡ work_of rs + work_of qs
unfolding work_of
work_of-append [] qs = omega arith
work_of-append (r ∷ rs) qs = omega (arith, work_of-append rs qs)

length-empty {ℓ} : {A : Type ℓ} (xs : List A) → is_empty xs ≡ true → length xs ≡ 0
length-empty [] h = refl
length-empty (x ∷ xs) h = cc

empty_of : {A : Type 0} (xs : List A) → is_empty xs ≡ true → xs ≡ []
empty_of [] h = refl
empty_of (x ∷ xs) h = cc

length-nonempty {ℓ} : {A : Type ℓ} (xs : List A) → is_empty xs ≡ false → 0 < length xs
length-nonempty [] h = cc
length-nonempty (x ∷ xs) h = omega arith

steps_left-admitted :
    {S : Type 0} (d : Option (Request S)) (q : Option ℕ) (r : Request S)
    → steps_left (cloned d (slotted q r)) ≡ steps_left r
unfolding cloned slotted steps_left
steps_left-admitted d q r = ground arith

work_lem : {W S : Type 0} (s : State W S) → work s ≡ work_of s.pending + work_of s.active
unfolding work
work_lem s = refl

module _ {W S L : Type 0} (b : Backend W S L) (n_parallel : ℕ) where
  active-finish :
      (r : Request S) (e : Option Failure) (s : State W S)
      → (finish b n_parallel r e s).active ≡ s.active
  unfolding finish release
  active-finish r e s = ground arith

  -- A request that goes on has one step less to go.
  steps_left-grown :
      (keep_going : Bool) (t : ℕ) (r : Request S)
      → stops b n_parallel keep_going (grown r t) ≡ false
      → steps_left (grown r t) + 1 ≤ steps_left r
  unfolding stops grown steps_left
  steps_left-grown keep_going t r h = ground arith

  work-emit :
      (called : Option Bool × W) (t : ℕ) (r : Request S) (s : State W S)
      → work_of (emit b n_parallel called t r s).active + 1 ≤ work_of s.active + steps_left r
  unfolding emit
  work-emit (none, w) t r s =
      rw (active-finish r (some request_failed) (record s { world = w }))
        (unfold steps_left in omega arith)
  work-emit (some keep_going, w) t r s =
      elim (Bool-cases (stops b n_parallel keep_going (grown r t))) [
        | inl done ↦
            rw (done, active-finish (grown r t) none (record s { world = w }))
              (unfold steps_left in omega arith)
        | inr more ↦ rw more (
            unfold work_of in
            omega (
              arith,
              work_of-append s.active (grown r t ∷ []),
              steps_left-grown keep_going t r more,
            ))
      ]

  work-advance :
      (row : L) (r : Request S) (s : State W S)
      → work_of (advance b n_parallel row r s).active + 1 ≤ work_of s.active + steps_left r
  unfolding advance sampled fed steps_left
  work-advance row r s = go (b.sample r.sampler row r.history)
    where
      go :
          (drawn : Option (ℕ × S))
          → work_of (sampled b n_parallel drawn (fed r) s).active + 1
            ≤ work_of s.active + steps_left r
      go none =
          rw (active-finish (fed r) (some request_failed) s) (unfold steps_left in omega arith)
      go (some (t, smp)) = elim (Bool-cases (b.is_eog t)) [
        | inl eog ↦ rw (eog, active-finish (fed r) none s) (unfold steps_left in omega arith)
        | inr more ↦
            rw more
              (work-emit (b.on_token s.world (fed r).id t) t (record (fed r) { sampler = smp }) s)
      ]

  work-advance_all :
      (rows : ℕ → L) (i : ℕ) (rs : List (Request S)) (s : State W S)
      → work_of (advance_all b n_parallel rows i rs s).active + length rs
        ≤ work_of s.active + work_of rs
  unfolding advance_all work_of
  work-advance_all rows i [] s = omega arith
  work-advance_all rows i (r ∷ rs) s = omega (
    arith,
    work-advance (rows i) r s,
    work-advance_all rows (suc i) rs (advance b n_parallel (rows i) r s),
  )

  active-finish_all :
      (rs : List (Request S)) (s : State W S) → (finish_all b n_parallel rs s).active ≡ s.active
  unfolding finish_all
  active-finish_all [] s = refl
  active-finish_all (r ∷ rs) s =
      active-finish_all rs (finish b n_parallel r (some decode_failed) s)
      ∙ active-finish r (some decode_failed) s

  work-finish_all :
      (rs : List (Request S)) (s : State W S)
      → work_of (finish_all b n_parallel rs s).active ≡ work_of s.active
  work-finish_all rs s = ap work_of (active-finish_all rs s)

  length-le-work : (rs : List (Request S)) → length rs ≤ work_of rs
  unfolding work_of steps_left
  length-le-work [] = omega arith
  length-le-work (r ∷ rs) = omega (arith, length-le-work rs)

  work-decoded :
      (result : Option (ℕ → L) × W) (s : State W S)
      → work_of (decoded b n_parallel result s).0.active + length s.active ≤ work_of s.active
  unfolding decoded work_of
  work-decoded (none, w) s = omega (
    arith,
    work-finish_all s.active (record s { world = w; active = [] }),
    length-le-work s.active,
  )
  work-decoded (some rows, w) s =
      omega (arith, work-advance_all rows 0 s.active (record s { world = w; active = [] }))

  active-batch :
      (s : State W S)
      → is_empty s.active ≡ false
      → work_of (batch b n_parallel s).0.active
        ≡ work_of (decoded b n_parallel (b.decode_seqs s.world (slices s.active)) s).0.active
  unfolding batch
  active-batch s e = rw e

  work-batch : (s : State W S) → work (batch b n_parallel s).0 + length s.active ≤ work s
  unfolding batch work
  work-batch s =
      let kept = ap work_of (batch-Kept b n_parallel s).1 in
      elim (Bool-cases (is_empty s.active)) [
        | inl e ↦ rw e (omega (arith, length-empty s.active e))
        | inr e ↦ omega (
          arith,
          kept,
          active-batch s e,
          work-decoded (b.decode_seqs s.world (slices s.active)) s,
        )
      ]

  work-admit_one :
      (s : State W S) (r : Request S)
      → work_of (admit_one b n_parallel s r).active ≡ work_of s.active + steps_left r
  unfolding admit_one work_of
  work-admit_one s r =
      let r' = cloned (donor_for s r) (slotted (free_slot s.slot_used) r) in
      omega (
        arith,
        work_of-append s.active (r' ∷ []),
        steps_left-admitted (donor_for s r) (free_slot s.slot_used) r,
      )

  work-admit_loop :
      (rs : List (Request S)) (s : State W S)
      → After (λ a. work a ≡ work_of rs + work_of s.active) (admit_loop b n_parallel rs s)
  unfolding work work_of
  work-admit_loop [] s = unfold admit_loop in omega arith
  work-admit_loop (r ∷ rs) s =
      After-admit_loop b n_parallel (λ a. work a ≡ work_of (r ∷ rs) + work_of s.active) r rs s
        (λ go.
          After-map (λ a. work a ≡ work_of rs + work_of (admit_one b n_parallel s r).active)
            (λ a. work a ≡ work_of (r ∷ rs) + work_of s.active)
            (admit_loop b n_parallel rs (admit_one b n_parallel s r))
            (λ a h. omega (arith, h, work-admit_one s r))
            (work-admit_loop rs (admit_one b n_parallel s r)))
        (λ stay. refl)

  -- The first waiting request is admitted when nothing is active.
  may_admit_idle :
      (s : State W S) (r : Request S)
      → 0 < n_parallel
      → s.active ≡ []
      → Fresh b.context_length r
      → may_admit b n_parallel s r ≡ true
  unfolding may_admit donor_for donor_waits find_donor cells_used
  may_admit_idle s r positive e v = ground arith

  admit_loop-progress :
      (rs : List (Request S)) (s : State W S)
      → 0 < n_parallel
      → All (Fresh b.context_length) rs
      → After
          (λ a. is_empty a.active ≡ true → is_empty a.pending ≡ true)
          (admit_loop b n_parallel rs s)
  admit_loop-progress [] s positive f = unfold admit_loop in (λ h. refl)
  admit_loop-progress (r ∷ rs) s positive f =
      After-admit_loop b n_parallel (λ a. is_empty a.active ≡ true → is_empty a.pending ≡ true) r rs
        s (λ go. admit_loop-progress rs (admit_one b n_parallel s r) positive f.1)
        (λ stay h. cc (may_admit_idle s r positive (empty_of s.active h) f.0, stay))

  decoded-idle :
      (result : Option (ℕ → L) × W) (s : State W S)
      → (decoded b n_parallel result s).1 ≡ false
      → (is_empty (decoded b n_parallel result s).0.active ≡ true)
        × (is_empty (decoded b n_parallel result s).0.pending ≡ true)
  unfolding decoded
  decoded-idle (none, w) s h =
      (rw (active-finish_all s.active (record s { world = w; active = [] })) refl, ground arith)
  decoded-idle (some rows, w) s h = ground arith

  batch_empty :
      (s : State W S)
      → is_empty s.active ≡ true
      → (batch b n_parallel s).1 ≡ not (is_empty s.pending)
  unfolding batch
  batch_empty s e = rw e

  batch-idle :
      (s : State W S)
      → (batch b n_parallel s).1 ≡ false
      → (is_empty (batch b n_parallel s).0.active ≡ true)
        × (is_empty (batch b n_parallel s).0.pending ≡ true)
  unfolding batch
  batch-idle s h = elim (Bool-cases (is_empty s.active)) [
    | inl e ↦ ground arith
    | inr e ↦ rw e (decoded-idle (b.decode_seqs s.world (slices s.active)) s (rw e at h))
  ]

  -- A step that says that there is nothing to do leaves nothing to do.
  pub step-idle :
      (s : State W S)
      → After
          (λ x. x.1 ≡ false → (is_empty x.0.active ≡ true) × (is_empty x.0.pending ≡ true))
          (step b n_parallel s)
  unfolding step
  step-idle s = go (admit b n_parallel s)
    where
      go :
          (x : Attempt (State W S) (State W S))
          → After
              (λ y. y.1 ≡ false → (is_empty y.0.active ≡ true) × (is_empty y.0.pending ≡ true))
              (batched b n_parallel x)
      go (went a) = unfold batched in batch-idle a
      go (threw a) = unfold batched in tt

  -- A step after which there is something to do has done something.
  pub work-step :
      (s : State W S)
      → 0 < n_parallel
      → All (Fresh b.context_length) s.pending
      → After (λ x. x.1 ≡ true → work x.0 < work s) (step b n_parallel s)
  unfolding step admit
  work-step s positive f =
      go (admit_loop b n_parallel s.pending s) (work-admit_loop s.pending s)
        (admit_loop-progress s.pending s positive f)
    where
      go :
          (x : Attempt (State W S) (State W S))
          → After (λ a. work a ≡ work_of s.pending + work_of s.active) x
          → After (λ a. is_empty a.active ≡ true → is_empty a.pending ≡ true) x
          → After (λ y. y.1 ≡ true → work y.0 < work s) (batched b n_parallel x)
      go (threw a) same stuck = unfold batched in tt
      go (went a) same stuck =
          unfold batched in
          (λ h. elim (Bool-cases (is_empty a.active)) [
            | inl e ↦ cc (batch_empty a e, stuck e, h)
            | inr e ↦ omega (arith, work-batch a, length-nonempty a.active e, same, work_lem s)
          ])
