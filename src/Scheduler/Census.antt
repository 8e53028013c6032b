-- ===== src/Scheduler/Census.antt =====
-- core/scheduler.cpp: where a request is, counted by its id.
use reame.Base.{
  ℕ, suc, ◌+◌, ◌≡◌, refl, ap, inl, inr, Bool, Option, none, some, List, [], ◌∷◌, ◌++◌, ◌==◌,
  if◌then◌else◌, arith, Bool-cases,
}
use reame.Scheduler.{
  Request, Backend, State, Failure, decode_failed, request_failed, finish, release, emit, sampled,
  advance, advance_all, finish_all, decoded, batch, admit, admit_loop, admit_one, slotted, cloned,
  donor_for, free_slot, slices, fed, grown, stops, step, request, enqueued,
}
use reame.Scheduler.Attempts.{After, After-map, After-batched, After-admit_loop}

abbrev pub hit : ℕ → ℕ → ℕ
hit k id = if id == k then 1 else 0

unfoldable pub count_ids : {S : Type 0} → ℕ → List (Request S) → ℕ
count_ids k [] = 0
count_ids k (r ∷ rs) = hit k r.id + count_ids k rs

unfoldable pub count_done : ℕ → List (ℕ × Option Failure) → ℕ
count_done k [] = 0
count_done k ((id, e) ∷ ds) = hit k id + count_done k ds

-- In how many places the request with id `k` is.
unfoldable pub census : {W S : Type 0} → ℕ → State W S → ℕ
census k s = count_ids k s.pending + count_ids k s.active + count_done k s.done

pub count_ids-append :
    {S : Type 0} (k : ℕ) (rs qs : List (Request S))
    → count_ids k (rs ++ qs) ≡ count_ids k rs + count_ids k qs
unfolding count_ids
count_ids-append k [] qs = omega arith
count_ids-append k (r ∷ rs) qs = omega (arith, count_ids-append k rs qs)

module _ {W S L : Type 0} (b : Backend W S L) (n_parallel k : ℕ) where
  census-finish :
      (r : Request S) (e : Option Failure) (s : State W S)
      → census k (finish b n_parallel r e s) ≡ census k s + hit k r.id
  unfolding census finish release count_done
  census-finish r e s = ground arith

  census-emit :
      (called : Option Bool × W) (t : ℕ) (r : Request S) (s : State W S)
      → census k (emit b n_parallel called t r s) ≡ census k s + hit k r.id
  unfolding emit grown census count_ids
  census-emit (none, w) t r s = census-finish r (some request_failed) (record s { world = w })
  census-emit (some keep_going, w) t r s =
      elim (Bool-cases (stops b n_parallel keep_going (grown r t))) [
        | inl done ↦ rw done (census-finish (grown r t) none (record s { world = w }))
        | inr more ↦ rw more (omega (arith, count_ids-append k s.active (grown r t ∷ [])))
      ]

  census-sampled :
      (drawn : Option (ℕ × S)) (r : Request S) (s : State W S)
      → census k (sampled b n_parallel drawn r s) ≡ census k s + hit k r.id
  unfolding sampled
  census-sampled none r s = census-finish r (some request_failed) s
  census-sampled (some (t, sampler)) r s = ground (
    arith,
    census-finish r none s,
    census-emit (b.on_token s.world r.id t) t (record r { sampler = sampler }) s,
  )

  census-advance :
      (row : L) (r : Request S) (s : State W S)
      → census k (advance b n_parallel row r s) ≡ census k s + hit k r.id
  unfolding advance fed
  census-advance row r s = census-sampled (b.sample r.sampler row r.history) (fed r) s

  census-advance_all :
      (rows : ℕ → L) (i : ℕ) (rs : List (Request S)) (s : State W S)
      → census k (advance_all b n_parallel rows i rs s) ≡ census k s + count_ids k rs
  unfolding advance_all count_ids
  census-advance_all rows i [] s = omega arith
  census-advance_all rows i (r ∷ rs) s = omega (
    arith,
    census-advance_all rows (suc i) rs (advance b n_parallel (rows i) r s),
    census-advance (rows i) r s,
  )

  census-finish_all :
      (rs : List (Request S)) (s : State W S)
      → census k (finish_all b n_parallel rs s) ≡ census k s + count_ids k rs
  unfolding finish_all count_ids
  census-finish_all [] s = omega arith
  census-finish_all (r ∷ rs) s = omega (
    arith,
    census-finish_all rs (finish b n_parallel r (some decode_failed) s),
    census-finish r (some decode_failed) s,
  )

  census-decoded :
      (result : Option (ℕ → L) × W) (s : State W S)
      → census k (decoded b n_parallel result s).0 ≡ census k s
  unfolding decoded census count_ids
  census-decoded (none, w) s =
      omega (arith, census-finish_all s.active (record s { world = w; active = [] }))
  census-decoded (some rows, w) s =
      omega (arith, census-advance_all rows 0 s.active (record s { world = w; active = [] }))

  census-batch : (s : State W S) → census k (batch b n_parallel s).0 ≡ census k s
  unfolding batch
  census-batch s = ground (arith, census-decoded (b.decode_seqs s.world (slices s.active)) s)

  id-admitted :
      (d : Option (Request S)) (q : Option ℕ) (r : Request S) → (cloned d (slotted q r)).id ≡ r.id
  unfolding cloned slotted
  id-admitted d q r = ground arith

  census-admit_one :
      (s : State W S) (r : Request S)
      → census k (admit_one b n_parallel s r) ≡ census k s + hit k r.id
  unfolding admit_one census count_ids
  census-admit_one s r =
      let r' = cloned (donor_for s r) (slotted (free_slot s.slot_used) r) in
      ground (
        arith,
        count_ids-append k s.active (r' ∷ []),
        id-admitted (donor_for s r) (free_slot s.slot_used) r,
      )

  pending-admit_one :
      (s : State W S) (r : Request S) → (admit_one b n_parallel s r).pending ≡ s.pending
  unfolding admit_one
  pending-admit_one s r = refl

  census-admit_loop :
      (rs : List (Request S)) (s : State W S)
      → After
          (λ a. census k a + count_ids k s.pending ≡ census k s + count_ids k rs)
          (admit_loop b n_parallel rs s)
  unfolding count_ids
  census-admit_loop [] s = unfold admit_loop census count_ids in omega arith
  census-admit_loop (r ∷ rs) s =
      After-admit_loop b n_parallel
        (λ a. census k a + count_ids k s.pending ≡ census k s + count_ids k (r ∷ rs)) r rs s
        (λ go.
          After-map
            (λ a.
              census k a + count_ids k (admit_one b n_parallel s r).pending
              ≡ census k (admit_one b n_parallel s r) + count_ids k rs)
            (λ a. census k a + count_ids k s.pending ≡ census k s + count_ids k (r ∷ rs))
            (admit_loop b n_parallel rs (admit_one b n_parallel s r))
            (λ a h.
              omega (arith, h, census-admit_one s r, ap (count_ids k) (pending-admit_one s r)))
            (census-admit_loop rs (admit_one b n_parallel s r)))
        (λ stay. unfold census in omega arith)

  -- A step that throws nothing neither loses a request nor makes one up, nor puts one in two places:
  -- each id is as often pending, active or done after the step as before it.
  pub census-step : (s : State W S) → After (λ x. census k x.0 ≡ census k s) (step b n_parallel s)
  unfolding step admit
  census-step s =
      After-batched b n_parallel (λ x. census k x.0 ≡ census k s)
        (admit_loop b n_parallel s.pending s)
        (After-map (λ a. census k a + count_ids k s.pending ≡ census k s + count_ids k s.pending)
          (λ a. census k (batch b n_parallel a).0 ≡ census k s)
          (admit_loop b n_parallel s.pending s) (λ a h. omega (arith, census-batch a, h))
          (census-admit_loop s.pending s))

pub census-enqueued :
    {W S : Type 0} (k : ℕ) (s : State W S) (prompt : List ℕ) (max_tokens : ℕ) (sampler : S)
    → census k (enqueued s prompt max_tokens sampler) ≡ census k s + hit k s.next_id
unfolding enqueued request census count_ids
census-enqueued k s prompt max_tokens sampler =
    omega (arith, count_ids-append k s.pending (request s.next_id prompt max_tokens sampler ∷ []))
