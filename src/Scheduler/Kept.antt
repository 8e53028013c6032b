-- ===== src/Scheduler/Kept.antt =====
-- core/scheduler.cpp: the fields that a step leaves alone.
use reame.Base.{
  ℕ, suc, ◌≡◌, refl, ◌∙◌, inl, inr, Bool, Option, none, some, List, [], ◌∷◌, arith, Bool-cases,
}
use reame.Scheduler.Attempts.{After, After-map, After-batched, After-admit_loop}
use reame.Scheduler.{
  Request, Backend, State, Failure, decode_failed, request_failed, finish, release, emit, sampled,
  advance, advance_all, finish_all, decoded, batch, admit, admit_loop, admit_one, slices, fed,
  grown, stops, step, is_empty,
}

-- The counter and the queue are as they were.
abbrev pub Kept : {W S : Type 0} → State W S → State W S → Type 0
Kept s s' = (s'.next_id ≡ s.next_id) × (s'.pending ≡ s.pending)

module _ {W S L : Type 0} (b : Backend W S L) (n_parallel : ℕ) where
  finish-Kept :
      (r : Request S) (e : Option Failure) (s : State W S) → Kept s (finish b n_parallel r e s)
  unfolding finish release
  finish-Kept r e s = ground arith

  emit-Kept :
      (called : Option Bool × W) (t : ℕ) (r : Request S) (s : State W S)
      → Kept s (emit b n_parallel called t r s)
  unfolding emit
  emit-Kept (none, w) t r s = finish-Kept r (some request_failed) (record s { world = w })
  emit-Kept (some keep_going, w) t r s =
      elim (Bool-cases (stops b n_parallel keep_going (grown r t))) [
        | inl done ↦ rw done (finish-Kept (grown r t) none (record s { world = w }))
        | inr more ↦ rw more (refl, refl)
      ]

  sampled-Kept :
      (drawn : Option (ℕ × S)) (r : Request S) (s : State W S)
      → Kept s (sampled b n_parallel drawn r s)
  unfolding sampled
  sampled-Kept none r s = finish-Kept r (some request_failed) s
  sampled-Kept (some (t, sampler)) r s = elim (Bool-cases (b.is_eog t)) [
    | inl eog ↦ rw eog (finish-Kept r none s)
    | inr go ↦ rw go (emit-Kept (b.on_token s.world r.id t) t (record r { sampler = sampler }) s)
  ]

  pub advance_all-Kept :
      (rows : ℕ → L) (i : ℕ) (rs : List (Request S)) (s : State W S)
      → Kept s (advance_all b n_parallel rows i rs s)
  unfolding advance_all advance
  advance_all-Kept rows i [] s = (refl, refl)
  advance_all-Kept rows i (r ∷ rs) s =
      let h = sampled-Kept (b.sample r.sampler (rows i) r.history) (fed r) s in
      let k = advance_all-Kept rows (suc i) rs (advance b n_parallel (rows i) r s) in
      (k.0 ∙ h.0, k.1 ∙ h.1)

  pub finish_all-Kept :
      (rs : List (Request S)) (s : State W S) → Kept s (finish_all b n_parallel rs s)
  unfolding finish_all
  finish_all-Kept [] s = (refl, refl)
  finish_all-Kept (r ∷ rs) s =
      let h = finish-Kept r (some decode_failed) s in
      let k = finish_all-Kept rs (finish b n_parallel r (some decode_failed) s) in
      (k.0 ∙ h.0, k.1 ∙ h.1)

  decoded-Kept :
      (result : Option (ℕ → L) × W) (s : State W S) → Kept s (decoded b n_parallel result s).0
  unfolding decoded
  decoded-Kept (none, w) s = finish_all-Kept s.active (record s { world = w; active = [] })
  decoded-Kept (some rows, w) s =
      advance_all-Kept rows 0 s.active (record s { world = w; active = [] })

  pub batch-Kept : (s : State W S) → Kept s (batch b n_parallel s).0
  unfolding batch
  batch-Kept s = elim (Bool-cases (is_empty s.active)) [
    | inl e ↦ rw e (refl, refl)
    | inr e ↦ rw e (decoded-Kept (b.decode_seqs s.world (slices s.active)) s)
  ]

  next_id-admit_loop :
      (rs : List (Request S)) (s : State W S)
      → After (λ a. a.next_id ≡ s.next_id) (admit_loop b n_parallel rs s)
  unfolding admit_one
  next_id-admit_loop [] s = unfold admit_loop in refl
  next_id-admit_loop (r ∷ rs) s =
      After-admit_loop b n_parallel (λ a. a.next_id ≡ s.next_id) r rs s
        (λ go. next_id-admit_loop rs (admit_one b n_parallel s r)) (λ stay. refl)

  pub next_id-step : (s : State W S) → After (λ x. x.0.next_id ≡ s.next_id) (step b n_parallel s)
  unfolding step admit
  next_id-step s =
      After-batched b n_parallel (λ x. x.0.next_id ≡ s.next_id)
        (admit_loop b n_parallel s.pending s)
        (After-map (λ a. a.next_id ≡ s.next_id) (λ a. (batch b n_parallel a).0.next_id ≡ s.next_id)
          (admit_loop b n_parallel s.pending s) (λ a h. (batch-Kept a).0 ∙ h)
          (next_id-admit_loop s.pending s))
