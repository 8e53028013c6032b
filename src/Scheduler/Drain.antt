-- ===== src/Scheduler/Drain.antt =====
-- core/scheduler.cpp: `run_until_idle` from any state that the calls lead to.
use reame.Base.{
  ℕ, zero, suc, ◌-◌, ◌≤◌, ◌<◌, ◌^◌, ◌≡◌, refl, sym, subst, inl, inr, true, Option, some, List, [],
  ◌∷◌, ◌==◌, arith, false, Bool-cases, if◌then◌else◌, All, All-append, leb, ◌&&◌,
}
use reame.Scheduler.Attempts.{After, After-map, After-batched, step-went}
use reame.Scheduler.{
  went, batch, admit_loop, Backend, Request, State, Failure, init, step, admit, enqueued,
  run_until_idle, finished, idle, is_empty, lookup_done,
}
use reame.Scheduler.Census.{census, count_ids, count_done}
use reame.Scheduler.Kept.{batch-Kept}
use reame.Scheduler.Positions.{Fresh, Ready, admit_loop-Ready, batch-Ready, request-Fresh}
use reame.Scheduler.Progress.{work, work-step, step-idle}
use reame.Scheduler.Reach.{Reach, start, submitted, stepped, submit_inv, Reach-census}

finished_of_count :
    (k : ℕ) (ds : List (ℕ × Option Failure))
    → 0 < count_done k ds
    → (e : Option Failure) × (lookup_done k ds ≡ some e)
unfolding count_done
finished_of_count k [] h = absurd (omega arith)
finished_of_count k ((id, e) ∷ ds) h = elim (Bool-cases (id == k)) [
  | inl same ↦ (e, rw same)
  | inr other ↦ rw other (finished_of_count k ds (let h' = rw other at h in omega arith))
]

count_ids-empty :
    {S : Type 0} (k : ℕ) (rs : List (Request S)) → is_empty rs ≡ true → count_ids k rs ≡ 0
unfolding count_ids
count_ids-empty k [] h = refl
count_ids-empty k (r ∷ rs) h = cc

finished-idle :
    {W S : Type 0} (k : ℕ) (s : State W S) → idle s ≡ true → 0 < census k s → finished s k ≡ true
unfolding idle census finished
finished-idle k s e h =
    let empty_active : is_empty s.active ≡ true = ground arith in
    let empty_pending : is_empty s.pending ≡ true = ground arith in
    let (f, found) = finished_of_count k s.done (
      omega (
        arith,
        count_ids-empty k s.active empty_active,
        count_ids-empty k s.pending empty_pending,
      )) in
    rw (found, finished)

issued : (k n : ℕ) → 1 ≤ k → k ≤ n → 0 < (if leb 1 k && leb k n then 1 else 0)
issued k n lo hi = ground arith

module _ {W S L : Type 0} (b : Backend W S L) (n_parallel : ℕ) (w : W) where
  -- In every state that submissions and steps that throw nothing lead to, each waiting request is
  -- as it was submitted, and each active one is at the position that its history says: see `Fresh`
  -- and `Ready`.
  pub Reach-Ready :
      {n : ℕ} {s : State W S}
      → b.context_length < 2 ^ 32
      → Reach b n_parallel w n s
      → All (Fresh b.context_length) s.pending × All (Ready b.context_length) s.active
  unfolding init enqueued step admit
  Reach-Ready small start = (tt, tt)
  Reach-Ready small (submitted {s = s} {s' = s'} prompt max_tokens sampler callback id r e) =
      let (nonempty, fits, _, same) =
        submit_inv b n_parallel s s' prompt max_tokens sampler callback id e in
      subst
        (λ (t : State W S).
          All (Fresh b.context_length) t.pending × All (Ready b.context_length) t.active)
        same
        (let h = Reach-Ready small r in
          (
            All-append (Fresh b.context_length) s.pending _ h.0 (
              request-Fresh b.context_length s.next_id prompt max_tokens sampler nonempty fits,
              tt,
            ),
            h.1,
          ))
  Reach-Ready small (stepped {s = s} r e) =
      let h = Reach-Ready small r in
      subst
        (After
          (λ x. All (Fresh b.context_length) x.0.pending × All (Ready b.context_length) x.0.active))
        e
        (After-batched b n_parallel
          (λ x. All (Fresh b.context_length) x.0.pending × All (Ready b.context_length) x.0.active)
          (admit_loop b n_parallel s.pending s)
          (After-map
            (λ a. All (Fresh b.context_length) a.pending × All (Ready b.context_length) a.active)
            (λ a.
              All (Fresh b.context_length) (batch b n_parallel a).0.pending
              × All (Ready b.context_length) (batch b n_parallel a).0.active)
            (admit_loop b n_parallel s.pending s)
            (λ a k. (rw (batch-Kept b n_parallel a).1 k.0, batch-Ready b n_parallel a small k.1))
            (admit_loop-Ready b n_parallel s.pending s small h.0 h.1)))

  drains :
      (fuel : ℕ) {n : ℕ} {s : State W S}
      → 0 < n_parallel
      → b.context_length < 2 ^ 32
      → Reach b n_parallel w n s
      → work s < fuel
      → ((w' : W) (from to : Option ℕ) (k : ℕ) → (b.copy_seq w' from to k).1 ≡ true)
      → (s' : State W S) × (run_until_idle b n_parallel fuel s ≡ some (went s'))
        × (idle s' ≡ true)
        × Reach b n_parallel w n s'
  unfolding run_until_idle idle
  drains zero positive small r h copies = absurd (omega arith)
  drains (suc fuel) {s = s} positive small r h copies =
      let ((s', more), e) = step-went b n_parallel copies s in
      let works =
        subst (After (λ x. x.1 ≡ true → work x.0 < work s)) e
          (work-step b n_parallel s positive (Reach-Ready small r).0) in
      let rests =
        subst
          (After (λ x. x.1 ≡ false → (is_empty x.0.active ≡ true) × (is_empty x.0.pending ≡ true)))
          e (step-idle b n_parallel s) in
      elim (Bool-cases more) [
        | inl yes_more ↦
            rw (e, run_until_idle)
              (rw (yes_more, run_until_idle)
                (drains fuel positive small (stepped r e) (omega (arith, works yes_more)) copies))
        | inr no_more ↦
            let (active, pending) = rests no_more in
            (
              s',
              rw (e, run_until_idle) (rw (no_more, run_until_idle) refl),
              rw (active, pending) refl,
              stepped r e,
            )
      ]

  -- From every reachable state `run_until_idle` returns, if it is given more rounds than the
  -- requests have tokens left to emit (at least one each), whatever the decodes, the samplers and
  -- the callbacks do, failing or not, as long as `copy_seq` throws nothing. Then nothing is pending
  -- or active, and each of the n requests is finished.
  pub run_until_idle_total :
      (fuel : ℕ) {n : ℕ} {s : State W S}
      → 0 < n_parallel
      → b.context_length < 2 ^ 32
      → n < 2 ^ 64 - 1
      → Reach b n_parallel w n s
      → work s < fuel
      → ((w' : W) (from to : Option ℕ) (k : ℕ) → (b.copy_seq w' from to k).1 ≡ true)
      → (s' : State W S) × (run_until_idle b n_parallel fuel s ≡ some (went s'))
        × (idle s' ≡ true)
        × ((k : ℕ) → 1 ≤ k → k ≤ n → finished s' k ≡ true)
  run_until_idle_total fuel {n = n} positive small few r h copies =
      let (s', runs, e, r') = drains fuel positive small r h copies in
      (
        s',
        runs,
        e,
        λ k lo hi.
            finished-idle k s' e (
              subst (λ t. 0 < t) (sym (Reach-census b n_parallel w k few r').1) (issued k n lo hi)),
      )
