-- ===== src/Scheduler/Attempts.antt =====
-- core/scheduler.cpp: what holds behind a call that throws nothing.
use reame.Base.{
  ℕ, ◌≡◌, refl, inl, inr, Bool, true, false, List, [], ◌∷◌, Option, none, some, Bool-cases,
}
use reame.Scheduler.{
  Backend, Request, State, Attempt, went, threw, admit_loop, admit_one, may_admit, copy, copied,
  donor_for, free_slot, slotted, batch, batched, step, admit,
}

-- `P` of what the call returns; nothing is said behind an exception.
abbrev pub After : {T A : Type 0} → (A → Type 0) → Attempt T A → Type 0
After P (went a) = P a
After P (threw t) = Unit

pub After-map :
    {T A : Type 0} (P Q : A → Type 0) (x : Attempt T A)
    → ((a : A) → P a → Q a)
    → After P x
    → After Q x
After-map P Q (went a) f h = f a h
After-map P Q (threw t) f h = tt

module _ {W S L : Type 0} (b : Backend W S L) (n_parallel : ℕ) where
  pub After-batched :
      (Q : State W S × Bool → Type 0) (x : Attempt (State W S) (State W S))
      → After (λ a. Q (batch b n_parallel a)) x
      → After Q (batched b n_parallel x)
  unfolding batched
  After-batched Q (went a) h = h
  After-batched Q (threw a) h = tt

  -- One round of the admission: it is enough to show the rest behind a copy that throws nothing.
  pub After-admit_loop :
      (Q : State W S → Type 0) (r : Request S) (rest : List (Request S)) (s : State W S)
      → (may_admit b n_parallel s r ≡ true
          → After Q (admit_loop b n_parallel rest (admit_one b n_parallel s r)))
      → (may_admit b n_parallel s r ≡ false → Q (record s { pending = r ∷ rest }))
      → After Q (admit_loop b n_parallel (r ∷ rest) s)
  unfolding admit_loop
  After-admit_loop Q r rest s h k = elim (Bool-cases (may_admit b n_parallel s r)) [
    | inr stay ↦ rw (stay, admit_loop) (k stay)
    | inl go ↦ elim (Bool-cases (copy b n_parallel s r).1) [
      | inl copied_it ↦ rw (go, admit_loop) (rw (copied_it, admit_loop) (h go))
      | inr failed ↦ rw (go, admit_loop) (rw (failed, admit_loop) tt)
    ]
  ]

  module _ (copies : (w : W) (from to : Option ℕ) (n : ℕ) → (b.copy_seq w from to n).1 ≡ true) where
    copy-went : (s : State W S) (r : Request S) → (copy b n_parallel s r).1 ≡ true
    unfolding copy
    copy-went s r = go (donor_for s r)
      where
        go :
            (d : Option (Request S))
            → (copied b n_parallel d s.world (slotted (free_slot s.slot_used) r)).1 ≡ true
        go none = unfold copied in refl
        go (some d) = unfold copied in copies s.world d.seq_id _ _

    -- If no copy throws, the admission does not.
    pub admit_loop-went :
        (rs : List (Request S)) (s : State W S)
        → (a : State W S) × (admit_loop b n_parallel rs s ≡ went a)
    unfolding admit_loop
    admit_loop-went [] s = (record s { pending = [] }, refl)
    admit_loop-went (r ∷ rest) s = elim (Bool-cases (may_admit b n_parallel s r)) [
      | inr stay ↦ rw (stay, admit_loop) (record s { pending = r ∷ rest }, refl)
      | inl go ↦
          rw (go, admit_loop)
            (rw (copy-went s r, admit_loop) (admit_loop-went rest (admit_one b n_parallel s r)))
    ]

    -- Nor does the step.
    pub step-went : (s : State W S) → (x : State W S × Bool) × (step b n_parallel s ≡ went x)
    unfolding step admit batched
    step-went s =
        let (a, e) = admit_loop-went s.pending s in (batch b n_parallel a, rw (e, batched) refl)
