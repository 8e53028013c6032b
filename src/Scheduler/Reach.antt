-- ===== src/Scheduler/Reach.antt =====
-- core/scheduler.cpp: the states that calls of `submit` and `step` lead to, in any order.
use reame.Base.{
  ℕ, suc, ◌+◌, ◌≤◌, ◌<◌, ◌^◌, max, ◌≡◌, refl, sym, subst, ◌∙◌, ◌-◌, ◌%◌, false, Bool, List, [], ◌∷◌,
  arith, length, length-replicate, get_elem?, leb, ◌&&◌, if◌then◌else◌,
}
use reame.Scheduler.Attempts.{After}
use reame.Scheduler.{Backend, State, init, submit, step, ok, enqueued, went}
use reame.Scheduler.Census.{census, count_ids, count_done, census-step, census-enqueued}
use reame.Scheduler.Kept.{next_id-step}
use reame.Scheduler.Slots.{
  Slotted, held, homeless, occupied, Slotted-step, get_elem?-replicate, count_true-replicate,
  count_true-le,
}

-- `Reach n s`: a scheduler built over `w` is in state `s` after `n` submissions that were taken,
-- with steps anywhere between them, none of which throws: nothing catches what leaves `step`.
pub data Reach {W S L : Type 0} (b : Backend W S L) (n_parallel : ℕ) (w : W)
    : ℕ → State W S → Type 0 where
  start : Reach b n_parallel w 0 (init b n_parallel w)
  submitted :
      {n : ℕ} {s s' : State W S} (prompt : List ℕ) (max_tokens : ℕ) (sampler : S) (callback : Bool)
      (id : ℕ)
      → Reach b n_parallel w n s
      → submit b n_parallel s prompt max_tokens sampler callback ≡ ok (s', id)
      → Reach b n_parallel w (suc n) s'
  stepped :
      {n : ℕ} {s s' : State W S} {more : Bool}
      → Reach b n_parallel w n s
      → step b n_parallel s ≡ went (s', more)
      → Reach b n_parallel w n s'

-- A submission that is taken has a prompt that fits, and only joins the queue.
pub submit_inv :
    {W S L : Type 0} (b : Backend W S L) (n_parallel : ℕ) (s s' : State W S) (prompt : List ℕ)
    (max_tokens : ℕ) (sampler : S) (callback : Bool) (id : ℕ)
    → submit b n_parallel s prompt max_tokens sampler callback ≡ ok (s', id)
    → (0 < length prompt)
      × (length prompt ≤ b.context_length)
      × (id ≡ s.next_id)
      × (enqueued s prompt max_tokens sampler ≡ s')
unfolding submit
submit_inv b n_parallel s s' [] max_tokens sampler callback id h = cc
submit_inv b n_parallel s s' (t ∷ ts) max_tokens sampler callback id h = ground arith

next_id-enqueued :
    {W S : Type 0} (s : State W S) (prompt : List ℕ) (max_tokens : ℕ) (sampler : S)
    → (enqueued s prompt max_tokens sampler).next_id ≡ (s.next_id + 1) % 2 ^ 64
unfolding enqueued
next_id-enqueued s prompt max_tokens sampler = refl

module _ {W S L : Type 0} (b : Backend W S L) (n_parallel : ℕ) (w : W) where
  Reach-Slotted :
      {n : ℕ} {s : State W S}
      → Reach b n_parallel w n s
      → Slotted (max n_parallel 1) s.slot_used [] s.active
  unfolding init enqueued
  Reach-Slotted start = (
    λ q. sym (get_elem?-replicate (max n_parallel 1) q),
    count_true-replicate (max n_parallel 1),
    refl,
    length-replicate (max n_parallel 1) false,
  )
  Reach-Slotted (submitted {s = s} {s' = s'} prompt max_tokens sampler callback id r e) =
      subst (λ (t : State W S). Slotted (max n_parallel 1) t.slot_used [] t.active)
        (submit_inv b n_parallel s s' prompt max_tokens sampler callback id e).3 (Reach-Slotted r)
  Reach-Slotted (stepped {s = s} r e) =
      subst (After (λ x. Slotted (max n_parallel 1) x.0.slot_used [] x.0.active)) e
        (Slotted-step b n_parallel (max n_parallel 1) s (omega arith) (Reach-Slotted r))

  -- In every state that submissions and steps that throw nothing lead to, the active requests and
  -- the marked slots match one to one: slot `q` is marked exactly if one active request holds it,
  -- and then one only; every active request holds a slot; there are as many slots as the
  -- constructor made, and no more active requests.
  pub Reach-slots :
      {n : ℕ} {s : State W S}
      → 0 < n_parallel
      → Reach b n_parallel w n s
      → ((q : ℕ) → held q s.active ≡ occupied (get_elem? s.slot_used q))
        × (homeless s.active ≡ 0)
        × (length s.slot_used ≡ n_parallel)
        × (length s.active ≤ n_parallel)
  Reach-slots {s = s} positive r =
      let (exact, count, housed, sized) = Reach-Slotted r in
      (
        λ q. omega (arith, exact q),
        omega arith,
        omega arith,
        omega (arith, count_true-le s.slot_used),
      )

  -- With fewer than 2 ^ 64 - 1 submissions, and steps that throw nothing, the ids 1 to n are handed
  -- out, and each of them is in exactly one place, and once: pending, active or done. No other id
  -- is anywhere.
  pub Reach-census :
      {n : ℕ} {s : State W S} (k : ℕ)
      → n < 2 ^ 64 - 1
      → Reach b n_parallel w n s
      → (s.next_id ≡ n + 1) × (census k s ≡ (if leb 1 k && leb k n then 1 else 0))
  unfolding init
  Reach-census k few start = (refl, unfold census count_ids count_done in ground arith)
  Reach-census k few
        (submitted {n = n} {s = s} {s' = s'} prompt max_tokens sampler callback id r e) =
      subst
        (λ (t : State W S).
          (t.next_id ≡ suc n + 1) × (census k t ≡ (if leb 1 k && leb k (suc n) then 1 else 0)))
        (submit_inv b n_parallel s s' prompt max_tokens sampler callback id e).3
        (let h = Reach-census k (omega arith) r in
          (
            omega (arith, h.0, next_id-enqueued s prompt max_tokens sampler),
            ground (arith, h.0, h.1, census-enqueued k s prompt max_tokens sampler),
          ))
  Reach-census k few (stepped {s = s} r e) =
      let h = Reach-census k few r in
      let kept = subst (After (λ x. x.0.next_id ≡ s.next_id)) e (next_id-step b n_parallel s) in
      let counted =
        subst (After (λ x. census k x.0 ≡ census k s)) e (census-step b n_parallel k s) in
      (kept ∙ h.0, counted ∙ h.1)
