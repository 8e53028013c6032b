-- ===== src/Scheduler/Positions.antt =====
-- core/scheduler.cpp: what the fields of a request say of its KV cells and of its progress.
use reame.Base.{
  ℕ, suc, ◌+◌, ◌-◌, ◌≤◌, ◌<◌, ◌^◌, ◌≡◌, refl, ◌∙◌, ◌⊎◌, inl, inr, Bool, true, false, Option, none,
  some, List, [], ◌∷◌, arith, Bool-cases, length, length-append, if◌then◌else◌, All, All-append,
}
use reame.Scheduler.Attempts.{After, After-admit_loop}
use reame.Scheduler.{
  Request, Backend, State, Failure, decode_failed, request_failed, finish, release, emit, sampled,
  advance, advance_all, finish_all, decoded, batch, admit_loop, admit_one, slices, slice, fed,
  grown, stops, is_empty, cloned, slotted, donor_for, free_slot, request,
}

-- A request that waits is as `submit` built it.
pub record Fresh {S : Type 0} (n_ctx : ℕ) (r : Request S) : Type 0 where
  pub whole : r.prompt_len ≡ length r.history
  pub nonempty : 0 < r.prompt_len
  pub fits : length r.history ≤ n_ctx
  pub silent : r.emitted ≡ 0
  pub unread : r.n_past ≡ 0
  pub prefill : r.needs_prefill ≡ true

-- Between steps the KV of an active request holds its history less the newest token, or nothing
-- if the prompt is still to be read; it has emitted what its history has beyond the prompt; and it
-- has room and budget for one token more, unless it has emitted none.
pub record Ready {S : Type 0} (n_ctx : ℕ) (r : Request S) : Type 0 where
  pub whole : r.prompt_len + r.emitted ≡ length r.history
  pub nonempty : 0 < r.prompt_len
  pub fits : length r.history ≤ n_ctx
  pub position : r.n_past ≡ (if r.needs_prefill then 0 else length r.history - 1)
  pub unread : (if r.needs_prefill then r.emitted else 0) ≡ 0
  pub budget : (r.emitted ≡ 0) ⊎ ((r.emitted < r.max_tokens) × (length r.history < n_ctx))

-- After its slice is decoded.
pub record Decoded {S : Type 0} (n_ctx : ℕ) (r : Request S) : Type 0 where
  pub whole : r.prompt_len + r.emitted ≡ length r.history
  pub nonempty : 0 < r.prompt_len
  pub position : r.n_past ≡ length r.history
  pub read : r.needs_prefill ≡ false

pub fed-Decoded :
    {S : Type 0} (n_ctx : ℕ) (r : Request S)
    → n_ctx < 2 ^ 32
    → Ready n_ctx r
    → Decoded n_ctx (fed r)
unfolding fed slice
fed-Decoded n_ctx r small v = ground arith

admitted-Ready :
    {S : Type 0} (n_ctx : ℕ) (d : Option (Request S)) (q : Option ℕ) (r : Request S)
    → n_ctx < 2 ^ 32
    → Fresh n_ctx r
    → Ready n_ctx (cloned d (slotted q r))
unfolding cloned slotted
admitted-Ready n_ctx d q r small v = ground arith

pub request-Fresh :
    {S : Type 0} (n_ctx id : ℕ) (prompt : List ℕ) (max_tokens : ℕ) (sampler : S)
    → 0 < length prompt
    → length prompt ≤ n_ctx
    → Fresh n_ctx (request id prompt max_tokens sampler)
unfolding request
request-Fresh n_ctx id prompt max_tokens sampler h k = ground arith

module _ {W S L : Type 0} (b : Backend W S L) (n_parallel : ℕ) where
  grown-Ready :
      (keep_going : Bool) (t : ℕ) (r : Request S)
      → Decoded b.context_length r
      → stops b n_parallel keep_going (grown r t) ≡ false
      → Ready b.context_length (grown r t)
  unfolding stops grown
  grown-Ready keep_going t r v h = ground (arith, length-append r.history (t ∷ []))

  active-finish :
      (r : Request S) (e : Option Failure) (s : State W S)
      → (finish b n_parallel r e s).active ≡ s.active
  unfolding finish release
  active-finish r e s = ground arith

  emit-Ready :
      (called : Option Bool × W) (t : ℕ) (r : Request S) (s : State W S)
      → Decoded b.context_length r
      → All (Ready b.context_length) s.active
      → All (Ready b.context_length) (emit b n_parallel called t r s).active
  unfolding emit
  emit-Ready (none, w) t r s v h =
      rw (active-finish r (some request_failed) (record s { world = w })) h
  emit-Ready (some keep_going, w) t r s v h =
      elim (Bool-cases (stops b n_parallel keep_going (grown r t))) [
        | inl done ↦ rw (done, active-finish (grown r t) none (record s { world = w })) h
        | inr more ↦ rw more (
            All-append (Ready b.context_length) s.active (grown r t ∷ []) h
              (grown-Ready keep_going t r v more, tt))
      ]

  advance-Ready :
      (row : L) (r : Request S) (s : State W S)
      → b.context_length < 2 ^ 32
      → Ready b.context_length r
      → All (Ready b.context_length) s.active
      → All (Ready b.context_length) (advance b n_parallel row r s).active
  unfolding advance sampled
  advance-Ready row r s small v h = go (b.sample r.sampler row r.history)
    where
      go :
          (drawn : Option (ℕ × S))
          → All (Ready b.context_length) (sampled b n_parallel drawn (fed r) s).active
      go none = rw (active-finish (fed r) (some request_failed) s) h
      go (some (t, smp)) = elim (Bool-cases (b.is_eog t)) [
        | inl eog ↦ rw (eog, active-finish (fed r) none s) h
        | inr more ↦
            let d = fed-Decoded b.context_length r small v in
            rw more (
              emit-Ready (b.on_token s.world (fed r).id t) t (record (fed r) { sampler = smp }) s
                (record {
                  whole = d.whole;
                  nonempty = d.nonempty;
                  position = d.position;
                  read = d.read;
                })
                h)
      ]

  advance_all-Ready :
      (rows : ℕ → L) (i : ℕ) (rs : List (Request S)) (s : State W S)
      → b.context_length < 2 ^ 32
      → All (Ready b.context_length) rs
      → All (Ready b.context_length) s.active
      → All (Ready b.context_length) (advance_all b n_parallel rows i rs s).active
  unfolding advance_all
  advance_all-Ready rows i [] s small vs h = h
  advance_all-Ready rows i (r ∷ rs) s small vs h =
      advance_all-Ready rows (suc i) rs (advance b n_parallel (rows i) r s) small vs.1
        (advance-Ready (rows i) r s small vs.0 h)

  finish_all-Ready :
      (rs : List (Request S)) (s : State W S) → (finish_all b n_parallel rs s).active ≡ s.active
  unfolding finish_all
  finish_all-Ready [] s = refl
  finish_all-Ready (r ∷ rs) s =
      finish_all-Ready rs (finish b n_parallel r (some decode_failed) s)
      ∙ active-finish r (some decode_failed) s

  decoded-Ready :
      (result : Option (ℕ → L) × W) (s : State W S)
      → b.context_length < 2 ^ 32
      → All (Ready b.context_length) s.active
      → All (Ready b.context_length) (decoded b n_parallel result s).0.active
  unfolding decoded
  decoded-Ready (none, w) s small h =
      rw (finish_all-Ready s.active (record s { world = w; active = [] })) tt
  decoded-Ready (some rows, w) s small h =
      advance_all-Ready rows 0 s.active (record s { world = w; active = [] }) small h tt

  pub batch-Ready :
      (s : State W S)
      → b.context_length < 2 ^ 32
      → All (Ready b.context_length) s.active
      → All (Ready b.context_length) (batch b n_parallel s).0.active
  unfolding batch
  batch-Ready s small h = elim (Bool-cases (is_empty s.active)) [
    | inl e ↦ rw e h
    | inr e ↦ rw e (decoded-Ready (b.decode_seqs s.world (slices s.active)) s small h)
  ]

  pub admit_loop-Ready :
      (rs : List (Request S)) (s : State W S)
      → b.context_length < 2 ^ 32
      → All (Fresh b.context_length) rs
      → All (Ready b.context_length) s.active
      → After
          (λ a. All (Fresh b.context_length) a.pending × All (Ready b.context_length) a.active)
          (admit_loop b n_parallel rs s)
  unfolding admit_one
  admit_loop-Ready [] s small f h = unfold admit_loop in (tt, h)
  admit_loop-Ready (r ∷ rs) s small f h =
      After-admit_loop b n_parallel
        (λ a. All (Fresh b.context_length) a.pending × All (Ready b.context_length) a.active) r rs s
        (λ go. admit_loop-Ready rs (admit_one b n_parallel s r) small f.1 (
          All-append (Ready b.context_length) s.active _ h (
            admitted-Ready b.context_length (donor_for s r) (free_slot s.slot_used) r small f.0,
            tt,
          )))
        (λ stay. (f, h))
