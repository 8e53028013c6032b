-- ===== src/Scheduler.antt =====
-- core/scheduler.cpp: one batched forward pass per step over all active requests.
-- `world` is what the scheduler calls and does not own: the llama.cpp context and the
-- clients behind the token callbacks. A sequence id of -1 is `none`.
pub mod Attempts
pub mod Census
pub mod Slots
pub mod Kept
pub mod Positions
pub mod Progress
pub mod Reach
pub mod Drain
use reame.Base.{
  ℕ, zero, suc, ◌+◌, ◌-◌, max, Bool, true, false, not, ◌&&◌, ◌||◌, Option, none, some, List, [],
  ◌∷◌, ◌++◌, ltb, leb, ◌==◌, if◌then◌else◌, length, set, replicate, u32, u64,
}

pub data Failure : Type 0 where
  decode_failed request_failed : Failure

pub data EngineError : Type 0 where
  empty_prompt prompt_too_long null_callback : EngineError

pub data Result {ℓ} (A : Type ℓ) : Type ℓ where
  ok : A → Result A
  err : EngineError → Result A

-- A call that returns `went`, or throws out of the state that it leaves.
pub data Attempt (T A : Type 0) : Type 0 where
  went : A → Attempt T A
  threw : T → Attempt T A

pub record SeqSlice : Type 0 where
  pub seq_id : Option ℕ
  pub tokens : List ℕ
  pub pos_start : ℕ

pub record Request (S : Type 0) : Type 0 where
  pub id : ℕ
  pub history : List ℕ
  pub prompt_len : ℕ
  pub max_tokens : ℕ
  pub sampler : S
  pub emitted : ℕ
  pub seq_id : Option ℕ
  pub n_past : ℕ
  pub needs_prefill : Bool

-- The calls into llama.cpp (through LlamaBackend), the sampler and the callbacks. `none` is an
-- exception, and so is `false` behind `copy_seq`. `decode_seqs` gives the logits of slice i as row i;
-- `clear_seq` is taken to throw nothing.
pub record Backend (W S L : Type 0) : Type 0 where
  pub context_length : ℕ
  pub decode_seqs : W → List SeqSlice → Option (ℕ → L) × W
  pub clear_seq : W → ℕ → W
  pub copy_seq : W → Option ℕ → Option ℕ → ℕ → W × Bool
  pub is_eog : ℕ → Bool
  pub sample : S → L → List ℕ → Option (ℕ × S)
  pub on_token : W → ℕ → ℕ → Option Bool × W

-- `done` holds the newest completion first.
pub record State (W S : Type 0) : Type 0 where
  pub world : W
  pub pending : List (Request S)
  pub active : List (Request S)
  pub slot_used : List Bool
  pub done : List (ℕ × Option Failure)
  pub next_id : ℕ

abbrev pub is_empty {ℓ} : {A : Type ℓ} → List A → Bool
is_empty [] = true
is_empty (x ∷ xs) = false

-- `history.back()`; 0 stands for the read past the end of an empty vector.
abbrev pub back : List ℕ → ℕ
back [] = 0
back (t ∷ []) = t
back (t ∷ u ∷ ts) = back (u ∷ ts)

-- std::equal over the whole first range.
unfoldable pub is_prefix : List ℕ → List ℕ → Bool
is_prefix [] ys = true
is_prefix (x ∷ xs) [] = false
is_prefix (x ∷ xs) (y ∷ ys) = (x == y) && is_prefix xs ys

unfoldable pub free_slot : List Bool → Option ℕ
free_slot [] = none
free_slot (false ∷ used) = some 0
free_slot (true ∷ used) = elim (free_slot used) [ none ↦ none | some q ↦ some (suc q) ]

-- std::uint32_t, so it wraps.
unfoldable pub cells_used : {S : Type 0} → List (Request S) → ℕ
cells_used [] = 0
cells_used (r ∷ rs) = u32 (u32 (length r.history) + cells_used rs)

unfoldable pub find_donor : {S : Type 0} → List (Request S) → List ℕ → Option (Request S)
find_donor [] prompt = none
find_donor (a ∷ active) prompt =
    if (a.prompt_len == length prompt) && is_prefix prompt a.history
    then some a
    else find_donor active prompt

-- One slice per active request: the whole prompt when prefilling, else the newest token.
unfoldable pub slice : {S : Type 0} → Request S → SeqSlice
slice r =
    if r.needs_prefill
    then record { seq_id = r.seq_id; tokens = r.history; pos_start = 0 }
    else record { seq_id = r.seq_id; tokens = back r.history ∷ []; pos_start = r.n_past }

unfoldable pub slices : {S : Type 0} → List (Request S) → List SeqSlice
slices [] = []
slices (r ∷ rs) = slice r ∷ slices rs

-- A request as `submit` builds it.
unfoldable pub request : {S : Type 0} → ℕ → List ℕ → ℕ → S → Request S
request id prompt max_tokens sampler = record {
  id = id;
  history = prompt;
  prompt_len = length prompt;
  max_tokens = max_tokens;
  sampler = sampler;
  emitted = 0;
  seq_id = none;
  n_past = 0;
  needs_prefill = true;
}

unfoldable pub enqueued : {W S : Type 0} → State W S → List ℕ → ℕ → S → State W S
enqueued s prompt max_tokens sampler = record s {
  pending = s.pending ++ request s.next_id prompt max_tokens sampler ∷ [];
  next_id = u64 (s.next_id + 1);
}

-- The donor's prompt is not in its KV yet.
unfoldable pub donor_waits : {S : Type 0} → Option (Request S) → Bool
donor_waits none = false
donor_waits (some d) = ltb d.n_past d.prompt_len

unfoldable pub donor_for : {W S : Type 0} → State W S → Request S → Option (Request S)
donor_for s r = if ltb 1 (length r.history) then find_donor s.active r.history else none

-- `slot_used[s] = true` and `r.seq_id = s` at the first free slot, if there is one.
unfoldable pub claim : Option ℕ → List Bool → List Bool
claim none used = used
claim (some q) used = set used q true

unfoldable pub slotted : {S : Type 0} → Option ℕ → Request S → Request S
slotted none r = r
slotted (some q) r = record r { seq_id = some q }

-- The donor's prompt, less its last token, is in the new slot.
unfoldable pub cloned : {S : Type 0} → Option (Request S) → Request S → Request S
cloned none r = r
cloned (some d) r = record r { n_past = u32 (r.prompt_len - 1); needs_prefill = false }

-- What `decode_seqs` did to the request's slot.
unfoldable pub fed : {S : Type 0} → Request S → Request S
fed r = record r { n_past = u32 (r.n_past + length (slice r).tokens); needs_prefill = false }

-- The request with the new token.
unfoldable pub grown : {S : Type 0} → Request S → ℕ → Request S
grown r t = record r { history = r.history ++ t ∷ []; emitted = r.emitted + 1 }

module _ {W S L : Type 0} (b : Backend W S L) (n_parallel : ℕ) where
  unfoldable pub init : W → State W S
  init w = record {
    world = w;
    pending = [];
    active = [];
    slot_used = replicate (max n_parallel 1) false;
    done = [];
    next_id = 1;
  }

  -- The guard of the constructor comes after the state is built.
  unfoldable pub construct : W → Option (State W S)
  construct w = if ltb n_parallel 1 then none else some (init w)

  -- `callback` says whether the std::function holds a target; the callback itself is `on_token`.
  unfoldable pub submit : State W S → List ℕ → ℕ → S → Bool → Result (State W S × ℕ)
  submit s prompt max_tokens sampler callback =
      if is_empty prompt
      then err empty_prompt
      else if ltb b.context_length (length prompt)
      then err prompt_too_long
      else if not callback
      then err null_callback
      else ok (enqueued s prompt max_tokens sampler, s.next_id)

  unfoldable pub release : State W S → Option ℕ → State W S
  release s none = s
  release s (some q) = record s {
    world = b.clear_seq s.world q;
    slot_used = set s.slot_used q false;
  }

  unfoldable pub finish : Request S → Option Failure → State W S → State W S
  finish r e s = let s' = release s r.seq_id in record s' { done = (r.id, e) ∷ s'.done }

  unfoldable pub may_admit : State W S → Request S → Bool
  may_admit s r =
      ltb (length s.active) n_parallel
      && leb (u32 (cells_used s.active + u32 (length r.history))) b.context_length
      && not (donor_waits (donor_for s r))

  unfoldable pub copied : Option (Request S) → W → Request S → W × Bool
  copied none w r = (w, true)
  copied (some d) w r = b.copy_seq w d.seq_id r.seq_id (u32 (r.prompt_len - 1))

  -- What `copy_seq` leaves for the request that goes into the first free slot.
  unfoldable pub copy : State W S → Request S → W × Bool
  copy s r = copied (donor_for s r) s.world (slotted (free_slot s.slot_used) r)

  unfoldable pub admit_one : State W S → Request S → State W S
  admit_one s r =
      let donor = donor_for s r in
      let slot = free_slot s.slot_used in
      record s {
        world = (copy s r).0;
        slot_used = claim slot s.slot_used;
        active = s.active ++ cloned donor (slotted slot r) ∷ [];
      }

  -- An exception of `copy_seq` leaves the slot marked, and the request is nowhere.
  unfoldable pub lost : State W S → Request S → List (Request S) → State W S
  lost s r rest = record s {
    world = (copy s r).0;
    slot_used = claim (free_slot s.slot_used) s.slot_used;
    pending = rest;
  }

  -- The loop over `pending`, which is the argument.
  unfoldable pub admit_loop : List (Request S) → State W S → Attempt (State W S) (State W S)
  admit_loop [] s = went (record s { pending = [] })
  admit_loop (r ∷ rest) s = elim (may_admit s r) [
    | true ↦ elim (copy s r).1 [
      | true ↦ admit_loop rest (admit_one s r)
      | false ↦ threw (lost s r rest)
    ]
    | false ↦ went (record s { pending = r ∷ rest })
  ]

  unfoldable pub admit : State W S → Attempt (State W S) (State W S)
  admit s = admit_loop s.pending s

  unfoldable pub finish_all : List (Request S) → State W S → State W S
  finish_all [] s = s
  finish_all (r ∷ rs) s = finish_all rs (finish r (some decode_failed) s)

  unfoldable pub stops : Bool → Request S → Bool
  stops keep_going r =
      not keep_going || leb r.max_tokens r.emitted || leb b.context_length (length r.history)

  -- After the callback, which may have thrown. `active` is `still_active` here.
  unfoldable pub emit : Option Bool × W → ℕ → Request S → State W S → State W S
  emit (none, w) t r s = finish r (some request_failed) (record s { world = w })
  emit (some keep_going, w) t r s =
      if stops keep_going (grown r t)
      then finish (grown r t) none (record s { world = w })
      else record s { world = w; active = s.active ++ grown r t ∷ [] }

  unfoldable pub sampled : Option (ℕ × S) → Request S → State W S → State W S
  sampled none r s = finish r (some request_failed) s
  sampled (some (t, sampler)) r s =
      if b.is_eog t
      then finish r none s
      else emit (b.on_token s.world r.id t) t (record r { sampler = sampler }) s

  unfoldable pub advance : L → Request S → State W S → State W S
  advance row r s = sampled (b.sample r.sampler row r.history) (fed r) s

  -- The requests of the batch from index `i` on.
  unfoldable pub advance_all : (ℕ → L) → ℕ → List (Request S) → State W S → State W S
  advance_all rows i [] s = s
  advance_all rows i (r ∷ rs) s = advance_all rows (suc i) rs (advance (rows i) r s)

  unfoldable pub decoded : Option (ℕ → L) × W → State W S → State W S × Bool
  decoded (none, w) s =
      let s' = finish_all s.active (record s { world = w; active = [] }) in
      (s', not (is_empty s'.pending))
  decoded (some rows, w) s =
      let s' = advance_all rows 0 s.active (record s { world = w; active = [] }) in
      (s', not (is_empty s'.active) || not (is_empty s'.pending))

  unfoldable pub batch : State W S → State W S × Bool
  batch s =
      if is_empty s.active
      then (s, not (is_empty s.pending))
      else decoded (b.decode_seqs s.world (slices s.active)) s

  unfoldable pub batched : Attempt (State W S) (State W S) → Attempt (State W S) (State W S × Bool)
  batched (went s) = went (batch s)
  batched (threw s) = threw s

  unfoldable pub step : State W S → Attempt (State W S) (State W S × Bool)
  step s = batched (admit s)

  -- `while (step()) {}`; `none` means that the fuel ran out.
  unfoldable pub run_until_idle : ℕ → State W S → Option (Attempt (State W S) (State W S))
  run_until_idle zero s = none
  run_until_idle (suc fuel) s = elim (step s) [
    | threw s' ↦ some (threw s')
    | went x ↦ elim x.1 [ true ↦ run_until_idle fuel x.0 | false ↦ some (went x.0) ]
  ]

abbrev pub lookup_done : ℕ → List (ℕ × Option Failure) → Option (Option Failure)
lookup_done id [] = none
lookup_done id ((k, e) ∷ ds) = if k == id then some e else lookup_done id ds

unfoldable pub finished : {W S : Type 0} → State W S → ℕ → Bool
finished s id = elim (lookup_done id s.done) [ none ↦ false | some e ↦ true ]

-- A null exception pointer is `none`.
unfoldable pub error : {W S : Type 0} → State W S → ℕ → Option Failure
error s id = elim (lookup_done id s.done) [ none ↦ none | some e ↦ e ]

unfoldable pub active_count : {W S : Type 0} → State W S → ℕ
active_count s = length s.active

unfoldable pub idle : {W S : Type 0} → State W S → Bool
idle s = is_empty s.active && is_empty s.pending
