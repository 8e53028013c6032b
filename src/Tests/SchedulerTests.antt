-- ===== src/Tests/SchedulerTests.antt =====
-- core/scheduler.cpp at concrete inputs.
use reame.Base.{
  ℕ, ◌+◌, ◌≤◌, ◌≡◌, refl, Bool, true, false, Option, none, some, List, [], ◌∷◌, arith, ◌==◌,
  get_elem?, length, All,
}
use reame.Scheduler.{
  Backend, State, init, submit, step, run_until_idle, enqueued, finished, idle, request, finish,
  release, admit, admit_loop, admit_one, may_admit, batch, decoded, advance_all, advance, sampled,
  emit, stops, grown, fed, slice, slices, find_donor, donor_for, donor_waits, cells_used, is_prefix,
  free_slot, claim, slotted, cloned, copied, copy, batched, Attempt, went, threw,
}
use reame.Scheduler.Attempts.{step-went}
use reame.Scheduler.Census.{census}
use reame.Scheduler.Slots.{held, homeless, occupied}
use reame.Scheduler.Positions.{Fresh, Ready}
use reame.Scheduler.Progress.{work, work_of, steps_left}
use reame.Scheduler.Reach.{Reach, start, submitted, stepped, Reach-slots, Reach-census}
use reame.Scheduler.Drain.{Reach-Ready, run_until_idle_total}

-- The world counts the decodes; the next token is the length of the history; 9 ends a generation.
abbrev counting : Backend ℕ ℕ ℕ
counting = record {
  context_length = 16;
  decode_seqs = λ w ss. (some (λ i. w), w + 1);
  clear_seq = λ w q. w;
  copy_seq = λ w a c n. (w, true);
  is_eog = λ t. t == 9;
  sample = λ s row h. some (length h, s);
  on_token = λ w id t. (some true, w);
}

abbrev prompt : List ℕ
prompt = 5 ∷ 6 ∷ 7 ∷ []

abbrev two_waiting : State ℕ ℕ
two_waiting = enqueued (enqueued (init counting 2 0) prompt 2 0) prompt 4 0

two_waiting-Reach : Reach counting 2 0 2 two_waiting
unfolding init enqueued submit
two_waiting-Reach = submitted prompt 4 0 true 2 (submitted prompt 2 0 true 1 start refl) refl

one_step : (x : State ℕ ℕ × Bool) × (step counting 2 two_waiting ≡ went x)
one_step = step-went counting 2 (λ w a c n. refl) two_waiting

abbrev after_step : State ℕ ℕ
after_step = one_step.0.0

one_step-Reach : Reach counting 2 0 2 after_step
one_step-Reach = stepped two_waiting-Reach one_step.1

work_two : work two_waiting ≡ 6
unfolding work work_of steps_left init enqueued request
work_two = refl

abbrev summary : Option (Attempt (State ℕ ℕ) (State ℕ ℕ)) → ℕ × Bool × Bool × Bool
summary none = (0, false, false, false)
summary (some (threw s)) = (1, false, false, false)
summary (some (went s)) = (s.world, finished s 1, finished s 2, idle s)

-- Five steps: the cloned request waits for its donor's prefill.
runs_dry : summary (run_until_idle counting 2 7 two_waiting) ≡ (5, true, true, true)
unfolding run_until_idle step admit admit_loop may_admit admit_one donor_for donor_waits find_donor
    is_prefix cells_used free_slot claim slotted cloned copied copy batched batch decoded slices
    slice advance_all advance fed sampled emit grown stops finish release finished idle init
    enqueued request
runs_dry = refl

abbrev active_of : Attempt (State ℕ ℕ) (State ℕ ℕ × Bool) → ℕ
active_of (threw s) = 0
active_of (went x) = length x.0.active

-- The first step admits the first request alone.
first_admitted : active_of (step counting 2 two_waiting) ≡ 1
unfolding step admit admit_loop may_admit admit_one donor_for donor_waits find_donor is_prefix
    cells_used free_slot claim slotted cloned copied copy batched batch decoded slices slice
    advance_all advance fed sampled emit grown stops finish release init enqueued request
first_admitted = refl

Reach-slots_example :
    ((q : ℕ) → held q after_step.active ≡ occupied (get_elem? after_step.slot_used q))
    × (homeless after_step.active ≡ 0)
    × (length after_step.slot_used ≡ 2)
    × (length after_step.active ≤ 2)
Reach-slots_example = Reach-slots counting 2 0 (omega arith) one_step-Reach

Reach-census_example : (after_step.next_id ≡ 3) × (census 2 after_step ≡ 1)
Reach-census_example = Reach-census counting 2 0 2 (omega arith) one_step-Reach

Reach-Ready_example : All (Fresh 16) after_step.pending × All (Ready 16) after_step.active
Reach-Ready_example = Reach-Ready counting 2 0 (omega arith) one_step-Reach

run_until_idle_total_example :
    (s' : State ℕ ℕ) × (run_until_idle counting 2 7 two_waiting ≡ some (went s'))
    × (idle s' ≡ true)
    × ((k : ℕ) → 1 ≤ k → k ≤ 2 → finished s' k ≡ true)
run_until_idle_total_example =
    run_until_idle_total counting 2 0 7 (omega arith) (omega arith) (omega arith) two_waiting-Reach
      (omega (arith, work_two)) (λ w a c n. refl)
