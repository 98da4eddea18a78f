-- ===== src/Tests/Flights.antt =====
-- Two micro batches at the same time, of which one ends before a third begins; and one that has steps
-- left at its end, whose requests stay on the fly.
use mo_link.Prelude.{String, elem, ◌≡◌, refl, true, false, List, [], ◌∷◌, ◌++◌, Result, ok, raise}
use mo_link.Scheduler.{
  Scheduler, add_id, extendleft, remove_id, mark_seq_as_schedule_free, mark_all_as_schedule_free,
}
use mo_link.Scheduler.Sweep.{begin, sweep, apply_decision, put_back}
use mo_link.Scheduler.Prefills.{schedule_prefills, prefill_decision, after_prefills, add_lora}
use mo_link.Scheduler.Swapped.{schedule_swapped, swapped_decision, after_swapped, select}
use mo_link.Scheduler.Running.{
  schedule_running, run_loop, start_running, after_running, round_on, make_room, round, run_group,
  after_victim, give_back, evict, put_aside, settle, accept,
}
use mo_link.Scheduler.Chunked.{
  schedule_chunked_prefill, with_budget, of_none, swap_phase, conclude, update_queues, together,
  groups_of,
}
use mo_link.Engine.Flight.{
  Flight, Event, begin_step, end_step, vllm_step, launch, free_batch, leave_batch, end_batch, step,
  run, grounded,
}
use mo_link.Engine.Flight.Apart.{EndsApart, run-EndsApart}
use mo_link.Tests.Scheduling.{small, scheduler}

abbrev queues : Scheduler small
queues = record scheduler {
  schedule_limit = 1;
  waiting = ("a", 10) ∷ ("b", 10) ∷ [];
  running = [];
  swapped = [];
}

abbrev events : List (Event small)
events = begin_step ∷ begin_step ∷ end_step 1 false ∷ vllm_step queues ∷ begin_step ∷ []

run-EndsApart_example : EndsApart (run (grounded queues) events)
run-EndsApart_example = run-EndsApart queues events

abbrev batches_of : Result (Flight small) → List (List String)
batches_of (ok f) = f.scheduler.requests_on_fly ∷ f.flying ++ f.unfinished
batches_of (raise e) = []

-- The requests on the fly, and the batches.
flights_are :
    batches_of (run (grounded queues) events) ≡ ("a" ∷ "b" ∷ []) ∷ ("a" ∷ []) ∷ ("b" ∷ []) ∷ []
unfolding run step launch free_batch leave_batch end_batch schedule_chunked_prefill with_budget
    of_none swap_phase conclude update_queues together groups_of schedule_running run_loop
    start_running after_running round_on make_room round run_group after_victim give_back evict
    put_aside settle accept schedule_swapped swapped_decision after_swapped select schedule_prefills
    prefill_decision after_prefills add_lora begin sweep apply_decision put_back add_id extendleft
    remove_id mark_seq_as_schedule_free mark_all_as_schedule_free elem
flights_are = refl

-- The first batch returns with steps left, and the next one does not take its request.
abbrev multi_step : List (Event small)
multi_step = begin_step ∷ end_step 0 true ∷ begin_step ∷ []

multi_step_are :
    batches_of (run (grounded queues) multi_step) ≡ ("b" ∷ "a" ∷ []) ∷ ("b" ∷ []) ∷ ("a" ∷ []) ∷ []
unfolding run step launch free_batch leave_batch end_batch schedule_chunked_prefill with_budget
    of_none swap_phase conclude update_queues together groups_of schedule_running run_loop
    start_running after_running round_on make_room round run_group after_victim give_back evict
    put_aside settle accept schedule_swapped swapped_decision after_swapped select schedule_prefills
    prefill_decision after_prefills add_lora begin sweep apply_decision put_back add_id extendleft
    remove_id mark_seq_as_schedule_free mark_all_as_schedule_free elem
multi_step_are = refl
