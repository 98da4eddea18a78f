-- ===== src/Tests/ChunkedPrefill.antt =====
-- Chunked prefill of the v0 scheduler on a decode, a swapped request and two waiting ones, of which
-- one is on the fly.
use mo_link.Prelude.{ℕ, String, elem, ◌≡◌, refl, List, [], ◌∷◌, map, Result, ok, raise, arith}
use mo_link.Scheduler.{Scheduler, add_id, extendleft}
use mo_link.Scheduler.Sweep.{begin, sweep, apply_decision, put_back}
use mo_link.Scheduler.Sweep.Conserved.{total}
use mo_link.Scheduler.Sweep.OnFly.{ids_of}
use mo_link.Scheduler.Prefills.{schedule_prefills, prefill_decision, after_prefills, add_lora}
use mo_link.Scheduler.Swapped.{schedule_swapped, swapped_decision, after_swapped, select}
use mo_link.Scheduler.Running.{
  schedule_running, run_loop, start_running, after_running, round_on, make_room, round, run_group,
  after_victim, give_back, evict, put_aside, settle, accept,
}
use mo_link.Scheduler.Chunked.{
  SchedulerOutputs, schedule_chunked_prefill, with_budget, of_none, swap_phase, conclude,
  update_queues, together, groups_of,
}
use mo_link.Scheduler.Chunked.Together.{IsExclusiveBatch, schedule_chunked_prefill-IsExclusiveBatch}
use mo_link.Scheduler.Chunked.Conserved.{IsConserved, schedule_chunked_prefill-IsConserved}
use mo_link.Tests.Scheduling.{small, scheduler}

abbrev mixed : Scheduler small
mixed = record scheduler {
  schedule_limit = 4;
  waiting = ("a", 10) ∷ ("b", 10) ∷ [];
  running = ("r", 10) ∷ [];
  swapped = ("s", 5) ∷ [];
}

small-order :
    (w : String × ℕ → ℕ) (m : ℕ) (gs : List ((String × ℕ) × ℕ))
    → total w (small.order_finishing_prefills_first m gs) ≡ total (λ g. w g.0) gs
small-order w m [] = refl
small-order w m (g ∷ gs) = omega (arith, small-order w m gs)

schedule_chunked_prefill-IsExclusiveBatch_example :
    IsExclusiveBatch ("b" ∷ []) (schedule_chunked_prefill mixed)
schedule_chunked_prefill-IsExclusiveBatch_example = schedule_chunked_prefill-IsExclusiveBatch mixed

schedule_chunked_prefill-IsConserved_example :
    IsConserved (λ g. g.1) mixed (schedule_chunked_prefill mixed)
schedule_chunked_prefill-IsConserved_example =
    schedule_chunked_prefill-IsConserved (λ g. g.1) (small-order (λ g. g.1)) mixed

abbrev run_of : Result (SchedulerOutputs small × Scheduler small) → List (List String)
run_of (ok (out, s)) =
    ids_of small out.scheduled_seq_groups ∷ s.requests_on_fly ∷ map (λ g. g.0) s.waiting ∷ []
run_of (raise e) = []

-- The batch, the requests on the fly, and the waiting queue.
batch_is :
    run_of (schedule_chunked_prefill mixed)
    ≡ ("a" ∷ "r" ∷ "s" ∷ []) ∷ ("a" ∷ "s" ∷ "r" ∷ "b" ∷ []) ∷ ("b" ∷ []) ∷ []
unfolding schedule_chunked_prefill with_budget of_none swap_phase conclude update_queues together
    groups_of schedule_running run_loop start_running after_running round_on select elem add_id
    add_lora make_room round run_group after_victim give_back evict put_aside settle accept
    schedule_prefills prefill_decision after_prefills sweep apply_decision put_back begin extendleft
    schedule_swapped swapped_decision after_swapped
batch_is = refl
