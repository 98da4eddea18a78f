-- ===== src/Scheduler/Chunked.antt =====
-- `_schedule_chunked_prefill` of molink/core/scheduler.py, which puts the three parts together.
-- The budget's token count and the lists of blocks are part of vLLM's state.
pub mod Together
pub mod Keeps
pub mod Conserved
use mo_link.Prelude.{
  ℕ, ◌+◌, leb, eqb, length, Bool, true, false, not, ◌&&◌, Option, some, List, [], ◌∷◌, ◌++◌, map,
  Result, ok, raise, attribute_error, assertion_error, ◌>>=◌, if◌then◌else◌,
}
use mo_link.Scheduler.{Vllm, Scheduler, extendleft}
use mo_link.Scheduler.Sweep.{Scheduled}
use mo_link.Scheduler.Prefills.{PrefillOutputs, schedule_prefills}
use mo_link.Scheduler.Swapped.{SwappedInOutputs, schedule_swapped}
use mo_link.Scheduler.Running.{RunningOutputs, schedule_running}

pub record SchedulerOutputs (v : Vllm) : Type 0 where
  pub scheduled_seq_groups : List (Scheduled v)
  pub num_prefill_groups : ℕ
  pub ignored_seq_groups : List v.Group
  pub num_lookahead_slots : ℕ
  pub running_queue_size : ℕ
  pub preempted : ℕ

unfoldable pub groups_of : (v : Vllm) → List (Scheduled v) → List v.Group
groups_of v = map (λ e. e.seq_group)

module _ {v : Vllm} where
  -- The method returned None, whose attributes are asked for next.
  unfoldable pub of_none :
      Result (RunningOutputs v × Scheduler v) → Result (RunningOutputs v × Scheduler v)
  of_none (ok r) = ok r
  of_none (raise e) = raise attribute_error

  -- Nothing is swapped in after a preemption.
  unfoldable pub swap_phase :
      RunningOutputs v × Scheduler v → Result (SwappedInOutputs v × Scheduler v)
  unfolding schedule_swapped
  swap_phase (out, s) =
      if eqb (length out.preempted + length out.swapped_out) 0
      then schedule_swapped s false s.curr_loras
      else ok (
        record {
          decode_seq_groups = [];
          prefill_seq_groups = [];
          num_lookahead_slots = 0;
          infeasible_seq_groups = [];
        },
        s,
      )

  -- The queues after the batch.
  unfoldable pub update_queues :
      RunningOutputs v → SwappedInOutputs v → PrefillOutputs v → Scheduler v → Scheduler v
  unfolding groups_of extendleft
  update_queues running_scheduled swapped_in prefills s = record s {
    waiting = extendleft s.waiting running_scheduled.preempted;
    running =
        s.running
        ++ groups_of v swapped_in.decode_seq_groups
        ++ groups_of v swapped_in.prefill_seq_groups
        ++ groups_of v running_scheduled.decode_seq_groups
        ++ v.order_finishing_prefills_first s.mem
            (map (λ e. (e.seq_group, e.token_chunk_size)) running_scheduled.prefill_seq_groups)
        ++ groups_of v prefills.seq_groups;
    swapped = s.swapped ++ running_scheduled.swapped_out;
  }

  unfoldable pub together :
      RunningOutputs v → SwappedInOutputs v → PrefillOutputs v → ℕ → SchedulerOutputs v
  together running_scheduled swapped_in prefills queue_size =
      let scheduled =
        prefills.seq_groups ++ running_scheduled.prefill_seq_groups ++ swapped_in.prefill_seq_groups
        ++ running_scheduled.decode_seq_groups ++ swapped_in.decode_seq_groups in
      let num_prefills =
        length prefills.seq_groups
        + length swapped_in.prefill_seq_groups
        + length running_scheduled.prefill_seq_groups in
      record {
        scheduled_seq_groups = scheduled;
        num_prefill_groups = num_prefills;
        ignored_seq_groups = prefills.ignored_seq_groups ++ swapped_in.infeasible_seq_groups;
        num_lookahead_slots =
            if eqb (length scheduled) num_prefills && not v.is_multi_step
            then 0
            else running_scheduled.num_lookahead_slots;
        running_queue_size = queue_size;
        preempted = length running_scheduled.preempted + length running_scheduled.swapped_out;
      }

  -- The assertions on the budget, and the end.
  unfoldable pub conclude :
      RunningOutputs v
      → SwappedInOutputs v
      → PrefillOutputs v × Scheduler v
      → Result (SchedulerOutputs v × Scheduler v)
  unfolding update_queues together
  conclude running_scheduled swapped_in (prefills, s) =
      let s' = update_queues running_scheduled swapped_in prefills s in
      if leb (v.num_batched_tokens s.mem) s.max_num_batched_tokens && v.seqs_fit s.mem
      then ok (together running_scheduled swapped_in prefills (length s'.running), s')
      else raise assertion_error

  unfoldable pub with_budget : Scheduler v → Scheduler v
  with_budget s = record s {
    mem = v.begin_schedule s.max_num_batched_tokens s.running s.waiting s.mem;
    curr_loras = some [];
  }

  unfoldable pub schedule_chunked_prefill : Scheduler v → Result (SchedulerOutputs v × Scheduler v)
  unfolding with_budget of_none swap_phase conclude schedule_running schedule_prefills
  schedule_chunked_prefill s = of_none (schedule_running (with_budget s) true (some [])) >>= λ r.
      swap_phase r >>= λ w. schedule_prefills w.1 true w.1.curr_loras >>= λ p. conclude r.0 w.0 p
