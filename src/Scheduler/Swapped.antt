-- ===== src/Scheduler/Swapped.antt =====
-- `_schedule_swapped` of molink/core/scheduler.py.
pub mod Batch
use mo_link.Prelude.{
  ℕ, ◌+◌, elem, eqb, Bool, true, false, not, ◌||◌, Option, none, some, List, [], ◌∷◌, Result, ok,
  raise, if◌then◌else◌,
}
use mo_link.Scheduler.{Vllm, Scheduler, AllocStatus, Status}
use mo_link.Scheduler.Sweep.{
  Decision, stop, on_fly, postpone, discard, schedule, failed_assertion, Sweep, Scheduled, begin,
  sweep, put_back,
}
use mo_link.Scheduler.Prefills.{lora_full, add_lora}

-- The scheduled groups that stand among the prefills, or among the decodes.
unfoldable pub select : (v : Vllm) → Bool → List (Scheduled v) → List (Scheduled v)
select v prefill [] = []
select v prefill (e ∷ es) =
    let rest = select v prefill es in
    if prefill
    then (if e.is_prefill then e ∷ rest else rest)
    else if e.is_prefill
    then rest
    else e ∷ rest

pub record SwappedInOutputs (v : Vllm) : Type 0 where
  pub decode_seq_groups : List (Scheduled v)
  pub prefill_seq_groups : List (Scheduled v)
  pub num_lookahead_slots : ℕ
  pub infeasible_seq_groups : List v.Group

module _ {v : Vllm} (sch : Scheduler v) (chunking : Bool) where
  -- The budget's test, and the group swapped in.
  swapped_charge : Sweep v → v.Group → Bool → ℕ → ℕ → ℕ → Decision v
  unfolding add_lora
  swapped_charge s g prefill lora uncached cached =
      let r = v.request_id g in
      let seqs = v.max_num_running_seqs s.mem g in
      let m = (v.append_slots g chunking (v.swap_in g s.mem)).1 in
      if eqb uncached 0 || not (v.can_schedule s.mem uncached seqs)
      then stop s.mem
      else schedule prefill (if prefill then uncached + cached else 1) uncached
          (add_lora lora s.curr_loras)
          (v.add_num_seqs r seqs (v.add_num_batched_tokens r uncached cached m))

  swapped_tokens : Sweep v → v.Group → Bool → ℕ → Decision v
  unfolding swapped_charge
  swapped_tokens s g prefill lora =
      swapped_charge s g prefill lora (v.num_new_tokens s.mem g Status.swapped chunking).0
        (v.num_new_tokens s.mem g Status.swapped chunking).1

  swapped_lora : Sweep v → v.Group → Bool → Decision v
  unfolding swapped_tokens lora_full
  swapped_lora s g prefill =
      if v.lora_enabled
      then elim s.curr_loras [
        | none ↦ failed_assertion
        | some loras ↦
            if lora_full v (v.lora_int_id g) loras
            then postpone s.mem
            else swapped_tokens s g prefill (v.lora_int_id g)
      ]
      else swapped_tokens s g prefill 0

  swapped_group : Sweep v → v.Group → Bool → Decision v
  unfolding swapped_lora
  swapped_group s g prefill =
      elim (v.can_swap_in s.mem g (v.num_lookahead_slots prefill chunking)) [
        | AllocStatus.later ↦ stop s.mem
        | AllocStatus.never ↦ discard (v.finish_ignored g s.mem)
        | AllocStatus.ok ↦ swapped_lora s g prefill
      ]

  -- One round of the loop.
  unfoldable pub swapped_decision : Sweep v → v.Group → Decision v
  unfolding swapped_group
  swapped_decision s g =
      if elem (v.request_id g) s.requests_on_fly
      then on_fly s.mem
      else swapped_group s g (v.is_prefill s.mem g)

  unfoldable pub after_swapped :
      Result (Sweep v × List v.Group) → Result (SwappedInOutputs v × Scheduler v)
  unfolding put_back select
  after_swapped (raise e) = raise e
  after_swapped (ok (s, rest)) = ok (
    record {
      decode_seq_groups = select v false s.seq_groups;
      prefill_seq_groups = select v true s.seq_groups;
      num_lookahead_slots = v.num_lookahead_slots false chunking;
      infeasible_seq_groups = s.ignored;
    },
    record sch {
      swapped = put_back s rest;
      requests_on_fly = s.requests_on_fly;
      curr_loras = s.curr_loras;
      mem = s.mem;
    },
  )

  unfoldable pub schedule_swapped : Option (List ℕ) → Result (SwappedInOutputs v × Scheduler v)
  unfolding swapped_decision after_swapped begin
  schedule_swapped loras =
      after_swapped
        (sweep swapped_decision (λ m. m) sch.swapped (begin sch.mem sch.requests_on_fly loras))
