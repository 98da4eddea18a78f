-- ===== src/Scheduler/Prefills.antt =====
-- `_schedule_prefills` of molink/core/scheduler.py.
pub mod Batch
use mo_link.Prelude.{
  ℕ, ◌+◌, String, elem, ltb, leb, eqb, length, Bool, true, false, not, ◌&&◌, ◌||◌, Option, none,
  some, List, [], ◌∷◌, Result, ok, raise, ◌>>=◌, if◌then◌else◌,
}
use mo_link.Scheduler.{Vllm, Scheduler, AllocStatus, Status}
use mo_link.Scheduler.Sweep.{
  scheduled, Scheduled, Decision, stop, on_fly, postpone, discard, schedule, failed_assertion,
  Sweep, begin, sweep, put_back,
}

-- x in xs
unfoldable pub has : ℕ → List ℕ → Bool
has x [] = false
has x (y ∷ ys) = if eqb y x then true else has x ys

-- No room for another LoRA.
unfoldable pub lora_full : Vllm → ℕ → List ℕ → Bool
unfolding has
lora_full v lora loras = ltb 0 lora && not (has lora loras) && leb v.max_loras (length loras)

unfoldable pub add_lora : ℕ → Option (List ℕ) → Option (List ℕ)
unfolding has
add_lora lora none = none
add_lora lora (some loras) =
    if ltb 0 lora then some (if has lora loras then loras else lora ∷ loras) else some loras

-- waiting_seqs[0].get_len()
first_length : List ℕ → ℕ
first_length [] = 0
first_length (n ∷ ns) = n

pub record PrefillOutputs (v : Vllm) : Type 0 where
  pub seq_groups : List (Scheduled v)
  pub ignored_seq_groups : List v.Group
  pub num_lookahead_slots : ℕ

module _ {v : Vllm} (sch : Scheduler v) (chunking : Bool) where
  -- The group is scheduled.
  prefill_accept : Sweep v → v.Group → v.Mem → ℕ → ℕ → ℕ → ℕ → Decision v
  unfolding add_lora
  prefill_accept s g m uncached cached lookahead lora =
      let r = v.request_id g in
      let num_new_seqs = v.max_num_running_seqs m g in
      let m₁ = v.maybe_increment_partial_prefills g (v.allocate_and_set_running g m) in
      let charge : v.Mem → v.Mem =
        λ m'. v.add_num_seqs r num_new_seqs (v.add_num_batched_tokens r uncached cached m') in
      let loras = add_lora lora s.curr_loras in
      if chunking && v.is_multi_step
      then (if eqb (v.append_slots g chunking m₁).0 0
          then schedule true (uncached + cached) uncached loras
              (charge (v.append_slots g chunking m₁).1)
          else failed_assertion)
      else schedule true (uncached + cached) uncached loras
          (charge (v.init_multi_step g lookahead chunking m₁))

  -- The budget's tests.
  prefill_charge : Sweep v → v.Group → v.Mem → ℕ → ℕ → ℕ → ℕ → Decision v
  unfolding prefill_accept
  prefill_charge s g m uncached cached lookahead lora =
      if leb sch.max_num_batched_tokens (v.num_batched_tokens m)
      then stop m
      else if eqb uncached 0 || not (v.can_schedule m uncached (v.max_num_running_seqs m g))
      then stop m
      else prefill_accept s g m uncached cached lookahead lora

  prefill_lora : Sweep v → v.Group → v.Mem → ℕ → ℕ → ℕ → Decision v
  unfolding prefill_charge lora_full
  prefill_lora s g m uncached cached lookahead =
      if v.lora_enabled
      then elim s.curr_loras [
        | none ↦ failed_assertion
        | some loras ↦
            if lora_full v (v.lora_int_id g) loras
            then postpone m
            else prefill_charge s g m uncached cached lookahead (v.lora_int_id g)
      ]
      else prefill_charge s g m uncached cached lookahead 0

  prefill_allocate : Sweep v → v.Group → v.Mem → ℕ → ℕ → ℕ → Decision v
  unfolding prefill_lora
  prefill_allocate s g m uncached cached lookahead = elim (v.can_allocate m g lookahead) [
    | AllocStatus.later ↦ stop m
    | AllocStatus.never ↦ discard (v.finish_ignored g m)
    | AllocStatus.ok ↦ prefill_lora s g m uncached cached lookahead
  ]

  prefill_tokens : Sweep v → v.Group → v.Mem → ℕ → ℕ → Decision v
  unfolding prefill_allocate first_length
  prefill_tokens s g m uncached cached =
      if not chunking && not (eqb (uncached + cached) (first_length (v.waiting_seqs m g)))
      then failed_assertion
      else if ltb (v.prompt_limit m g) (uncached + cached)
      then discard (v.finish_ignored g m)
      else prefill_allocate s g m uncached cached
          (if v.is_multi_step && chunking then v.num_lookahead_slots true chunking else 0)

  -- The tests on the group itself.
  prefill_group : Sweep v → v.Group → v.Mem → Decision v
  unfolding prefill_tokens
  prefill_group s g m =
      if not (eqb (length (v.waiting_seqs m g)) 1)
      then failed_assertion
      else if not (v.partial_can_schedule m g)
      then postpone m
      else prefill_tokens s g m (v.num_new_tokens m g Status.waiting chunking).0
          (v.num_new_tokens m g Status.waiting chunking).1

  -- One round of the loop.
  unfoldable pub prefill_decision : Sweep v → v.Group → Decision v
  unfolding prefill_group
  prefill_decision s g =
      let m = (v.passed_delay s.mem).1 in
      if not (v.passed_delay s.mem).0
      then stop m
      else if chunking && leb sch.max_num_batched_tokens s.num_tokens
      then stop m
      else if leb sch.schedule_limit s.num_scheduled
      then stop m
      else if elem (v.request_id g) s.requests_on_fly
      then on_fly m
      else prefill_group s g m

  unfoldable pub after_prefills :
      Result (Sweep v × List v.Group) → Result (PrefillOutputs v × Scheduler v)
  unfolding put_back
  after_prefills (raise e) = raise e
  after_prefills (ok (s, rest)) = ok (
    record {
      seq_groups = s.seq_groups;
      ignored_seq_groups = s.ignored;
      num_lookahead_slots = v.num_lookahead_slots true chunking;
    },
    record sch {
      waiting = put_back s rest;
      requests_on_fly = s.requests_on_fly;
      curr_loras = s.curr_loras;
      mem = if ltb 0 (length s.seq_groups) then v.set_prev_prompt s.mem else s.mem;
    },
  )

  unfoldable pub schedule_prefills : Option (List ℕ) → Result (PrefillOutputs v × Scheduler v)
  unfolding prefill_decision after_prefills begin
  schedule_prefills loras =
      if v.is_spent sch.mem
      then ok (
        record {
          seq_groups = [];
          ignored_seq_groups = [];
          num_lookahead_slots = v.num_lookahead_slots true chunking;
        },
        sch,
      )
      else after_prefills (
          sweep prefill_decision (λ m. (v.passed_delay m).1) sch.waiting
            (begin sch.mem sch.requests_on_fly loras))
