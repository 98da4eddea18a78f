-- ===== src/Scheduler/Running.antt =====
-- `_schedule_running` of molink/core/scheduler.py. The method catches every exception, prints a line
-- and returns None; such a call is a `raise` here.
pub mod Room
pub mod Batch
pub mod Outputs
use mo_link.Prelude.{
  ℕ, zero, suc, String, elem, ltb, leb, eqb, length, Bool, true, false, not, ◌&&◌, Option, none,
  some, List, [], ◌∷◌, ◌++◌, Result, ok, raise, assertion_error, ◌>>=◌, if◌then◌else◌,
}
use mo_link.Scheduler.{Vllm, Scheduler, Status, PreemptionMode, add_id}
use mo_link.Scheduler.Sweep.{Scheduled, scheduled}
use mo_link.Scheduler.Prefills.{has, add_lora}
use mo_link.Scheduler.Swapped.{select}

pub record Running (v : Vllm) : Type 0 where
  pub queue : List v.Group
  pub mem : v.Mem
  pub requests_on_fly : List String
  pub curr_loras : Option (List ℕ)
  pub reserve_queue : List v.Group
  pub preempted : List v.Group
  pub swapped_out : List v.Group
  pub async_stopped : List v.Group
  -- the victims that turned out to be finished, which the scheduler frees
  pub freed : List v.Group
  pub seq_groups : List (Scheduled v)
  pub num_scheduled : ℕ
  pub num_tokens : ℕ

pub record RunningOutputs (v : Vllm) : Type 0 where
  pub decode_seq_groups : List (Scheduled v)
  pub prefill_seq_groups : List (Scheduled v)
  pub preempted : List v.Group
  pub swapped_out : List v.Group
  pub num_lookahead_slots : ℕ

-- set.remove of a member
unfoldable pub remove_lora : ℕ → List ℕ → List ℕ
remove_lora x [] = []
remove_lora x (y ∷ ys) = if eqb y x then ys else y ∷ remove_lora x ys

unfoldable pub drop_lora : ℕ → Option (List ℕ) → Option (List ℕ)
unfolding remove_lora has
drop_lora lora none = none
drop_lora lora (some loras) =
    if ltb 0 lora && has lora loras then some (remove_lora lora loras) else some loras

-- deque.pop of a queue that is not empty: what is left, and the last group.
abbrev pub pop_last {ℓ} : {A : Type ℓ} → A → List A → List A × A
pop_last x [] = ([], x)
pop_last x (y ∷ ys) = let r = pop_last y ys in (x ∷ r.0, r.1)

-- The group to preempt: the last of the queue, or `g` itself, which ends the preemption.
abbrev pub victim {ℓ} : {A : Type ℓ} → A → List A → List A × A × Bool
victim g [] = ([], g, false)
victim g (x ∷ xs) = let r = pop_last x xs in (r.0, r.1, true)

module _ {v : Vllm} where
  -- By the mode of the preemption.
  unfoldable pub put_aside : v.Group → PreemptionMode × v.Mem → Running v → Running v
  put_aside g (PreemptionMode.recompute, m) s = record s {
    mem = m;
    preempted = s.preempted ++ g ∷ [];
  }
  put_aside g (PreemptionMode.swap, m) s = record s {
    mem = m;
    swapped_out = s.swapped_out ++ g ∷ [];
  }

  unfoldable pub evict : v.Group → Running v → Result (Running v)
  unfolding put_aside
  evict g s =
      let m = v.output_proc_callback (v.request_id g) s.mem in
      if v.use_async_output_proc
      then (if v.has_output_proc_callback
          then (if v.is_finished m g
              then ok (record s { mem = v.free_finished_seq_group g m; freed = s.freed ++ g ∷ [] })
              else ok (put_aside g (v.preempt g m) s))
          else raise assertion_error)
      else ok (put_aside g (v.preempt g s.mem) s)

  -- What the budget and the LoRAs get back before a victim is chosen.
  unfoldable pub give_back : v.Group → ℕ → Running v → Running v
  unfolding drop_lora
  give_back g tokens s =
      let r = v.request_id g in
      let m = v.subtract_num_batched_tokens r tokens s.mem in
      record s {
        mem = v.subtract_num_seqs r (v.max_num_running_seqs m g) m;
        curr_loras = drop_lora (v.lora_int_id g) s.curr_loras;
      }

  -- The victim is preempted, and the loop goes on with `again` unless that was the group itself.
  unfoldable pub after_victim :
      (Running v → Result (Bool × Running v))
      → Running v
      → List v.Group × v.Group × Bool
      → Result (Bool × Running v)
  unfolding evict
  after_victim again s (rest, chosen, true) = evict chosen (record s { queue = rest }) >>= again
  after_victim again s (rest, chosen, false) =
      evict chosen (record s { queue = rest }) >>= λ s₂. ok (false, s₂)

  -- while not self._can_append_slots(…): whether there is room for the group in the end.
  unfoldable pub make_room : Bool → ℕ → v.Group → ℕ → Running v → Result (Bool × Running v)
  unfolding after_victim give_back
  make_room chunking zero g tokens s = ok (v.can_append_slots s.mem g chunking, s)
  make_room chunking (suc fuel) g tokens s =
      let again : Running v → Result (Bool × Running v) =
        λ s₂. make_room chunking fuel g tokens s₂ in
      if v.can_append_slots s.mem g chunking
      then ok (true, s)
      else after_victim again (give_back g tokens s) (victim g s.queue)

  unfoldable pub accept : Bool → v.Group → ℕ → Running v → Running v
  unfolding add_lora
  accept chunking g tokens s =
      let r = v.request_id g in
      let prefill = v.is_prefill (v.append_slots g chunking s.mem).1 g in
      let m = v.add_num_batched_tokens r tokens 0 (v.append_slots g chunking s.mem).1 in
      record s {
        mem = if chunking then v.add_num_seqs r (v.max_num_running_seqs m g) m else m;
        requests_on_fly = add_id r s.requests_on_fly;
        curr_loras = add_lora (v.lora_int_id g) s.curr_loras;
        seq_groups = s.seq_groups ++ scheduled g (if prefill then tokens else 1) prefill ∷ [];
        num_scheduled = suc s.num_scheduled;
        num_tokens = suc s.num_tokens;
      }

  unfoldable pub settle : Bool → v.Group → ℕ → Bool × Running v → Running v
  unfolding accept
  settle chunking g tokens (true, s) = accept chunking g tokens s
  settle chunking g tokens (false, s) = s

  -- The group, which has left the queue, is scheduled, stopped, or preempted.
  unfoldable pub run_group : Bool → v.Group → ℕ → Running v → Result (Running v)
  unfolding make_room settle
  run_group chunking g tokens s =
      if v.use_async_output_proc && ltb v.max_model_len (v.first_len s.mem g)
      then ok (record s { async_stopped = s.async_stopped ++ g ∷ [] })
      else make_room chunking (suc (length s.queue)) g tokens s >>= λ r.
          ok (settle chunking g tokens r)

  abbrev on : Result (Running v) → Result (Bool × Running v)
  on r = r >>= λ s. ok (true, s)

  -- One round of the loop, on the first group of the queue; and whether the loop goes on.
  unfoldable pub round :
      Scheduler v → Bool → Running v → v.Group → List v.Group → Result (Bool × Running v)
  unfolding run_group
  round sch chunking s g rest =
      let tokens = (v.num_new_tokens s.mem g Status.running chunking).0 in
      if chunking && leb sch.decode_token_limit_in_chunk s.num_tokens
      then ok (false, s)
      else if leb sch.schedule_limit s.num_scheduled
      then ok (false, s)
      else if elem (v.request_id g) s.requests_on_fly
      then ok (true, record s { queue = rest; reserve_queue = s.reserve_queue ++ g ∷ [] })
      else if eqb tokens 0
      then ok (false, s)
      else on (run_group chunking g tokens (record s { queue = rest }))

  unfoldable pub round_on :
      Scheduler v → Bool → Running v → List v.Group → Result (Bool × Running v)
  unfolding round
  round_on sch chunking s [] = ok (false, s)
  round_on sch chunking s (g ∷ rest) = round sch chunking s g rest

  -- while running_queue: …, for at most `fuel` rounds.
  unfoldable pub run_loop : Scheduler v → Bool → ℕ → Running v → Result (Running v)
  unfolding round_on
  run_loop sch chunking zero s = ok s
  run_loop sch chunking (suc fuel) s = elim (round_on sch chunking s s.queue) [
    | raise e ↦ raise e
    | ok (false, s') ↦ ok s'
    | ok (true, s') ↦ run_loop sch chunking fuel s'
  ]

  unfoldable pub start_running : Scheduler v → Option (List ℕ) → Running v
  start_running sch loras = record {
    queue = sch.running;
    mem = sch.mem;
    requests_on_fly = sch.requests_on_fly;
    curr_loras = loras;
    reserve_queue = [];
    preempted = [];
    swapped_out = [];
    async_stopped = [];
    freed = [];
    seq_groups = [];
    num_scheduled = 0;
    num_tokens = 0;
  }

  unfoldable pub after_running :
      Scheduler v → Bool → Result (Running v) → Result (RunningOutputs v × Scheduler v)
  unfolding select
  after_running sch chunking (raise e) = raise e
  after_running sch chunking (ok s) = ok (
    record {
      decode_seq_groups = select v false s.seq_groups;
      prefill_seq_groups = select v true s.seq_groups;
      preempted = s.preempted;
      swapped_out = s.swapped_out;
      num_lookahead_slots = v.num_lookahead_slots false chunking;
    },
    record sch {
      running = s.reserve_queue ++ s.queue;
      async_stopped = s.async_stopped;
      requests_on_fly = s.requests_on_fly;
      curr_loras = s.curr_loras;
      mem = v.reset_caches s.mem;
    },
  )

  unfoldable pub schedule_running :
      Scheduler v → Bool → Option (List ℕ) → Result (RunningOutputs v × Scheduler v)
  unfolding run_loop start_running after_running
  schedule_running sch chunking loras =
      if eqb (length sch.async_stopped) 0
      then after_running sch chunking
          (run_loop sch chunking (length sch.running) (start_running sch loras))
      else raise assertion_error
