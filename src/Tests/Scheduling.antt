-- ===== src/Tests/Scheduling.antt =====
-- The scheduler of the v0 engine on a queue of five requests, one of which is on the fly, one too
-- long, and one beyond the limit.
use mo_link.Prelude.{
  map, List, Result, raise, ◌-◌, ℕ, ◌+◌, String, elem, leb, true, false, ◌≡◌, refl, none, [], ◌∷◌,
  ok,
}
use mo_link.Scheduler.{Vllm, Scheduler, AllocStatus, PreemptionMode, add_id, extendleft}
use mo_link.Scheduler.Sweep.{scheduled, sweep, apply_decision, put_back, begin}
use mo_link.Scheduler.Prefills.{schedule_prefills, prefill_decision, after_prefills}
use mo_link.Scheduler.Sweep.Invariant.{OrAssertion}
use mo_link.Scheduler.Prefills.Batch.{
  IsBatch, Conserves, schedule_prefills-IsBatch, schedule_prefills-Conserves,
}
use mo_link.Scheduler.Swapped.{schedule_swapped, select}
use mo_link.Scheduler.Swapped.Batch
use mo_link.Scheduler.Swapped.Batch.{schedule_swapped-IsBatch, schedule_swapped-Conserves}
use mo_link.Scheduler.Prefills.{add_lora}
use mo_link.Scheduler.Running.{
  RunningOutputs, schedule_running, run_loop, start_running, after_running, round_on, make_room,
  round, run_group, after_victim, give_back, evict, put_aside, settle, accept,
}
use mo_link.Scheduler.Running.Batch.{run_loop-stops}
use mo_link.Scheduler.Running.Outputs.{IsRunningBatch, schedule_running-IsRunningBatch}
use mo_link.Scheduler.Release.{Restores, schedule_prefills-Restores}

-- A group is a request with the length of its prompt, and the state counts the batch's tokens.
abbrev pub small : Vllm
small = record {
  Group = String × ℕ;
  Mem = ℕ;
  request_id = λ g. g.0;
  lora_int_id = λ g. 0;
  lora_enabled = false;
  max_loras = 0;
  is_multi_step = false;
  passed_delay = λ m. (true, m);
  waiting_seqs = λ m g. g.1 ∷ [];
  partial_can_schedule = λ m g. true;
  num_new_tokens = λ m g status chunking. (g.1, 0);
  prompt_limit = λ m g. 100;
  num_lookahead_slots = λ prefill chunking. 0;
  can_allocate = λ m g slots. AllocStatus.ok;
  can_swap_in = λ m g slots. AllocStatus.ok;
  is_prefill = λ m g. true;
  max_num_running_seqs = λ m g. 1;
  finish_ignored = λ g m. m;
  allocate_and_set_running = λ g m. m;
  maybe_increment_partial_prefills = λ g m. m;
  init_multi_step = λ g slots chunking m. m;
  append_slots = λ g chunking m. (0, m);
  swap_in = λ g m. m;
  is_spent = λ m. false;
  num_batched_tokens = λ m. m;
  can_schedule = λ m tokens seqs. leb (m + tokens) 50;
  add_num_batched_tokens = λ r uncached cached m. m + uncached;
  add_num_seqs = λ r seqs m. m;
  subtract_num_batched_tokens = λ r n m. m - n;
  subtract_num_seqs = λ r n m. m;
  use_async_output_proc = false;
  has_output_proc_callback = false;
  max_model_len = 1000;
  first_len = λ m g. g.1;
  can_append_slots = λ m g chunking. leb (m + g.1) 30;
  output_proc_callback = λ r m. m;
  is_finished = λ m g. false;
  free_finished_seq_group = λ g m. m;
  preempt = λ g m. (PreemptionMode.recompute, m - g.1);
  reset_caches = λ m. m;
  begin_schedule = λ tokens running waiting m. 0;
  seqs_fit = λ m. true;
  order_finishing_prefills_first = λ m groups. map (λ g. g.0) groups;
  set_prev_prompt = λ m. m;
}

abbrev pub scheduler : Scheduler small
scheduler = record {
  requests_on_fly = "b" ∷ [];
  schedule_limit = 2;
  decode_token_limit_in_chunk = 50;
  max_num_batched_tokens = 50;
  waiting = ("a", 10) ∷ ("b", 10) ∷ ("long", 200) ∷ ("c", 10) ∷ ("d", 10) ∷ [];
  running = [];
  async_stopped = [];
  swapped = [];
  curr_loras = none;
  mem = 0;
}

schedule_prefills-IsBatch_example :
    OrAssertion (IsBatch scheduler false) (schedule_prefills scheduler false none)
schedule_prefills-IsBatch_example = schedule_prefills-IsBatch scheduler false none

schedule_prefills-Conserves_example :
    OrAssertion (Conserves scheduler false (λ g. g.1)) (schedule_prefills scheduler false none)
schedule_prefills-Conserves_example = schedule_prefills-Conserves scheduler false none (λ g. g.1)

schedule_prefills-Restores_example :
    OrAssertion (Restores scheduler) (schedule_prefills scheduler false none)
unfolding elem
schedule_prefills-Restores_example = schedule_prefills-Restores scheduler false none (refl, tt)

-- The two requests of the batch, the ignored one, and the queue afterwards.
run_is :
    schedule_prefills scheduler false none
    ≡ ok (
      record {
        seq_groups = scheduled ("a", 10) 10 true ∷ scheduled ("c", 10) 10 true ∷ [];
        ignored_seq_groups = ("long", 200) ∷ [];
        num_lookahead_slots = 0;
      },
      record scheduler {
        waiting = ("b", 10) ∷ ("d", 10) ∷ [];
        requests_on_fly = "c" ∷ "a" ∷ "b" ∷ [];
        mem = 20;
      },
    )
unfolding schedule_prefills prefill_decision after_prefills sweep apply_decision put_back begin
    add_id extendleft elem
run_is = refl

-- Three decodes, of which the last has to make room, and a request that another batch is executing.
abbrev decoding : Scheduler small
decoding = record scheduler {
  requests_on_fly = "y" ∷ [];
  waiting = [];
  running = ("a", 10) ∷ ("b", 10) ∷ ("c", 10) ∷ ("y", 5) ∷ [];
  swapped = ("s", 3) ∷ ("y", 5) ∷ ("t", 3) ∷ [];
  mem = 5;
  schedule_limit = 5;
}

schedule_running-IsRunningBatch_example :
    OrAssertion
      (IsRunningBatch decoding false none (λ g. g.1))
      (schedule_running decoding false none)
schedule_running-IsRunningBatch_example =
    schedule_running-IsRunningBatch decoding false none (λ g. g.1)

run_loop-stops_example :
    OrAssertion
      (λ s. round_on decoding false s s.queue ≡ ok (false, s))
      (run_loop decoding false 4 (start_running decoding none))
run_loop-stops_example = run_loop-stops decoding false none

schedule_swapped-IsBatch_example :
    OrAssertion (Batch.IsBatch decoding false) (schedule_swapped decoding false none)
schedule_swapped-IsBatch_example = schedule_swapped-IsBatch decoding false none

abbrev preempted_in : Result (RunningOutputs small × Scheduler small) → List (String × ℕ)
preempted_in (ok (out, s)) = out.preempted
preempted_in (raise e) = []

-- The group "y" is preempted to make room for "c", though another batch is executing it.
preempts_on_fly : preempted_in (schedule_running decoding false none) ≡ ("y", 5) ∷ []
unfolding schedule_running run_loop start_running after_running round_on select elem add_id add_lora
    make_room round run_group after_victim give_back evict put_aside settle accept
preempts_on_fly = refl
