-- ===== src/Scheduler.antt =====
-- molink/core/scheduler.py: the scheduler of the v0 engine, which keeps the requests of several micro
-- batches apart. What it takes from vLLM is a parameter: the sequence groups, and one state for the
-- block manager, the sequences' statuses, the budget, the partial prefills, the clock and the lists
-- of blocks to swap or copy.
pub mod Sweep
pub mod Prefills
pub mod Swapped
pub mod Running
pub mod Chunked
pub mod Release
use mo_link.Prelude.{
  ℕ, String, ◌==◌, elem, Bool, true, false, Option, none, some, List, [], ◌∷◌, if◌then◌else◌,
}

pub data AllocStatus : Type 0 where
  ok later never : AllocStatus

pub data Status : Type 0 where
  waiting running swapped : Status

pub data PreemptionMode : Type 0 where
  recompute swap : PreemptionMode

pub record Vllm : Type 1 where
  pub Group : Type 0
  pub Mem : Type 0
  pub request_id : Group → String
  pub lora_int_id : Group → ℕ
  pub lora_enabled : Bool
  pub max_loras : ℕ
  pub is_multi_step : Bool
  -- the answer of `_passed_delay` at the time of the call
  pub passed_delay : Mem → Bool × Mem
  -- the lengths of the group's waiting sequences
  pub waiting_seqs : Mem → Group → List ℕ
  pub partial_can_schedule : Mem → Group → Bool
  -- uncached and cached ones
  pub num_new_tokens : Mem → Group → Status → Bool → ℕ × ℕ
  pub prompt_limit : Mem → Group → ℕ
  pub num_lookahead_slots : Bool → Bool → ℕ
  pub can_allocate : Mem → Group → ℕ → AllocStatus
  pub can_swap_in : Mem → Group → ℕ → AllocStatus
  pub is_prefill : Mem → Group → Bool
  pub max_num_running_seqs : Mem → Group → ℕ
  pub finish_ignored : Group → Mem → Mem
  pub allocate_and_set_running : Group → Mem → Mem
  pub maybe_increment_partial_prefills : Group → Mem → Mem
  pub init_multi_step : Group → ℕ → Bool → Mem → Mem
  -- with the number of blocks to copy
  pub append_slots : Group → Bool → Mem → ℕ × Mem
  pub swap_in : Group → Mem → Mem
  -- the budget: remaining_token_budget() == 0, num_batched_tokens, can_schedule
  pub is_spent : Mem → Bool
  pub num_batched_tokens : Mem → ℕ
  pub can_schedule : Mem → ℕ → ℕ → Bool
  pub add_num_batched_tokens : String → ℕ → ℕ → Mem → Mem
  pub add_num_seqs : String → ℕ → Mem → Mem
  pub subtract_num_batched_tokens : String → ℕ → Mem → Mem
  pub subtract_num_seqs : String → ℕ → Mem → Mem
  -- what `_schedule_running` asks for, and its preemption
  pub use_async_output_proc : Bool
  pub has_output_proc_callback : Bool
  pub max_model_len : ℕ
  -- seq_group.seqs[0].get_len()
  pub first_len : Mem → Group → ℕ
  pub can_append_slots : Mem → Group → Bool → Bool
  pub output_proc_callback : String → Mem → Mem
  pub is_finished : Mem → Group → Bool
  pub free_finished_seq_group : Group → Mem → Mem
  pub preempt : Group → Mem → PreemptionMode × Mem
  pub reset_caches : Mem → Mem
  -- a new budget with this many tokens, and the metadata of partial prefills of these queues
  pub begin_schedule : ℕ → List Group → List Group → Mem → Mem
  -- budget.num_curr_seqs <= max_num_seqs
  pub seqs_fit : Mem → Bool
  -- of groups with the size of their chunks
  pub order_finishing_prefills_first : Mem → List (Group × ℕ) → List Group
  -- self.prev_prompt = True
  pub set_prev_prompt : Mem → Mem

pub record Scheduler (v : Vllm) : Type 0 where
  pub requests_on_fly : List String
  pub schedule_limit : ℕ
  pub decode_token_limit_in_chunk : ℕ
  pub max_num_batched_tokens : ℕ
  pub waiting : List v.Group
  pub running : List v.Group
  pub async_stopped : List v.Group
  pub swapped : List v.Group
  -- the set that the parts of one schedule share
  pub curr_loras : Option (List ℕ)
  pub mem : v.Mem

-- set.add
unfoldable pub add_id : String → List String → List String
add_id r ids = if elem r ids then ids else r ∷ ids

-- set.remove of a member
unfoldable pub remove_id : String → List String → List String
remove_id r [] = []
remove_id r (x ∷ xs) = if x == r then xs else x ∷ remove_id r xs

module _ {v : Vllm} where
  unfoldable pub set_schedule_limit : Scheduler v → ℕ → Scheduler v
  set_schedule_limit s limit = record s { schedule_limit = limit }

  unfoldable pub set_schedule_limit_chunked_prefill : Scheduler v → ℕ → ℕ → Scheduler v
  set_schedule_limit_chunked_prefill s max_num_token_decode max_num_token_prefill = record s {
    decode_token_limit_in_chunk = max_num_token_decode;
    max_num_batched_tokens = max_num_token_prefill;
  }

  unfoldable pub mark_seq_as_schedule_free : Scheduler v → String → Scheduler v
  unfolding remove_id
  mark_seq_as_schedule_free s request_id =
      if elem request_id s.requests_on_fly
      then record s { requests_on_fly = remove_id request_id s.requests_on_fly }
      else s

  -- The engine's loop over the groups of a batch that has been executed.
  unfoldable pub mark_all_as_schedule_free : Scheduler v → List String → Scheduler v
  mark_all_as_schedule_free s [] = s
  mark_all_as_schedule_free s (r ∷ rs) =
      mark_all_as_schedule_free (mark_seq_as_schedule_free s r) rs

-- deque.extendleft
unfoldable pub extendleft {ℓ} : {A : Type ℓ} → List A → List A → List A
extendleft queue [] = queue
extendleft queue (x ∷ xs) = extendleft (x ∷ queue) xs
