-- ===== src/Worker.antt =====
-- molinkv1/worker.py: the store for the tensors that came by gRPC, and the forward pass.
pub mod Forward
use mo_link.Prelude.{
  ℕ, zero, suc, Dict, ltb, Bool, true, false, not, ◌&&◌, Option, none, some, Result, ok, raise,
  assertion_error, if◌then◌else◌,
}
use mo_link.Platform.{Platform, Output, nothing, intermediate, holder, reply}

-- `molink` is whether the configuration enables MoLink; the ranks are those of the PP group.
pub record Worker (p : Platform) : Type 0 where
  pub molink : Bool
  pub is_first_rank : Bool
  pub is_last_rank : Bool
  pub external_launcher : Bool
  pub stored : Option (Dict p.Tensor)
  pub runner : p.Runner
  -- what `recv_tensor_dict` would return
  pub received : Dict p.Tensor
  -- what `send_tensor_dict` has sent over NCCL
  pub sent : Option (Dict p.Tensor)

module _ {p : Platform} where
  unfoldable pub set_intermediate_tensors : Worker p → Dict p.Tensor → Worker p
  set_intermediate_tensors w tensors = record w { stored = some tensors }

  -- Get and clear.
  unfoldable pub get_intermediate_tensors : Worker p → Option (Dict p.Tensor) × Worker p
  get_intermediate_tensors w = (w.stored, record w { stored = none })

  -- The tensors for the model runner.
  unfoldable pub take_input : Worker p → p.Batch → Option (Dict p.Tensor) × Worker p
  unfolding get_intermediate_tensors
  take_input w batch =
      if ltb 0 (p.num_tokens batch) && not w.is_first_rank
      then (if w.molink then get_intermediate_tensors w else (some w.received, w))
      else (none, w)

  -- What becomes of the model runner's output.
  unfoldable pub hand_on :
      Worker p → Output p.Tensor p.Reply → Result (Output p.Tensor p.Reply) × Worker p
  hand_on w nothing = (ok nothing, w)
  hand_on w (reply r) = (ok (reply r), w)
  hand_on w (holder tensors) = (raise assertion_error, w)
  hand_on w (intermediate tensors) =
      if w.molink
      then (if w.is_last_rank then (ok nothing, w) else (ok (intermediate tensors), w))
      else if not w.external_launcher && not w.is_last_rank
      then (ok nothing, record w { sent = some tensors })
      else (raise assertion_error, w)

  unfoldable pub after_run :
      Worker p → Result (Output p.Tensor p.Reply) → Result (Output p.Tensor p.Reply) × Worker p
  unfolding hand_on
  after_run w (ok output) = hand_on w output
  after_run w (raise e) = (raise e, w)

  unfoldable pub run_on :
      p.Batch → Option (Dict p.Tensor) × Worker p → Result (Output p.Tensor p.Reply) × Worker p
  unfolding after_run
  run_on batch (tensors, w) =
      let (output, runner) = p.run_model w.runner batch tensors in
      after_run (record w { runner = runner }) output

  unfoldable pub execute_model : Worker p → p.Batch → Result (Output p.Tensor p.Reply) × Worker p
  unfolding take_input run_on
  execute_model w batch = run_on batch (take_input w batch)
