-- ===== src/Worker/Forward.antt =====
-- What the forward passes of a MoLink worker compute, in terms of the model runner alone.
use mo_link.Prelude.{
  Dict, ltb, Bool, true, false, ◌≡◌, refl, ap, ◌∙◌, none, some, List, [], ◌∷◌, Result, ok, raise,
  assertion_error, arith, if◌then◌else◌,
}
use mo_link.Platform.{Platform, Output, nothing, intermediate, holder, reply}
use mo_link.Worker.{
  Worker, set_intermediate_tensors, get_intermediate_tensors, take_input, hand_on, after_run,
  run_on, execute_model,
}

-- What a stage makes of its model's output.
abbrev pub stage_output : {T R : Type 0} → Bool → Output T R → Result (Output T R)
stage_output last nothing = ok nothing
stage_output last (reply r) = ok (reply r)
stage_output last (holder tensors) = raise assertion_error
stage_output last (intermediate tensors) = if last then ok nothing else ok (intermediate tensors)

abbrev pub run_output : {T R : Type 0} → Bool → Result (Output T R) → Result (Output T R)
run_output last (ok output) = stage_output last output
run_output last (raise e) = raise e

-- The same batches on the model itself, each with its own tensors, or none for a batch without
-- tokens.
unfoldable pub model_all :
    (p : Platform)
    → Bool
    → p.Runner
    → List (p.Batch × Dict p.Tensor)
    → List (Result (Output p.Tensor p.Reply)) × p.Runner
model_all p last runner [] = ([], runner)
model_all p last runner ((batch, tensors) ∷ rest) =
    let (output, runner') =
      p.run_model runner batch (if ltb 0 (p.num_tokens batch) then some tensors else none) in
    let (outputs, runner'') = model_all p last runner' rest in
    (run_output last output ∷ outputs, runner'')

module _ {p : Platform} where
  -- The forward passes of batches that come with their tensors, in turn: the outputs, and the worker.
  unfoldable pub forward_all :
      Worker p → List (p.Batch × Dict p.Tensor) → List (Result (Output p.Tensor p.Reply)) × Worker p
  forward_all w [] = ([], w)
  forward_all w ((batch, tensors) ∷ rest) =
      let (output, w') = execute_model (set_intermediate_tensors w tensors) batch in
      let (outputs, w'') = forward_all w' rest in (output ∷ outputs, w'')

  hand_on-molink :
      (w : Worker p) (output : Output p.Tensor p.Reply)
      → w.molink ≡ true
      → hand_on w output ≡ (stage_output w.is_last_rank output, w)
  unfolding hand_on
  hand_on-molink w nothing on = refl
  hand_on-molink w (reply r) on = refl
  hand_on-molink w (holder tensors) on = refl
  hand_on-molink w (intermediate tensors) on = ground arith

  after_run-molink :
      (w : Worker p) (output : Result (Output p.Tensor p.Reply))
      → w.molink ≡ true
      → after_run w output ≡ (run_output w.is_last_rank output, w)
  unfolding after_run
  after_run-molink w (ok output) on = hand_on-molink w output on
  after_run-molink w (raise e) on = refl

  take_input-molink :
      (w : Worker p) (batch : p.Batch) (tensors : Dict p.Tensor)
      → w.molink ≡ true
      → w.is_first_rank ≡ false
      → take_input (set_intermediate_tensors w tensors) batch ≡ (
        if ltb 0 (p.num_tokens batch) then some tensors else none,
        record w { stored = if ltb 0 (p.num_tokens batch) then none else some tensors },
      )
  unfolding take_input set_intermediate_tensors get_intermediate_tensors
  take_input-molink w batch tensors on later = ground arith

  abbrev pub model_output :
      Worker p → p.Batch → Dict p.Tensor → Result (Output p.Tensor p.Reply) × p.Runner
  model_output w batch tensors =
      p.run_model w.runner batch (if ltb 0 (p.num_tokens batch) then some tensors else none)

  abbrev pub worker_after : Worker p → p.Batch → Dict p.Tensor → Worker p
  worker_after w batch tensors = record w {
    stored = if ltb 0 (p.num_tokens batch) then none else some tensors;
    runner = (model_output w batch tensors).1;
  }

  pub execute_model-molink :
      (w : Worker p) (batch : p.Batch) (tensors : Dict p.Tensor)
      → w.molink ≡ true
      → w.is_first_rank ≡ false
      → execute_model (set_intermediate_tensors w tensors) batch
        ≡ (run_output w.is_last_rank (model_output w batch tensors).0, worker_after w batch tensors)
  unfolding execute_model run_on
  execute_model-molink w batch tensors on later =
      ap (run_on batch) (take_input-molink w batch tensors on later)
      ∙ after_run-molink (worker_after w batch tensors) (model_output w batch tensors).0 on

  -- A MoLink worker that is not the first stage gives, for each batch in turn, what its model gives
  -- on the tensors that came with that batch, and none of those of another; an output of the last
  -- stage is never one of tensors; and nothing is sent over NCCL.
  pub forward_all-model :
      (w : Worker p) (steps : List (p.Batch × Dict p.Tensor))
      → w.molink ≡ true
      → w.is_first_rank ≡ false
      → ((forward_all w steps).0 ≡ (model_all p w.is_last_rank w.runner steps).0)
        × ((forward_all w steps).1.runner ≡ (model_all p w.is_last_rank w.runner steps).1)
        × ((forward_all w steps).1.sent ≡ w.sent)
  unfolding forward_all model_all
  forward_all-model w [] on later = (refl, refl, refl)
  forward_all-model w ((batch, tensors) ∷ rest) on later =
      let (outputs, runner, sent) =
        forward_all-model (worker_after w batch tensors) rest on later in
      rw (execute_model-molink w batch tensors on later) (
        ap (◌∷◌ (run_output w.is_last_rank (model_output w batch tensors).0)) outputs,
        runner,
        sent,
      )
