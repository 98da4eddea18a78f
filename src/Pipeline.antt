-- ===== src/Pipeline.antt =====
-- The nodes of a pipeline and what passes between them: molinkv1/delivery.py and molinkv1/service.py
-- as the two ends of the network, molinkv1/executor.py as what runs on each node.
pub mod Transport
pub mod Server
pub mod Walk
pub mod EndToEnd
use mathlib.Core.Option
use mo_link.Prelude.{
  ℤ, String, ◌==◌, Bool, true, false, Option, none, some, List, [], ◌∷◌, ◌++◌, if◌then◌else◌,
}
use mo_link.Platform.{Platform}
use mo_link.Delivery.{
  Process, Manager, Send, push_intermediate_tensors, push_sampler_output, consume,
}
use mo_link.Service
use mo_link.Executor.{Node, start_batch, execute_worker_step_handler}

-- The node at an address.
abbrev pub World : Platform → Type 0
World p = String → Option (Node p)

-- What happens next: a head starts a batch, the delivery process of a node sends one request, or a
-- node carries out the trigger that the head sent to it.
pub data Event (p : Platform) : Type 0 where
  submit : String → p.Batch → Event p
  deliver : String → Event p
  trigger : String → ℤ → Event p

module _ {p : Platform} where
  unfoldable pub change_node : World p → String → (Node p → Node p) → World p
  change_node world a f b = if a == b then Option.map f (world b) else world b

  abbrev pub target : Send p → String
  target (push_intermediate_tensors server request) = server
  target (push_sampler_output server request) = server

  -- The handler of the service on the node that a request comes to.
  abbrev pub receive : Send p → Node p → Node p
  receive (push_intermediate_tensors server request) n = record n {
    service = (Service.push_intermediate_tensors n.service request).1;
  }
  receive (push_sampler_output server request) n = record n {
    service = (Service.push_sampler_output n.service request).1;
  }

  abbrev pub with_process : Node p → Send p × Process p → Send p × Node p
  with_process n (request, q) =
      (request, record n { delivery_manager = record { process = some q } })

  unfoldable pub consume_at : Node p → Option (Process p) → Option (Send p × Node p)
  consume_at n none = none
  consume_at n (some q) = Option.map (with_process n) (consume q)

  unfoldable pub send_from : World p → String → Option (Send p × Node p) → World p
  send_from world a none = world
  send_from world a (some (request, n)) =
      change_node (change_node world a (λ _. n)) (target request) (receive request)

  unfoldable pub deliver_at : World p → String → Option (Node p) → World p
  deliver_at world a none = world
  deliver_at world a (some n) = send_from world a (consume_at n n.delivery_manager.process)

  unfoldable pub step : World p → Event p → World p
  step world (submit a batch) = change_node world a (λ n. (start_batch n batch).2)
  step world (deliver a) = deliver_at world a (world a)
  step world (trigger a ve) = change_node world a (λ n. (execute_worker_step_handler n ve).1)

  unfoldable pub run : World p → List (Event p) → World p
  run world [] = world
  run world (e ∷ rest) = run (step world e) rest
