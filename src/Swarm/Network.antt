-- ===== src/Swarm/Network.antt =====
-- The nodes of the older engine together: what a node sends comes to the handler of another.
use mathlib.Core.Option
use mo_link.Prelude.{ℤ, String, ◌==◌, Option, none, some, List, [], ◌∷◌, if◌then◌else◌}
use mo_link.Swarm.{Codec, Node}
use mo_link.Swarm.Deliver.{Send, push_intermediate_tensors, push_sampler_output, consume}
use mo_link.Swarm.CommService
use mo_link.Swarm.CommService.{executing_worker_step}
use mo_link.Swarm.HeadServer.{start_batch}

-- The node at an address.
abbrev pub World : Codec → Type 0
World c = String → Option (Node c)

-- A head starts a batch, the sending process of a node carries out one entry, or a node carries out a
-- trigger.
pub data Event (c : Codec) : Type 0 where
  submit : String → c.Request → Event c
  deliver : String → Event c
  trigger : String → ℤ → Event c

module _ {c : Codec} where
  unfoldable pub change_node : World c → String → (Node c → Node c) → World c
  change_node world a f b = if a == b then Option.map f (world b) else world b

  abbrev pub receive : Send c → Node c → Node c
  receive (push_intermediate_tensors server request) n =
      (CommService.push_intermediate_tensors n request).1
  receive (push_sampler_output server output ve) n = (CommService.push_sampler_output n output ve).1

  abbrev pub target : Send c → Option String
  target (push_intermediate_tensors server request) = some server
  target (push_sampler_output server output ve) = server

  unfoldable pub send : World c → Send c → World c
  unfolding change_node
  send world request = elim (target request) [
    | none ↦ world
    | some a ↦ change_node world a (receive request)
  ]

  unfoldable pub deliver_at : World c → String → Option (Node c) → World c
  unfolding send change_node consume
  deliver_at world a none = world
  deliver_at world a (some n) = elim (consume n n.process_queue) [
    | none ↦ world
    | some (request, n') ↦ send (change_node world a (λ m. n')) request
  ]

  unfoldable pub step : World c → Event c → World c
  unfolding change_node deliver_at
  step world (submit a req) = change_node world a (λ n. (start_batch n req).1)
  step world (deliver a) = deliver_at world a (world a)
  step world (trigger a ve) = change_node world a (λ n. (executing_worker_step n ve).1)

  unfoldable pub run : World c → List (Event c) → World c
  unfolding step
  run world [] = world
  run world (e ∷ events) = run (step world e) events
