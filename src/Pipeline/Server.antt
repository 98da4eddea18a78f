-- ===== src/Pipeline/Server.antt =====
-- What a server behind the head does with the packet that has come to it.
use mo_link.Prelude.{
  ℕ, suc, ◌<◌, ℤ, String, ◌==◌, eq_iff, Dict, Distinct, false, ◌≡◌, ◌≢◌, refl, ap, some, List, [],
  ◌∷◌, ◌++◌, length, get_elem?, index, index_of_get_elem?, Unique, ok, arith,
}
use mo_link.Topology.{Metadata}
use mo_link.Platform.{Platform, RoundTrips, Output, intermediate}
use mo_link.Worker.{Worker}
use mo_link.Delivery.{Item, next, head, Process, maxsize}
use mo_link.Delivery.Order.{running, with_queue}
use mo_link.Service.{Packet, slot}
use mo_link.Executor.{Node}
use mo_link.Executor.Steps.{
  handle, emptied, handle-step, stage, tensors_to_cpu, after_stage, step-next, step-head,
}
use mo_link.Pipeline.{World, Event, deliver, trigger}
use mo_link.Pipeline.Transport.{sent_packet, tensors_arrive}

-- The queue of a virtual engine in a node's input queues.
abbrev pub HasInput : {p : Platform} → ℤ → Node p → List (Packet p) → Type 0
HasInput ve n packets =
    (i : ℕ) × (slot (length n.service.input_queue) ve ≡ some i)
    × (get_elem? n.service.input_queue i ≡ some packets)

-- A delivery process that runs and has nothing to send.
abbrev pub HasProcess : {p : Platform} → Node p → Type 0
HasProcess {p} n =
    (q : Process p) × (n.delivery_manager ≡ running q)
    × (q.delivery_queue ≡ [])
    × (q.shutdown ≡ false)

-- The model's layers on these workers one after the other: each but the last makes tensors, on which
-- the next one runs, and `output` is what the last one makes.
unfoldable pub Computes :
    {p : Platform}
    → p.Batch
    → Worker p
    → List (Worker p)
    → Dict p.Tensor
    → Output p.Tensor p.Reply
    → Type 0
Computes batch w [] d output = (stage w batch d).0 ≡ ok output
Computes {p} batch w (v ∷ vs) d output =
    (e : Dict p.Tensor) × ((stage w batch d).0 ≡ ok (intermediate e))
    × Distinct e
    × Computes batch v vs e output

module _ {p : Platform} where
  -- Each server behind the head is triggered and then sends what it has.
  abbrev pub walk_events : ℤ → List (Node p) → List (Event p)
  walk_events ve [] = []
  walk_events ve (n ∷ ns) = trigger n.grpc_address ve ∷ deliver n.grpc_address ∷ walk_events ve ns

  -- These nodes stand at the places of the list from `i` to its end.
  abbrev pub Places : List String → ℕ → List (Node p) → Type 0
  Places servers i [] = i ≡ length servers
  Places servers i (n ∷ ns) =
      (get_elem? servers i ≡ some n.grpc_address) × Places servers (suc i) ns

  abbrev pub Live : ℤ → World p → List (Node p) → Type 0
  Live ve world [] = Unit
  Live ve world (n ∷ ns) =
      (world n.grpc_address ≡ some n) × HasInput ve n [] × HasProcess n × Live ve world ns

pub differs :
    (xs : List String) (i j : ℕ) (a b : String)
    → Unique xs
    → get_elem? xs i ≡ some a
    → get_elem? xs j ≡ some b
    → i ≢ j
    → (a == b) ≡ false
differs xs i j a b unique at_i at_j ne = ground (
  arith,
  eq_iff a b,
  index_of_get_elem? a xs i unique at_i,
  index_of_get_elem? b xs j unique at_j,
)

module _ {p : Platform} (laws : RoundTrips p) (batch : p.Batch) (metadata : Metadata) (ve : ℤ) where
  abbrev pub bytes : p.Bytes
  bytes = p.dump_batch batch

  abbrev pub arrived : Dict p.Tensor → Packet p
  arrived d = sent_packet laws (tensors_to_cpu p d) bytes metadata

  -- What a server in the middle is after its step, and the entry in its queue.
  pub handle-next :
      (n : Node p) (d e : Dict p.Tensor) (i : ℕ) (server : String)
      → HasInput ve n (arrived d ∷ [])
      → HasProcess n
      → Distinct d
      → (stage n.worker batch d).0 ≡ ok (intermediate e)
      → index n.grpc_address metadata.server_list ≡ some i
      → get_elem? metadata.server_list (suc i) ≡ some server
      → (n' : Node p) × (q : Process p) × (handle ve n ≡ n')
        × (n'.delivery_manager ≡ running q)
        × (q.delivery_queue ≡ next (tensors_to_cpu p e) bytes metadata ve server ∷ [])
        × (q.shutdown ≡ false)
  handle-next n d e i server (j, at, full) (q, has_q, no_items, on) distinct computes place after =
      let item : Item p = next (tensors_to_cpu p e) bytes metadata ve server in
      let q' = with_queue q (q.delivery_queue ++ item ∷ []) in
      let fits : length q.delivery_queue < maxsize = rw no_items (omega arith) in
      (
        after_stage (emptied n j) batch d q',
        q',
        handle-step n (after_stage (emptied n j) batch d q') ve j (arrived d) d (intermediate e) at
            full (tensors_arrive p laws d distinct)
            (step-next (emptied n j) bytes batch d metadata ve e q i server (laws.batch batch)
              computes has_q fits place after),
        refl,
        ap (λ l. l ++ item ∷ []) no_items,
        on,
      )

  pub handle-last :
      (n : Node p) (d : Dict p.Tensor) (output : Output p.Tensor p.Reply) (i : ℕ)
      → HasInput ve n (arrived d ∷ [])
      → HasProcess n
      → Distinct d
      → (stage n.worker batch d).0 ≡ ok output
      → index n.grpc_address metadata.server_list ≡ some i
      → suc i ≡ length metadata.server_list
      → (n' : Node p) × (q : Process p) × (handle ve n ≡ n')
        × (n'.delivery_manager ≡ running q)
        × (q.delivery_queue ≡ head (p.dump_output output) ve metadata.head ∷ [])
        × (q.shutdown ≡ false)
  handle-last n d output i (j, at, full) (q, has_q, no_items, on) distinct computes place end =
      let item : Item p = head (p.dump_output output) ve metadata.head in
      let q' = with_queue q (q.delivery_queue ++ item ∷ []) in
      let fits : length q.delivery_queue < maxsize = rw no_items (omega arith) in
      (
        after_stage (emptied n j) batch d q',
        q',
        handle-step n (after_stage (emptied n j) batch d q') ve j (arrived d) d output at full
            (tensors_arrive p laws d distinct)
            (step-head (emptied n j) bytes batch d metadata ve output q i (laws.batch batch)
              computes has_q fits place end),
        refl,
        ap (λ l. l ++ item ∷ []) no_items,
        on,
      )
