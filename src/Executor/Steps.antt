-- ===== src/Executor/Steps.antt =====
-- One stage of the pipeline: what a node computes for a batch, and to whom it hands the result.
use mo_link.Prelude.{
  ℕ, suc, ap, ◌-◌, ◌<◌, ℤ, String, index, length, get_elem?, set, lt_of_get_elem?, eqb, true, false,
  ◌≡◌, refl, ◌∙◌, Dict, some, List, [], ◌∷◌, ◌++◌, map, Result, ok, raise, arith,
}
use mo_link.Topology.{Metadata}
use mo_link.Platform.{Platform, Output, nothing, intermediate, holder, reply}
use mo_link.Worker
use mo_link.Worker.{Worker}
use mo_link.Delivery.{next, head, Process, maxsize, values_to_cpu}
use mo_link.Delivery.Order.{with_queue, running, deliver_to_next-room, deliver_to_head-room}
use mo_link.Service.{Packet, slot, deserialize_tensors}
use mo_link.Service.Queues.{get-some}
use mo_link.Executor.{
  Node, store_tensors, driver_exec_model, values_of, sample_if_none, route_at, route, step_on,
  item_at, returning, execute_worker_step, execute_worker_step_handler, on_packet, on_tensors,
  respond,
}

abbrev pub tensors_to_cpu : (p : Platform) → Dict p.Tensor → Dict p.Tensor
tensors_to_cpu p = map (λ e. (e.0, p.to_cpu e.1))

pub values_to_cpu-intermediate :
    (p : Platform) (d : Dict p.Tensor)
    → values_to_cpu p (values_of p (intermediate d)) ≡ ok (tensors_to_cpu p d)
unfolding values_to_cpu values_of
values_to_cpu-intermediate p [] = refl
values_to_cpu-intermediate p ((k, t) ∷ d) = rw (values_to_cpu-intermediate p d)

item_at-get_elem? :
    (xs : List String) (i : ℕ) (x : String) → get_elem? xs i ≡ some x → item_at xs i ≡ ok x
unfolding item_at
item_at-get_elem? xs i x e = rw (item_at, e)

module _ {p : Platform} where
  sampled :
      Result (Output p.Tensor p.Reply) × Worker p → Result (Output p.Tensor p.Reply) × Worker p
  sampled (ok nothing, w) =
      let (output, runner) = p.sample_tokens w.runner in (output, record w { runner = runner })
  sampled (r, w) = (r, w)

  -- The forward pass of a node that is not the head, and the sampling after it.
  unfoldable pub stage :
      Worker p → p.Batch → Dict p.Tensor → Result (Output p.Tensor p.Reply) × Worker p
  unfolding sampled store_tensors
  stage w batch tensors = sampled (Worker.execute_model (store_tensors (some tensors) w) batch)

  abbrev on_node :
      Node p
      → Result (Output p.Tensor p.Reply) × Worker p
      → Result (Output p.Tensor p.Reply) × Node p
  on_node n (r, w) = (r, record n { worker = w })

  sample-on_node :
      (n : Node p) (r : Result (Output p.Tensor p.Reply) × Worker p)
      → sample_if_none (on_node n r) ≡ on_node n (sampled r)
  unfolding sample_if_none sampled
  sample-on_node n (ok nothing, w) = refl
  sample-on_node n (ok (intermediate d), w) = refl
  sample-on_node n (ok (holder d), w) = refl
  sample-on_node n (ok (reply r), w) = refl
  sample-on_node n (raise e, w) = refl

  driver-on_node :
      (n : Node p) (batch : p.Batch) (tensors : Dict p.Tensor)
      → sample_if_none (driver_exec_model n batch (some tensors))
        ≡ on_node n (stage n.worker batch tensors)
  unfolding driver_exec_model stage
  driver-on_node n batch tensors =
      sample-on_node n (Worker.execute_model (store_tensors (some tensors) n.worker) batch)

  -- The node when it has run its stage and handed on one entry.
  abbrev pub after_stage : Node p → p.Batch → Dict p.Tensor → Process p → Node p
  after_stage n batch tensors q = record n {
    worker = (stage n.worker batch tensors).1;
    delivery_manager = running q;
  }

  step-route :
      (n : Node p) (bytes : p.Bytes) (batch : p.Batch) (tensors : Dict p.Tensor)
      (metadata : Metadata) (ve : ℤ) (output : Output p.Tensor p.Reply)
      → p.load_batch bytes ≡ ok batch
      → (stage n.worker batch tensors).0 ≡ ok output
      → execute_worker_step n bytes tensors metadata ve
        ≡ route_at
            (record n { worker = (stage n.worker batch tensors).1 })
            bytes
            metadata
            ve
            output
            (index n.grpc_address metadata.server_list)
  unfolding execute_worker_step step_on route
  step-route n bytes batch tensors metadata ve output loads computes =
      rw (loads, driver-on_node n batch tensors) (rw computes)

  pub step-next :
      (n : Node p) (bytes : p.Bytes) (batch : p.Batch) (tensors : Dict p.Tensor)
      (metadata : Metadata) (ve : ℤ) (d : Dict p.Tensor) (q : Process p) (i : ℕ) (server : String)
      → p.load_batch bytes ≡ ok batch
      → (stage n.worker batch tensors).0 ≡ ok (intermediate d)
      → n.delivery_manager ≡ running q
      → length q.delivery_queue < maxsize
      → index n.grpc_address metadata.server_list ≡ some i
      → get_elem? metadata.server_list (suc i) ≡ some server
      → execute_worker_step n bytes tensors metadata ve ≡ (
        ok (intermediate d),
        after_stage n batch tensors (
            with_queue q
              (q.delivery_queue ++ next (tensors_to_cpu p d) bytes metadata ve server ∷ [])),
      )
  unfolding route_at returning
  step-next n bytes batch tensors metadata ve d q i server loads computes has_q fits place after =
      let inside = lt_of_get_elem? metadata.server_list (suc i) server after in
      let not_end : eqb i (length metadata.server_list - 1) ≡ false = ground arith in
      let delivered =
        deliver_to_next-room q (values_of p (intermediate d)) (tensors_to_cpu p d) bytes metadata ve
          server (values_to_cpu-intermediate p d) fits in
      step-route n bytes batch tensors metadata ve (intermediate d) loads computes
      ∙ rw (
        place,
        not_end,
        item_at-get_elem? metadata.server_list (suc i) server after,
        has_q,
        delivered,
      )

  pub step-head :
      (n : Node p) (bytes : p.Bytes) (batch : p.Batch) (tensors : Dict p.Tensor)
      (metadata : Metadata) (ve : ℤ) (output : Output p.Tensor p.Reply) (q : Process p) (i : ℕ)
      → p.load_batch bytes ≡ ok batch
      → (stage n.worker batch tensors).0 ≡ ok output
      → n.delivery_manager ≡ running q
      → length q.delivery_queue < maxsize
      → index n.grpc_address metadata.server_list ≡ some i
      → suc i ≡ length metadata.server_list
      → execute_worker_step n bytes tensors metadata ve ≡ (
        ok output,
        after_stage n batch tensors
            (with_queue q (q.delivery_queue ++ head (p.dump_output output) ve metadata.head ∷ [])),
      )
  unfolding route_at returning
  step-head n bytes batch tensors metadata ve output q i loads computes has_q fits place end =
      let is_end : eqb i (length metadata.server_list - 1) ≡ true = ground arith in
      step-route n bytes batch tensors metadata ve output loads computes
      ∙ rw (
        place,
        is_end,
        has_q,
        deliver_to_head-room q (p.dump_output output) ve metadata.head fits,
      )

  abbrev pub handle : ℤ → Node p → Node p
  handle ve n = (execute_worker_step_handler n ve).1

  -- The node without the packet that it has taken.
  abbrev pub emptied : Node p → ℕ → Node p
  emptied n i = record n {
    service = record n.service { input_queue = set n.service.input_queue i [] };
  }

  pub handle-step :
      (n n' : Node p) (ve : ℤ) (i : ℕ) (packet : Packet p) (d : Dict p.Tensor)
      (output : Output p.Tensor p.Reply)
      → slot (length n.service.input_queue) ve ≡ some i
      → get_elem? n.service.input_queue i ≡ some (packet ∷ [])
      → deserialize_tensors p packet.tensors ≡ ok d
      → execute_worker_step (emptied n i) packet.scheduler_output d packet.metadata ve
        ≡ (ok output, n')
      → handle ve n ≡ n'
  unfolding execute_worker_step_handler on_packet on_tensors respond
  handle-step n n' ve i packet d output at full reads steps =
      ap (λ r. (on_packet n ve r).1) (get-some n.service.input_queue ve packet i [] at full)
      ∙ ap (λ r. (on_tensors (emptied n i) ve packet r).1) reads
      ∙ ap (λ r. (respond r).1) steps
