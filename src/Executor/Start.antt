-- ===== src/Executor/Start.antt =====
-- The start of a batch on the head.
use mo_link.Prelude.{
  ◌<◌, ℤ, String, eqb, length, false, ◌≡◌, refl, ap, ◌∙◌, inl, inr, Bool-cases, Dict, List, [], ◌∷◌,
  ◌++◌, ok, arith,
}
use mo_link.Topology.{Metadata, get_metadata}
use mo_link.Platform.{Platform, intermediate}
use mo_link.Worker
use mo_link.Worker.{Worker}
use mo_link.Stubs.{same_list, worker_servers}
use mo_link.Delivery.{deliver_to_next, next, Process, maxsize}
use mo_link.Delivery.Order.{with_queue, running, deliver_to_next-room}
use mo_link.Executor.{
  Node, store_tensors, driver_exec_model, values_of, head_output, after_head, with_manager,
  executing_head_server, update_stub_list, start_batch,
}
use mo_link.Executor.Steps.{tensors_to_cpu, values_to_cpu-intermediate}

module _ {p : Platform} where
  pub update_stub_list_keeps :
      (n : Node p) (servers : List String)
      → ((update_stub_list n servers).delivery_manager ≡ n.delivery_manager)
        × ((update_stub_list n servers).service ≡ n.service)
  unfolding update_stub_list
  update_stub_list_keeps n servers = elim (Bool-cases (same_list servers n.preset_server_list)) [
    | inl same ↦ rw same (refl, refl)
    | inr new ↦ rw new (refl, refl)
  ]

  module _ (n : Node p) (batch : p.Batch) (metadata : Metadata) where
    abbrev ve : ℤ
    ve = p.virtual_engine batch

    -- The head when it has run its own layers.
    abbrev pub ran : Node p
    ran = record n { worker = (Worker.execute_model n.worker batch).1 }

    executing_head_server-next :
        (d : Dict p.Tensor) (q : Process p) (head server : String) (rest : List String)
        → metadata.server_list ≡ head ∷ server ∷ rest
        → (Worker.execute_model n.worker batch).0 ≡ ok (intermediate d)
        → n.delivery_manager ≡ running q
        → length q.delivery_queue < maxsize
        → executing_head_server n batch (p.dump_batch batch) metadata ≡ record ran {
          delivery_manager = running (
              with_queue q (
                q.delivery_queue
                ++ next (tensors_to_cpu p d) (p.dump_batch batch) metadata ve server ∷ []));
        }
    unfolding executing_head_server driver_exec_model after_head head_output store_tensors
        with_manager
    executing_head_server-next d q head server rest servers computes has_q fits =
        let bytes = p.dump_batch batch in
        ap (λ r. after_head bytes metadata ve (r, ran)) computes
        ∙ ap (λ l. head_output ran bytes metadata ve l (intermediate d)) servers
        ∙ ap
            (λ m.
              with_manager ran
                (deliver_to_next m (values_of p (intermediate d)) bytes metadata ve server))
            has_q
        ∙ ap (with_manager ran) (
            deliver_to_next-room q (values_of p (intermediate d)) (tensors_to_cpu p d) bytes
              metadata ve server (values_to_cpu-intermediate p d) fits)

  -- A batch with tokens, on a head whose own layers make tensors: the head waits for the answer with
  -- one more entry in its queue, the tensors for the second server.
  pub start_batch-next :
      (n : Node p) (batch : p.Batch) (d : Dict p.Tensor) (q : Process p) (head server : String)
      (rest : List String)
      → 0 < p.num_tokens batch
      → (get_metadata n.service.topology).server_list ≡ head ∷ server ∷ rest
      → (Worker.execute_model n.worker batch).0 ≡ ok (intermediate d)
      → n.delivery_manager ≡ running q
      → length q.delivery_queue < maxsize
      → ((start_batch n batch).2.delivery_manager
          ≡ running (
              with_queue q (
                q.delivery_queue
                ++ next
                    (tensors_to_cpu p d)
                    (p.dump_batch batch)
                    (get_metadata n.service.topology)
                    (p.virtual_engine batch)
                    server
                  ∷ [])))
        × ((start_batch n batch).2.service ≡ n.service)
  unfolding start_batch
  start_batch-next n batch d q head server rest tokens servers computes has_q fits =
      let metadata = get_metadata n.service.topology in
      let some_tokens : eqb (p.num_tokens batch) 0 ≡ false = ground arith in
      let executed =
        executing_head_server-next n batch metadata d q head server rest servers computes has_q
          fits in
      let keeps =
        update_stub_list_keeps (executing_head_server n batch (p.dump_batch batch) metadata)
          (worker_servers metadata.server_list) in
      rw some_tokens
        (keeps.0 ∙ ap (λ m. m.delivery_manager) executed, keeps.1 ∙ ap (λ m. m.service) executed)
