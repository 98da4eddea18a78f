-- ===== src/Executor/Triggers.antt =====
-- Which servers a head triggers for a batch.
use mo_link.Prelude.{
  ℤ, String, eqb, ◌≡◌, refl, ap, sym, ◌∙◌, inl, inr, Bool-cases, none, some, List, [], ◌∷◌, Result,
  ok, raise, if◌then◌else◌,
}
use mo_link.Topology.{Metadata, get_metadata, get_sorted_server_list}
use mo_link.Platform.{Platform, Output, nothing, intermediate, holder, reply}
use mo_link.Worker
use mo_link.Stubs.{same_list, same_list_sound, worker_servers}
use mo_link.Delivery.{Manager, deliver_to_next}
use mo_link.Service.{put}
use mo_link.Executor.{
  Node, store_tensors, driver_exec_model, values_of, head_output, after_head, with_manager,
  with_outputs, put_output, put_json, executing_head_server, update_stub_list, start_batch,
}
use mo_link.Executor.Start.{ran}

module _ {p : Platform} where
  Keeps : Node p → Node p → Type 0
  Keeps n n' = (n'.stub_list ≡ n.stub_list) × (n'.preset_server_list ≡ n.preset_server_list)

  with_outputs-Keeps : (n : Node p) (r : Result (List (List p.Bytes))) → Keeps n (with_outputs n r)
  unfolding Keeps with_outputs
  with_outputs-Keeps n (ok queues) = (refl, refl)
  with_outputs-Keeps n (raise e) = (refl, refl)

  put_output-Keeps : (n : Node p) (ve : ℤ) (bytes : p.Bytes) → Keeps n (put_output n ve bytes)
  unfolding put_output
  put_output-Keeps n ve bytes = with_outputs-Keeps n (put n.service.output_queue ve bytes)

  put_json-Keeps : (n : Node p) (ve : ℤ) (r : Result p.Bytes) → Keeps n (put_json n ve r)
  unfolding put_json Keeps
  put_json-Keeps n ve (ok bytes) = put_output-Keeps n ve bytes
  put_json-Keeps n ve (raise e) = (refl, refl)

  with_manager-Keeps : (n : Node p) (r : Result (Manager p)) → Keeps n (with_manager n r)
  unfolding Keeps with_manager
  with_manager-Keeps n (ok m) = (refl, refl)
  with_manager-Keeps n (raise e) = (refl, refl)

  head_output-Keeps :
      (n : Node p) (bytes : p.Bytes) (metadata : Metadata) (ve : ℤ) (servers : List String)
      (output : Output p.Tensor p.Reply)
      → Keeps n (head_output n bytes metadata ve servers output)
  unfolding head_output
  head_output-Keeps n bytes metadata ve [] output = put_json-Keeps n ve (p.json_output output)
  head_output-Keeps n bytes metadata ve (h ∷ []) output = put_json-Keeps n ve (p.json_output output)
  head_output-Keeps n bytes metadata ve (h ∷ s ∷ rest) (intermediate d) =
      with_manager-Keeps n
        (deliver_to_next n.delivery_manager (values_of p (intermediate d)) bytes metadata ve s)
  head_output-Keeps n bytes metadata ve (h ∷ s ∷ rest) (holder d) =
      with_manager-Keeps n
        (deliver_to_next n.delivery_manager (values_of p (holder d)) bytes metadata ve s)
  head_output-Keeps n bytes metadata ve (h ∷ s ∷ rest) nothing =
      put_output-Keeps n ve (p.dump_output nothing)
  head_output-Keeps n bytes metadata ve (h ∷ s ∷ rest) (reply r) =
      put_output-Keeps n ve (p.dump_output (reply r))

  after_head-Keeps :
      (bytes : p.Bytes) (metadata : Metadata) (ve : ℤ) (r : Result (Output p.Tensor p.Reply))
      (n : Node p)
      → Keeps n (after_head bytes metadata ve (r, n))
  unfolding after_head Keeps
  after_head-Keeps bytes metadata ve (ok output) n =
      head_output-Keeps n bytes metadata ve metadata.server_list output
  after_head-Keeps bytes metadata ve (raise e) n = (refl, refl)

  -- The stubs are those of the list that they were made for.
  abbrev pub HasStubs : Node p → Type 0
  HasStubs n = n.stub_list ≡ n.preset_server_list

  update_stub_list-HasStubs :
      (n : Node p) (servers : List String)
      → HasStubs n
      → HasStubs (update_stub_list n servers) × ((update_stub_list n servers).stub_list ≡ servers)
  unfolding update_stub_list
  update_stub_list-HasStubs n servers h =
      elim (Bool-cases (same_list servers n.preset_server_list)) [
        | inl same ↦ rw same (h, h ∙ sym (same_list_sound servers n.preset_server_list same))
        | inr new ↦ rw new (refl, refl)
      ]

  -- What a head does with a batch, where its stubs are those of the list they were made for, as they
  -- are when there are none: a batch without tokens is answered at once, with the empty output, and
  -- changes nothing; for any other the head waits, and it triggers the servers behind it in the
  -- topology, each once and in order, whatever its own layers gave. The stubs still fit.
  pub start_batch-triggers :
      (n : Node p) (batch : p.Batch)
      → HasStubs n
      → HasStubs (start_batch n batch).2
        × (start_batch n batch ≡ (
            if eqb (p.num_tokens batch) 0 then (some (reply p.empty_reply), [], n) else (
              none,
              worker_servers (get_sorted_server_list n.service.topology),
              (start_batch n batch).2,
            )))
  unfolding start_batch Keeps executing_head_server driver_exec_model store_tensors get_metadata
  start_batch-triggers n batch h = elim (Bool-cases (eqb (p.num_tokens batch) 0)) [
    | inl no_tokens ↦ rw no_tokens (h, refl)
    | inr tokens ↦
        let metadata = get_metadata n.service.topology in
        let n₁ = executing_head_server n batch (p.dump_batch batch) metadata in
        let kept =
          after_head-Keeps (p.dump_batch batch) metadata (p.virtual_engine batch)
            (Worker.execute_model n.worker batch).0 (ran n batch metadata) in
        let updated =
          update_stub_list-HasStubs n₁ (worker_servers metadata.server_list)
            (kept.0 ∙ h ∙ sym kept.1) in
        rw tokens (
          updated.0,
          ap (λ l. (none, l, update_stub_list n₁ (worker_servers metadata.server_list))) updated.1,
        )
  ]
