-- ===== src/Executor/Single.antt =====
-- A pipeline of one node.
use mo_link.Prelude.{
  ◌<◌, String, eqb, length, get_elem?, false, ℤ, ◌≡◌, refl, ap, ◌∙◌, some, [], ◌∷◌, ok, raise,
  unpickling_error, timeout_error, Result, arith, ℕ,
}
use mo_link.Topology.{Metadata, get_metadata}
use mo_link.Platform.{Platform, Output}
use mo_link.Worker
use mo_link.Stubs.{worker_servers}
use mo_link.Service.{slot}
use mo_link.Service.Queues.{put-some, get-put_empty, get-empty}
use mo_link.Executor.{
  Node, store_tensors, driver_exec_model, head_output, after_head, with_outputs, put_output,
  put_json, executing_head_server, start_batch, collect_result,
}
use mo_link.Executor.Start.{ran, update_stub_list_keeps}

module _ {p : Platform} where
  executing_head_server-alone :
      (n : Node p) (batch : p.Batch) (metadata : Metadata) (head : String)
      (output : Output p.Tensor p.Reply)
      → metadata.server_list ≡ head ∷ []
      → (Worker.execute_model n.worker batch).0 ≡ ok output
      → executing_head_server n batch (p.dump_batch batch) metadata
        ≡ put_json (ran n batch metadata) (p.virtual_engine batch) (p.json_output output)
  unfolding executing_head_server driver_exec_model after_head head_output store_tensors
  executing_head_server-alone n batch metadata head output servers computes =
      let n₁ = ran n batch metadata in
      let ve = p.virtual_engine batch in
      let bytes = p.dump_batch batch in
      ap (λ r. after_head bytes metadata ve (r, n₁)) computes
      ∙ ap (λ l. head_output n₁ bytes metadata ve l output) servers

  -- What has become of the head, by what the JSON encoder has made of its output.
  abbrev pub Unanswered : Node p → ℤ → Node p → Result p.Bytes → Type 0
  Unanswered n ve n' (ok bytes) = collect_result n' ve ≡ raise unpickling_error
  Unanswered n ve n' (raise e) =
      (n'.service.output_queue ≡ n.service.output_queue)
      × (collect_result n' ve ≡ raise timeout_error)

  module _ (n : Node p) (ve : ℤ) (k : ℕ) (at : slot (length n.service.output_queue) ve ≡ some k)
      (empty : get_elem? n.service.output_queue k ≡ some []) where
    put_json-Unanswered :
        (r : Result p.Bytes) (n₁ n' : Node p)
        → ((bytes : p.Bytes) → r ≡ ok bytes → p.load_output bytes ≡ raise unpickling_error)
        → n₁.service ≡ n.service
        → n'.service ≡ (put_json n₁ ve r).service
        → Unanswered n ve n' r
    unfolding put_json put_output with_outputs collect_result
    put_json-Unanswered (ok bytes) n₁ n' rejects same kept =
        rw
          (
            kept,
            same,
            put-some n.service.output_queue ve bytes k [] at empty,
            get-put_empty n.service.output_queue ve bytes k at empty,
            rejects bytes refl,
          )
          refl
    put_json-Unanswered (raise e) n₁ n' rejects same kept =
        let queue = ap (λ s. s.output_queue) (kept ∙ same) in
        (queue, rw (queue, get-empty n.service.output_queue ve k at empty) refl)

  -- Where a head is the only node of its server list and the unpickler rejects what the JSON encoder
  -- writes, no batch with tokens that the node can compute is answered, for a queue that is empty
  -- before: either the output is written into the queue, and the wait for it ends in the unpickler's
  -- error, or the encoder raises an exception, nothing is put into the queue, and the wait for it does
  -- not end.
  pub single_node_fails :
      (n : Node p) (batch : p.Batch) (head : String) (output : Output p.Tensor p.Reply) (k : ℕ)
      → ((o : Output p.Tensor p.Reply) (bytes : p.Bytes)
          → p.json_output o ≡ ok bytes
          → p.load_output bytes ≡ raise unpickling_error)
      → 0 < p.num_tokens batch
      → (get_metadata n.service.topology).server_list ≡ head ∷ []
      → (Worker.execute_model n.worker batch).0 ≡ ok output
      → slot (length n.service.output_queue) (p.virtual_engine batch) ≡ some k
      → get_elem? n.service.output_queue k ≡ some []
      → Unanswered n (p.virtual_engine batch) (start_batch n batch).2 (p.json_output output)
  unfolding start_batch
  single_node_fails n batch head output k rejects tokens servers computes at empty =
      let metadata = get_metadata n.service.topology in
      let some_tokens : eqb (p.num_tokens batch) 0 ≡ false = ground arith in
      let n₁ = executing_head_server n batch (p.dump_batch batch) metadata in
      let kept = (update_stub_list_keeps n₁ (worker_servers metadata.server_list)).1 in
      let alone = executing_head_server-alone n batch metadata head output servers computes in
      rw some_tokens (
        put_json-Unanswered n (p.virtual_engine batch) k at empty (p.json_output output)
          (ran n batch metadata) _ (rejects output) refl (kept ∙ ap (λ m. m.service) alone))
