-- ===== src/Executor.antt =====
-- molinkv1/executor.py: a node, its part in the execution of a batch, and the handler
-- `ExecuteWorkerStep` of molinkv1/service.py, which calls it.
pub mod Steps
pub mod Start
pub mod Triggers
pub mod Single
use mo_link.Prelude.{
  ℕ, zero, suc, ℤ, ◌+◌, ◌-◌, String, ◌==◌, Dict, insert, contains, index, length, get_elem?, eqb,
  leb, Bool, true, false, Option, none, some, List, [], ◌∷◌, ◌++◌, map, Exn, Result, ok, raise,
  index_error, ◌>>=◌, if◌then◌else◌,
}
use mo_link.Stubs.{get_stubs, same_list, worker_servers}
use mo_link.Topology.{Metadata, get_metadata}
use mo_link.Platform.{Platform, Output, nothing, intermediate, holder, reply, Value, tensor, object}
use mo_link.Worker
use mo_link.Worker.{Worker, set_intermediate_tensors}
use mo_link.Delivery.{Manager, deliver_to_next, deliver_to_head}
use mo_link.Service.{Service, Packet, Response, success, failure, put, get, deserialize_tensors}

pub record Node (p : Platform) : Type 0 where
  pub is_head_node : Bool
  pub grpc_address : String
  pub service : Service p
  pub delivery_manager : Manager p
  pub worker : Worker p
  pub preset_server_list : List String
  -- the addresses behind the stubs of `_stub_list`, and of `_stub_cache`
  pub stub_list : List String
  pub stub_cache : Dict (Unit {0})

-- xs[i]
item_at : List String → ℕ → Result String
item_at xs i = elim (get_elem? xs i) [ none ↦ raise index_error | some x ↦ ok x ]

-- The tensors in an output, and what is sent where it has none.
unfoldable pub values_of : (p : Platform) → Output p.Tensor p.Reply → Dict (Value p.Tensor p.Reply)
values_of p (intermediate d) = map (λ e. (e.0, tensor e.1)) d
values_of p (holder d) = map (λ e. (e.0, tensor e.1)) d
values_of p output = ("hidden_states", object output) ∷ []

module _ {p : Platform} where
  unfoldable pub update_stub_list : Node p → List String → Node p
  update_stub_list n servers = if same_list servers n.preset_server_list then n else record n {
    preset_server_list = servers;
    stub_list = servers;
    stub_cache = get_stubs n.stub_cache servers;
  }

  unfoldable pub store_tensors : Option (Dict p.Tensor) → Worker p → Worker p
  store_tensors none w = w
  store_tensors (some tensors) w = set_intermediate_tensors w tensors

  -- The node has one local worker, whose output the parent's `execute_model` returns.
  unfoldable pub driver_exec_model :
      Node p → p.Batch → Option (Dict p.Tensor) → Result (Output p.Tensor p.Reply) × Node p
  unfolding store_tensors
  driver_exec_model n batch tensors =
      let (output, w) = Worker.execute_model (store_tensors tensors n.worker) batch in
      (output, record n { worker = w })

  unfoldable pub with_outputs : Node p → Result (List (List p.Bytes)) → Node p
  with_outputs n (ok queues) = record n { service = record n.service { output_queue = queues } }
  with_outputs n (raise e) = n

  unfoldable pub put_output : Node p → ℤ → p.Bytes → Node p
  unfolding with_outputs
  put_output n ve bytes = with_outputs n (put n.service.output_queue ve bytes)

  -- An exception of the encoder is logged, and nothing is put.
  unfoldable pub put_json : Node p → ℤ → Result p.Bytes → Node p
  unfolding put_output
  put_json n ve (ok bytes) = put_output n ve bytes
  put_json n ve (raise e) = n

  -- An exception is logged, and the node goes on.
  unfoldable pub with_manager : Node p → Result (Manager p) → Node p
  with_manager n (ok m) = record n { delivery_manager = m }
  with_manager n (raise e) = n

  -- The output of the head's own layers goes to the second server, or back to the head.
  unfoldable pub head_output :
      Node p → p.Bytes → Metadata → ℤ → List String → Output p.Tensor p.Reply → Node p
  unfolding put_json with_manager values_of
  head_output n bytes metadata ve [] output = put_json n ve (p.json_output output)
  head_output n bytes metadata ve (head ∷ []) output = put_json n ve (p.json_output output)
  head_output n bytes metadata ve (head ∷ next ∷ rest) (intermediate d) =
      with_manager n
        (deliver_to_next n.delivery_manager (values_of p (intermediate d)) bytes metadata ve next)
  head_output n bytes metadata ve (head ∷ next ∷ rest) (holder d) =
      with_manager n
        (deliver_to_next n.delivery_manager (values_of p (holder d)) bytes metadata ve next)
  head_output n bytes metadata ve (head ∷ next ∷ rest) output =
      put_output n ve (p.dump_output output)

  unfoldable pub after_head :
      p.Bytes → Metadata → ℤ → Result (Output p.Tensor p.Reply) × Node p → Node p
  unfolding head_output
  after_head bytes metadata ve (ok output, n) =
      head_output n bytes metadata ve metadata.server_list output
  after_head bytes metadata ve (raise e, n) = n

  unfoldable pub executing_head_server : Node p → p.Batch → p.Bytes → Metadata → Node p
  unfolding driver_exec_model after_head
  executing_head_server n batch bytes metadata =
      after_head bytes metadata (p.virtual_engine batch) (driver_exec_model n batch none)

  -- How far `_execute_model_async` comes before it waits: it returns at once, or it has run the head
  -- and triggered the servers behind its stubs.
  unfoldable pub start_batch :
      Node p → p.Batch → Option (Output p.Tensor p.Reply) × List String × Node p
  unfolding executing_head_server update_stub_list
  start_batch n batch =
      let metadata = get_metadata n.service.topology in
      if eqb (p.num_tokens batch) 0
      then (some (reply p.empty_reply), [], n)
      else let n₁ = executing_head_server n batch (p.dump_batch batch) metadata in
        let n₂ = update_stub_list n₁ (worker_servers metadata.server_list) in
        (none, n₂.stub_list, n₂)

  -- The end of the wait on the output queue. It has no limit, so a timeout stands for a wait that
  -- has not ended, because the queue is empty.
  unfoldable pub collect_result : Node p → ℤ → Result (Output p.Tensor p.Reply × Node p)
  collect_result n ve = get n.service.output_queue ve >>= λ r. p.load_output r.0 >>= λ output.
      ok (output, record n { service = record n.service { output_queue = r.1 } })

  -- The sampling after a forward pass that returned None.
  sample_if_none :
      Result (Output p.Tensor p.Reply) × Node p → Result (Output p.Tensor p.Reply) × Node p
  sample_if_none (ok nothing, n) =
      let (output, runner) = p.sample_tokens n.worker.runner in
      (output, record n { worker = record n.worker { runner = runner } })
  sample_if_none (r, n) = (r, n)

  returning :
      Node p
      → Output p.Tensor p.Reply
      → Result (Manager p)
      → Result (Output p.Tensor p.Reply) × Node p
  returning n output (ok m) = (ok output, record n { delivery_manager = m })
  returning n output (raise e) = (raise e, n)

  -- The output of a node at place `i` of the server list goes to the next server, or to the head.
  route_at :
      Node p
      → p.Bytes
      → Metadata
      → ℤ
      → Output p.Tensor p.Reply
      → Option ℕ
      → Result (Output p.Tensor p.Reply) × Node p
  unfolding returning values_of item_at
  route_at n bytes metadata ve output none = (ok output, n)
  route_at n bytes metadata ve output (some i) =
      if eqb i (length metadata.server_list - 1)
      then returning n output
          (deliver_to_head n.delivery_manager (p.dump_output output) ve metadata.head)
      else returning n output (
          item_at metadata.server_list (suc i) >>= λ next.
          deliver_to_next n.delivery_manager (values_of p output) bytes metadata ve next)

  route :
      p.Bytes
      → Metadata
      → ℤ
      → Result (Output p.Tensor p.Reply) × Node p
      → Result (Output p.Tensor p.Reply) × Node p
  unfolding route_at
  route bytes metadata ve (raise e, n) = (raise e, n)
  route bytes metadata ve (ok output, n) =
      route_at n bytes metadata ve output (index n.grpc_address metadata.server_list)

  step_on :
      Node p
      → p.Bytes
      → Dict p.Tensor
      → Metadata
      → ℤ
      → Result p.Batch
      → Result (Output p.Tensor p.Reply) × Node p
  unfolding driver_exec_model sample_if_none route
  step_on n bytes tensors metadata ve (raise e) = (raise e, n)
  step_on n bytes tensors metadata ve (ok batch) =
      route bytes metadata ve (sample_if_none (driver_exec_model n batch (some tensors)))

  unfoldable pub execute_worker_step :
      Node p → p.Bytes → Dict p.Tensor → Metadata → ℤ → Result (Output p.Tensor p.Reply) × Node p
  unfolding step_on
  execute_worker_step n bytes tensors metadata ve =
      step_on n bytes tensors metadata ve (p.load_batch bytes)

  respond : Result (Output p.Tensor p.Reply) × Node p → Response × Node p
  respond (ok output, n) = (success, n)
  respond (raise e, n) = (failure e, n)

  on_tensors : Node p → ℤ → Packet p → Result (Dict p.Tensor) → Response × Node p
  unfolding execute_worker_step respond
  on_tensors n ve packet (raise e) = (failure e, n)
  on_tensors n ve packet (ok tensors) =
      respond (execute_worker_step n packet.scheduler_output tensors packet.metadata ve)

  on_packet : Node p → ℤ → Result (Packet p × List (List (Packet p))) → Response × Node p
  unfolding on_tensors
  on_packet n ve (raise e) = (failure e, n)
  on_packet n ve (ok (packet, queues)) =
      on_tensors (record n { service = record n.service { input_queue = queues } }) ve packet
        (deserialize_tensors p packet.tensors)

  -- The handler of the service: `get` raises a timeout where nothing came in time.
  unfoldable pub execute_worker_step_handler : Node p → ℤ → Response × Node p
  unfolding on_packet
  execute_worker_step_handler n ve = on_packet n ve (get n.service.input_queue ve)
