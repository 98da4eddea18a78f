-- ===== src/Tests/Network.antt =====
-- The theorems about the v1 engine at concrete nodes.
use mo_link.Prelude.{
  contains, sorted, ℕ, pos, String, ◌==◌, elem, ◌≡◌, refl, arith, Bool, true, false, none, some,
  List, [], ◌∷◌, ok, raise, unpickling_error, timeout_error, subst, if◌then◌else◌,
}
use mo_link.Topology.{NodeInfo, PipelineTopology, get_metadata, get_sorted_server_list}
use mo_link.Platform.{Output, nothing, intermediate, holder, reply, tensor, object}
use mo_link.Worker
use mo_link.Worker.{Worker}
use mo_link.Worker.{set_intermediate_tensors}
use mo_link.Executor.Steps.{stage}
use mo_link.Worker.Forward.{forward_all, model_all, forward_all-model}
use mo_link.Delivery.{next, head, Process, request_of, values_to_cpu}
use mo_link.Delivery.Order.{
  items_of, Call, to_next, to_head, call_all, all_items, drain, call_all-drain,
}
use mo_link.Service.{slot, get}
use mo_link.Executor.{
  Node, start_batch, collect_result, executing_head_server, driver_exec_model, after_head,
  head_output, store_tensors, put_json, update_stub_list,
}
use mo_link.Executor.Triggers.{HasStubs, start_batch-triggers}
use mo_link.Executor.Single.{single_node_fails}
use mo_link.Pipeline.{World, run}
use mo_link.Pipeline.EndToEnd.{PipelineComputes, pipeline_events, batch_through_pipeline}
use mo_link.Stubs.{worker_servers, same_list}
use mo_link.Tests.Platforms.{Wire, a_json, load_output, small, small-RoundTrips, a_batch, an_output}

abbrev worker : Bool → Bool → ℕ → Worker small
worker first last runner = record {
  molink = true;
  is_first_rank = first;
  is_last_rank = last;
  external_launcher = false;
  stored = none;
  runner = runner;
  received = [];
  sent = none;
}

abbrev idle : Process small
idle = record { delivery_queue = []; shutdown = false; alive = true; stub_cache = [] }

abbrev pool : List NodeInfo
pool =
    record { ip = "h"; start_layer = pos 0; end_layer = pos 8 }
    ∷ record { ip = "w"; start_layer = pos 8; end_layer = pos 16 }
    ∷ record { ip = "l"; start_layer = pos 16; end_layer = pos 24 }
    ∷ []

abbrev topology : PipelineTopology
topology = record {
  head_ip = "h";
  start_layer = pos 0;
  end_layer = pos 8;
  node_pool = pool;
  node_info_dict = ("w", pos 8) ∷ ("l", pos 16) ∷ ("h", pos 0) ∷ [];
}

abbrev lone : PipelineTopology
lone = record topology { node_pool = []; node_info_dict = ("h", pos 0) ∷ [] }

abbrev node : String → PipelineTopology → Worker small → Node small
node address t w = record {
  is_head_node = address == "h";
  grpc_address = address;
  service = record { input_queue = [] ∷ [] ∷ []; output_queue = [] ∷ [] ∷ []; topology = t };
  delivery_manager = record { process = some idle };
  worker = w;
  preset_server_list = [];
  stub_list = [];
  stub_cache = [];
}

abbrev head_node : Node small
head_node = node "h" topology (worker true false 0)

abbrev middle : Node small
middle = node "w" topology (worker false false 10)

abbrev last : Node small
last = node "l" topology (worker false true 20)

abbrev three : World small
three address =
    if address == "h"
    then some head_node
    else if address == "w"
    then some middle
    else if address == "l"
    then some last
    else none

forward_all-model_example :
    ((forward_all (worker false false 10) ((5, ("x", 1) ∷ []) ∷ (0, ("x", 2) ∷ []) ∷ [])).0
      ≡ ok (intermediate (("x", 11) ∷ [])) ∷ ok (intermediate (("hidden_states", 0) ∷ [])) ∷ [])
    × ((forward_all (worker false false 10) ((5, ("x", 1) ∷ []) ∷ (0, ("x", 2) ∷ []) ∷ [])).1.runner
        ≡ 11)
    × ((forward_all (worker false false 10) ((5, ("x", 1) ∷ []) ∷ (0, ("x", 2) ∷ []) ∷ [])).1.sent
        ≡ none)
unfolding forward_all model_all
forward_all-model_example =
    forward_all-model (worker false false 10) ((5, ("x", 1) ∷ []) ∷ (0, ("x", 2) ∷ []) ∷ []) refl
      refl

abbrev calls : List (Call small)
calls =
    to_next (("x", tensor 7) ∷ []) (a_batch 5) (get_metadata topology) (pos 0) "w"
    ∷ to_next (("hidden_states", object (reply 1)) ∷ []) (a_batch 5) (get_metadata topology) (pos 0)
        "w"
    ∷ to_head (an_output (reply 3)) (pos 0) "h"
    ∷ []

call_all-drain_example :
    (q' : Process small) × (call_all (record { process = some idle }) calls
      ≡ record { process = some q' })
    × (drain 100 q'
        ≡ request_of (next (("x", 7) ∷ []) (a_batch 5) (get_metadata topology) (pos 0) "w")
          ∷ request_of (head (an_output (reply 3)) (pos 0) "h")
          ∷ [])
unfolding all_items values_to_cpu items_of
call_all-drain_example = call_all-drain idle calls 100 refl (omega arith) (omega arith)

start_batch-triggers_example :
    HasStubs (start_batch head_node 5).2
    × (start_batch head_node 5 ≡ (none, "w" ∷ "l" ∷ [], (start_batch head_node 5).2))
unfolding worker_servers get_sorted_server_list sorted
start_batch-triggers_example = start_batch-triggers head_node 5 refl

abbrev IsRejected : Wire → Type 0
IsRejected bytes = load_output bytes ≡ raise unpickling_error

-- What `small` writes as JSON is not read back.
json_is_rejected :
    (o : Output ℕ ℕ) (bytes : Wire)
    → small.json_output o ≡ ok bytes
    → small.load_output bytes ≡ raise unpickling_error
json_is_rejected nothing bytes h =
    let same : a_json nothing ≡ bytes = cc in subst IsRejected same refl
json_is_rejected (intermediate d) bytes h = absurd (ground (arith, h))
json_is_rejected (holder d) bytes h = absurd (ground (arith, h))
json_is_rejected (reply r) bytes h =
    let same : a_json (reply r) ≡ bytes = cc in subst IsRejected same refl

single_node_fails_example :
    collect_result (start_batch (node "h" lone (worker true true 0)) 5).2 (pos 0)
    ≡ raise unpickling_error
unfolding slot get_sorted_server_list get_metadata Worker.execute_model sorted
single_node_fails_example =
    single_node_fails (node "h" lone (worker true true 0)) 5 "h" Output.nothing 0 json_is_rejected
      (omega arith) refl refl refl refl

-- A lone head that is not marked as the last stage: its tensors cannot be written, and the wait goes on.
lone_head_waits :
    collect_result (start_batch (node "h" lone (worker true false 0)) 5).2 (pos 0)
    ≡ raise timeout_error
unfolding slot get_sorted_server_list get_metadata Worker.execute_model sorted start_batch
    executing_head_server driver_exec_model after_head head_output store_tensors put_json
    collect_result update_stub_list worker_servers same_list get
lone_head_waits = refl

batch_through_pipeline_example :
    (n' n'' : Node small) × (run three (pipeline_events 5 head_node (middle ∷ last ∷ [])) "h"
      ≡ some n')
    × (collect_result n' (pos 0) ≡ ok (reply 21, n''))
unfolding slot get_sorted_server_list get_metadata Worker.execute_model PipelineComputes elem sorted
    contains stage set_intermediate_tensors
batch_through_pipeline_example =
    batch_through_pipeline small-RoundTrips 5 three head_node middle (last ∷ []) (omega arith) refl
      (refl, (refl, (refl, tt))) refl refl (reply 21) (idle, refl, refl, refl) (0, refl, refl)
      (
        refl,
        (0, refl, refl),
        (idle, refl, refl, refl),
        (refl, (0, refl, refl), (idle, refl, refl, refl), tt),
      )
      (
        ("hidden_states", 5) ∷ [],
        refl,
        (refl, tt),
        (("hidden_states", 15) ∷ [], refl, (refl, tt), refl),
      )
