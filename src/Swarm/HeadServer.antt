-- ===== src/Swarm/HeadServer.antt =====
-- What the head does with a batch: `_driver_execute_model_async` and `executing_head_server` of
-- molink/executor/mp_distributed_executor.py.
use mo_link.Prelude.{
  ℤ, String, Dict, sorted, drop, leb, length, get_elem?, Option, none, some, List, [], ◌∷◌, map,
  Result, ok, raise, index_error, attribute_error, ◌>>=◌, if◌then◌else◌,
}
use mo_link.Topology.{Metadata}
use mo_link.StubList.{StubList, refresh_stubs}
use mo_link.Service.{put, get}
use mo_link.Swarm.{
  StageOutput, tensors, sampled, Codec, next, Node, autodl_server, put_nowait, values_to_cpu,
}
use mo_link.Swarm.CommService.{driver_exec_model}

unfoldable pub get_grpc_metadata : String → Dict ℤ → Metadata
get_grpc_metadata head_ip node_info_dict = record {
  head = head_ip;
  server_list = map (λ e. e.0) (sorted (λ (e : String × ℤ). e.1) node_info_dict);
}

-- grpc_metadata.get('server_list', []), and [] without metadata.
abbrev pub servers_of : Option Metadata → List String
servers_of none = []
servers_of (some m) = m.server_list

module _ {c : Codec} where
  -- The pipeline of a batch, and the servers behind the head.
  unfoldable pub pipeline_of : Node c → Option Metadata × List String
  unfolding get_grpc_metadata
  pipeline_of n =
      if n.in_autodl
      then (none, n.autodl_server_ip_map)
      else let grpc_metadata =
          if n.use_dht
          then n.pipeline_info
          else some (get_grpc_metadata n.address n.node_info_dict) in
        (grpc_metadata, drop 1 (servers_of grpc_metadata))

  -- The server after the head, none for a head that is alone.
  unfoldable pub second_server : Node c → Option Metadata → Option String
  second_server n grpc_metadata =
      if n.in_autodl
      then some autodl_server
      else if leb (length (servers_of grpc_metadata)) 1
      then none
      else get_elem? (servers_of grpc_metadata) 1

  unfoldable pub send_on :
      Node c
      → c.Request
      → Option Metadata
      → List (StageOutput c.Tensor c.Sampled)
      → String
      → Result (Node c)
  unfolding put_nowait values_to_cpu
  send_on n req grpc_metadata [] server = raise index_error
  send_on n req grpc_metadata (sampled s ∷ rest) server = raise attribute_error
  send_on n req grpc_metadata (tensors d ∷ rest) server =
      put_nowait n (
        next (values_to_cpu c d) (c.clear_callback req) grpc_metadata (c.virtual_engine req) server)

  -- A head that is alone has its result already.
  unfoldable pub hand_to :
      Node c
      → c.Request
      → Option Metadata
      → List (StageOutput c.Tensor c.Sampled)
      → Option String
      → Result (Node c)
  unfolding send_on put
  hand_to n req grpc_metadata outputs (some server) = send_on n req grpc_metadata outputs server
  hand_to n req grpc_metadata outputs none =
      put n.output_queue (c.virtual_engine req) outputs >>= λ queues.
      ok (record n { output_queue = queues })

  unfoldable pub hand_over :
      c.Request
      → Option Metadata
      → Result (List (StageOutput c.Tensor c.Sampled)) × Node c
      → Result (Node c)
  unfolding second_server hand_to
  hand_over req grpc_metadata (outputs, n) =
      outputs >>= λ made. hand_to n req grpc_metadata made (second_server n grpc_metadata)

  abbrev pub caught : Node c → Result (Node c) → Node c
  caught n (ok n') = n'
  caught n (raise e) = n

  -- An exception is printed. What the run has done to the node stays.
  unfoldable pub executing_head_server : Node c → c.Request → Option Metadata → Node c
  unfolding driver_exec_model hand_over
  executing_head_server n req grpc_metadata =
      let (outputs, n') = driver_exec_model n req none in
      caught n' (hand_over req grpc_metadata (outputs, n'))

  -- The servers that are triggered, or none where the check of the stubs fails: the head's own part
  -- has been started by then, but nothing waits for the result.
  unfoldable pub start_with :
      Node c → c.Request → Option Metadata → Result StubList → Option (List String) × Node c
  unfolding executing_head_server
  start_with n req grpc_metadata (raise e) = (none, executing_head_server n req grpc_metadata)
  start_with n req grpc_metadata (ok stubs) =
      (some stubs.stub_list, executing_head_server (record n { stubs = stubs }) req grpc_metadata)

  unfoldable pub start_batch : Node c → c.Request → Option (List String) × Node c
  unfolding pipeline_of start_with refresh_stubs
  start_batch n req =
      let (grpc_metadata, server_list) = pipeline_of n in
      start_with n req grpc_metadata (refresh_stubs n.stubs server_list)

  -- The wait for the result, when there is one.
  unfoldable pub collect_result :
      Node c → ℤ → Result (List (StageOutput c.Tensor c.Sampled) × Node c)
  unfolding get
  collect_result n ve = get n.output_queue ve >>= λ r. ok (r.0, record n { output_queue = r.1 })
