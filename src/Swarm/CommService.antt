-- ===== src/Swarm/CommService.antt =====
-- The handlers of `CommService`, molink/comm/comm_handler.py. A handler that fails prints the
-- exception and returns None.
use mo_link.Prelude.{
  ℕ, suc, ◌+◌, ℤ, String, ◌==◌, Dict, insert, leb, length, get_elem?, Option, none, some, List, [],
  ◌∷◌, ◌++◌, Result, ok, raise, type_error, timeout_error, ◌>>=◌, if◌then◌else◌,
}
use mo_link.Topology.{NodeInfo, Metadata}
use mo_link.Service.{put, get, collect}
use mo_link.Decoding.Outputs.{decoding_sampler_outputs}
use mo_link.Decoding.Requests.{decoding_execute_model_req}
use mo_link.Swarm.Deliver.{GrpcRequestData}
use mo_link.Swarm.{
  StageOutput, tensors, sampled, Codec, next, head, Packet, Node, autodl_server, put_nowait,
  values_to_cpu,
}

-- GrpcResponseData with this `res`, None, or no answer while the handler waits on its queue.
pub data Answer : Type 0 where
  res : ℕ → Answer
  nothing : Answer
  waiting : Answer

-- The place of this server in the list, or the list's length.
unfoldable pub idx_self : String → List String → ℕ
idx_self this_ip [] = 0
idx_self this_ip (server ∷ rest) =
    let later = suc (idx_self this_ip rest) in if server == this_ip then 0 else later

unfoldable pub server_after : String → List String → Option String
unfolding idx_self
server_after this_ip servers =
    let idx = idx_self this_ip servers in
    if leb (length servers) (idx + 1) then none else get_elem? servers (idx + 1)

unfoldable pub decode_request : (c : Codec) → c.Bytes → Result c.Request
unfolding decoding_execute_model_req
decode_request c bytes = c.parse bytes >>= λ execute_model_req.
    decoding_execute_model_req execute_model_req >>= λ arguments. ok (c.make_request arguments)

unfoldable pub decode_output : (c : Codec) → c.Bytes → Result c.Sampled
unfolding decoding_sampler_outputs
decode_output c bytes = c.parse bytes >>= λ outputs.
    decoding_sampler_outputs outputs >>= λ arguments. ok (c.make_output arguments)

unfoldable pub load_tensors : (c : Codec) → Dict c.Bytes → Result (Dict c.Tensor)
load_tensors c [] = ok []
load_tensors c ((k, bytes) ∷ d) =
    c.load bytes >>= λ t. load_tensors c d >>= λ rest. ok ((k, t) ∷ rest)

module _ {c : Codec} where
  abbrev pub answer : Node c → Result (Node c) → Answer × Node c
  answer n (ok n') = (res 1, n')
  answer n (raise e) = (nothing, n)

  unfoldable pub join_pipeline : Node c → NodeInfo → Answer × Node c
  join_pipeline n request = (
    res 1,
    record n {
      node_pool = n.node_pool ++ request ∷ [];
      node_info_dict = insert request.ip request.start_layer n.node_info_dict;
    },
  )

  unfoldable pub push_intermediate_tensors : Node c → GrpcRequestData c → Answer × Node c
  unfolding put collect decode_request
  push_intermediate_tensors n request = answer n (
      decode_request c request.execute_model_request >>= λ execute_model_req.
      c.load_metadata request.grpc_metadata >>= λ grpc_metadata.
      put n.input_queue request.virtual_engine (record {
        execute_model_req = execute_model_req;
        intermediate_tensors = collect request.intermediate_tensors;
        grpc_metadata = grpc_metadata;
      })
      >>= λ queues. ok (record n { input_queue = queues }))

  unfoldable pub push_sampler_output : Node c → c.Bytes → ℤ → Answer × Node c
  unfolding put decode_output
  push_sampler_output n output_data virtual_engine = answer n (
      decode_output c output_data >>= λ output.
      put n.output_queue virtual_engine (sampled output ∷ []) >>= λ queues.
      ok (record n { output_queue = queues }))

  -- The server behind this one: none at the end of the list, and for one that is not in it.
  unfoldable pub next_server_of : Node c → Option Metadata → Result (Option String)
  unfolding server_after
  next_server_of n grpc_metadata =
      if n.in_autodl then ok (some autodl_server) else elim grpc_metadata [
        | none ↦ raise type_error
        | some m ↦ ok (server_after n.address m.server_list)
      ]

  unfoldable pub head_server_of : Node c → Option Metadata → Option String
  head_server_of n grpc_metadata =
      if n.in_autodl
      then some autodl_server
      else elim grpc_metadata [ none ↦ none | some m ↦ some m.head ]

  -- Only an `IntermediateTensors` has items.
  unfoldable pub push_on :
      Node c
      → c.Request
      → Option Metadata
      → ℤ
      → StageOutput c.Tensor c.Sampled
      → Result (Option String)
      → Answer × Node c
  unfolding put_nowait values_to_cpu
  push_on n req grpc_metadata ve (tensors d) (ok (some server)) =
      answer n (put_nowait n (next (values_to_cpu c d) req grpc_metadata ve server))
  push_on n req grpc_metadata ve output target = (nothing, n)

  unfoldable pub route :
      Node c → c.Request → Option Metadata → ℤ → StageOutput c.Tensor c.Sampled → Answer × Node c
  unfolding next_server_of head_server_of push_on
  route n req grpc_metadata ve output =
      if n.is_last_rank
      then if n.is_first_rank
        then (res 0, n)
        else answer n
            (put_nowait n (head output req grpc_metadata ve (head_server_of n grpc_metadata)))
      else push_on n req grpc_metadata ve output (next_server_of n grpc_metadata)

  unfoldable pub after_run :
      c.Request
      → Option Metadata
      → ℤ
      → Result (List (StageOutput c.Tensor c.Sampled)) × Node c
      → Answer × Node c
  unfolding route
  after_run req grpc_metadata ve (ok (output ∷ rest), n) = route n req grpc_metadata ve output
  after_run req grpc_metadata ve (ok [], n) = (nothing, n)
  after_run req grpc_metadata ve (raise e, n) = (nothing, n)

  unfoldable pub driver_exec_model :
      Node c
      → c.Request
      → Option (Dict c.Tensor)
      → Result (List (StageOutput c.Tensor c.Sampled)) × Node c
  driver_exec_model n req d =
      let (outputs, runner) = c.run_model n.runner req d in (outputs, record n { runner = runner })

  unfoldable pub run_packet : Node c → ℤ → Packet c → Result (Dict c.Tensor) → Answer × Node c
  unfolding driver_exec_model after_run
  run_packet n ve packet (raise e) = (nothing, n)
  run_packet n ve packet (ok d) =
      after_run packet.execute_model_req packet.grpc_metadata ve
        (driver_exec_model n packet.execute_model_req (some d))

  unfoldable pub on_input :
      Node c → ℤ → Result (Packet c × List (List (Packet c))) → Answer × Node c
  unfolding run_packet load_tensors
  on_input n ve (raise timeout_error) = (waiting, n)
  on_input n ve (raise e) = (nothing, n)
  on_input n ve (ok (packet, queues)) =
      run_packet (record n { input_queue = queues }) ve packet
        (load_tensors c packet.intermediate_tensors)

  -- `get` raises timeout_error on an empty queue, where the handler waits.
  unfoldable pub executing_worker_step : Node c → ℤ → Answer × Node c
  unfolding on_input get
  executing_worker_step n ve = on_input n ve (get n.input_queue ve)
