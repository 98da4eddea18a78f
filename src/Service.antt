-- ===== src/Service.antt =====
-- molinkv1/service.py: the queues of a node and the handlers that fill them.
pub mod Queues
use mo_link.Prelude.{
  ℕ, ℤ, pos, negsuc, ◌-◌, String, Dict, insert, ltb, length, get_elem?, set, replicate, Bool, true,
  false, Option, none, some, List, [], ◌∷◌, ◌++◌, Exn, Result, ok, raise, catch, index_error,
  timeout_error, ◌>>=◌, if◌then◌else◌,
}
use mo_link.Topology.{NodeInfo, PipelineTopology, Metadata, add_node, init}
use mo_link.Platform.{Platform}
use mo_link.Delivery.{GrpcRequestData, SamplerOutput}

-- What waits in an input queue.
pub record Packet (p : Platform) : Type 0 where
  pub scheduler_output : p.Bytes
  pub tensors : Dict p.Bytes
  pub metadata : Metadata

pub record Service (p : Platform) : Type 0 where
  pub input_queue : List (List (Packet p))
  pub output_queue : List (List p.Bytes)
  pub topology : PipelineTopology

-- GrpcResponseData: `res`, and the exception whose text is the error message.
pub data Response : Type 0 where
  success : Response
  failure : Exn → Response

-- The place that a Python index means in a list of length `n`.
unfoldable pub slot : ℕ → ℤ → Option ℕ
slot n (pos i) = if ltb i n then some i else none
slot n (negsuc i) = if ltb i n then some (n - 1 - i) else none

module _ {ℓ} {A : Type ℓ} where
  queue_at : List (List A) → Option ℕ → Result (ℕ × List A)
  queue_at qs none = raise index_error
  queue_at qs (some i) = elim (get_elem? qs i) [ none ↦ raise index_error | some q ↦ ok (i, q) ]

  -- await qs[ve].put(a)
  unfoldable pub put : List (List A) → ℤ → A → Result (List (List A))
  unfolding queue_at
  put qs ve a = queue_at qs (slot (length qs) ve) >>= λ r. ok (set qs r.0 (r.1 ++ a ∷ []))

  split_queue : List (List A) → ℕ → List A → Result (A × List (List A))
  split_queue qs i [] = raise timeout_error
  split_queue qs i (a ∷ rest) = ok (a, set qs i rest)

  -- await asyncio.wait_for(qs[ve].get(), timeout): the queue as it is when the wait ends.
  unfoldable pub get : List (List A) → ℤ → Result (A × List (List A))
  unfolding queue_at split_queue
  get qs ve = queue_at qs (slot (length qs) ve) >>= λ r. split_queue qs r.0 r.1

-- tensors[key] = value, for the entries in turn.
collect_onto {ℓ} : {A : Type ℓ} → Dict A → List (String × A) → Dict A
collect_onto d [] = d
collect_onto d ((k, v) ∷ rest) = collect_onto (insert k v d) rest

unfoldable pub collect {ℓ} : {A : Type ℓ} → List (String × A) → Dict A
unfolding collect_onto
collect = collect_onto []

module _ {p : Platform} where
  unfoldable pub init_service : ℕ → String → ℤ → ℤ → Service p
  init_service pipeline_size head_ip start_layer end_layer = record {
    input_queue = replicate pipeline_size [];
    output_queue = replicate pipeline_size [];
    topology = init head_ip start_layer end_layer;
  }

  -- `add_node` raises nothing.
  unfoldable pub join_pipeline : Service p → NodeInfo → Response × Service p
  join_pipeline s request = (success, record s { topology = add_node s.topology request })

  unfoldable pub get_topology : Service p → List NodeInfo
  get_topology s = s.topology.node_pool

  abbrev answer : Service p → Result (Service p) → Response × Service p
  answer s (ok s') = (success, s')
  answer s (raise e) = (failure e, s)

  unfoldable pub push_intermediate_tensors : Service p → GrpcRequestData p → Response × Service p
  unfolding put collect
  push_intermediate_tensors s request = answer s (
      p.load_metadata request.grpc_metadata >>= λ metadata.
      put s.input_queue request.virtual_engine (record {
        scheduler_output = request.scheduler_output;
        tensors = collect request.intermediate_tensors;
        metadata = metadata;
      })
      >>= λ queues. ok (record s { input_queue = queues }))

  unfoldable pub push_sampler_output : Service p → SamplerOutput p → Response × Service p
  unfolding put
  push_sampler_output s request = answer s (
      put s.output_queue request.virtual_engine request.output_data >>= λ queues.
      ok (record s { output_queue = queues }))

-- torch.load of each value, with map_location="cuda"
unfoldable pub deserialize_tensors : (p : Platform) → Dict p.Bytes → Result (Dict p.Tensor)
deserialize_tensors p [] = ok []
deserialize_tensors p ((k, bytes) ∷ d) =
    p.load bytes >>= λ t. deserialize_tensors p d >>= λ rest. ok ((k, t) ∷ rest)
