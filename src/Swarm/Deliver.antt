-- ===== src/Swarm/Deliver.antt =====
-- The process that sends: `MultiprocessingDeliver` of molink/executor/mp_distributed_executor.py.
-- Encoding never fails, and a channel that cannot be opened is a send that reaches no node.
use mo_link.Prelude.{ℤ, String, Dict, Option, none, some, List, [], ◌∷◌, map}
use mo_link.Swarm.{Codec, Item, next, head, Node}

pub record GrpcRequestData (c : Codec) : Type 0 where
  pub execute_model_request : c.Bytes
  pub intermediate_tensors : List (String × c.Bytes)
  pub grpc_metadata : c.Bytes
  pub virtual_engine : ℤ

-- A call of a stub.
pub data Send (c : Codec) : Type 0 where
  push_intermediate_tensors : String → GrpcRequestData c → Send c
  push_sampler_output : Option String → c.Bytes → ℤ → Send c

unfoldable pub mp_serialize_intermediate_tensors :
    (c : Codec) → Dict c.Tensor → c.Request → c.Bytes × List (String × c.Bytes)
mp_serialize_intermediate_tensors c d req = (
  c.encode_request (c.clear_multi_modal (c.clear_callback (c.plain_tokens req))),
  map (λ e. (e.0, c.save e.1)) d,
)

module _ {c : Codec} where
  -- What the consumer of the process queue does with an entry.
  unfoldable pub request_of : Item c → Send c
  unfolding mp_serialize_intermediate_tensors
  request_of (next d req grpc_metadata ve next_server) =
      let (emq, tensors) = mp_serialize_intermediate_tensors c d req in
      push_intermediate_tensors next_server (record {
        execute_model_request = emq;
        intermediate_tensors = tensors;
        grpc_metadata = c.dump_metadata grpc_metadata;
        virtual_engine = ve;
      })
  request_of (head output req grpc_metadata ve head_server) =
      push_sampler_output head_server (c.encode_output output) ve

  -- One round of the consumer, which waits while the queue is empty.
  unfoldable pub consume : Node c → List (Item c) → Option (Send c × Node c)
  unfolding request_of
  consume n [] = none
  consume n (item ∷ rest) = some (request_of item, record n { process_queue = rest })
