-- ===== src/Delivery.antt =====
-- molinkv1/delivery.py: the bounded queue between the main process and the delivery process.
pub mod Order
use mo_link.Prelude.{
  ℕ, ℤ, ◌+◌, String, Dict, ltb, length, Bool, true, false, Option, none, some, List, [], ◌∷◌, ◌++◌,
  map, Result, ok, raise, runtime_error, attribute_error, queue_full, ◌>>=◌, ◌>>◌, contains, insert,
  if◌then◌else◌,
}
use mo_link.Topology.{Metadata}
use mo_link.Platform.{Platform, Output, Value, tensor, object}

-- An entry of the queue, tagged "next" or "head".
pub data Item (p : Platform) : Type 0 where
  next : Dict p.Tensor → p.Bytes → Metadata → ℤ → String → Item p
  head : p.Bytes → ℤ → String → Item p

pub record Process (p : Platform) : Type 0 where
  pub delivery_queue : List (Item p)
  pub shutdown : Bool
  pub alive : Bool
  -- the addresses for which the process has a stub
  pub stub_cache : Dict (Unit {0})

pub record Manager (p : Platform) : Type 0 where
  pub process : Option (Process p)

abbrev pub maxsize : ℕ
maxsize = 100

-- GrpcRequestData and SamplerOutput of comm/molink.proto.
pub record GrpcRequestData (p : Platform) : Type 0 where
  pub scheduler_output : p.Bytes
  pub intermediate_tensors : List (String × p.Bytes)
  pub grpc_metadata : p.Bytes
  pub virtual_engine : ℤ

pub record SamplerOutput (p : Platform) : Type 0 where
  pub output_data : p.Bytes
  pub virtual_engine : ℤ

-- A call of a stub, with the server's address.
pub data Send (p : Platform) : Type 0 where
  push_intermediate_tensors : String → GrpcRequestData p → Send p
  push_sampler_output : String → SamplerOutput p → Send p

-- v.to("cpu") of each value; what is no tensor has no such attribute.
unfoldable pub values_to_cpu :
    (p : Platform) → Dict (Value p.Tensor p.Reply) → Result (Dict p.Tensor)
values_to_cpu p [] = ok []
values_to_cpu p ((k, tensor t) ∷ d) = values_to_cpu p d >>= λ rest. ok ((k, p.to_cpu t) ∷ rest)
values_to_cpu p ((k, object o) ∷ d) = raise attribute_error

module _ {p : Platform} where
  abbrev fresh : Process p
  fresh = record { delivery_queue = []; shutdown = false; alive = true; stub_cache = [] }

  unfoldable pub start : Manager p → Manager p
  start m = elim m.process [
    | none ↦ record { process = some fresh }
    | some q ↦ if q.alive then m else record { process = some fresh }
  ]

  unfoldable pub stop : Manager p → Manager p
  stop m = record { process = none }

  put_nowait : Item p → Process p → Result (Process p)
  put_nowait item q =
      if ltb (length q.delivery_queue) maxsize
      then ok (record q { delivery_queue = q.delivery_queue ++ item ∷ [] })
      else raise queue_full

  enqueue : Manager p → Item p → Result (Manager p)
  unfolding put_nowait
  enqueue m item = elim m.process [
    | none ↦ raise runtime_error
    | some q ↦ put_nowait item q >>= λ q'. ok (record { process = some q' })
  ]

  -- The test for the process stands before the copy to the CPU.
  unfoldable pub deliver_to_next :
      Manager p
      → Dict (Value p.Tensor p.Reply)
      → p.Bytes
      → Metadata
      → ℤ
      → String
      → Result (Manager p)
  unfolding enqueue values_to_cpu
  deliver_to_next m tensors bytes metadata ve server = elim m.process [
    | none ↦ raise runtime_error
    | some q ↦ values_to_cpu p tensors >>= λ tensors_cpu.
        enqueue m (next tensors_cpu bytes metadata ve server)
  ]

  unfoldable pub deliver_to_head : Manager p → p.Bytes → ℤ → String → Result (Manager p)
  unfolding enqueue
  deliver_to_head m bytes ve server = enqueue m (head bytes ve server)

  -- The request that a task sends for an entry of the queue.
  unfoldable pub request_of : Item p → Send p
  request_of (next tensors bytes metadata ve server) = push_intermediate_tensors server (record {
    scheduler_output = bytes;
    intermediate_tensors = map (λ e. (e.0, p.save e.1)) tensors;
    grpc_metadata = p.dump_metadata metadata;
    virtual_engine = ve;
  })
  request_of (head bytes ve server) =
      push_sampler_output server (record { output_data = bytes; virtual_engine = ve })

  abbrev server_of : Item p → String
  server_of (next tensors bytes metadata ve server) = server
  server_of (head bytes ve server) = server

  -- The process when it has sent for an entry, and the queue goes on with `rest`.
  unfoldable pub sent_item : Process p → Item p → List (Item p) → Process p
  sent_item q item rest = record q {
    delivery_queue = rest;
    stub_cache = insert (server_of item) tt q.stub_cache;
  }

  abbrev pub pop_front : Process p → List (Item p) → Option (Send p × Process p)
  pop_front q [] = none
  pop_front q (item ∷ rest) = some (request_of item, sent_item q item rest)

  -- One round of `consumer_loop`: `none` when the loop has ended or found the queue empty.
  unfoldable pub consume : Process p → Option (Send p × Process p)
  unfolding request_of sent_item
  consume q = if q.shutdown then none else pop_front q q.delivery_queue
