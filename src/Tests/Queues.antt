-- ===== src/Tests/Queues.antt =====
-- The theorems about the queues of the service.
use mo_link.Prelude.{pos, negsuc, ◌≡◌, refl, some, List, [], ◌∷◌, get_elem?}
use mo_link.Topology.{Metadata, init}
use mo_link.Delivery.{GrpcRequestData}
use mo_link.Service.{Service, slot}
use mo_link.Service.Queues.{packets_for, push_all, packet, push_all-queue}
use mo_link.Tests.Platforms.{small, Wire, a_batch, a_tensor, some_metadata}

abbrev request : Wire → Wire → GrpcRequestData small
request bytes metadata = record {
  scheduler_output = bytes;
  intermediate_tensors = ("x", a_tensor 1) ∷ ("y", a_tensor 2) ∷ [];
  grpc_metadata = metadata;
  virtual_engine = pos 0;
}

abbrev route : Metadata
route = record { head = "h"; server_list = "h" ∷ "w" ∷ [] }

abbrev first : GrpcRequestData small
first = request (a_batch 1) (some_metadata route)

abbrev requests : List (GrpcRequestData small)
requests =
    first
    ∷ record (request (a_batch 2) (some_metadata route)) { virtual_engine = pos 1 }
    ∷ request (a_batch 3) (a_batch 3)
    ∷ record (request (a_batch 4) (some_metadata route)) { virtual_engine = negsuc 1 }
    ∷ []

abbrev service : Service small
service = record {
  input_queue = [] ∷ [] ∷ [];
  output_queue = [] ∷ [] ∷ [];
  topology = init "h" (pos 0) (pos 8);
}

push_all-queue_example :
    get_elem? (push_all service requests).input_queue 0
    ≡ some (packet first route ∷ packet (record first { scheduler_output = a_batch 4 }) route ∷ [])
unfolding packets_for slot
push_all-queue_example = push_all-queue service requests 0 [] refl
