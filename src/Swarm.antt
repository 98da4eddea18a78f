-- ===== src/Swarm.antt =====
-- The nodes of the older engine, molink, and what they send to one another: molink/executor/
-- mp_distributed_executor.py and molink/comm/comm_handler.py. vLLM's requests and worker, PyTorch's
-- tensors and the serializers are the record Codec.
pub mod Deliver
pub mod CommService
pub mod HeadServer
pub mod Handlers
pub mod Passing
pub mod Start
pub mod Walk
pub mod EndToEnd
pub mod Network
use mo_link.Prelude.{
  ℕ, ℤ, String, Dict, ltb, length, Bool, Option, none, some, List, [], ◌∷◌, ◌++◌, map, Result, ok,
  raise, queue_full, ◌≡◌, if◌then◌else◌,
}
use mo_link.Topology.{NodeInfo, Metadata}
use mo_link.StubList.{StubList}
use mo_link.Decoding.{Numbers, Json}
use mo_link.Decoding.Outputs.{SamplerOutput}
use mo_link.Decoding.Records.{ExecuteModelRequest}
use mo_link.Decoding.Sent
use mo_link.Decoding.Sent.{SentRequest, AreGroups}
use mo_link.Decoding.Returned
use mo_link.Decoding.Returned.{Sent as SentOutput}

-- What a stage makes: an `IntermediateTensors`, or a `SamplerOutput`.
pub data StageOutput (T S : Type 0) : Type 0 where
  tensors : Dict T → StageOutput T S
  sampled : S → StageOutput T S

pub record Codec : Type 1 where
  pub Request : Type 0
  pub Tensor : Type 0
  pub Sampled : Type 0
  pub Bytes : Type 0
  pub Runner : Type 0
  pub virtual_engine : Request → ℤ
  -- the token ids of each sequence as lists, async_callback = None, and the multi-modal fields = None
  pub plain_tokens : Request → Request
  pub clear_callback : Request → Request
  pub clear_multi_modal : Request → Request
  -- msgspec.json.encode and msgspec.json.decode, and vLLM's constructors on their arguments
  pub num : Numbers
  pub encode_request : Request → Bytes
  pub encode_output : StageOutput Tensor Sampled → Bytes
  pub parse : Bytes → Result (Json num)
  pub make_request : ExecuteModelRequest num → Request
  pub make_output : SamplerOutput num → Sampled
  -- v.to("cpu"), torch.save, torch.load with map_location="cuda"
  pub to_cpu : Tensor → Tensor
  pub save : Tensor → Bytes
  pub load : Bytes → Result Tensor
  -- json.dumps(…).encode("utf-8") and json.loads(…decode("utf-8")), none for an empty dictionary
  pub dump_metadata : Option Metadata → Bytes
  pub load_metadata : Bytes → Result (Option Metadata)
  -- driver_worker.execute_model
  pub run_model :
      Runner → Request → Option (Dict Tensor) → Result (List (StageOutput Tensor Sampled)) × Runner

-- An entry of the process queue, tagged "next" or "head".
pub data Item (c : Codec) : Type 0 where
  next : Dict c.Tensor → c.Request → Option Metadata → ℤ → String → Item c
  head : StageOutput c.Tensor c.Sampled → c.Request → Option Metadata → ℤ → Option String → Item c

-- What waits in an input queue.
pub record Packet (c : Codec) : Type 0 where
  pub execute_model_req : c.Request
  pub intermediate_tensors : Dict c.Bytes
  pub grpc_metadata : Option Metadata

pub record Node (c : Codec) : Type 0 where
  -- f'{ip}:{grpc_port}'
  pub address : String
  pub is_first_rank : Bool
  pub is_last_rank : Bool
  pub in_autodl : Bool
  pub autodl_server_ip_map : List String
  pub use_dht : Bool
  -- what the pipeline manager last read, none for an empty dictionary
  pub pipeline_info : Option Metadata
  pub input_queue : List (List (Packet c))
  pub output_queue : List (List (List (StageOutput c.Tensor c.Sampled)))
  pub node_pool : List NodeInfo
  pub node_info_dict : Dict ℤ
  pub process_queue : List (Item c)
  pub stubs : StubList
  pub runner : c.Runner

-- In the AutoDL environment every other server is mapped to this address.
abbrev pub autodl_server : String
autodl_server = "localhost:38000"

unfoldable pub values_to_cpu : (c : Codec) → Dict c.Tensor → Dict c.Tensor
values_to_cpu c d = map (λ e. (e.0, c.to_cpu e.1)) d

module _ {c : Codec} where
  -- mp.Queue(maxsize=100).put_nowait
  unfoldable pub put_nowait : Node c → Item c → Result (Node c)
  put_nowait n item =
      if ltb (length n.process_queue) 100
      then ok (record n { process_queue = n.process_queue ++ item ∷ [] })
      else raise queue_full

-- What is written is read back: the JSON of a request and of an output in msgspec's layout.
pub record Laws (c : Codec) : Type 0 where
  pub int_of-text_of : (k : ℤ) → c.num.int_of (c.num.text_of k) ≡ ok k
  pub sent_request : c.Request → SentRequest c.num
  pub sent_output : c.Sampled → SentOutput c.num
  pub groups : (r : c.Request) → AreGroups (sent_request r).groups
  pub request :
      (r : c.Request)
      → c.parse (c.encode_request (c.clear_multi_modal (c.clear_callback (c.plain_tokens r))))
        ≡ ok (Sent.layout (sent_request r))
  pub output :
      (s : c.Sampled) → c.parse (c.encode_output (sampled s)) ≡ ok (Returned.layout (sent_output s))
  pub tensor : (t : c.Tensor) → c.load (c.save (c.to_cpu t)) ≡ ok t
  pub metadata : (m : Option Metadata) → c.load_metadata (c.dump_metadata m) ≡ ok m
