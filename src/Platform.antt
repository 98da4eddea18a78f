-- ===== src/Platform.antt =====
-- What the v1 engine takes from outside the repository: vLLM's batches, replies and model runner,
-- PyTorch's tensors, and the serializers (cloudpickle, msgspec, torch.save, json). Each type and
-- function is abstract; the laws of the serializers are a record of hypotheses of their own.
use mo_link.Prelude.{ℕ, ℤ, Dict, ◌≡◌, Option, Result, ok}
use mo_link.Topology.{Metadata}

-- What a forward pass or the sampler returns: None, an `IntermediateTensors`, another object with
-- an attribute `tensors`, or a `ModelRunnerOutput`.
pub data Output (T R : Type 0) : Type 0 where
  nothing : Output T R
  intermediate : Dict T → Output T R
  holder : Dict T → Output T R
  reply : R → Output T R

-- A value of the dictionary that is handed to the delivery: a tensor, or some other object.
pub data Value (T R : Type 0) : Type 0 where
  tensor : T → Value T R
  object : Output T R → Value T R

pub record Platform : Type 1 where
  pub Batch : Type 0
  pub Tensor : Type 0
  pub Reply : Type 0
  pub Bytes : Type 0
  pub Runner : Type 0
  -- scheduler_output.total_num_scheduled_tokens, and getattr(…, "virtual_engine", 0)
  pub num_tokens : Batch → ℕ
  pub virtual_engine : Batch → ℤ
  -- the `ModelRunnerOutput` with no request
  pub empty_reply : Reply
  -- cloudpickle.dumps and cloudpickle.loads
  pub dump_batch : Batch → Bytes
  pub load_batch : Bytes → Result Batch
  pub dump_output : Output Tensor Reply → Bytes
  pub load_output : Bytes → Result (Output Tensor Reply)
  -- msgspec.json.encode, which raises for what it cannot write, such as an `IntermediateTensors`
  pub json_output : Output Tensor Reply → Result Bytes
  -- v.to("cpu"), torch.save, torch.load with map_location="cuda"
  pub to_cpu : Tensor → Tensor
  pub save : Tensor → Bytes
  pub load : Bytes → Result Tensor
  -- json.dumps(…).encode("utf-8"), json.loads(data.decode("utf-8"))
  pub dump_metadata : Metadata → Bytes
  pub load_metadata : Bytes → Result Metadata
  -- model_runner.execute_model and sample_tokens
  pub run_model : Runner → Batch → Option (Dict Tensor) → Result (Output Tensor Reply) × Runner
  pub sample_tokens : Runner → Result (Output Tensor Reply) × Runner

-- What is written by a serializer is read back by it.
pub record RoundTrips (p : Platform) : Type 0 where
  pub batch : (b : p.Batch) → p.load_batch (p.dump_batch b) ≡ ok b
  pub output : (o : Output p.Tensor p.Reply) → p.load_output (p.dump_output o) ≡ ok o
  pub tensors : (t : p.Tensor) → p.load (p.save (p.to_cpu t)) ≡ ok t
  pub metadata : (m : Metadata) → p.load_metadata (p.dump_metadata m) ≡ ok m
