-- ===== src/Tests/Swarms.antt =====
-- A swarm of the older engine with a head and two servers. A request is a number and whether it has a
-- callback; tensors and outputs are numbers.
use mo_link.Prelude.{
  ℕ, ℤ, pos, ◌+◌, ◌==◌, elem, contains, lookup, sorted, ap, Bool, true, false, ◌≡◌, refl, Option,
  none, some, map, Result, ok, raise, unpickling_error, Dict, List, [], ◌∷◌, String, if◌then◌else◌,
}
use mo_link.Topology.{Metadata}
use mo_link.StubList.{refresh_stubs, compare_servers, create_stubs}
use mo_link.Service.{slot}
use mo_link.Decoding.{Json, null, integer}
use mo_link.Decoding.Outputs.{SamplerOutput}
use mo_link.Decoding.Records.{ExecuteModelRequest}
use mo_link.Decoding.Sent
use mo_link.Decoding.Sent.{SentRequest}
use mo_link.Decoding.Returned
use mo_link.Decoding.Returned.{Sent as SentOutput}
use mo_link.Tests.Messages.{numbers, read_write}
use mo_link.Swarm.{Codec, Laws, StageOutput, tensors, sampled, Node}
use mo_link.Swarm.HeadServer.{pipeline_of, get_grpc_metadata, start_batch, collect_result}
use mo_link.Swarm.Network.{World, run}
use mo_link.Swarm.Walk.{Computes}
use mo_link.Swarm.EndToEnd.{SwarmComputes, swarm_events, batch_through_swarm}

data Wire : Type 0 where
  a_request : ℕ × Bool → Wire
  an_output : StageOutput ℕ ℕ → Wire
  a_tensor : ℕ → Wire
  some_metadata : Option Metadata → Wire

-- The number of a request is sent as the size of the running queue.
abbrev sent_request : ℕ × Bool → SentRequest numbers
sent_request r = record {
  groups = [];
  blocks_to_swap_in = null;
  blocks_to_swap_out = null;
  blocks_to_copy = null;
  virtual_engine = integer (pos 0);
  num_lookahead_slots = null;
  running_queue_size = integer (pos r.0);
  previous_hidden_states = null;
  num_steps = null;
  spec_step_idx = null;
  finished_requests_ids = null;
  last_sampled_token_ids = null;
  async_callback = null;
}

abbrev number_of : Option (Json numbers) → ℕ
number_of (some (integer (pos k))) = k
number_of _ = 0

abbrev make_request : ExecuteModelRequest numbers → ℕ × Bool
make_request r = (number_of (lookup "running_queue_size" r.others), false)

abbrev sent_output : ℕ → SentOutput numbers
sent_output s = record {
  outputs = [];
  sampled_token_probs = null;
  logprobs = null;
  deferred_sample_results_args = null;
  sampled_token_ids = integer (pos s);
  sampled_token_ids_cpu = null;
  spec_decode_worker_metrics = null;
  hidden_states = null;
  prefill_hidden_states = null;
  model_forward_time = null;
  model_execute_time = null;
}

abbrev make_output : SamplerOutput numbers → ℕ
make_output o = number_of (some o.sampled_token_ids)

abbrev parse : Wire → Result (Json numbers)
parse (a_request r) = ok (Sent.layout (sent_request r))
parse (an_output (sampled s)) = ok (Returned.layout (sent_output s))
parse _ = raise unpickling_error

abbrev load_tensor : Wire → Result ℕ
load_tensor (a_tensor t) = ok t
load_tensor _ = raise unpickling_error

abbrev load_metadata : Wire → Result (Option Metadata)
load_metadata (some_metadata m) = ok m
load_metadata _ = raise unpickling_error

-- A runner adds its number, and the last one samples.
abbrev run_model :
    ℕ × Bool → ℕ × Bool → Option (Dict ℕ) → Result (List (StageOutput ℕ ℕ)) × (ℕ × Bool)
run_model runner req none = (ok (tensors (("hidden_states", req.0) ∷ []) ∷ []), runner)
run_model (k, true) req (some d) = (ok (sampled (k + req.0) ∷ []), (k, true))
run_model (k, false) req (some d) = (ok (tensors (map (λ e. (e.0, e.1 + k)) d) ∷ []), (k, false))

abbrev codec : Codec
codec = record {
  Request = ℕ × Bool;
  Tensor = ℕ;
  Sampled = ℕ;
  Bytes = Wire;
  Runner = ℕ × Bool;
  virtual_engine = λ r. pos 0;
  plain_tokens = λ r. r;
  clear_callback = λ r. (r.0, false);
  clear_multi_modal = λ r. r;
  encode_request = a_request;
  encode_output = an_output;
  num = numbers;
  parse = parse;
  make_request = make_request;
  make_output = make_output;
  to_cpu = λ t. t;
  save = a_tensor;
  load = load_tensor;
  dump_metadata = some_metadata;
  load_metadata = load_metadata;
  run_model = run_model;
}

abbrev codec-Laws : Laws codec
codec-Laws = record {
  int_of-text_of = λ k. ap ok (read_write k);
  sent_request = sent_request;
  sent_output = sent_output;
  groups = λ r. tt;
  request = λ r. refl;
  output = λ s. refl;
  tensor = λ t. refl;
  metadata = λ m. refl;
}

abbrev node : String → Bool → Bool → ℕ → Dict ℤ → Node codec
node address first last k joined = record {
  address = address;
  is_first_rank = first;
  is_last_rank = last;
  in_autodl = false;
  autodl_server_ip_map = [];
  use_dht = false;
  pipeline_info = none;
  input_queue = [] ∷ [] ∷ [];
  output_queue = [] ∷ [] ∷ [];
  node_pool = [];
  node_info_dict = joined;
  process_queue = [];
  stubs = record { preset_server_list = []; stub_list = [] };
  runner = (k, last);
}

abbrev head_node : Node codec
head_node = node "h" true false 0 (("h", pos 0) ∷ ("l", pos 20) ∷ ("w", pos 10) ∷ [])

abbrev middle : Node codec
middle = node "w" false false 10 []

abbrev last : Node codec
last = node "l" false true 20 []

abbrev three : World codec
three address =
    if address == "h"
    then some head_node
    else if address == "w"
    then some middle
    else if address == "l"
    then some last
    else none

batch_through_swarm_example :
    ((start_batch head_node (5, true)).0 ≡ some ("w" ∷ "l" ∷ []))
    × ((n' n'' : Node codec) × (run three (swarm_events (5, true) "h" ("w" ∷ "l" ∷ [])) "h"
          ≡ some n')
        × (collect_result n' (pos 0) ≡ ok (sampled 25 ∷ [], n'')))
unfolding slot SwarmComputes Computes pipeline_of get_grpc_metadata sorted elem contains lookup
    refresh_stubs compare_servers create_stubs
batch_through_swarm_example =
    batch_through_swarm codec-Laws (5, true) three
      (record { head = "h"; server_list = "h" ∷ "w" ∷ "l" ∷ [] }) head_node middle (last ∷ []) refl
      refl (refl, (refl, (refl, tt))) refl refl refl 25
      (record { preset_server_list = "w" ∷ "l" ∷ []; stub_list = "w" ∷ "l" ∷ [] }) 0 refl refl refl
      refl refl
      (
        refl,
        (0, refl, refl),
        (refl, refl, refl, refl),
        (refl, (0, refl, refl), (refl, refl, refl, refl), tt),
      )
      (
        ("hidden_states", 5) ∷ [],
        [],
        refl,
        (refl, tt),
        (("hidden_states", 15) ∷ [], [], refl, (refl, tt), ([], refl)),
      )
