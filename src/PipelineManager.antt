-- ===== src/PipelineManager.antt =====
-- `PipelineManager` of molink/comm/pipeline_manager.py: the server list of the v0 engine, read from a
-- distributed hash table. The table at the time of a pass and the decoding of JSON are parameters.
pub mod Published
use mo_link.Prelude.{
  String, ◌++◌, ℤ, Dict, insert, sorted, Option, none, some, List, [], ◌∷◌, map, Result, ok, raise,
  ◌>>=◌,
}

-- What a node publishes of itself, as far as it is read.
pub record DhtNodeInfo : Type 0 where
  -- f'{ip}:{grpc_port}'
  pub address : String
  pub start_layer : ℤ

pub record PipelineInfo : Type 0 where
  pub head : String
  pub server_list : List String

pub record Dht : Type 1 where
  pub Bytes : Type 0
  pub get : String → Option Bytes
  -- json.loads, of the list of nodes and, twice, of a node
  pub loads_list : Bytes → Result (List String)
  pub loads_info : Bytes → Result DhtNodeInfo
  -- the node's own address
  pub own_address : String

module _ (dht : Dht) where
  -- The loop over the nodes.
  unfoldable pub collect_nodes : List String → Dict ℤ → Result (Dict ℤ)
  collect_nodes [] infos = ok infos
  collect_nodes (node_id ∷ ids) infos = elim (dht.get node_id) [
    | none ↦ collect_nodes ids infos
    | some raw ↦ dht.loads_info raw >>= λ info.
        collect_nodes ids (insert info.address info.start_layer infos)
  ]

  unfoldable pub pipeline_of : Dict ℤ → PipelineInfo
  pipeline_of infos = record {
    head = dht.own_address;
    server_list = map (λ e. e.0) (sorted (λ (e : String × ℤ). e.1) infos);
  }

  -- None stands for the empty dictionary, which is kept until nodes are known.
  unfoldable pub manage_pipeline : Result (Option PipelineInfo)
  unfolding collect_nodes pipeline_of
  manage_pipeline = elim (dht.get "node_info") [
    | none ↦ ok none
    | some raw ↦ dht.loads_list raw >>= λ ids.
        collect_nodes ids [] >>= λ infos. ok (some (pipeline_of infos))
  ]
