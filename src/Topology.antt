-- ===== src/Topology.antt =====
-- The pipeline's topology: `NodeInfo` and `PipelineTopology` of molinkv1/utils.py.
-- A node's dictionary in `node_pool` always has the same three keys, so it is a record here.
pub mod Invariant
pub mod Order
pub mod Walk
use mo_link.Prelude.{
  ℕ, suc, ◌+◌, ◌-◌, String, ◌==◌, ℤ, Dict, lookup, contains, insert, pop_key, sorted, index,
  get_elem?, length, Bool, true, false, Option, none, some, List, [], ◌∷◌, ◌++◌, map, ltb,
  if◌then◌else◌,
}

pub record NodeInfo : Type 0 where
  pub ip : String
  pub start_layer : ℤ
  pub end_layer : ℤ

pub record PipelineTopology : Type 0 where
  pub head_ip : String
  pub start_layer : ℤ
  pub end_layer : ℤ
  pub node_pool : List NodeInfo
  pub node_info_dict : Dict ℤ

-- for node in node_pool: if node["ip"] == ip: …; break
unfoldable pub update_node : NodeInfo → List NodeInfo → List NodeInfo
update_node new [] = []
update_node new (n ∷ ns) =
    if n.ip == new.ip
    then record n { start_layer = new.start_layer; end_layer = new.end_layer } ∷ ns
    else n ∷ update_node new ns

-- [n for n in node_pool if n["ip"] != ip]
unfoldable pub drop_ip : String → List NodeInfo → List NodeInfo
drop_ip ip [] = []
drop_ip ip (n ∷ ns) = let rest = drop_ip ip ns in if n.ip == ip then rest else n ∷ rest

unfoldable pub add_node : PipelineTopology → NodeInfo → PipelineTopology
unfolding update_node
add_node t new =
    if contains new.ip t.node_info_dict
    then record t {
      node_pool = update_node new t.node_pool;
      node_info_dict = insert new.ip new.start_layer t.node_info_dict;
    }
    else record t {
      node_pool = t.node_pool ++ new ∷ [];
      node_info_dict = insert new.ip new.start_layer t.node_info_dict;
    }

-- The constructor and `__post_init__`: the node itself is the first of the pool.
unfoldable pub init : String → ℤ → ℤ → PipelineTopology
unfolding add_node
init head_ip start_layer end_layer =
    add_node
      (record {
        head_ip = head_ip;
        start_layer = start_layer;
        end_layer = end_layer;
        node_pool = [];
        node_info_dict = [];
      })
      (record { ip = head_ip; start_layer = start_layer; end_layer = end_layer })

unfoldable pub remove_node : PipelineTopology → String → PipelineTopology
unfolding drop_ip
remove_node t ip = record t {
  node_pool = drop_ip ip t.node_pool;
  node_info_dict = pop_key ip t.node_info_dict;
}

unfoldable pub get_sorted_server_list : PipelineTopology → List String
get_sorted_server_list t = map (λ e. e.0) (sorted (λ (e : String × ℤ). e.1) t.node_info_dict)

-- What travels with each batch: the head's address, and the servers in pipeline order.
pub record Metadata : Type 0 where
  pub head : String
  pub server_list : List String

unfoldable pub get_metadata : PipelineTopology → Metadata
unfolding get_sorted_server_list
get_metadata t = record { head = t.head_ip; server_list = get_sorted_server_list t }

pub next_of : List String → Option ℕ → Option String
next_of servers none = none
next_of servers (some i) = if ltb i (length servers - 1) then get_elem? servers (i + 1) else none

unfoldable pub get_next_server : PipelineTopology → String → Option String
unfolding next_of
get_next_server t current =
    let servers = get_sorted_server_list t in next_of servers (index current servers)

-- server_list[-1] == ip; of an empty list the answer is false
unfoldable pub is_last : String → List String → Bool
is_last ip [] = false
is_last ip (s ∷ []) = s == ip
is_last ip (s ∷ r ∷ rs) = is_last ip (r ∷ rs)

unfoldable pub is_last_server : PipelineTopology → String → Bool
unfolding is_last
is_last_server t current = is_last current (get_sorted_server_list t)

unfoldable pub get_pp_rank : PipelineTopology → String → ℕ
get_pp_rank t ip = elim (index ip (get_sorted_server_list t)) [ none ↦ 0 | some i ↦ i ]

unfoldable pub get_pp_size : PipelineTopology → ℕ
get_pp_size t = length t.node_pool
