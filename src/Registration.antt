-- ===== src/Registration.antt =====
-- How the nodes of the older engine register themselves in the distributed hash table: `DHTNode` of
-- molink/comm/dht.py and the NodeInfo of molink/comm/node_info.py. The table is one store, in which a
-- value that was set is got until another one is set. What a node does between two awaits is one event.
pub mod Listing
pub mod Round
pub mod Passes
pub mod Settled
use mo_link.Prelude.{
  String, ◌==◌, elem, Option, none, some, List, [], ◌∷◌, ◌++◌, Result, ok, raise, ◌>>=◌, ◌≡◌,
  if◌then◌else◌,
}
use mo_link.PipelineManager.{DhtNodeInfo, Dht}

-- json.dumps(…).encode('utf-8') and json.loads(…decode('utf-8')). A node's information is dumped twice.
pub record Json : Type 1 where
  pub Bytes : Type 0
  pub dumps_list : List String → Bytes
  pub loads_list : Bytes → Result (List String)
  pub dumps_info : DhtNodeInfo → Bytes
  pub loads_info : Bytes → Result DhtNodeInfo

pub record RoundTrips (json : Json) : Type 0 where
  pub list : (ids : List String) → json.loads_list (json.dumps_list ids) ≡ ok ids
  pub info : (info : DhtNodeInfo) → json.loads_info (json.dumps_info info) ≡ ok info

pub record DhtNode : Type 0 where
  pub uuid : String
  -- the fields of NodeInfo that the pipeline manager reads
  pub node_info : DhtNodeInfo

abbrev pub put_at {ℓ} : {A : Type ℓ} → (String → A) → String → A → String → A
put_at f key value other = if key == other then value else f other

-- The two awaits of store_primary_kv, and store_sub_kv.
pub data Event : Type 0 where
  look : DhtNode → Event
  write : DhtNode → Event
  store_sub_kv : DhtNode → Event

module _ (json : Json) where
  pub record Store : Type 0 where
    pub table : String → Option json.Bytes
    -- what the get of a node's running store_primary_kv gave, by the node's uuid
    pub primary_kv : String → Option (Option json.Bytes)

  abbrev pub empty : Store
  empty = record { table = λ key. none; primary_kv = λ uuid. none }

  abbrev pub set_value : Store → String → json.Bytes → Store
  set_value s key value = record s { table = put_at s.table key (some value) }

  -- store_primary_kv after its get.
  unfoldable pub after_get : DhtNode → Option json.Bytes → Store → Result Store
  after_get n none s = ok (set_value s "node_info" (json.dumps_list (n.uuid ∷ [])))
  after_get n (some raw) s = json.loads_list raw >>= λ primary_kv. ok (
      if elem n.uuid primary_kv
      then s
      else set_value s "node_info" (json.dumps_list (primary_kv ++ n.uuid ∷ [])))

  -- A node that has not got a value has nothing to write.
  unfoldable pub resume : DhtNode → Option (Option json.Bytes) → Store → Result Store
  unfolding after_get
  resume n none s = ok s
  resume n (some primary_kv) s =
      after_get n primary_kv (record s { primary_kv = put_at s.primary_kv n.uuid none })

  unfoldable pub step : Store → Event → Result Store
  unfolding resume
  step s (look n) =
      ok (record s { primary_kv = put_at s.primary_kv n.uuid (some (s.table "node_info")) })
  step s (write n) = resume n (s.primary_kv n.uuid) s
  step s (store_sub_kv n) = ok (set_value s n.uuid (json.dumps_info n.node_info))

  unfoldable pub run : Store → List Event → Result Store
  unfolding step
  run s [] = ok s
  run s (e ∷ events) = step s e >>= λ s'. run s' events

  -- The table as the pipeline manager of a node with this address reads it.
  abbrev pub dht : Store → String → Dht
  dht s own_address = record {
    Bytes = json.Bytes;
    get = s.table;
    loads_list = json.loads_list;
    loads_info = json.loads_info;
    own_address = own_address;
  }

-- One pass of refresh_registration.
abbrev pub refresh : DhtNode → List Event
refresh n = look n ∷ write n ∷ store_sub_kv n ∷ []

-- A pass of each node, one after the other.
abbrev pub refresh_all : List DhtNode → List Event
refresh_all [] = []
refresh_all (n ∷ nodes) = refresh n ++ refresh_all nodes

abbrev pub uuids : List DhtNode → List String
uuids [] = []
uuids (n ∷ nodes) = n.uuid ∷ uuids nodes

abbrev pub addresses : List DhtNode → List String
addresses [] = []
addresses (n ∷ nodes) = n.node_info.address ∷ addresses nodes
