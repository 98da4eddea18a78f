-- ===== src/PipelineManager/Published.antt =====
-- The server list against what the nodes have published.
use mo_link.Prelude.{
  String, ◌==◌, ℤ, Dict, insert, contains, Distinct, contains-insert, insert-Distinct, sorted,
  sorted-IsSorted, insert_sorted, All, lookup, lookup-insert, contains-lookup, eq_refl, eq_iff, sym,
  ap, elem, Unique, Bool, true, false, ◌≡◌, refl, ◌∙◌, ◌⊎◌, inl, inr, Option, none, some, List, [],
  ◌∷◌, map, Result, ok, raise, ◌>>=◌, arith, if◌then◌else◌,
}
use mo_link.Topology.Order.{
  contains-sorted, sorted-Distinct, keys-Unique, elem-keys, IsPipelineOrder, start_of,
}
use mo_link.PipelineManager.{
  DhtNodeInfo, PipelineInfo, Dht, collect_nodes, pipeline_of, manage_pipeline,
}

abbrev later : Option ℤ → Option ℤ → Option ℤ
later none o = o
later (some l) o = some l

later-none : (o : Option ℤ) → o ≡ later o none
later-none none = refl
later-none (some l) = refl

later-if :
    (o : Option ℤ) (l : ℤ) (p : Option ℤ) (b : Bool)
    → later o (if b then some l else p) ≡ later (later o (if b then some l else none)) p
later-if none l p true = refl
later-if none l p false = refl
later-if (some x) l p b = refl

lookup-All :
    (P : String × ℤ → Type 0) (d : Dict ℤ)
    → Distinct d
    → ((a : String) (l : ℤ) → lookup a d ≡ some l → P (a, l))
    → All P d
unfolding lookup
lookup-All P [] u h = tt
lookup-All P ((k, l) ∷ d) (new, u) h = (
  h k l (rw (eq_refl k)),
  lookup-All P d u (λ a m e. h a m (ground (arith, e, eq_iff k a, contains-lookup k d))),
)

All-insert :
    (P : String × ℤ → Type 0) (e : String × ℤ) (d : Dict ℤ)
    → P e
    → All P d
    → All P (insert_sorted start_of e d)
unfolding insert_sorted
All-insert P e [] h k = (h, tt)
All-insert P e (x ∷ d) h (k, ks) = ground (arith, All-insert P e d h ks)

All-sorted : (P : String × ℤ → Type 0) (d : Dict ℤ) → All P d → All P (sorted start_of d)
unfolding sorted
All-sorted P [] h = tt
All-sorted P (e ∷ d) (h, hs) = All-insert P e (sorted start_of d) h (All-sorted P d hs)

module _ (dht : Dht) where
  abbrev has_address : String → Result DhtNodeInfo → Bool
  has_address a (ok info) = info.address == a
  has_address a (raise e) = false

  abbrev publishes : String → Option dht.Bytes → Bool
  publishes a none = false
  publishes a (some raw) = has_address a (dht.loads_info raw)

  -- One of these nodes has published this address.
  abbrev pub published : String → List String → Bool
  published a [] = false
  published a (node_id ∷ ids) = if publishes a (dht.get node_id) then true else published a ids

  abbrev layer_of : String → Result DhtNodeInfo → Option ℤ
  layer_of a (ok info) = if info.address == a then some info.start_layer else none
  layer_of a (raise e) = none

  abbrev publishes_layer : String → Option dht.Bytes → Option ℤ
  publishes_layer a none = none
  publishes_layer a (some raw) = layer_of a (dht.loads_info raw)

  -- The start layer that is published with this address, by the last of these nodes that has it.
  abbrev pub published_layer : String → List String → Option ℤ
  published_layer a [] = none
  published_layer a (node_id ∷ ids) =
      later (published_layer a ids) (publishes_layer a (dht.get node_id))

  abbrev Collected : (String → Bool) → (String → Option ℤ) → Dict ℤ → Result (Dict ℤ) → Type 0
  Collected new layer infos (ok after) =
      (Distinct infos → Distinct after)
      × ((a : String) → contains a after ≡ (if contains a infos then true else new a))
      × ((a : String) → lookup a after ≡ later (layer a) (lookup a infos))
  Collected new layer infos (raise e) = (raw : dht.Bytes) × (dht.loads_info raw ≡ raise e)

  insert-Collected :
      (new : String → Bool) (layer : String → Option ℤ) (info : DhtNodeInfo) (infos : Dict ℤ)
      (r : Result (Dict ℤ))
      → Collected new layer (insert info.address info.start_layer infos) r
      → Collected
          (λ a. if info.address == a then true else new a)
          (λ a. later (layer a) (if info.address == a then some info.start_layer else none))
          infos
          r
  insert-Collected new layer info infos (ok after) h = (
    λ u. h.0 (insert-Distinct info.address info.start_layer infos u),
    λ a. ground (arith, h.1 a, contains-insert info.address a info.start_layer infos),
    λ a.
        h.2 a
        ∙ ap (later (layer a)) (lookup-insert info.address a info.start_layer infos)
        ∙ later-if (layer a) info.start_layer (lookup a infos) (info.address == a),
  )
  insert-Collected new layer info infos (raise e) h = h

  module _ (ids : List String)
      (rest : (infos : Dict ℤ)
        → Collected
            (λ a. published a ids)
            (λ a. published_layer a ids)
            infos
            (collect_nodes dht ids infos))
      (infos : Dict ℤ) where
    decoded-Collected :
        (raw : dht.Bytes) (r : Result DhtNodeInfo)
        → dht.loads_info raw ≡ r
        → Collected
            (λ a. if has_address a r then true else published a ids)
            (λ a. later (published_layer a ids) (layer_of a r))
            infos
            (r >>= λ info. collect_nodes dht ids (insert info.address info.start_layer infos))
    decoded-Collected raw (ok info) e =
        insert-Collected (λ a. published a ids) (λ a. published_layer a ids) info infos
          (collect_nodes dht ids (insert info.address info.start_layer infos))
          (rest (insert info.address info.start_layer infos))
    decoded-Collected raw (raise x) e = (raw, e)

    node-Collected :
        (o : Option dht.Bytes)
        → Collected
            (λ a. if publishes a o then true else published a ids)
            (λ a. later (published_layer a ids) (publishes_layer a o))
            infos
            (elim o [
              | none ↦ collect_nodes dht ids infos
              | some raw ↦ dht.loads_info raw >>= λ info.
                  collect_nodes dht ids (insert info.address info.start_layer infos)
            ])
    node-Collected none = none-Collected (collect_nodes dht ids infos) (rest infos)
      where
        none-Collected :
            (r : Result (Dict ℤ))
            → Collected (λ a. published a ids) (λ a. published_layer a ids) infos r
            → Collected (λ a. published a ids) (λ a. later (published_layer a ids) none) infos r
        none-Collected (ok after) h =
            (h.0, h.1, λ a. h.2 a ∙ ap (λ o. later o (lookup a infos)) (later-none _))
        none-Collected (raise e) h = h
    node-Collected (some raw) = decoded-Collected raw (dht.loads_info raw) refl

  collect_nodes-Collected :
      (ids : List String) (infos : Dict ℤ)
      → Collected
          (λ a. published a ids)
          (λ a. published_layer a ids)
          infos
          (collect_nodes dht ids infos)
  unfolding collect_nodes
  collect_nodes-Collected [] infos = (λ u. u, λ a. ground arith, λ a. refl)
  collect_nodes-Collected (node_id ∷ ids) infos =
      node-Collected ids (collect_nodes-Collected ids) infos (dht.get node_id)

  -- What a pass makes of the table.
  abbrev pub Lists : Result (Option PipelineInfo) → Type 0
  Lists (ok none) = dht.get "node_info" ≡ none
  Lists (ok (some info)) =
      (ids : List String) × (items : Dict ℤ) × (raw : dht.Bytes) × (dht.get "node_info" ≡ some raw)
      × (dht.loads_list raw ≡ ok ids)
      × (info.server_list ≡ map (λ e. e.0) items)
      × All (λ e. published_layer e.0 ids ≡ some e.1) items
      × IsPipelineOrder items
      × (info.head ≡ dht.own_address)
      × Unique info.server_list
      × ((a : String) → elem a info.server_list ≡ published a ids)
  Lists (raise e) =
      (raw : dht.Bytes) × ((dht.loads_list raw ≡ raise e) ⊎ (dht.loads_info raw ≡ raise e))

  pipeline_of-Lists :
      (raw : dht.Bytes) (ids : List String) (r : Result (Dict ℤ))
      → dht.get "node_info" ≡ some raw
      → dht.loads_list raw ≡ ok ids
      → Collected (λ a. published a ids) (λ a. published_layer a ids) [] r
      → Lists (r >>= λ infos. ok (some (pipeline_of dht infos)))
  unfolding pipeline_of contains lookup
  pipeline_of-Lists raw ids (ok infos) found decoded (distinct, listed, layers) = (
    ids,
    sorted start_of infos,
    raw,
    found,
    decoded,
    refl,
    All-sorted _ infos (
        lookup-All (λ e. published_layer e.0 ids ≡ some e.1) infos (distinct tt)
          (λ a l e. later-none (published_layer a ids) ∙ sym (layers a) ∙ e)),
    sorted-IsSorted start_of infos,
    refl,
    keys-Unique _ (sorted-Distinct infos (distinct tt)),
    λ a. elem-keys a (sorted start_of infos) ∙ contains-sorted a infos ∙ listed a,
  )
  pipeline_of-Lists raw ids (raise e) found decoded (culprit, h) = (culprit, inr h)

  list-Lists :
      (raw : dht.Bytes) (r : Result (List String))
      → dht.get "node_info" ≡ some raw
      → dht.loads_list raw ≡ r
      → Lists (r >>= λ ids. collect_nodes dht ids [] >>= λ infos. ok (some (pipeline_of dht infos)))
  list-Lists raw (ok ids) found decoded =
      pipeline_of-Lists raw ids (collect_nodes dht ids []) found decoded
        (collect_nodes-Collected ids [])
  list-Lists raw (raise e) found decoded = (raw, inl decoded)

  table-Lists :
      (o : Option dht.Bytes)
      → dht.get "node_info" ≡ o
      → Lists (elim o [
        | none ↦ ok none
        | some raw ↦ dht.loads_list raw >>= λ ids.
            collect_nodes dht ids [] >>= λ infos. ok (some (pipeline_of dht infos))
      ])
  table-Lists none found = found
  table-Lists (some raw) found = list-Lists raw (dht.loads_list raw) found refl

  -- A pass over the table gives no pipeline only where the table has no list of nodes. Otherwise its
  -- head is the node's own address, and the servers are in ascending order of the start layers that
  -- are published with them, by the last node of the list where several have published one address; no
  -- address stands twice, and an address is a server exactly when a node of the list has published it.
  -- It raises an exception only where decoding a list of nodes or a node raises it.
  pub manage_pipeline-Lists : Lists (manage_pipeline dht)
  unfolding manage_pipeline
  manage_pipeline-Lists = table-Lists (dht.get "node_info") refl
