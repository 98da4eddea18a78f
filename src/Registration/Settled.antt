-- ===== src/Registration/Settled.antt =====
-- When every node has had an undisturbed pass, the pipeline manager's list is that of all nodes.
use mo_link.Prelude.{
  String, ◌==◌, eq_iff, eq_refl, elem, Unique, Bool, true, false, ◌≡◌, refl, sym, ap, ◌∙◌, subst,
  some, List, [], ◌∷◌, ok, inl, inr, Bool-cases, arith, ℤ, Dict, insert, if◌then◌else◌,
}
use mo_link.PipelineManager.{DhtNodeInfo, PipelineInfo, collect_nodes, pipeline_of, manage_pipeline}
use mo_link.PipelineManager.Published
use mo_link.PipelineManager.Published.{published, manage_pipeline-Lists}
use mo_link.Registration.{
  Json, RoundTrips, DhtNode, Store, empty, Event, run, refresh_all, uuids, addresses, dht,
}
use mo_link.Registration.Listing.{IsListing, AreTheirs, run-IsSound}
use mo_link.Registration.Round.{Lists, listed_in}
use mo_link.Registration.Passes.{ok_injective, parts-ArePart, ArePublished, refresh_all-Refreshed}

Bool_ext : (a b : Bool) → (a ≡ true → b ≡ true) → (b ≡ true → a ≡ true) → a ≡ b
Bool_ext true b f g = sym (f refl)
Bool_ext false true f g = g refl
Bool_ext false false f g = refl

-- The pipeline manager at this address reads these nodes, each once.
abbrev pub ListsAll : (json : Json) → String → List DhtNode → Store json → Type 0
ListsAll json own_address nodes s =
    (info : PipelineInfo) × (manage_pipeline (dht json s own_address) ≡ ok (some info))
    × Unique info.server_list
    × ((a : String) → elem a info.server_list ≡ elem a (addresses nodes))

module _ (json : Json) (laws : RoundTrips json) (own_address : String) where
  module _ (all : List DhtNode) (reserved : elem "node_info" (uuids all) ≡ false)
      (s : Store json) where
    abbrev Owner : String → List DhtNode → Type 0
    Owner u nodes =
        (n : DhtNode) × (n.uuid ≡ u)
        × (s.table u ≡ some (json.dumps_info n.node_info))
        × (elem n.node_info.address (addresses nodes) ≡ true)

    owner :
        (nodes : List DhtNode) (u : String)
        → ArePublished json laws all reserved s nodes
        → elem u (uuids nodes) ≡ true
        → Owner u nodes
    unfolding elem
    owner [] u theirs member = absurd (ground (arith, member))
    owner (n ∷ nodes) u (own, theirs) member = elim (Bool-cases (n.uuid == u)) [
      | inl e ↦
          let same = (eq_iff n.uuid u).0 e in
          (
            n,
            same,
            subst (λ v. s.table v ≡ some (json.dumps_info n.node_info)) same own,
            rw (eq_refl n.node_info.address),
          )
      | inr e ↦
          let (m, same, there, listed) = owner nodes u theirs (ground (arith, member, e)) in
          (m, same, there, ground (arith, listed))
    ]

    -- Each listed node has published, so a pass over the list ends with a dictionary.
    collected :
        (nodes : List DhtNode) (ids : List String) (infos : Dict ℤ)
        → ArePublished json laws all reserved s nodes
        → ((u : String) → elem u ids ≡ true → elem u (uuids nodes) ≡ true)
        → (infos' : Dict ℤ) × (collect_nodes (dht json s own_address) ids infos ≡ ok infos')
    unfolding collect_nodes elem
    collected nodes [] infos theirs known = (infos, refl)
    collected nodes (u ∷ ids) infos theirs known =
        let (n, same, there, listed) = owner nodes u theirs (known u (rw (eq_refl u))) in
        let (infos', done) =
          collected nodes ids (insert n.node_info.address n.node_info.start_layer infos) theirs
            (λ v h. known v (ground (arith, h))) in
        (infos', rw (there, laws.info n.node_info) done)

    publishes_address :
        (u a : String) (ids : List String) (info : DhtNodeInfo)
        → s.table u ≡ some (json.dumps_info info)
        → published (dht json s own_address) a (u ∷ ids)
          ≡ (if info.address == a then true else published (dht json s own_address) a ids)
    publishes_address u a ids info there = rw (there, laws.info info)

    published-known :
        (nodes : List DhtNode) (ids : List String) (a : String)
        → ArePublished json laws all reserved s nodes
        → ((u : String) → elem u ids ≡ true → elem u (uuids nodes) ≡ true)
        → published (dht json s own_address) a ids ≡ true
        → elem a (addresses nodes) ≡ true
    unfolding elem
    published-known nodes [] a theirs known h = absurd (ground (arith, h))
    published-known nodes (u ∷ ids) a theirs known h =
        let (n, same, there, listed) = owner nodes u theirs (known u (rw (eq_refl u))) in
        let found = sym (publishes_address u a ids n.node_info there) ∙ h in
        elim (Bool-cases (n.node_info.address == a)) [
          | inl e ↦
              subst (λ v. elem v (addresses nodes) ≡ true) ((eq_iff n.node_info.address a).0 e)
                listed
          | inr e ↦
              published-known nodes ids a theirs (λ v k. known v (ground (arith, k)))
                (ground (arith, found, e))
        ]

    published_by :
        (u a : String) (ids : List String) (info : DhtNodeInfo)
        → s.table u ≡ some (json.dumps_info info)
        → (info.address == a) ≡ true
        → elem u ids ≡ true
        → published (dht json s own_address) a ids ≡ true
    unfolding elem
    published_by u a [] info there here member = absurd (ground (arith, member))
    published_by u a (v ∷ ids) info there here member = elim (Bool-cases (v == u)) [
      | inl e ↦
          subst (λ w. published (dht json s own_address) a (w ∷ ids) ≡ true)
            (sym ((eq_iff v u).0 e)) (publishes_address u a ids info there ∙ rw here)
      | inr e ↦ ground (arith, published_by u a ids info there here (ground (arith, member, e)))
    ]

    known-published :
        (nodes : List DhtNode) (ids : List String) (a : String)
        → ArePublished json laws all reserved s nodes
        → ((u : String) → elem u (uuids nodes) ≡ true → elem u ids ≡ true)
        → elem a (addresses nodes) ≡ true
        → published (dht json s own_address) a ids ≡ true
    unfolding elem
    known-published [] ids a theirs listed h = absurd (ground (arith, h))
    known-published (n ∷ nodes) ids a (own, theirs) listed h =
        elim (Bool-cases (n.node_info.address == a)) [
          | inl e ↦
              published_by n.uuid a ids n.node_info own e (listed n.uuid (rw (eq_refl n.uuid)))
          | inr e ↦
              known-published nodes ids a theirs (λ u k. listed u (ground (arith, k)))
                (ground (arith, h, e))
        ]

  module _ (n : DhtNode) (rest : List DhtNode)
      (reserved : elem "node_info" (uuids (n ∷ rest)) ≡ false)
      (unique : Unique (uuids (n ∷ rest))) where
    read-ListsAll :
        (s : Store json) (raw : json.Bytes) (ids : List String)
        → s.table "node_info" ≡ some raw
        → json.loads_list raw ≡ ok ids
        → ((u : String) → elem u ids ≡ true → elem u (uuids (n ∷ rest)) ≡ true)
        → ((u : String) → elem u (uuids (n ∷ rest)) ≡ true → elem u ids ≡ true)
        → ArePublished json laws (n ∷ rest) reserved s (n ∷ rest)
        → ListsAll json own_address (n ∷ rest) s
    unfolding manage_pipeline
    read-ListsAll s raw ids found decoded known listed theirs =
        let table = dht json s own_address in
        let (infos, done) = collected (n ∷ rest) reserved s (n ∷ rest) ids [] theirs known in
        let made : manage_pipeline table ≡ ok (some (pipeline_of table infos)) =
          rw (found, decoded, done) in
        let (ids', items, raw', found', decoded', servers, layers, order, own, once, elems) =
          subst (Published.Lists table) made (manage_pipeline-Lists table) in
        let same : ids' ≡ ids = cc in
        (
          pipeline_of table infos,
          made,
          once,
          λ a.
              elems a
              ∙ ap (published table a) same
              ∙ Bool_ext (published table a ids) (elem a (addresses (n ∷ rest)))
                  (published-known (n ∷ rest) reserved s (n ∷ rest) ids a theirs known)
                  (known-published (n ∷ rest) reserved s (n ∷ rest) ids a theirs listed),
        )

    -- For nodes with distinct uuids, none of them the key "node_info", and JSON whose round trips hold:
    -- whatever steps the nodes have taken from the empty table on, in whatever order and however often,
    -- none has failed, and when after that each node has had one undisturbed pass, the pipeline manager
    -- reads a pipeline whose servers are exactly the addresses of these nodes, each once.
    pub refresh_all-ListsAll :
        (events : List Event)
        → AreTheirs json laws (n ∷ rest) reserved events
        → (s s' : Store json) × (run json (empty json) events ≡ ok s)
          × (run json s (refresh_all (n ∷ rest)) ≡ ok s')
          × ListsAll json own_address (n ∷ rest) s'
    unfolding elem
    refresh_all-ListsAll events theirs =
        let (s, ran, sound) =
          run-IsSound json laws (n ∷ rest) reserved (empty json) events theirs (tt, λ u. tt) in
        let (s', ran', (sound', listed, kept, published', same)) =
          refresh_all-Refreshed json laws (n ∷ rest) reserved (n ∷ rest) s
            (parts-ArePart json laws (n ∷ rest) reserved (n ∷ rest) (λ u h. h)) unique sound in
        let (raw, ids, found, decoded, member) = listed n.uuid (rw (eq_refl n.uuid)) in
        let (ids', dumped, once, known) = subst (IsListing json laws (n ∷ rest)) found sound'.0 in
        let equal : ids' ≡ ids =
          ok_injective ids' ids
            (sym (laws.list ids') ∙ ap json.loads_list (sym dumped) ∙ decoded) in
        (
          s,
          s',
          ran,
          ran',
          read-ListsAll s' raw ids found decoded
              (subst (λ l. (u : String) → elem u l ≡ true → elem u (uuids (n ∷ rest)) ≡ true) equal
                known)
              (λ u h. listed_in json raw ids u decoded (subst (Lists json u) found (listed u h)))
              published',
        )
