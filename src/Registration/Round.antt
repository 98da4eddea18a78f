-- ===== src/Registration/Round.antt =====
-- One undisturbed pass of refresh_registration, and one of each node.
use mo_link.Prelude.{
  String, ◌==◌, eq_iff, eq_refl, elem, true, false, ◌≡◌, refl, subst, Option, none, some, List, [],
  ◌∷◌, ◌++◌, Result, ok, raise, ◌>>=◌, inl, inr, Bool-cases, arith,
}
use mo_link.Registration.{
  Json, RoundTrips, DhtNode, Store, put_at, set_value, Event, after_get, resume, step, run, refresh,
}
use mo_link.Registration.Listing.{IsListing, elem-append}

then_run :
    (json : Json) (r : Result (Store json)) (xs ys : List Event)
    → ((s : Store json) → run json s (xs ++ ys) ≡ (run json s xs >>= λ s'. run json s' ys))
    → (r >>= λ s. run json s (xs ++ ys)) ≡ ((r >>= λ s. run json s xs) >>= λ s'. run json s' ys)
then_run json (ok s) xs ys rest = rest s
then_run json (raise e) xs ys rest = refl

pub run-append :
    (json : Json) (s : Store json) (xs ys : List Event)
    → run json s (xs ++ ys) ≡ (run json s xs >>= λ s'. run json s' ys)
unfolding run
run-append json s [] ys = refl
run-append json s (e ∷ xs) ys = then_run json (step json s e) xs ys (λ s'. run-append json s' xs ys)

-- The list that this value stands for has this uuid.
abbrev pub Lists : (json : Json) → String → Option json.Bytes → Type 0
Lists json u value =
    (raw : json.Bytes) × (ids : List String) × (value ≡ some raw)
    × (json.loads_list raw ≡ ok ids)
    × (elem u ids ≡ true)

nothing_listed : (json : Json) (u : String) → Lists json u none → ⊥
nothing_listed json u (raw, ids, same, loaded, member) = cc

pub listed_in :
    (json : Json) (raw : json.Bytes) (ids : List String) (u : String)
    → json.loads_list raw ≡ ok ids
    → Lists json u (some raw)
    → elem u ids ≡ true
listed_in json raw ids u e (raw', ids', same, loaded, member) = cc

module _ (json : Json) (laws : RoundTrips json) (nodes : List DhtNode) where
  -- What was written adds this uuid and changes nothing else.
  abbrev Adds : String → Store json → Store json → Type 0
  Adds u s s' =
      Lists json u (s'.table "node_info")
      × ((v : String) → Lists json v (s.table "node_info") → Lists json v (s'.table "node_info"))
      × ((key : String) → ("node_info" == key) ≡ false → s'.table key ≡ s.table key)

  after_get-Adds :
      (n : DhtNode) (value : Option json.Bytes) (s : Store json)
      → IsListing json laws nodes value
      → s.table "node_info" ≡ value
      → (s' : Store json) × (after_get json n value s ≡ ok s') × Adds n.uuid s s'
  unfolding after_get elem
  after_get-Adds n none s listing same =
      let raw = json.dumps_list (n.uuid ∷ []) in
      (
        set_value json s "node_info" raw,
        refl,
        (
          (raw, n.uuid ∷ [], refl, laws.list (n.uuid ∷ []), rw (eq_refl n.uuid)),
          (λ v h. absurd (nothing_listed json v (subst (Lists json v) same h))),
          λ key other. rw other,
        ),
      )
  after_get-Adds n (some raw) s (ids, dumped, unique, known) same =
      let ids' = ids ++ n.uuid ∷ [] in
      let loaded : json.loads_list raw ≡ ok ids = rw dumped (laws.list ids) in
      elim (Bool-cases (elem n.uuid ids)) [
        | inl e ↦ (s, rw (loaded, e), ((raw, ids, same, loaded, e), (λ v h. h), λ key other. refl))
        | inr e ↦ (
          set_value json s "node_info" (json.dumps_list ids'),
          rw (loaded, e),
          (
            (
              json.dumps_list ids',
              ids',
              refl,
              laws.list ids',
              ground (arith, elem-append n.uuid ids (n.uuid ∷ []), eq_iff n.uuid n.uuid),
            ),
            (λ v h.
                let before = listed_in json raw ids v loaded (subst (Lists json v) same h) in
                (
                  json.dumps_list ids',
                  ids',
                  refl,
                  laws.list ids',
                  ground (arith, elem-append v ids (n.uuid ∷ []), before),
                )),
            λ key other. rw other,
          ),
        )
      ]

  -- One pass of a node: it is in the list and has published its information.
  abbrev pub Refreshes : DhtNode → Store json → Store json → Type 0
  Refreshes n s s' =
      Lists json n.uuid (s'.table "node_info")
      × ((v : String) → Lists json v (s.table "node_info") → Lists json v (s'.table "node_info"))
      × (s'.table n.uuid ≡ some (json.dumps_info n.node_info))
      × ((key : String)
          → ("node_info" == key) ≡ false
          → (n.uuid == key) ≡ false
          → s'.table key ≡ s.table key)

  published-Refreshes :
      (n : DhtNode) (s s' : Store json)
      → (n.uuid == "node_info") ≡ false
      → Adds n.uuid s s'
      → Refreshes n s (set_value json s' n.uuid (json.dumps_info n.node_info))
  published-Refreshes n s s' other (here, others, same) = (
    rw other here,
    (λ v h. rw other (others v h)),
    rw (eq_refl n.uuid),
    λ key not_list not_own. rw not_own (same key not_list),
  )

  pub refresh-Refreshes :
      (n : DhtNode) (s : Store json)
      → (n.uuid == "node_info") ≡ false
      → IsListing json laws nodes (s.table "node_info")
      → (s' : Store json) × (run json s (refresh n) ≡ ok s') × Refreshes n s s'
  unfolding run step resume
  refresh-Refreshes n s other listing =
      let kv = put_at s.primary_kv n.uuid (some (s.table "node_info")) in
      let s₂ : Store json = record { table = s.table; primary_kv = put_at kv n.uuid none } in
      let (s₃, wrote, adds) = after_get-Adds n (s.table "node_info") s₂ listing refl in
      (
        set_value json s₃ n.uuid (json.dumps_info n.node_info),
        rw (eq_refl n.uuid, wrote),
        published-Refreshes n s s₃ other adds,
      )
