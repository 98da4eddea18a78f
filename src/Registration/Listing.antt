-- ===== src/Registration/Listing.antt =====
-- What the table holds, whatever the order of the nodes' steps.
use mo_link.Prelude.{
  String, ◌==◌, eq_iff, elem, Unique, true, false, ◌≡◌, refl, sym, ap, subst, Option, none, some,
  List, [], ◌∷◌, ◌++◌, ok, inl, inr, Bool-cases, arith, if◌then◌else◌,
}
use mo_link.Registration.{
  Json, RoundTrips, DhtNode, Store, put_at, set_value, Event, look, write, store_sub_kv, after_get,
  resume, step, run, uuids,
}

pub elem-append :
    (u : String) (xs ys : List String) → elem u (xs ++ ys) ≡ (if elem u xs then true else elem u ys)
unfolding elem
elem-append u [] ys = refl
elem-append u (x ∷ xs) ys = ground (arith, elem-append u xs ys)

Unique-append :
    (u : String) (xs : List String) → Unique xs → elem u xs ≡ false → Unique (xs ++ u ∷ [])
unfolding elem
Unique-append u [] h new = (refl, tt)
Unique-append u (x ∷ xs) h new = (
  ground (arith, elem-append x xs (u ∷ []), h.0, eq_iff u x, eq_iff x u, new),
  Unique-append u xs h.1 (ground (arith, new)),
)

pub other_key :
    (key u : String) (us : List String)
    → elem key us ≡ false
    → elem u us ≡ true
    → (u == key) ≡ false
other_key key u us reserved member = elim (Bool-cases (u == key)) [
  | inr e ↦ e
  | inl e ↦
      let same : u ≡ key = (eq_iff u key).0 e in
      absurd (ground (arith, reserved, member, ap (λ v. elem v us) same))
]

module _ (json : Json) (laws : RoundTrips json) (nodes : List DhtNode) where
  -- A value of the list of nodes: nothing, or uuids of these nodes, each once.
  abbrev pub IsListing : Option json.Bytes → Type 0
  IsListing none = Unit
  IsListing (some raw) =
      (ids : List String) × (raw ≡ json.dumps_list ids)
      × Unique ids
      × ((u : String) → elem u ids ≡ true → elem u (uuids nodes) ≡ true)

  abbrev pub IsSeen : Option (Option json.Bytes) → Type 0
  IsSeen none = Unit
  IsSeen (some value) = IsListing value

  -- The table's list, and what a node has got of it.
  abbrev pub IsSound : Store json → Type 0
  IsSound s = IsListing (s.table "node_info") × ((u : String) → IsSeen (s.primary_kv u))

  put_at-IsSeen :
      (f : String → Option (Option json.Bytes)) (u : String) (seen : Option (Option json.Bytes))
      → ((v : String) → IsSeen (f v))
      → IsSeen seen
      → (v : String) → IsSeen (put_at f u seen v)
  put_at-IsSeen f u seen h k v = elim (Bool-cases (u == v)) [ inl e ↦ rw e k | inr e ↦ rw e (h v) ]

  pub after_get-IsSound :
      (n : DhtNode) (value : Option json.Bytes) (s : Store json)
      → elem n.uuid (uuids nodes) ≡ true
      → IsListing value
      → IsSound s
      → (s' : Store json) × (after_get json n value s ≡ ok s') × IsSound s'
  unfolding after_get elem
  after_get-IsSound n none s member listing (h, k) = (
    set_value json s "node_info" (json.dumps_list (n.uuid ∷ [])),
    refl,
    ((n.uuid ∷ [], refl, (refl, tt), λ u e. ground (arith, eq_iff n.uuid u, member, e)), k),
  )
  after_get-IsSound n (some raw) s member (ids, dumped, unique, known) (h, k) =
      elim (Bool-cases (elem n.uuid ids)) [
        | inl e ↦ (s, rw (dumped, laws.list ids, e), (h, k))
        | inr e ↦ (
          set_value json s "node_info" (json.dumps_list (ids ++ n.uuid ∷ [])),
          rw (dumped, laws.list ids, e),
          (
            (
              ids ++ n.uuid ∷ [],
              refl,
              Unique-append n.uuid ids unique e,
              λ u m.
                  ground
                    (arith, elem-append u ids (n.uuid ∷ []), eq_iff n.uuid u, known u, member, m),
            ),
            k,
          ),
        )
      ]

  abbrev node_of : Event → DhtNode
  node_of (look n) = n
  node_of (write n) = n
  node_of (store_sub_kv n) = n

  resume-IsSound :
      (n : DhtNode) (seen : Option (Option json.Bytes)) (s : Store json)
      → elem n.uuid (uuids nodes) ≡ true
      → IsSeen seen
      → IsSound s
      → (s' : Store json) × (resume json n seen s ≡ ok s') × IsSound s'
  unfolding resume
  resume-IsSound n none s member seen sound = (s, refl, sound)
  resume-IsSound n (some value) s member seen (h, k) =
      after_get-IsSound n value (record s { primary_kv = put_at s.primary_kv n.uuid none }) member
        seen (h, put_at-IsSeen s.primary_kv n.uuid none k tt)

  module _ (reserved : elem "node_info" (uuids nodes) ≡ false) where
    pub step-IsSound :
        (s : Store json) (e : Event)
        → elem (node_of e).uuid (uuids nodes) ≡ true
        → IsSound s
        → (s' : Store json) × (step json s e ≡ ok s') × IsSound s'
    unfolding step
    step-IsSound s (look n) member (h, k) = (
      record s { primary_kv = put_at s.primary_kv n.uuid (some (s.table "node_info")) },
      refl,
      (h, put_at-IsSeen s.primary_kv n.uuid (some (s.table "node_info")) k h),
    )
    step-IsSound s (write n) member sound =
        resume-IsSound n (s.primary_kv n.uuid) s member (sound.1 n.uuid) sound
    step-IsSound s (store_sub_kv n) member (h, k) =
        let other = other_key "node_info" n.uuid (uuids nodes) reserved member in
        (
          set_value json s n.uuid (json.dumps_info n.node_info),
          refl,
          (
            subst IsListing
                (sym (
                  ap (λ b. if b then some (json.dumps_info n.node_info) else s.table "node_info")
                    other))
                h,
            k,
          ),
        )

    -- The steps are those of these nodes.
    abbrev pub AreTheirs : List Event → Type 0
    AreTheirs [] = Unit
    AreTheirs (e ∷ events) = (elem (node_of e).uuid (uuids nodes) ≡ true) × AreTheirs events

    pub run-IsSound :
        (s : Store json) (events : List Event)
        → AreTheirs events
        → IsSound s
        → (s' : Store json) × (run json s events ≡ ok s') × IsSound s'
    unfolding run
    run-IsSound s [] theirs sound = (s, refl, sound)
    run-IsSound s (e ∷ events) (member, theirs) sound =
        let (s', stepped, sound') = step-IsSound s e member sound in
        let (s'', ran, sound'') = run-IsSound s' events theirs sound' in
        (s'', rw stepped ran, sound'')
