-- ===== src/Registration/Passes.antt =====
-- A pass of each node, one after the other: who is listed, and what is published.
use mo_link.Prelude.{
  String, ◌==◌, eq_iff, eq_refl, elem, Unique, true, false, ◌≡◌, refl, sym, ap, ◌∙◌, subst, some,
  List, [], ◌∷◌, ok, raise, inl, inr, Bool-cases, arith,
}
use mo_link.Registration.{Json, RoundTrips, DhtNode, Store, run, refresh, refresh_all, uuids}
use mo_link.Registration.Listing.{IsSound, other_key, run-IsSound}
use mo_link.Registration.Round.{Lists, Refreshes, refresh-Refreshes, run-append}

pub ok_injective : {A : Type 0} (a b : A) → ok a ≡ ok b → a ≡ b
ok_injective a b h = ap (λ r. elim r [ ok x ↦ x | raise e ↦ a ]) h

module _ (json : Json) (laws : RoundTrips json) (nodes : List DhtNode)
    (reserved : elem "node_info" (uuids nodes) ≡ false) where
  abbrev pub ArePart : List DhtNode → Type 0
  ArePart [] = Unit
  ArePart (n ∷ todo) = (elem n.uuid (uuids nodes) ≡ true) × ArePart todo

  pub parts-ArePart :
      (todo : List DhtNode)
      → ((u : String) → elem u (uuids todo) ≡ true → elem u (uuids nodes) ≡ true)
      → ArePart todo
  unfolding elem
  parts-ArePart [] known = tt
  parts-ArePart (n ∷ todo) known =
      (known n.uuid (rw (eq_refl n.uuid)), parts-ArePart todo (λ u h. known u (ground (arith, h))))

  abbrev pub ArePublished : Store json → List DhtNode → Type 0
  ArePublished s [] = Unit
  ArePublished s (n ∷ todo) =
      (s.table n.uuid ≡ some (json.dumps_info n.node_info)) × ArePublished s todo

  -- What the passes of these nodes leave.
  abbrev pub Refreshed : List DhtNode → Store json → Store json → Type 0
  Refreshed todo s s' =
      IsSound json laws nodes s'
      × ((u : String) → elem u (uuids todo) ≡ true → Lists json u (s'.table "node_info"))
      × ((u : String) → Lists json u (s.table "node_info") → Lists json u (s'.table "node_info"))
      × ArePublished s' todo
      × ((key : String)
          → ("node_info" == key) ≡ false
          → elem key (uuids todo) ≡ false
          → s'.table key ≡ s.table key)

  refresh-IsSound :
      (n : DhtNode) (s s' : Store json)
      → elem n.uuid (uuids nodes) ≡ true
      → IsSound json laws nodes s
      → run json s (refresh n) ≡ ok s'
      → IsSound json laws nodes s'
  refresh-IsSound n s s' member sound ran =
      let (s'', ran', sound'') =
        run-IsSound json laws nodes reserved s (refresh n) (member, (member, (member, tt))) sound in
      subst (IsSound json laws nodes) (ok_injective s'' s' (sym ran' ∙ ran)) sound''

  flip : (a b : String) → (a == b) ≡ false → (b == a) ≡ false
  flip a b h = elim (Bool-cases (b == a)) [
    | inr e ↦ e
    | inl e ↦ absurd (ground (arith, h, e, eq_iff a b, eq_iff b a))
  ]

  Refreshed-cons :
      (n : DhtNode) (todo : List DhtNode) (s s₁ s₂ : Store json)
      → (n.uuid == "node_info") ≡ false
      → Unique (n.uuid ∷ uuids todo)
      → Refreshes json laws nodes n s s₁
      → Refreshed todo s₁ s₂
      → Refreshed (n ∷ todo) s s₂
  unfolding elem
  Refreshed-cons n todo s s₁ s₂ other unique (here, kept, own, same)
        (sound, listed, kept', theirs, same') =
      (
        sound,
        (λ u member. elim (Bool-cases (n.uuid == u)) [
          | inl e ↦
              subst (λ v. Lists json v (s₂.table "node_info")) ((eq_iff n.uuid u).0 e)
                (kept' n.uuid here)
          | inr e ↦ listed u (ground (arith, member, e))
        ]),
        (λ u h. kept' u (kept u h)),
        (same' n.uuid (flip n.uuid "node_info" other) unique.0 ∙ own, theirs),
        λ key not_list absent.
            same' key not_list (ground (arith, absent))
            ∙ same key not_list (ground (arith, absent)),
      )

  pub refresh_all-Refreshed :
      (todo : List DhtNode) (s : Store json)
      → ArePart todo
      → Unique (uuids todo)
      → IsSound json laws nodes s
      → (s' : Store json) × (run json s (refresh_all todo) ≡ ok s') × Refreshed todo s s'
  unfolding run elem
  refresh_all-Refreshed [] s part unique sound =
      (s, refl, (sound, (λ u h. absurd (ground (arith, h))), (λ u h. h), tt, λ key k l. refl))
  refresh_all-Refreshed (n ∷ todo) s (member, part) unique sound =
      let other = other_key "node_info" n.uuid (uuids nodes) reserved member in
      let (s₁, ran, refreshed) = refresh-Refreshes json laws nodes n s other sound.0 in
      let sound₁ = refresh-IsSound n s s₁ member sound ran in
      let (s₂, ran', after) = refresh_all-Refreshed todo s₁ part unique.1 sound₁ in
      (
        s₂,
        run-append json s (refresh n) (refresh_all todo) ∙ rw ran ran',
        Refreshed-cons n todo s s₁ s₂ other unique refreshed after,
      )
