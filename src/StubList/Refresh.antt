-- ===== src/StubList/Refresh.antt =====
-- What the check leaves, and when it fails.
use mo_link.Prelude.{
  String, ◌==◌, eq_iff, eqb, length, Bool, true, false, not, ◌≡◌, refl, ◌∙◌, inl, inr, Bool-cases,
  List, [], ◌∷◌, ◌++◌, Result, ok, raise, index_error, ◌>>=◌, arith, if◌then◌else◌,
}
use mo_link.StubList.{StubList, create_stubs, compare_servers, refresh_stubs}

-- The preset list goes on after the servers of the pipeline.
abbrev pub IsShorter : List String → List String → Type 0
IsShorter server_list preset =
    (server : String) × (removed : List String) × (preset ≡ server_list ++ server ∷ removed)

-- Same servers at the same places, as far as the preset list goes.
abbrev Compared : Bool → List String → List String → Result Bool → Type 0
Compared build preset server_list (ok b) =
    b ≡ false → (build ≡ false) × ((rest : List String) × (server_list ≡ preset ++ rest))
Compared build preset server_list (raise e) = (e ≡ index_error) × IsShorter server_list preset

Compared-cons :
    (build : Bool) (p s : String) (preset server_list : List String) (r : Result Bool)
    → Compared build preset server_list r
    → Compared build (p ∷ preset) (s ∷ server_list) (if p == s then r else ok true)
Compared-cons build p s preset server_list (ok b) h = elim (Bool-cases (p == s)) [
  | inr e ↦ rw e (λ no. absurd (ground (arith, no)))
  | inl e ↦
      let same : p ≡ s = (eq_iff p s).0 e in
      rw e (λ no. let k = h no in (k.0, (k.1.0, grind (arith, k.1.1, same))))
]
Compared-cons build p s preset server_list (raise x) h = elim (Bool-cases (p == s)) [
  | inr e ↦ rw e (λ no. absurd (ground (arith, no)))
  | inl e ↦
      let same : p ≡ s = (eq_iff p s).0 e in rw e (h.0, (h.1.0, h.1.1, grind (arith, h.1.2, same)))
]

compare_servers-Compared :
    (build : Bool) (preset server_list : List String)
    → Compared build preset server_list (compare_servers build preset server_list)
unfolding compare_servers
compare_servers-Compared build [] server_list = λ unset. (unset, (server_list, refl))
compare_servers-Compared build (p ∷ preset) [] = (refl, (p, preset, refl))
compare_servers-Compared build (p ∷ preset) (s ∷ server_list) =
    Compared-cons build p s preset server_list (compare_servers build preset server_list)
      (compare_servers-Compared build preset server_list)

-- Of the same length, they are the same list.
preset_is_whole :
    (preset server_list rest : List String)
    → not (eqb (length preset) (length server_list)) ≡ false
    → server_list ≡ preset ++ rest
    → preset ≡ server_list
preset_is_whole [] [] rest unset same = refl
preset_is_whole [] (s ∷ server_list) rest unset same = absurd (ground (arith, unset))
preset_is_whole (p ∷ preset) [] rest unset same = absurd (ground (arith, unset))
preset_is_whole (p ∷ preset) (s ∷ server_list) rest unset same =
    grind (arith, same, preset_is_whole preset server_list rest (ground (arith, unset)))

-- The stubs are those of the servers.
abbrev pub IsRefreshed : List String → List String → Result StubList → Type 0
IsRefreshed preset server_list (ok s) =
    (s.preset_server_list ≡ server_list) × (s.stub_list ≡ server_list)
IsRefreshed preset server_list (raise e) = (e ≡ index_error) × IsShorter server_list preset

build-IsRefreshed :
    (s : StubList) (server_list : List String) (r : Result Bool)
    → s.stub_list ≡ s.preset_server_list
    → Compared
        (not (eqb (length s.preset_server_list) (length server_list)))
        s.preset_server_list
        server_list
        r
    → IsRefreshed s.preset_server_list server_list
        (r >>= λ build. ok (if build then create_stubs s server_list else s))
unfolding create_stubs
build-IsRefreshed s server_list (ok true) stubs h = (refl, refl)
build-IsRefreshed s server_list (ok false) stubs h =
    let (unset, (rest, same)) = h refl in
    let equal : s.preset_server_list ≡ server_list =
      preset_is_whole s.preset_server_list server_list rest unset same in
    (equal, stubs ∙ equal)
build-IsRefreshed s server_list (raise e) stubs h = h

-- Before each batch the head has one stub for each server of the pipeline, in the pipeline's order,
-- where its stubs were those of the preset list. It fails only with an IndexError, and only where
-- the pipeline's list is a proper beginning of the preset one.
pub refresh_stubs-IsRefreshed :
    (s : StubList) (server_list : List String)
    → s.stub_list ≡ s.preset_server_list
    → IsRefreshed s.preset_server_list server_list (refresh_stubs s server_list)
unfolding refresh_stubs
refresh_stubs-IsRefreshed s server_list stubs =
    build-IsRefreshed s server_list _ stubs
      (compare_servers-Compared _ s.preset_server_list server_list)

compare_servers-shorter :
    (build : Bool) (server : String) (removed server_list : List String)
    → compare_servers build (server_list ++ server ∷ removed) server_list ≡ raise index_error
unfolding compare_servers
compare_servers-shorter build server removed [] = refl
compare_servers-shorter build server removed (s ∷ rest) =
    ground (arith, eq_iff s s, compare_servers-shorter build server removed rest)

-- Where the servers at the end of the pipeline have left, the check fails with an IndexError before
-- the stubs are made anew.
pub refresh_stubs-shorter :
    (s : StubList) (server_list : List String)
    → IsShorter server_list s.preset_server_list
    → refresh_stubs s server_list ≡ raise index_error
unfolding refresh_stubs
refresh_stubs-shorter s server_list (server, removed, e) =
    rw (e, compare_servers-shorter _ server removed server_list)
