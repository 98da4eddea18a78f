-- ===== src/Topology/Walk.antt =====
-- Following `get_next_server` from node to node.
use mo_link.Prelude.{
  ℕ, zero, suc, ◌+◌, ◌≤◌, String, index_of_get_elem?, get_elem?, lt_of_get_elem?, length, ◌≡◌, refl,
  ap, sym, ◌∙◌, inl, inr, Option-cases, none, some, List, [], ◌∷◌, arith,
}
use mo_link.Topology.{PipelineTopology, get_sorted_server_list, get_next_server}
use mo_link.Topology.Invariant.{IsConsistent}
use mo_link.Topology.Order.{servers-Unique, next_of-some}

-- The nodes that a batch visits from `ip` on, each sending it to its next server.
unfoldable pub follow : ℕ → PipelineTopology → String → List String
follow zero t ip = ip ∷ []
follow (suc fuel) t ip = elim (get_next_server t ip) [
  | none ↦ ip ∷ []
  | some next ↦ ip ∷ follow fuel t next
]

abbrev drop {ℓ} : {A : Type ℓ} → ℕ → List A → List A
drop zero xs = xs
drop (suc n) [] = []
drop (suc n) (x ∷ xs) = drop n xs

module _ {ℓ} {A : Type ℓ} where
  drop-get_elem? :
      (xs : List A) (i : ℕ) (x : A) → get_elem? xs i ≡ some x → drop i xs ≡ x ∷ drop (suc i) xs
  drop-get_elem? [] i x h = cc
  drop-get_elem? (y ∷ ys) zero x h = ground arith
  drop-get_elem? (y ∷ ys) (suc i) x h = drop-get_elem? ys i x h

  drop_of_none : (xs : List A) (i : ℕ) → get_elem? xs i ≡ none → drop i xs ≡ []
  drop_of_none [] zero h = refl
  drop_of_none [] (suc i) h = refl
  drop_of_none (y ∷ ys) zero h = cc
  drop_of_none (y ∷ ys) (suc i) h = drop_of_none ys i h

module _ (t : PipelineTopology) (c : IsConsistent t) where
  next_at :
      (i : ℕ) (ip : String)
      → get_elem? (get_sorted_server_list t) i ≡ some ip
      → get_next_server t ip ≡ get_elem? (get_sorted_server_list t) (suc i)
  unfolding get_next_server
  next_at i ip h = rw (index_of_get_elem? ip (get_sorted_server_list t) i (servers-Unique t c) h) (
      next_of-some (get_sorted_server_list t) i (lt_of_get_elem? (get_sorted_server_list t) i ip h))

  follow-drop :
      (fuel i : ℕ) (ip : String)
      → length (get_sorted_server_list t) ≤ i + fuel
      → get_elem? (get_sorted_server_list t) i ≡ some ip
      → follow fuel t ip ≡ drop i (get_sorted_server_list t)
  unfolding follow
  follow-drop zero i ip h e =
      absurd (omega (arith, lt_of_get_elem? (get_sorted_server_list t) i ip e))
  follow-drop (suc fuel) i ip h e =
      let servers = get_sorted_server_list t in
      elim (Option-cases (get_elem? servers (suc i))) [
        | inl last ↦
            rw (next_at i ip e ∙ last, follow)
              (sym
                (drop-get_elem? servers i ip e ∙ ap (◌∷◌ ip) (drop_of_none servers (suc i) last)))
        | inr (n, more) ↦
            rw (next_at i ip e ∙ more, follow)
              (ap (◌∷◌ ip) (follow-drop fuel (suc i) n (omega arith) more)
                ∙ sym (drop-get_elem? servers i ip e))
      ]

  -- From the first server on, following the next servers visits every server of the pipeline
  -- once, in pipeline order, and then stops.
  pub follow-servers :
      (first : String) (rest : List String)
      → get_sorted_server_list t ≡ first ∷ rest
      → follow (length (first ∷ rest)) t first ≡ first ∷ rest
  follow-servers first rest e =
      follow-drop (length (first ∷ rest)) 0 first (rw e (omega arith)) (rw e) ∙ e
