-- ===== src/Layers/Once.antt =====
-- Which node holds which layer.
use mo_link.Prelude.{
  ℕ, zero, suc, ◌+◌, ◌-◌, ◌≤◌, ◌<◌, Bool, true, false, ◌&&◌, ltb, leb, length, length-map,
  length-replicate, get_elem?, replicate, ◌≡◌, ◌∙◌, none, some, List, [], ◌∷◌, ◌++◌, map, arith,
  if◌then◌else◌, inl, inr, Bool-cases,
}
use mo_link.Engine.Latency.{count_from}
use mo_link.Engine.Loop.Counting.{length-count_from}
use mo_link.Layers.{ServingLayers, Module, missing, layer, make_layers}

not-ltb→le : (a b : ℕ) → ltb a b ≡ false → b ≤ a
not-ltb→le a b h = ground arith

get_elem?-append :
    {A : Type 0} (xs ys : List A) (i : ℕ)
    → get_elem? (xs ++ ys) i
      ≡ (if ltb i (length xs) then get_elem? xs i else get_elem? ys (i - length xs))
get_elem?-append [] ys i = let e : i - 0 ≡ i = omega arith in rw e (ground arith)
get_elem?-append (x ∷ xs) ys zero = ground arith
get_elem?-append (x ∷ xs) ys (suc i) =
    let e : suc i - suc (length xs) ≡ i - length xs = omega arith in
    rw e (ground (arith, get_elem?-append xs ys i))

get_elem?-replicate :
    {A : Type 0} (n : ℕ) (x : A) (i : ℕ)
    → get_elem? (replicate n x) i ≡ (if ltb i n then some x else none)
get_elem?-replicate zero x i = ground arith
get_elem?-replicate (suc n) x zero = ground arith
get_elem?-replicate (suc n) x (suc i) = ground (arith, get_elem?-replicate n x i)

get_elem?-layers :
    (start n i : ℕ)
    → get_elem? (map (λ idx. layer idx) (count_from start n)) i
      ≡ (if ltb i n then some (layer (start + i)) else none)
unfolding count_from
get_elem?-layers start zero i = ground arith
get_elem?-layers start (suc n) zero = let e : start + 0 ≡ start = omega arith in rw e (ground arith)
get_elem?-layers start (suc n) (suc i) =
    let e : start + suc i ≡ suc start + i = omega arith in
    rw e (ground (arith, get_elem?-layers (suc start) n i))

-- The place of a layer in the node's list: built where the node serves it, and else left out.
pub get_elem?-make_layers :
    (n : ℕ) (s : ServingLayers) (i : ℕ)
    → s.first ≤ s.last
    → s.last < n
    → i < n
    → get_elem? (make_layers n s) i
      ≡ some (if leb s.first i && leb i s.last then layer i else missing)
unfolding make_layers
get_elem?-make_layers n s i h k below =
    let c = s.last + 1 - s.first in
    let built = map (λ idx. layer idx) (count_from s.first c) in
    let after = replicate (n - (s.last + 1)) missing in
    let size : length built ≡ c =
      length-map (count_from s.first c) (λ idx. layer idx) ∙ length-count_from s.first c in
    rw
      (
        get_elem?-append (replicate s.first missing) (built ++ after) i,
        length-replicate s.first missing,
        get_elem?-replicate s.first missing i,
        get_elem?-append built after (i - s.first),
        size,
        get_elem?-layers s.first c (i - s.first),
        get_elem?-replicate (n - (s.last + 1)) missing (i - s.first - c),
      )
      (elim (Bool-cases (ltb i s.first)) [
        | inl before ↦ ground (arith, before, h)
        | inr from ↦
            let e : s.first + (i - s.first) ≡ i = omega (arith, not-ltb→le i s.first from) in
            rw e (ground (arith, from, h, k, below))
      ])

holds : Module → Bool
holds missing = false
holds (layer i) = true

-- The node builds this layer.
unfoldable pub serves : ℕ → ℕ → ServingLayers → Bool
unfolding holds
serves n i s = elim (get_elem? (make_layers n s) i) [ none ↦ false | some l ↦ holds l ]
