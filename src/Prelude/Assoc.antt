-- ===== src/Prelude/Assoc.antt =====
-- Python's `dict` with string keys, in insertion order: a new key goes to the end, and a key
-- that is present keeps its place.
use mathlib.Core.Path.{◌≡◌, refl}
use mathlib.Core.Bool.{Bool, true, false}
use mathlib.Core.List.{List, [], ◌∷◌, ◌++◌, map}
use mathlib.Core.Option.{Option, none, some}
use native.Mathlib.Omega.{arith}
use Prim.Native.String.{String}
use text.Mathlib.Text.{◌==◌}
use text.Mathlib.TextEquality.{eq_iff}
use mo_link.Prelude.Tests.{if◌then◌else◌}

abbrev pub Dict {ℓ} : Type ℓ → Type ℓ
Dict V = List (String × V)

module _ {ℓ} {V : Type ℓ} where
  -- d.get(k)
  unfoldable pub lookup : String → Dict V → Option V
  lookup k [] = none
  lookup k ((j, v) ∷ d) = if j == k then some v else lookup k d

  -- k in d
  unfoldable pub contains : String → Dict V → Bool
  contains k [] = false
  contains k ((j, v) ∷ d) = if j == k then true else contains k d

  -- d[k] = v
  unfoldable pub insert : String → V → Dict V → Dict V
  insert k v [] = (k, v) ∷ []
  insert k v ((j, w) ∷ d) = if j == k then (j, v) ∷ d else (j, w) ∷ insert k v d

  -- d.pop(k, None)
  unfoldable pub pop_key : String → Dict V → Dict V
  pop_key k [] = []
  pop_key k ((j, w) ∷ d) = if j == k then d else (j, w) ∷ pop_key k d

  abbrev pub keys : Dict V → List String
  keys = map (λ e. e.0)

  -- No key stands twice.
  abbrev pub Distinct : Dict V → Type 0
  Distinct [] = Unit
  Distinct ((k, v) ∷ d) = (contains k d ≡ false) × Distinct d

module _ {ℓ} {V : Type ℓ} where
  pub lookup-insert :
      (k j : String) (v : V) (d : Dict V)
      → lookup j (insert k v d) ≡ (if k == j then some v else lookup j d)
  unfolding lookup insert
  lookup-insert k j v [] = refl
  lookup-insert k j v ((i, w) ∷ d) =
      ground (arith, eq_iff k j, eq_iff i k, eq_iff i j, lookup-insert k j v d)

  pub contains-insert :
      (k j : String) (v : V) (d : Dict V)
      → contains j (insert k v d) ≡ (if k == j then true else contains j d)
  unfolding contains insert
  contains-insert k j v [] = refl
  contains-insert k j v ((i, w) ∷ d) =
      ground (arith, eq_iff k j, eq_iff i k, eq_iff i j, contains-insert k j v d)

  pub insert-Distinct : (k : String) (v : V) (d : Dict V) → Distinct d → Distinct (insert k v d)
  unfolding insert contains
  insert-Distinct k v [] h = (refl, tt)
  insert-Distinct k v ((i, w) ∷ d) h =
      ground (arith, eq_iff i k, eq_iff k i, contains-insert k i v d, insert-Distinct k v d)

  pub contains-pop_key :
      (k j : String) (d : Dict V) → contains j d ≡ false → contains j (pop_key k d) ≡ false
  unfolding contains pop_key
  contains-pop_key k j [] h = refl
  contains-pop_key k j ((i, w) ∷ d) h = ground (arith, contains-pop_key k j d)

  pub pop_key-Distinct : (k : String) (d : Dict V) → Distinct d → Distinct (pop_key k d)
  unfolding pop_key
  pop_key-Distinct k [] h = tt
  pop_key-Distinct k ((i, w) ∷ d) h = ground (arith, contains-pop_key k i d, pop_key-Distinct k d)

  pub contains-lookup : (k : String) (d : Dict V) → contains k d ≡ false → lookup k d ≡ none
  unfolding contains lookup
  contains-lookup k [] h = refl
  contains-lookup k ((i, w) ∷ d) h = ground (arith, contains-lookup k d)

pub insert_new {ℓ} :
    {V : Type ℓ} (k : String) (v : V) (d : Dict V)
    → contains k d ≡ false
    → insert k v d ≡ d ++ (k, v) ∷ []
unfolding insert contains
insert_new k v [] h = refl
insert_new k v ((j, w) ∷ d) h = ground (arith, insert_new k v d)

contains_middle :
    {V : Type 0} (k j : String) (v : V) (d e : Dict V)
    → contains k (d ++ (j, v) ∷ e) ≡ false
    → (j == k) ≡ false
unfolding contains
contains_middle k j v [] e h = ground arith
contains_middle k j v ((i, w) ∷ d) e h = contains_middle k j v d e (ground arith)

pub Distinct-middle :
    {V : Type 0} (k : String) (v : V) (d e : Dict V)
    → Distinct (d ++ (k, v) ∷ e)
    → contains k d ≡ false
unfolding contains
Distinct-middle k v [] e h = refl
Distinct-middle k v ((i, w) ∷ d) e h =
    ground
      (arith, eq_iff k i, eq_iff i k, contains_middle i k v d e h.0, Distinct-middle k v d e h.1)
