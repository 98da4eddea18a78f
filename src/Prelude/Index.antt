-- ===== src/Prelude/Index.antt =====
-- Membership and `list.index` on lists of addresses.
use Prim.Native.Nat.{ℕ, zero, suc, ◌<◌}
use Prim.Native.String.{String}
use mathlib.Core.Path.{◌≡◌, refl}
use mathlib.Core.Logic.{inl, inr}
use mathlib.Core.Bool.{Bool, true, false}
use mathlib.Core.List.{List, [], ◌∷◌}
use mathlib.Core.Option
use mathlib.Core.Option.{Option, none, some}
use native.Mathlib.Omega.{arith}
use text.Mathlib.Text.{◌==◌}
use text.Mathlib.TextEquality.{eq_iff}
use mo_link.Prelude.Tests.{if◌then◌else◌, Bool-cases}
use mo_link.Prelude.Lists.{length, get_elem?}

-- x in xs
unfoldable pub elem : String → List String → Bool
elem x [] = false
elem x (y ∷ ys) = if y == x then true else elem x ys

-- xs.index(x), with `none` for ValueError
unfoldable pub index : String → List String → Option ℕ
index x [] = none
index x (y ∷ ys) = if y == x then some 0 else Option.map suc (index x ys)

abbrev pub Unique : List String → Type 0
Unique [] = Unit
Unique (x ∷ xs) = (elem x xs ≡ false) × Unique xs

pub index-elem :
    (x : String) (xs : List String) → elem x xs ≡ true → (i : ℕ) × (index x xs ≡ some i)
unfolding elem index
index-elem x [] h = cc
index-elem x (y ∷ ys) h = elim (Bool-cases (y == x)) [
  | inl e ↦ (0, rw e)
  | inr e ↦ let r = index-elem x ys (ground arith) in (suc r.0, rw (e, r.1))
]

pub index_sound :
    (x : String) (xs : List String) (i : ℕ) → index x xs ≡ some i → get_elem? xs i ≡ some x
unfolding index
index_sound x [] i h = cc
index_sound x (y ∷ ys) zero h = ground (arith, eq_iff y x)
index_sound x (y ∷ ys) (suc i) h = ground (arith, index_sound x ys i)

pub index-lt : (x : String) (xs : List String) (i : ℕ) → index x xs ≡ some i → i < length xs
unfolding index
index-lt x [] i h = cc
index-lt x (y ∷ ys) zero h = omega arith
index-lt x (y ∷ ys) (suc i) h = ground (arith, index-lt x ys i)

pub elem-get_elem? :
    (x : String) (xs : List String) (i : ℕ) → get_elem? xs i ≡ some x → elem x xs ≡ true
unfolding elem
elem-get_elem? x [] i h = cc
elem-get_elem? x (y ∷ ys) zero h = ground (arith, eq_iff y x)
elem-get_elem? x (y ∷ ys) (suc i) h = ground (arith, elem-get_elem? x ys i)

-- Where no item stands twice, an item's index is the place where it stands.
pub index_of_get_elem? :
    (x : String) (xs : List String) (i : ℕ)
    → Unique xs
    → get_elem? xs i ≡ some x
    → index x xs ≡ some i
unfolding index
index_of_get_elem? x [] i u h = cc
index_of_get_elem? x (y ∷ ys) zero u h = ground (arith, eq_iff y x)
index_of_get_elem? x (y ∷ ys) (suc i) u h =
    ground (arith, eq_iff y x, index_of_get_elem? x ys i u.1, elem-get_elem? x ys i)

pub index-not_elem : (x : String) (xs : List String) → elem x xs ≡ false → index x xs ≡ none
unfolding elem index
index-not_elem x [] h = refl
index-not_elem x (y ∷ ys) h = ground (arith, index-not_elem x ys)
