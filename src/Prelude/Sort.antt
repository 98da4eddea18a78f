-- ===== src/Prelude/Sort.antt =====
-- Python's `sorted` with an integer key: the stable sort.
use mathlib.Core.Logic.{inl, inr}
use mathlib.Core.List.{List, [], ◌∷◌, Perm}
use mathlib.Core.List.Perm
use native.Mathlib.Omega.{arith}
use mo_link.Prelude.Tests.{if◌then◌else◌, Bool-cases}
use mo_link.Prelude.Int.{ℤ, ◌≤ℤ◌, leb_ℤ, leb_ℤ→≤ℤ, ≤ℤ_of_not-leb_ℤ, ≤ℤ_trans}
use mo_link.Prelude.Lists.{All}

module _ {ℓ} {A : Type ℓ} (key : A → ℤ) where
  -- `x` stood before the items of the list, so it goes before those of an equal key.
  unfoldable pub insert_sorted : A → List A → List A
  insert_sorted x [] = x ∷ []
  insert_sorted x (y ∷ ys) = if leb_ℤ (key x) (key y) then x ∷ y ∷ ys else y ∷ insert_sorted x ys

  unfoldable pub sorted : List A → List A
  unfolding insert_sorted
  sorted [] = []
  sorted (x ∷ xs) = insert_sorted x (sorted xs)

  abbrev pub IsSorted : List A → Type 0
  IsSorted [] = Unit
  IsSorted (x ∷ xs) = All (λ y. key x ≤ℤ key y) xs × IsSorted xs

  insert_sorted-perm : (x : A) (xs : List A) → Perm (insert_sorted x xs) (x ∷ xs)
  unfolding insert_sorted
  insert_sorted-perm x [] = Perm.refl (x ∷ [])
  insert_sorted-perm x (y ∷ ys) = elim (Bool-cases (leb_ℤ (key x) (key y))) [
    | inl h ↦ rw h (Perm.refl (x ∷ y ∷ ys))
    | inr h ↦ rw h (Perm.trans (Perm.cons y (insert_sorted-perm x ys)) (Perm.swap x y ys))
  ]

  pub sorted-perm : (xs : List A) → Perm (sorted xs) xs
  unfolding sorted
  sorted-perm [] = Perm.refl []
  sorted-perm (x ∷ xs) =
      Perm.trans (insert_sorted-perm x (sorted xs)) (Perm.cons x (sorted-perm xs))

  All-insert_sorted :
      (a x : A) (xs : List A)
      → key a ≤ℤ key x
      → All (λ y. key a ≤ℤ key y) xs
      → All (λ y. key a ≤ℤ key y) (insert_sorted x xs)
  unfolding insert_sorted
  All-insert_sorted a x [] h k = (h, tt)
  All-insert_sorted a x (y ∷ ys) h k = ground (arith, All-insert_sorted a x ys h k.1)

  All-le :
      (a x : A) (xs : List A)
      → key a ≤ℤ key x
      → All (λ y. key x ≤ℤ key y) xs
      → All (λ y. key a ≤ℤ key y) xs
  All-le a x [] h k = tt
  All-le a x (y ∷ ys) h k = (≤ℤ_trans (key a) (key x) (key y) h k.0, All-le a x ys h k.1)

  insert_sorted-IsSorted : (x : A) (xs : List A) → IsSorted xs → IsSorted (insert_sorted x xs)
  unfolding insert_sorted
  insert_sorted-IsSorted x [] s = (tt, tt)
  insert_sorted-IsSorted x (y ∷ ys) s = elim (Bool-cases (leb_ℤ (key x) (key y))) [
    | inl h ↦ let le = leb_ℤ→≤ℤ (key x) (key y) h in rw h ((le, All-le x y ys le s.0), s)
    | inr h ↦ rw h (
      All-insert_sorted y x ys (≤ℤ_of_not-leb_ℤ (key x) (key y) h) s.0,
      insert_sorted-IsSorted x ys s.1,
    )
  ]

  pub sorted-IsSorted : (xs : List A) → IsSorted (sorted xs)
  unfolding sorted
  sorted-IsSorted [] = tt
  sorted-IsSorted (x ∷ xs) = insert_sorted-IsSorted x (sorted xs) (sorted-IsSorted xs)
