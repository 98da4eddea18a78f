-- ===== src/Engine/Loop/Counting.antt =====
-- Lists of the numbers from one on.
use mo_link.Prelude.{
  ℕ, zero, suc, ◌+◌, ◌≤◌, ◌<◌, length, length-append, set, All, List, [], ◌∷◌, ◌++◌, ◌≡◌, refl, sym,
  ap, ◌∙◌, arith,
}
use mo_link.Engine.Latency.{count_from}

pub length-count_from : (start n : ℕ) → length (count_from start n) ≡ n
unfolding count_from
length-count_from start zero = refl
length-count_from start (suc n) = ap suc (length-count_from (suc start) n)

pub count_from-append :
    (start m n : ℕ) → count_from start m ++ count_from (start + m) n ≡ count_from start (m + n)
unfolding count_from
count_from-append start zero n =
    let a : start + 0 ≡ start = omega arith in let b : 0 + n ≡ n = omega arith in rw (a, b)
count_from-append start (suc m) n =
    let a : start + suc m ≡ suc start + m = omega arith in
    let b : suc m + n ≡ suc (m + n) = omega arith in
    rw (a, b) (ap (◌∷◌ start) (count_from-append (suc start) m n))

pub set-count_from : (start n i : ℕ) → set (count_from start n) i (start + i) ≡ count_from start n
unfolding count_from
set-count_from start zero i = refl
set-count_from start (suc n) zero = let a : start + 0 ≡ start = omega arith in rw a
set-count_from start (suc n) (suc i) =
    let a : start + suc i ≡ suc start + i = omega arith in
    rw a (ap (◌∷◌ start) (set-count_from (suc start) n i))

pub All-append : (P : ℕ → Type 0) (xs ys : List ℕ) → All P xs → All P ys → All P (xs ++ ys)
All-append P [] ys h k = k
All-append P (x ∷ xs) ys h k = (h.0, All-append P xs ys h.1 k)

pub All-count_from : (start n top : ℕ) → start + n ≤ top → All (λ i. i < top) (count_from start n)
unfolding count_from
All-count_from start zero top h = tt
All-count_from start (suc n) top h = (omega arith, All-count_from (suc start) n top (omega arith))

pub extend_in_order :
    (ts : List ℕ) (k : ℕ)
    → ts ≡ count_from 0 (length ts)
    → ts ++ count_from (length ts) k ≡ count_from 0 (length (ts ++ count_from (length ts) k))
extend_in_order ts k e =
    let size : length (ts ++ count_from (length ts) k) ≡ length ts + k =
      omega (arith, length-append ts (count_from (length ts) k), length-count_from (length ts) k) in
    let start : 0 + length ts ≡ length ts = omega arith in
    let joined : count_from 0 (length ts) ++ count_from (length ts) k
        ≡ count_from 0 (length ts + k) =
      rw start at (count_from-append 0 (length ts) k) in
    ap (λ xs. xs ++ count_from (length ts) k) e ∙ joined ∙ ap (count_from 0) (sym size)

pub set_in_order : (ts : List ℕ) (i : ℕ) → ts ≡ count_from 0 (length ts) → set ts i i ≡ ts
set_in_order ts i e =
    let start : 0 + i ≡ i = omega arith in
    let same : set (count_from 0 (length ts)) i i ≡ count_from 0 (length ts) =
      rw start at (set-count_from 0 (length ts) i) in
    ap (λ xs. set xs i i) e ∙ same ∙ sym e
