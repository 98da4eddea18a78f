-- ===== src/Scheduler/Sweep/Invariant.antt =====
-- Induction over the loop.
use mo_link.Prelude.{
  refl, ◌>>=◌, if◌then◌else◌, Bool, true, false, ◌≡◌, List, [], ◌∷◌, Result, ok, raise,
  assertion_error,
}
use mo_link.Scheduler.{Vllm}
use mo_link.Scheduler.Sweep.{Decision, Sweep, apply_decision, sweep}

-- A result has the property, or one of the assertions has failed.
abbrev pub OrAssertion {ℓ} : {A : Type ℓ} → (A → Type 0) → Result A → Type 0
OrAssertion P (ok a) = P a
OrAssertion P (raise e) = e ≡ assertion_error

pub OrAssertion-if :
    {A : Type 0} (P : A → Type 0) (b : Bool) (x y : Result A)
    → OrAssertion P x
    → OrAssertion P y
    → OrAssertion P (if b then x else y)
OrAssertion-if P true x y h k = h
OrAssertion-if P false x y h k = k

pub OrAssertion-map :
    {A : Type 0} (P Q : A → Type 0) (r : Result A)
    → ((a : A) → P a → Q a)
    → OrAssertion P r
    → OrAssertion Q r
OrAssertion-map P Q (ok a) f h = f a h
OrAssertion-map P Q (raise e) f h = h

pub OrAssertion-both :
    {A : Type 0} (P Q : A → Type 0) (r : Result A)
    → OrAssertion P r
    → OrAssertion Q r
    → OrAssertion (λ a. P a × Q a) r
OrAssertion-both P Q (ok a) h k = (h, k)
OrAssertion-both P Q (raise e) h k = h

pub OrAssertion-split :
    {A : Type 0} (P : A → Type 0) (b : Bool) (x y : Result A)
    → (b ≡ true → OrAssertion P x)
    → (b ≡ false → OrAssertion P y)
    → OrAssertion P (if b then x else y)
OrAssertion-split P true x y h k = h refl
OrAssertion-split P false x y h k = k refl

pub OrAssertion-bind :
    {A B : Type 0} (P : A → Type 0) (Q : B → Type 0) (r : Result A) (f : A → Result B)
    → OrAssertion P r
    → ((a : A) → P a → OrAssertion Q (f a))
    → OrAssertion Q (r >>= f)
OrAssertion-bind P Q (ok a) f h k = k a h
OrAssertion-bind P Q (raise e) f h k = h

-- The property after a round, for the rest of the queue.
abbrev pub Continues :
    {v : Vllm}
    → (Sweep v → List v.Group → Type 0)
    → List v.Group
    → v.Group
    → Bool × Sweep v
    → Type 0
Continues P gs g (true, s) = P s gs
Continues P gs g (false, s) = P s (g ∷ gs)

abbrev pub Ends : {v : Vllm} → (Sweep v → List v.Group → Type 0) → Sweep v × List v.Group → Type 0
Ends P (s, rest) = P s rest

module _ {v : Vllm} (decide : Sweep v → v.Group → Decision v) (leave : v.Mem → v.Mem)
    (P : Sweep v → List v.Group → Type 0) where
  sweep_from :
      (g : v.Group) (gs : List v.Group) (r : Result (Bool × Sweep v))
      → OrAssertion (Continues P gs g) r
      → ((s : Sweep v) → P s gs → OrAssertion (Ends P) (sweep decide leave gs s))
      → OrAssertion (Ends P) (elim r [
        | raise e ↦ raise e
        | ok (false, s) ↦ ok (s, g ∷ gs)
        | ok (true, s) ↦ sweep decide leave gs s
      ])
  sweep_from g gs (raise e) h rest = h
  sweep_from g gs (ok (false, s)) h rest = h
  sweep_from g gs (ok (true, s)) h rest = rest s h

  -- What each round keeps holds at the end of the loop, which is reached unless an assertion fails.
  pub sweep_induct :
      ((s : Sweep v) (g : v.Group) (gs : List v.Group)
        → P s (g ∷ gs)
        → OrAssertion (Continues P gs g) (apply_decision (decide s g) s g))
      → ((s : Sweep v) → P s [] → P (record s { mem = leave s.mem }) [])
      → (gs : List v.Group) (s : Sweep v) → P s gs
      → OrAssertion (Ends P) (sweep decide leave gs s)
  unfolding sweep
  sweep_induct keeps ends [] s h = ends s h
  sweep_induct keeps ends (g ∷ gs) s h =
      sweep_from g gs (apply_decision (decide s g) s g) (keeps s g gs h)
        (sweep_induct keeps ends gs)
