-- ===== src/AsyncScheduler/Placeholders.antt =====
-- The placeholders over a step: what a schedule adds, and what the step's output takes away.
use mathlib.Core.Option
use mo_link.Prelude.{
  ℕ, ◌+◌, ◌-◌, ◌≤◌, ℤ, String, ◌==◌, eq_iff, eq_refl, subst, replicate, Dict, lookup, lookup-insert,
  insert, elem, Unique, eqb, ltb, length, Bool, true, false, ◌||◌, ◌≡◌, refl, ap, ◌∙◌, inl, inr,
  Bool-cases, Option, none, some, List, [], ◌∷◌, ok, raise, assertion_error, arith, if◌then◌else◌,
  negsuc,
}
use mo_link.AsyncScheduler.{
  Request, num_spec, add_placeholders, is_pending, update_after_schedule, minus,
  update_request_with_output,
}

-- A scheduled request that waits for a structured output.
unfoldable pub any_pending : List String → Dict Request → Bool
unfolding is_pending
any_pending [] requests = false
any_pending (r ∷ rs) requests =
    elim (lookup r requests) [ none ↦ false | some request ↦ is_pending request ]
    || any_pending rs requests

-- Each of these requests is known.
abbrev pub Known : List String → Dict Request → Type 0
Known [] requests = Unit
Known (r ∷ rs) requests = ((q : Request) × (lookup r requests ≡ some q)) × Known rs requests

Known-insert :
    (rs : List String) (r : String) (q : Request) (requests : Dict Request)
    → Known rs requests
    → Known rs (insert r q requests)
Known-insert [] r q requests h = tt
Known-insert (x ∷ xs) r q requests ((p, e), h) = (
  elim (Bool-cases (r == x)) [
    | inl same ↦ (q, lookup-insert r x q requests ∙ rw same refl)
    | inr other ↦ (p, lookup-insert r x q requests ∙ rw other e)
  ],
  Known-insert xs r q requests h,
)

any_pending-insert :
    (rs : List String) (r : String) (q : Request) (requests : Dict Request)
    → elem r rs ≡ false
    → any_pending rs (insert r q requests) ≡ any_pending rs requests
unfolding any_pending elem
any_pending-insert [] r q requests new = refl
any_pending-insert (x ∷ xs) r q requests new =
    let other : (r == x) ≡ false = ground (arith, eq_iff r x, eq_iff x r) in
    rw (lookup-insert r x q requests, other, any_pending-insert xs r q requests (ground arith)) refl

or_false : (a : Bool) → a ≡ (a || false)
or_false true = refl
or_false false = refl

or_assoc : (a b c : Bool) → ((a || b) || c) ≡ (a || (b || c))
or_assoc true b c = refl
or_assoc false b c = refl

eqb_same : (a b : ℕ) → a ≡ b → eqb a b ≡ true
eqb_same a b h = ground arith

not_ltb : (a b : ℕ) → b ≤ a → ltb a b ≡ false
not_ltb a b h = ground arith

module _ (num_spec_tokens : ℕ) (spec : Dict (List ℤ)) where
  abbrev prepare : String → Request → Request
  prepare r = add_placeholders num_spec_tokens (num_spec r spec)

  -- The requests after the loop: the scheduled ones are prepared, the others as they were.
  abbrev pub ArePrepared : List String → Dict Request → Dict Request → Type 0
  ArePrepared rs before after =
      (q : String)
      → lookup q after
        ≡ (if elem q rs then Option.map (prepare q) (lookup q before) else lookup q before)

  cons-ArePrepared :
      (r : String) (rs : List String) (p : Request) (before after : Dict Request)
      → elem r rs ≡ false
      → lookup r before ≡ some p
      → ArePrepared rs (insert r (prepare r p) before) after
      → ArePrepared (r ∷ rs) before after
  unfolding elem
  cons-ArePrepared r rs p before after new e h q = elim (Bool-cases (r == q)) [
    | inl same ↦
        subst
          (λ x. lookup x after ≡ (
            if elem x (r ∷ rs) then Option.map (prepare x) (lookup x before) else lookup x before))
          ((eq_iff r q).0 same)
          (h r
            ∙ rw (new, eq_refl r, e) (lookup-insert r r (prepare r p) before ∙ rw (eq_refl r) refl))
    | inr other ↦
        let kept =
          lookup-insert r q (prepare r p) before
          ∙ ap (λ b. if b then some (prepare r p) else lookup q before) other in
        h q ∙ ap (λ o. if elem q rs then Option.map (prepare q) o else o) kept ∙ rw other refl
  ]

  -- For scheduled requests that are all known, none of them twice: the loop ends without a KeyError,
  -- it has given each of them its placeholders, once, and left every other request as it was, and the
  -- flag says whether one of them waited for a structured output before.
  pub update_after_schedule-ArePrepared :
      (rs : List String) (pending : Bool) (requests : Dict Request)
      → Unique rs
      → Known rs requests
      → (after : Dict Request) × (update_after_schedule num_spec_tokens spec rs pending requests
          ≡ ok (pending || any_pending rs requests, after))
        × ArePrepared rs requests after
  unfolding update_after_schedule any_pending elem
  update_after_schedule-ArePrepared [] pending requests u h =
      (requests, ap (λ b. ok (b, requests)) (or_false pending), λ q. refl)
  update_after_schedule-ArePrepared (r ∷ rs) pending requests (new, u) ((p, e), h) =
      let requests' = insert r (prepare r p) requests in
      let (after, runs, prepared) =
        update_after_schedule-ArePrepared rs (pending || is_pending p) requests' u
          (Known-insert rs r (prepare r p) requests h) in
      (
        after,
        rw (update_after_schedule, e)
            (runs
              ∙ ap (λ b. ok (b, after))
                  (ap (λ c. (pending || is_pending p) || c)
                      (any_pending-insert rs r (prepare r p) requests new)
                    ∙ or_assoc pending (is_pending p) (any_pending rs requests))),
        cons-ArePrepared r rs p requests after new e prepared,
      )

module _ (num_spec_tokens : ℕ) where
  abbrev given : ℕ → Request → Request
  given cur r = record r {
    num_output_placeholders = r.num_output_placeholders + (1 + cur);
    spec_token_ids = replicate num_spec_tokens (negsuc 0);
  }

  add_placeholders_due :
      (r : Request) (cur : ℕ)
      → r.num_computed_tokens ≡ r.num_tokens + r.num_output_placeholders + cur
      → add_placeholders num_spec_tokens cur r ≡ given cur r
  unfolding add_placeholders
  add_placeholders_due r cur due =
      ap (λ b. if b then given cur r else r)
        (eqb_same r.num_computed_tokens (r.num_tokens + r.num_output_placeholders + cur) due)

  abbrev output_of : Bool → List ℤ → Request → Request × Option ℤ
  output_of was_running new_token_ids q =
      let left = q.num_output_placeholders - length new_token_ids in
      (
        record q { num_output_placeholders = left },
        if was_running then some (minus q.num_computed_tokens left) else none,
      )

  output_fits :
      (was_running : Bool) (new_token_ids : List ℤ) (q : Request)
      → length new_token_ids ≤ q.num_output_placeholders
      → update_request_with_output was_running new_token_ids q
        ≡ ok (output_of was_running new_token_ids q)
  unfolding update_request_with_output
  output_fits was_running new_token_ids q few =
      ap (λ b. if b then raise assertion_error else ok (output_of was_running new_token_ids q))
        (not_ltb q.num_output_placeholders (length new_token_ids) few)

  -- What a schedule adds is enough for the output of the step: at most one token more than the
  -- request's speculative ones.
  pub placeholders_suffice :
      (r : Request) (cur : ℕ) (was_running : Bool) (new_token_ids : List ℤ)
      → r.num_computed_tokens ≡ r.num_tokens + r.num_output_placeholders + cur
      → length new_token_ids ≤ 1 + cur
      → (q : Request) × (cached : Option ℤ) × (update_request_with_output was_running new_token_ids
            (add_placeholders num_spec_tokens cur r)
          ≡ ok (q, cached))
        × (q.num_output_placeholders + length new_token_ids ≡ r.num_output_placeholders + 1 + cur)
  placeholders_suffice r cur was_running new_token_ids due few = (
    (output_of was_running new_token_ids (given cur r)).0,
    (output_of was_running new_token_ids (given cur r)).1,
    ap (update_request_with_output was_running new_token_ids) (add_placeholders_due r cur due)
        ∙ output_fits was_running new_token_ids (given cur r) (omega (arith, few)),
    omega (arith, few),
  )
