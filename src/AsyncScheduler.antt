-- ===== src/AsyncScheduler.antt =====
-- MolinkAsyncScheduler of molinkv1/scheduler.py: the places that are kept for tokens which a running
-- step will give. What vLLM's AsyncScheduler's parent does first is done to the arguments.
pub mod Placeholders
use mo_link.Prelude.{
  ℕ, ◌+◌, ◌-◌, ℤ, pos, negsuc, String, Dict, lookup, insert, eqb, ltb, leb, length, replicate, Bool,
  true, false, ◌&&◌, ◌||◌, Option, none, some, List, [], ◌∷◌, Result, ok, raise, key_error,
  assertion_error, if◌then◌else◌,
}

pub record Request : Type 0 where
  pub use_structured_output : Bool
  pub num_computed_tokens : ℕ
  pub num_tokens : ℕ
  pub num_output_placeholders : ℕ
  pub spec_token_ids : List ℤ

-- len(spec_decode_tokens.get(req_id, ()))
unfoldable pub num_spec : String → Dict (List ℤ) → ℕ
num_spec r spec = elim (lookup r spec) [ none ↦ 0 | some ids ↦ length ids ]

-- The scheduler's `num_spec_tokens`, and the number of this request's in the step.
unfoldable pub add_placeholders : ℕ → ℕ → Request → Request
add_placeholders num_spec_tokens cur_num_spec_tokens r =
    if eqb r.num_computed_tokens (r.num_tokens + r.num_output_placeholders + cur_num_spec_tokens)
    then record r {
      num_output_placeholders = r.num_output_placeholders + (1 + cur_num_spec_tokens);
      spec_token_ids = replicate num_spec_tokens (negsuc 0);
    }
    else r

unfoldable pub is_pending : Request → Bool
is_pending r = r.use_structured_output && ltb 0 r.num_output_placeholders

-- The loop over the scheduled requests: the flag for structured output, and the requests.
unfoldable pub update_after_schedule :
    ℕ → Dict (List ℤ) → List String → Bool → Dict Request → Result (Bool × Dict Request)
unfolding add_placeholders is_pending
update_after_schedule num_spec_tokens spec [] pending requests = ok (pending, requests)
update_after_schedule num_spec_tokens spec (r ∷ rs) pending requests = elim (lookup r requests) [
  | none ↦ raise key_error
  | some request ↦
      update_after_schedule num_spec_tokens spec rs (pending || is_pending request)
        (insert r (add_placeholders num_spec_tokens (num_spec r spec) request) requests)
]

-- a - b for numbers that are not negative
unfoldable pub minus : ℕ → ℕ → ℤ
minus a b = if leb b a then pos (a - b) else negsuc (b - a - 1)

-- The rest of `_update_request_with_output`, on the tokens and the request that the parent gives:
-- the request, and up to which token its blocks are cached, if it was running.
unfoldable pub update_request_with_output : Bool → List ℤ → Request → Result (Request × Option ℤ)
unfolding minus
update_request_with_output was_running new_token_ids r =
    let left = r.num_output_placeholders - length new_token_ids in
    if ltb r.num_output_placeholders (length new_token_ids)
    then raise assertion_error
    else ok (
      record r { num_output_placeholders = left },
      if was_running then some (minus r.num_computed_tokens left) else none,
    )
