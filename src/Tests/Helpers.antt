-- ===== src/Tests/Helpers.antt =====
-- The search for a port, and the placeholders of the asynchronous scheduler.
use mo_link.Prelude.{
  ℕ, ◌+◌, ℤ, pos, Dict, lookup, elem, leb, Bool, true, false, ◌≡◌, refl, Option, [], ◌∷◌, ok, raise,
  value_error, arith,
}
use mo_link.Ports.{find_free_port, tcp, udp, unknown}
use mo_link.Ports.Search.{Finds, find_free_port-Finds}
use mo_link.AsyncScheduler.{
  Request, add_placeholders, update_after_schedule, update_request_with_output,
}
use mo_link.AsyncScheduler.Placeholders.{
  any_pending, ArePrepared, update_after_schedule-ArePrepared, placeholders_suffice,
}

abbrev from_50060 : ℕ → Bool
from_50060 port = leb 50060 port

find_free_port-Finds_example :
    Finds from_50060 50051 (find_free_port from_50060 50051 tcp)
    × Finds from_50060 50051 (find_free_port from_50060 50051 udp)
    × (find_free_port from_50060 50051 unknown ≡ raise value_error)
find_free_port-Finds_example = find_free_port-Finds from_50060 50051 (omega arith)

abbrev request : Request
request = record {
  use_structured_output = true;
  num_computed_tokens = 12;
  num_tokens = 10;
  num_output_placeholders = 1;
  spec_token_ids = [];
}

abbrev requests : Dict Request
requests = ("a", request) ∷ ("b", request) ∷ []

update_after_schedule-ArePrepared_example :
    (after : Dict Request) × (update_after_schedule 1
        (("a", pos 5 ∷ []) ∷ [])
        ("a" ∷ [])
        false
        requests
      ≡ ok (true, after))
    × ArePrepared 1 (("a", pos 5 ∷ []) ∷ []) ("a" ∷ []) requests after
unfolding any_pending lookup elem
update_after_schedule-ArePrepared_example =
    update_after_schedule-ArePrepared 1 (("a", pos 5 ∷ []) ∷ []) ("a" ∷ []) false requests
      (refl, tt) ((request, refl), tt)

placeholders_suffice_example :
    (q : Request) × (cached : Option ℤ) × (update_request_with_output true
        (pos 7 ∷ pos 8 ∷ [])
        (add_placeholders 1 1 request)
      ≡ ok (q, cached))
    × (q.num_output_placeholders + 2 ≡ 3)
placeholders_suffice_example =
    placeholders_suffice 1 request 1 true (pos 7 ∷ pos 8 ∷ []) (omega arith) (omega arith)
