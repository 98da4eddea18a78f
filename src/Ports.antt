-- ===== src/Ports.antt =====
-- find_free_port and get_grpc_options of molinkv1/utils.py.
pub mod Search
use mo_link.Prelude.{
  ℕ, zero, suc, ◌+◌, ◌-◌, ◌*◌, String, ltb, Bool, List, [], ◌∷◌, Result, ok, raise, value_error,
  runtime_error, not_implemented, if◌then◌else◌,
}

pub data Protocol : Type 0 where
  tcp udp unknown : Protocol

-- `is_free` is whether a socket can be bound to the port.
unfoldable pub search : (ℕ → Bool) → ℕ → ℕ → Result ℕ
search is_free zero port = raise not_implemented
search is_free (suc fuel) port =
    let rest = search is_free fuel (port + 1) in
    if is_free port then ok port else if ltb 65535 (port + 1) then raise runtime_error else rest

-- A round for each port from the first one to 65535.
unfoldable pub find_free_port : (ℕ → Bool) → ℕ → Protocol → Result ℕ
unfolding search
find_free_port is_free start_port tcp = search is_free (65536 - start_port) start_port
find_free_port is_free start_port udp = search is_free (65536 - start_port) start_port
find_free_port is_free start_port unknown = raise value_error
