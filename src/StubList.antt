-- ===== src/StubList.antt =====
-- The stubs of the v0 executor: `create_stubs` of molink/executor/mp_distributed_executor.py and the
-- check before each batch. A stub is known by its address.
pub mod Refresh
use mo_link.Prelude.{
  ℕ, String, ◌==◌, eqb, length, Bool, true, false, not, List, [], ◌∷◌, Result, ok, raise,
  index_error, ◌>>=◌, if◌then◌else◌,
}

pub record StubList : Type 0 where
  pub preset_server_list : List String
  pub stub_list : List String

unfoldable pub create_stubs : StubList → List String → StubList
create_stubs s server_list = record { preset_server_list = server_list; stub_list = server_list }

-- The loop over the preset list: `build_stub_list` after it.
unfoldable pub compare_servers : Bool → List String → List String → Result Bool
compare_servers build [] server_list = ok build
compare_servers build (p ∷ preset) [] = raise index_error
compare_servers build (p ∷ preset) (s ∷ server_list) =
    let rest = compare_servers build preset server_list in if p == s then rest else ok true

unfoldable pub refresh_stubs : StubList → List String → Result StubList
unfolding create_stubs compare_servers
refresh_stubs s server_list =
    compare_servers (not (eqb (length s.preset_server_list) (length server_list)))
      s.preset_server_list server_list
    >>= λ build. ok (if build then create_stubs s server_list else s)
