-- ===== src/Stubs.antt =====
-- The stubs that a head keeps for the servers behind it: `_get_stub` and `_update_stub_list` of
-- molinkv1/executor.py. A stub is known by its address.
use mo_link.Prelude.{
  String, ◌==◌, eq_iff, ◌≡◌, refl, arith, Dict, insert, contains, Bool, true, false, List, [], ◌∷◌,
  if◌then◌else◌,
}

unfoldable pub get_stub : Dict (Unit {0}) → String → Dict (Unit {0})
get_stub cache address = if contains address cache then cache else insert address tt cache

unfoldable pub get_stubs : Dict (Unit {0}) → List String → Dict (Unit {0})
get_stubs cache [] = cache
get_stubs cache (s ∷ rest) = get_stubs (get_stub cache s) rest

-- server_list == self._preset_server_list
unfoldable pub same_list : List String → List String → Bool
same_list [] [] = true
same_list (x ∷ xs) (y ∷ ys) = if x == y then same_list xs ys else false
same_list _ _ = false

-- server_list[1:]
unfoldable pub worker_servers : List String → List String
worker_servers [] = []
worker_servers (head ∷ rest) = rest

pub same_list_sound : (xs ys : List String) → same_list xs ys ≡ true → xs ≡ ys
unfolding same_list
same_list_sound [] [] h = refl
same_list_sound [] (y ∷ ys) h = cc
same_list_sound (x ∷ xs) [] h = cc
same_list_sound (x ∷ xs) (y ∷ ys) h = ground (arith, eq_iff x y, same_list_sound xs ys)
