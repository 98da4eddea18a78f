-- ===== src/Tests/Table.antt =====
-- A hash table with three nodes, of which one has left and two are in the other order of layers, and
-- the stubs of a head with one server behind it.
use mo_link.Prelude.{
  String, ◌==◌, insert, pos, sorted, insert_sorted, none, some, [], ◌∷◌, ok, raise, value_error,
  index_error, ◌≡◌, refl, if◌then◌else◌,
}
use mo_link.PipelineManager.{Dht, collect_nodes, pipeline_of, manage_pipeline}
use mo_link.PipelineManager.Published.{Lists, manage_pipeline-Lists}
use mo_link.StubList.{StubList, refresh_stubs}
use mo_link.StubList.Refresh.{IsRefreshed, refresh_stubs-IsRefreshed, refresh_stubs-shorter}

abbrev table : Dht
table = record {
  Bytes = String;
  get = λ key.
      if key == "node_info" then some "nodes" else (if key == "gone" then none else some key);
  loads_list = λ raw. ok ("back" ∷ "gone" ∷ "front" ∷ []);
  loads_info = λ raw.
      if raw == "front"
      then ok (record { address = "10.0.0.1:50051"; start_layer = pos 0 })
      else (if raw == "back"
          then ok (record { address = "10.0.0.2:50051"; start_layer = pos 16 })
          else raise value_error);
  own_address = "10.0.0.1:50051";
}

manage_pipeline-Lists_example : Lists table (manage_pipeline table)
manage_pipeline-Lists_example = manage_pipeline-Lists table

servers_are :
    manage_pipeline table
    ≡ ok (
        some (record {
          head = "10.0.0.1:50051";
          server_list = "10.0.0.1:50051" ∷ "10.0.0.2:50051" ∷ [];
        }))
unfolding manage_pipeline collect_nodes pipeline_of insert sorted insert_sorted
servers_are = refl

abbrev one_server : StubList
one_server = record {
  preset_server_list = "10.0.0.2:50051" ∷ [];
  stub_list = "10.0.0.2:50051" ∷ [];
}

refresh_stubs-IsRefreshed_example :
    IsRefreshed
      ("10.0.0.2:50051" ∷ [])
      ("10.0.0.2:50051" ∷ "10.0.0.3:50051" ∷ [])
      (refresh_stubs one_server ("10.0.0.2:50051" ∷ "10.0.0.3:50051" ∷ []))
refresh_stubs-IsRefreshed_example =
    refresh_stubs-IsRefreshed one_server ("10.0.0.2:50051" ∷ "10.0.0.3:50051" ∷ []) refl

refresh_stubs-shorter_example : refresh_stubs one_server [] ≡ raise index_error
refresh_stubs-shorter_example = refresh_stubs-shorter one_server [] ("10.0.0.2:50051", [], refl)
