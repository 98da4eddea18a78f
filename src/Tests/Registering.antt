-- ===== src/Tests/Registering.antt =====
-- Two nodes that register themselves in the hash table at the same time.
use mo_link.Prelude.{
  pos, String, elem, ◌≡◌, refl, some, List, [], ◌∷◌, Result, ok, raise, value_error, ◌>>=◌,
}
use mo_link.PipelineManager.{DhtNodeInfo}
use mo_link.Registration.{
  Json, RoundTrips, DhtNode, Store, Event, look, write, run, step, resume, after_get, empty,
  refresh_all,
}
use mo_link.Registration.Settled.{ListsAll, refresh_all-ListsAll}

data Text : Type 0 where
  a_list : List String → Text
  an_info : DhtNodeInfo → Text

abbrev loads_list : Text → Result (List String)
loads_list (a_list ids) = ok ids
loads_list (an_info info) = raise value_error

abbrev loads_info : Text → Result DhtNodeInfo
loads_info (a_list ids) = raise value_error
loads_info (an_info info) = ok info

abbrev json : Json
json = record {
  Bytes = Text;
  dumps_list = a_list;
  loads_list = loads_list;
  dumps_info = an_info;
  loads_info = loads_info;
}

abbrev json-RoundTrips : RoundTrips json
json-RoundTrips = record { list = λ ids. refl; info = λ info. refl }

abbrev front : DhtNode
front = record {
  uuid = "f";
  node_info = record { address = "10.0.0.1:50051"; start_layer = pos 0 };
}

abbrev back : DhtNode
back = record {
  uuid = "b";
  node_info = record { address = "10.0.0.2:50051"; start_layer = pos 16 };
}

-- Both get the list before either sets it.
abbrev race : List Event
race = look back ∷ look front ∷ write back ∷ write front ∷ []

-- The node that wrote first is lost until its next pass.
race_loses :
    (run json (empty json) race >>= λ s. ok (s.table "node_info")) ≡ ok (some (a_list ("f" ∷ [])))
unfolding run step resume after_get elem
race_loses = refl

refresh_all-ListsAll_example :
    (s s' : Store json) × (run json (empty json) race ≡ ok s)
    × (run json s (refresh_all (front ∷ back ∷ [])) ≡ ok s')
    × ListsAll json "10.0.0.1:50051" (front ∷ back ∷ []) s'
unfolding elem
refresh_all-ListsAll_example =
    refresh_all-ListsAll json json-RoundTrips "10.0.0.1:50051" front (back ∷ []) refl
      (refl, (refl, tt)) race (refl, (refl, (refl, (refl, tt))))
