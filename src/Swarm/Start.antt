-- ===== src/Swarm/Start.antt =====
-- What the head does when a batch starts.
use mo_link.Prelude.{
  String, leb, length, Dict, false, ◌≡◌, ap, ◌∙◌, none, some, List, [], ◌∷◌, ok, arith,
}
use mo_link.Topology.{Metadata}
use mo_link.StubList.{StubList, refresh_stubs}
use mo_link.Swarm.{StageOutput, tensors, Codec, Item, next, Node, put_nowait, values_to_cpu}
use mo_link.Swarm.CommService.{driver_exec_model}
use mo_link.Swarm.HeadServer.{
  pipeline_of, second_server, send_on, hand_over, hand_to, caught, executing_head_server,
  start_with, start_batch,
}

module _ {c : Codec} (req : c.Request) (metadata : Metadata) (second : String)
    (behind : List String) (d : Dict c.Tensor) (rest : List (StageOutput c.Tensor c.Sampled)) where
  abbrev pub first_item : Item c
  first_item =
      next (values_to_cpu c d) (c.clear_callback req) (some metadata) (c.virtual_engine req) second

  abbrev after_head : Node c → Node c
  after_head n = record n {
    process_queue = first_item ∷ [];
    runner = (c.run_model n.runner req none).1;
  }

  executing_head_server-next :
      (n : Node c)
      → metadata.server_list ≡ n.address ∷ second ∷ behind
      → n.in_autodl ≡ false
      → n.process_queue ≡ []
      → (c.run_model n.runner req none).0 ≡ ok (tensors d ∷ rest)
      → executing_head_server n req (some metadata) ≡ after_head n
  unfolding executing_head_server driver_exec_model hand_over hand_to second_server send_on
      put_nowait
  executing_head_server-next n servers direct idle computes =
      let n' : Node c = record n { runner = (c.run_model n.runner req none).1 } in
      let more : leb (length (n.address ∷ second ∷ behind)) 1 ≡ false = ground arith in
      let aimed : second_server n' (some metadata) ≡ some second = rw (direct, servers, more) in
      let sent : send_on n' req (some metadata) (tensors d ∷ rest) second ≡ ok (after_head n) =
        rw idle in
      ap (λ r. caught n' (hand_over req (some metadata) (r, n'))) computes
      ∙ ap (λ o. caught n' (hand_to n' req (some metadata) (tensors d ∷ rest) o)) aimed
      ∙ ap (caught n') sent

  module _ (n : Node c) (stubs : StubList)
      (pipeline : pipeline_of n ≡ (some metadata, second ∷ behind))
      (servers : metadata.server_list ≡ n.address ∷ second ∷ behind) (direct : n.in_autodl ≡ false)
      (idle : n.process_queue ≡ [])
      (computes : (c.run_model n.runner req none).0 ≡ ok (tensors d ∷ rest))
      (kept : refresh_stubs n.stubs (second ∷ behind) ≡ ok stubs) where
    abbrev pub started : Node c
    started = after_head (record n { stubs = stubs })

    pub start_batch-next : start_batch n req ≡ (some stubs.stub_list, started)
    unfolding start_batch start_with
    start_batch-next =
        ap (λ p. start_with n req p.0 (refresh_stubs n.stubs p.1)) pipeline
        ∙ ap (start_with n req (some metadata)) kept
        ∙ ap (λ n'. (some stubs.stub_list, n'))
            (executing_head_server-next (record n { stubs = stubs }) servers direct idle computes)
