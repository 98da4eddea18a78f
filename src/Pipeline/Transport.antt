-- ===== src/Pipeline/Transport.antt =====
-- What a request carries from one node to another, and which nodes it changes.
use mathlib.Core.Option
use mo_link.Prelude.{
  ℕ, ℤ, String, ◌==◌, eq_refl, Dict, Distinct, contains, false, ◌≡◌, refl, ap, ◌∙◌, some, [], ◌∷◌,
  map, length, get_elem?, set, ok, if◌then◌else◌,
}
use mo_link.Topology.{Metadata}
use mo_link.Platform.{Platform, RoundTrips}
use mo_link.Delivery.{Item, next, head, Process, request_of, sent_item}
use mo_link.Delivery.Order.{running, consume-cons}
use mo_link.Service.{
  Packet, slot, collect, push_intermediate_tensors, push_sampler_output, deserialize_tensors,
}
use mo_link.Service.Queues.{put-some, collect-Distinct}
use mo_link.Executor.{Node}
use mo_link.Executor.Steps.{tensors_to_cpu}
use mo_link.Pipeline.{
  World, deliver, change_node, target, receive, with_process, consume_at, send_from, deliver_at,
  step,
}

abbrev save_tensors : (p : Platform) → Dict p.Tensor → Dict p.Bytes
save_tensors p = map (λ e. (e.0, p.save e.1))

deserialize-save :
    (p : Platform)
    → RoundTrips p
    → (d : Dict p.Tensor) → deserialize_tensors p (save_tensors p (tensors_to_cpu p d)) ≡ ok d
unfolding deserialize_tensors
deserialize-save p laws [] = refl
deserialize-save p laws ((k, t) ∷ d) = rw (laws.tensors t, deserialize-save p laws d) refl

contains-save :
    (p : Platform) (k : String) (d : Dict p.Tensor)
    → contains k (save_tensors p (tensors_to_cpu p d)) ≡ contains k d
unfolding contains
contains-save p k [] = refl
contains-save p k ((j, t) ∷ d) = rw (contains-save p k d)

save-Distinct :
    (p : Platform) (d : Dict p.Tensor) → Distinct d → Distinct (save_tensors p (tensors_to_cpu p d))
save-Distinct p [] h = tt
save-Distinct p ((k, t) ∷ d) h = (contains-save p k d ∙ h.0, save-Distinct p d h.1)

-- The tensors that a node hands to the delivery are those that the next node reads.
pub tensors_arrive :
    (p : Platform)
    → RoundTrips p
    → (d : Dict p.Tensor) → Distinct d
    → deserialize_tensors p (collect (save_tensors p (tensors_to_cpu p d))) ≡ ok d
tensors_arrive p laws d distinct =
    ap (deserialize_tensors p)
      (collect-Distinct (save_tensors p (tensors_to_cpu p d)) (save-Distinct p d distinct))
    ∙ deserialize-save p laws d

module _ {p : Platform} (laws : RoundTrips p) where
  abbrev pub sent_packet : Dict p.Tensor → p.Bytes → Metadata → Packet p
  sent_packet d bytes metadata = record {
    scheduler_output = bytes;
    tensors = collect (save_tensors p d);
    metadata = metadata;
  }

  pub receive-next :
      (n : Node p) (d : Dict p.Tensor) (bytes : p.Bytes) (metadata : Metadata) (ve : ℤ)
      (server : String) (i : ℕ)
      → slot (length n.service.input_queue) ve ≡ some i
      → get_elem? n.service.input_queue i ≡ some []
      → receive (request_of (next d bytes metadata ve server)) n ≡ record n {
        service = record n.service {
          input_queue = set n.service.input_queue i (sent_packet d bytes metadata ∷ []);
        };
      }
  unfolding request_of push_intermediate_tensors
  receive-next n d bytes metadata ve server i at empty =
      rw
        (
          laws.metadata metadata,
          put-some n.service.input_queue ve (sent_packet d bytes metadata) i [] at empty,
        )
        refl

  pub receive-head :
      (n : Node p) (bytes : p.Bytes) (ve : ℤ) (server : String) (i : ℕ)
      → slot (length n.service.output_queue) ve ≡ some i
      → get_elem? n.service.output_queue i ≡ some []
      → receive (request_of (head bytes ve server)) n ≡ record n {
        service = record n.service { output_queue = set n.service.output_queue i (bytes ∷ []) };
      }
  unfolding request_of push_sampler_output
  receive-head n bytes ve server i at empty =
      rw (put-some n.service.output_queue ve bytes i [] at empty) refl

module _ {p : Platform} where
  -- A node changes, and then its delivery process sends what it has.
  abbrev pub visit : World p → String → (Node p → Node p) → World p
  visit world a f = step (change_node world a f) (deliver a)

  change_node_self :
      (world : World p) (a : String) (f : Node p → Node p)
      → change_node world a f a ≡ Option.map f (world a)
  unfolding change_node
  change_node_self world a f = rw (eq_refl a)

  visit-send :
      (world : World p) (a : String) (f : Node p → Node p) (n n' : Node p) (q : Process p)
      (item : Item p)
      → world a ≡ some n
      → f n ≡ n'
      → n'.delivery_manager ≡ running q
      → q.delivery_queue ≡ item ∷ []
      → q.shutdown ≡ false
      → visit world a f
        ≡ send_from
            (change_node world a f)
            a
            (some (request_of item, record n' { delivery_manager = running (sent_item q item []) }))
  unfolding step deliver_at consume_at
  visit-send world a f n n' q item there e has_q one on =
      let world' = change_node world a f in
      ap (deliver_at world' a) (change_node_self world a f ∙ ap (Option.map f) there ∙ ap some e)
      ∙ ap (send_from world' a) (
          ap (consume_at n') (ap (λ m. m.process) has_q)
          ∙ ap (Option.map (with_process n')) (consume-cons q item [] on one))

  change_node-ne :
      (world : World p) (a b : String) (f : Node p → Node p)
      → (a == b) ≡ false
      → change_node world a f b ≡ world b
  unfolding change_node
  change_node-ne world a b f other = rw other

  -- What a visit changes at another address: the node that the request goes to.
  pub visit-elsewhere :
      (world : World p) (a b : String) (f : Node p → Node p) (n n' : Node p) (q : Process p)
      (item : Item p)
      → world a ≡ some n
      → f n ≡ n'
      → n'.delivery_manager ≡ running q
      → q.delivery_queue ≡ item ∷ []
      → q.shutdown ≡ false
      → (a == b) ≡ false
      → visit world a f b ≡ (
          if target (request_of item) == b
          then Option.map (receive (request_of item)) (world b)
          else world b)
  unfolding send_from change_node
  visit-elsewhere world a b f n n' q item there e has_q one on other =
      ap (λ w. w b) (visit-send world a f n n' q item there e has_q one on)
      ∙ ap
          (λ o.
            if target (request_of item) == b then Option.map (receive (request_of item)) o else o)
          (change_node-ne (change_node world a f) a b _ other ∙ change_node-ne world a b f other)

  -- What it leaves at its own address, where the request goes to another one.
  pub visit_self :
      (world : World p) (a : String) (f : Node p → Node p) (n n' : Node p) (q : Process p)
      (item : Item p)
      → world a ≡ some n
      → f n ≡ n'
      → n'.delivery_manager ≡ running q
      → q.delivery_queue ≡ item ∷ []
      → q.shutdown ≡ false
      → (target (request_of item) == a) ≡ false
      → visit world a f a ≡ some (record n' { delivery_manager = running (sent_item q item []) })
  unfolding send_from
  visit_self world a f n n' q item there e has_q one on away =
      ap (λ w. w a) (visit-send world a f n n' q item there e has_q one on)
      ∙ change_node-ne _ (target (request_of item)) a (receive (request_of item)) away
      ∙ change_node_self (change_node world a f) a _
      ∙ ap (Option.map _) (change_node_self world a f ∙ ap (Option.map f) there)
