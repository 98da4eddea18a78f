-- ===== src/Swarm/Passing.antt =====
-- A node changes and sends: which nodes that changes.
use mathlib.Core.Option
use mo_link.Prelude.{String, ◌==◌, eq_refl, false, ◌≡◌, ap, ◌∙◌, some, [], ◌∷◌, if◌then◌else◌}
use mo_link.Swarm.{Codec, Item, Node}
use mo_link.Swarm.Deliver.{request_of, consume}
use mo_link.Swarm.Network.{World, deliver, change_node, receive, target, send, deliver_at, step}

module _ {c : Codec} where
  abbrev pub visit : World c → String → (Node c → Node c) → World c
  visit world a f = step (change_node world a f) (deliver a)

  deliver_at-send :
      (world : World c) (a : String) (n : Node c) (item : Item c)
      → n.process_queue ≡ item ∷ []
      → deliver_at world a (some n)
        ≡ send (change_node world a (λ m. record n { process_queue = [] })) (request_of item)
  unfolding deliver_at consume
  deliver_at-send world a n item one = rw one

  module _ (world : World c) (a t : String) (f : Node c → Node c) (n : Node c) (item : Item c)
      (here : world a ≡ some n) (one : (f n).process_queue ≡ item ∷ [])
      (aimed : target (request_of item) ≡ some t) where
    visit-send :
        visit world a f
        ≡ send
            (change_node (change_node world a f) a (λ m. record (f n) { process_queue = [] }))
            (request_of item)
    unfolding step change_node
    visit-send =
        let world' = change_node world a f in
        ap (λ same. deliver_at world' a (if same then Option.map f (world a) else world a))
          (eq_refl a)
        ∙ ap (λ o. deliver_at world' a (Option.map f o)) here
        ∙ deliver_at-send world' a (f n) item one

    pub visit-elsewhere :
        (b : String)
        → (a == b) ≡ false
        → visit world a f b
          ≡ (if t == b then Option.map (receive (request_of item)) (world b) else world b)
    unfolding change_node send
    visit-elsewhere b other = ap (λ w. w b) visit-send ∙ rw (send, aimed, other)

    -- The sender's queue is empty afterwards.
    pub visit_self :
        (t == a) ≡ false → visit world a f a ≡ some (record (f n) { process_queue = [] })
    unfolding change_node send
    visit_self away = ap (λ w. w a) visit-send ∙ rw (send, aimed, away, eq_refl a, here)
