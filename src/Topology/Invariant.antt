-- ===== src/Topology/Invariant.antt =====
-- The node pool and the dictionary of start layers never disagree.
use mo_link.Prelude.{
  String, eq_iff, ℤ, contains, insert, pop_key, Distinct, insert-Distinct, insert_new,
  pop_key-Distinct, ◌≡◌, refl, sym, ap, ◌∙◌, inl, inr, Bool-cases, true, false, List, [], ◌∷◌, ◌++◌,
  map, arith,
}
use mathlib.Core.List.{map-append}
use mo_link.Topology.{NodeInfo, PipelineTopology, update_node, drop_ip, add_node, remove_node, init}

abbrev pub entry : NodeInfo → String × ℤ
entry n = (n.ip, n.start_layer)

pub record IsConsistent (t : PipelineTopology) : Type 0 where
  pub agree : map entry t.node_pool ≡ t.node_info_dict
  pub distinct : Distinct t.node_info_dict

map-update_node :
    (new : NodeInfo) (ns : List NodeInfo)
    → contains new.ip (map entry ns) ≡ true
    → map entry (update_node new ns) ≡ insert new.ip new.start_layer (map entry ns)
unfolding update_node insert contains
map-update_node new [] h = cc
map-update_node new (n ∷ ns) h = ground (arith, map-update_node new ns)

contains-drop_ip :
    (ip : String) (ns : List NodeInfo) → contains ip (map entry ns) ≡ false → drop_ip ip ns ≡ ns
unfolding drop_ip contains
contains-drop_ip ip [] h = refl
contains-drop_ip ip (n ∷ ns) h = ground (arith, contains-drop_ip ip ns)

map-drop_ip :
    (ip : String) (ns : List NodeInfo)
    → Distinct (map entry ns)
    → map entry (drop_ip ip ns) ≡ pop_key ip (map entry ns)
unfolding drop_ip pop_key
map-drop_ip ip [] h = refl
map-drop_ip ip (n ∷ ns) h =
    ground (arith, eq_iff n.ip ip, map-drop_ip ip ns h.1, contains-drop_ip ip ns)

pub add_node-IsConsistent :
    (t : PipelineTopology) (new : NodeInfo) → IsConsistent t → IsConsistent (add_node t new)
unfolding add_node
add_node-IsConsistent t new c = elim (Bool-cases (contains new.ip t.node_info_dict)) [
  | inl old ↦ rw old (record {
    agree =
        map-update_node new t.node_pool (rw c.agree old)
        ∙ ap (insert new.ip new.start_layer) c.agree;
    distinct = insert-Distinct new.ip new.start_layer t.node_info_dict c.distinct;
  })
  | inr fresh ↦ rw fresh (record {
    agree =
        map-append entry t.node_pool (new ∷ [])
        ∙ ap (λ d. d ++ (entry new ∷ [])) c.agree
        ∙ sym (insert_new new.ip new.start_layer t.node_info_dict fresh);
    distinct = insert-Distinct new.ip new.start_layer t.node_info_dict c.distinct;
  })
]

pub remove_node-IsConsistent :
    (t : PipelineTopology) (ip : String) → IsConsistent t → IsConsistent (remove_node t ip)
unfolding remove_node
remove_node-IsConsistent t ip c = record {
  agree = map-drop_ip ip t.node_pool (rw c.agree c.distinct) ∙ ap (pop_key ip) c.agree;
  distinct = pop_key-Distinct ip t.node_info_dict c.distinct;
}

pub init-IsConsistent : (ip : String) (s e : ℤ) → IsConsistent (init ip s e)
unfolding init contains insert
init-IsConsistent ip s e = record { agree = refl; distinct = (refl, tt) }

-- What the operators and the joining nodes do to a topology over its life.
pub data Change : Type 0 where
  joins : NodeInfo → Change
  leaves : String → Change

unfoldable pub apply : PipelineTopology → List Change → PipelineTopology
apply t [] = t
apply t (joins n ∷ cs) = apply (add_node t n) cs
apply t (leaves ip ∷ cs) = apply (remove_node t ip) cs

apply-keeps : (t : PipelineTopology) (cs : List Change) → IsConsistent t → IsConsistent (apply t cs)
unfolding apply
apply-keeps t [] c = c
apply-keeps t (joins n ∷ cs) c = apply-keeps (add_node t n) cs (add_node-IsConsistent t n c)
apply-keeps t (leaves ip ∷ cs) c =
    apply-keeps (remove_node t ip) cs (remove_node-IsConsistent t ip c)

-- From the topology that a node starts with, after any sequence of nodes joining, joining again
-- and leaving, the pool and the dictionary list the same addresses with the same start layers, in
-- the same order, and no address twice.
pub apply-IsConsistent :
    (ip : String) (s e : ℤ) (cs : List Change) → IsConsistent (apply (init ip s e) cs)
apply-IsConsistent ip s e cs = apply-keeps (init ip s e) cs (init-IsConsistent ip s e)
