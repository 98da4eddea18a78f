-- ===== src/Topology/Order.antt =====
-- The pipeline order: the servers by start layer, and each node's rank in it.
use native.Mathlib.Numerals.{add-one}
use mo_link.Prelude.{
  ℕ, zero, suc, ◌-◌, ◌<◌, ◌≤◌, String, eq_iff, ℤ, Dict, contains, Distinct, sorted, insert_sorted,
  sorted-perm, sorted-IsSorted, IsSorted, index, elem, index-elem, index-lt, index_sound,
  index-not_elem, Unique, get_elem?, length, length-map, true, false, ◌≡◌, refl, ap, sym, ◌∙◌, inl,
  inr, Bool-cases, none, some, List, [], ◌∷◌, map, Perm, ltb, arith, if◌then◌else◌,
}
use mo_link.Topology.{
  PipelineTopology, get_sorted_server_list, next_of, get_next_server, is_last, is_last_server,
  get_pp_rank, get_pp_size,
}
use mo_link.Topology.Invariant.{entry, IsConsistent}

abbrev pub start_of : String × ℤ → ℤ
start_of e = e.1

abbrev pub IsPipelineOrder : Dict ℤ → Type 0
IsPipelineOrder = IsSorted start_of

-- The server list holds the addresses of the nodes of the pool, each as often as the pool has it,
-- in ascending order of the nodes' start layers.
pub get_sorted_server_list-IsSorted :
    (t : PipelineTopology)
    → IsConsistent t
    → (items : Dict ℤ) × (get_sorted_server_list t ≡ map (λ e. e.0) items)
      × IsPipelineOrder items
      × Perm items (map entry t.node_pool)
unfolding get_sorted_server_list
get_sorted_server_list-IsSorted t c = (
  sorted start_of t.node_info_dict,
  refl,
  sorted-IsSorted start_of t.node_info_dict,
  rw c.agree (sorted-perm start_of t.node_info_dict),
)

contains-insert_sorted :
    (k : String) (e : String × ℤ) (d : Dict ℤ)
    → contains k (insert_sorted start_of e d) ≡ contains k (e ∷ d)
unfolding contains insert_sorted
contains-insert_sorted k e [] = refl
contains-insert_sorted k e (x ∷ d) = ground (arith, contains-insert_sorted k e d)

pub contains-sorted : (k : String) (d : Dict ℤ) → contains k (sorted start_of d) ≡ contains k d
unfolding sorted contains
contains-sorted k [] = refl
contains-sorted k (e ∷ d) =
    ground (arith, contains-insert_sorted k e (sorted start_of d), contains-sorted k d)

insert_sorted-Distinct :
    (e : String × ℤ) (d : Dict ℤ)
    → contains e.0 d ≡ false
    → Distinct d
    → Distinct (insert_sorted start_of e d)
unfolding contains insert_sorted
insert_sorted-Distinct e [] h u = (refl, tt)
insert_sorted-Distinct e (x ∷ d) h u = ground (
  arith,
  eq_iff e.0 x.0,
  eq_iff x.0 e.0,
  contains-insert_sorted x.0 e d,
  insert_sorted-Distinct e d,
)

pub sorted-Distinct : (d : Dict ℤ) → Distinct d → Distinct (sorted start_of d)
unfolding sorted
sorted-Distinct [] u = tt
sorted-Distinct (e ∷ d) u =
    insert_sorted-Distinct e (sorted start_of d) (rw (contains-sorted e.0 d) u.0)
      (sorted-Distinct d u.1)

pub elem-keys {ℓ} :
    {V : Type ℓ} (k : String) (d : Dict V) → elem k (map (λ e. e.0) d) ≡ contains k d
unfolding elem contains
elem-keys k [] = refl
elem-keys k (e ∷ d) = ground (arith, elem-keys k d)

pub keys-Unique {ℓ} : {V : Type ℓ} (d : Dict V) → Distinct d → Unique (map (λ e. e.0) d)
keys-Unique [] u = tt
keys-Unique (e ∷ d) u = (rw (elem-keys e.0 d) u.0, keys-Unique d u.1)

pub servers-Unique : (t : PipelineTopology) → IsConsistent t → Unique (get_sorted_server_list t)
unfolding get_sorted_server_list
servers-Unique t c = keys-Unique _ (sorted-Distinct t.node_info_dict c.distinct)

length-insert_sorted :
    (e : String × ℤ) (d : Dict ℤ) → length (insert_sorted start_of e d) ≡ suc (length d)
unfolding insert_sorted
length-insert_sorted e [] = refl
length-insert_sorted e (x ∷ d) = ground (arith, length-insert_sorted e d)

length-sorted : (d : Dict ℤ) → length (sorted start_of d) ≡ length d
unfolding sorted
length-sorted [] = refl
length-sorted (e ∷ d) = length-insert_sorted e (sorted start_of d) ∙ ap suc (length-sorted d)

pub length-servers :
    (t : PipelineTopology) → IsConsistent t → length (get_sorted_server_list t) ≡ get_pp_size t
unfolding get_sorted_server_list get_pp_size
length-servers t c =
    length-map (sorted start_of t.node_info_dict) (λ e. e.0)
    ∙ length-sorted t.node_info_dict
    ∙ sym (ap length c.agree)
    ∙ length-map t.node_pool entry

pub elem-servers :
    (t : PipelineTopology) (ip : String)
    → elem ip (get_sorted_server_list t) ≡ contains ip t.node_info_dict
unfolding get_sorted_server_list
elem-servers t ip =
    elem-keys ip (sorted start_of t.node_info_dict) ∙ contains-sorted ip t.node_info_dict

is_last-not_elem : (ip : String) (xs : List String) → elem ip xs ≡ false → is_last ip xs ≡ false
unfolding is_last elem
is_last-not_elem ip [] h = refl
is_last-not_elem ip (s ∷ []) h = ground arith
is_last-not_elem ip (s ∷ r ∷ rs) h = is_last-not_elem ip (r ∷ rs) (ground arith)

is_last-index :
    (ip : String) (servers : List String) (i : ℕ)
    → Unique servers
    → index ip servers ≡ some i
    → is_last ip servers ≡ (if ltb (suc i) (length servers) then false else true)
unfolding is_last index elem
is_last-index ip [] i u h = cc
is_last-index ip (s ∷ []) i u h = ground arith
is_last-index ip (s ∷ r ∷ rs) zero u h = ground (arith, eq_iff s ip, is_last-not_elem ip (r ∷ rs))
is_last-index ip (s ∷ r ∷ rs) (suc i) u h = ground (arith, is_last-index ip (r ∷ rs) i u.1)

get_elem?_of_ge {ℓ} : {A : Type ℓ} (xs : List A) (i : ℕ) → length xs ≤ i → get_elem? xs i ≡ none
get_elem?_of_ge [] i h = refl
get_elem?_of_ge (x ∷ xs) zero h = absurd (omega arith)
get_elem?_of_ge (x ∷ xs) (suc i) h = get_elem?_of_ge xs i (omega arith)

pub next_of-some :
    (servers : List String) (i : ℕ)
    → i < length servers
    → next_of servers (some i) ≡ get_elem? servers (suc i)
unfolding next_of
next_of-some servers i h = elim (Bool-cases (ltb i (length servers - 1))) [
  | inl e ↦ rw (e, add-one)
  | inr e ↦ rw e (sym (get_elem?_of_ge servers (suc i) (ground arith)))
]

-- What the topology says of the node at `ip`.
pub record IsPlaced (t : PipelineTopology) (ip : String) : Type 0 where
  pub within : get_pp_rank t ip < get_pp_size t
  pub at_rank : get_elem? (get_sorted_server_list t) (get_pp_rank t ip) ≡ some ip
  pub next : get_next_server t ip ≡ get_elem? (get_sorted_server_list t) (suc (get_pp_rank t ip))
  pub last :
      is_last_server t ip ≡ (if ltb (suc (get_pp_rank t ip)) (get_pp_size t) then false else true)

pub get_pp_rank-index :
    (t : PipelineTopology) (ip : String) (i : ℕ)
    → index ip (get_sorted_server_list t) ≡ some i
    → get_pp_rank t ip ≡ i
unfolding get_pp_rank
get_pp_rank-index t ip i e = rw (e, get_pp_rank)

next_server-index :
    (t : PipelineTopology) (ip : String) (i : ℕ)
    → index ip (get_sorted_server_list t) ≡ some i
    → get_next_server t ip ≡ get_elem? (get_sorted_server_list t) (suc i)
unfolding get_next_server
next_server-index t ip i e =
    rw e (next_of-some (get_sorted_server_list t) i (index-lt ip (get_sorted_server_list t) i e))

last_server-index :
    (t : PipelineTopology) (ip : String) (i : ℕ)
    → IsConsistent t
    → index ip (get_sorted_server_list t) ≡ some i
    → is_last_server t ip ≡ (if ltb (suc i) (get_pp_size t) then false else true)
unfolding is_last_server
last_server-index t ip i c e =
    is_last-index ip (get_sorted_server_list t) i (servers-Unique t c) e
    ∙ ap (λ n. if ltb (suc i) n then false else true) (length-servers t c)

-- The answers about a node of the pool agree: its rank is its place in the server list and below
-- the pipeline's size, its next server is the one at the place after, and it is the last server
-- exactly when no place comes after.
pub member-IsPlaced :
    (t : PipelineTopology) (ip : String)
    → IsConsistent t
    → contains ip t.node_info_dict ≡ true
    → IsPlaced t ip
member-IsPlaced t ip c m =
    let servers = get_sorted_server_list t in
    let (i, e) = index-elem ip servers (elem-servers t ip ∙ m) in
    let rank : get_pp_rank t ip ≡ i = get_pp_rank-index t ip i e in
    record {
      within = omega (arith, index-lt ip servers i e, length-servers t c);
      at_rank = rw rank (index_sound ip servers i e);
      next = rw rank (next_server-index t ip i e);
      last = rw rank (last_server-index t ip i c e);
    }

-- An address that is not in the pool has rank 0, no next server, and is not the last server.
pub stranger_lem :
    (t : PipelineTopology) (ip : String)
    → contains ip t.node_info_dict ≡ false
    → (get_pp_rank t ip ≡ 0) × (get_next_server t ip ≡ none) × (is_last_server t ip ≡ false)
unfolding get_pp_rank get_next_server is_last_server next_of
stranger_lem t ip m =
    let servers = get_sorted_server_list t in
    let absent : elem ip servers ≡ false = elem-servers t ip ∙ m in
    let missing : index ip servers ≡ none = index-not_elem ip servers absent in
    (rw (missing, get_pp_rank), rw missing, is_last-not_elem ip servers absent)
