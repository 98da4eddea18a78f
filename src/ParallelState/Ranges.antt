-- ===== src/ParallelState/Ranges.antt =====
-- The layers that a node loads, and that the nodes of a pipeline load between them.
use mo_link.Prelude.{
  ℕ, zero, suc, ◌+◌, ◌-◌, ◌<◌, ◌≤◌, ℤ, pos, ◌≤ℤ◌, ◌<ℤ◌, ◌≡◌, refl, ap, sym, ◌∙◌, ◌⊎◌, inl, inr,
  true, pos_part, List, [], ◌∷◌, ◌++◌, arith,
}
use mo_link.ParallelState.{State, PpIndices, all_remaining, clip_range, get_molink_pp_indices}

-- `r` is a nonempty range within a model of `n` layers.
abbrev pub InModel : ℤ → ℤ × ℤ → Type 0
InModel n r = (pos 0 ≤ℤ r.0) × (r.0 <ℤ r.1) × (r.1 ≤ℤ n)

clip_range-InModel : (s e n : ℤ) → pos 0 <ℤ n → InModel n (clip_range s e n)
unfolding clip_range
clip_range-InModel s e n h = ground arith

clip_range_valid : (s e n : ℤ) → InModel n (s, e) → clip_range s e n ≡ (s, e)
unfolding clip_range
clip_range_valid s e n h = ground arith

clip_range_rest : (s n : ℤ) → InModel n (s, n) → clip_range s all_remaining n ≡ (s, n)
unfolding clip_range
clip_range_rest s n h = ground arith

-- With MoLink enabled and a model of at least one layer, whatever the configured range, a node
-- loads a nonempty range of layers of the model; the configured range if that is one, with an end
-- of -1 standing for the model's last layer.
pub get_molink_pp_indices-InModel :
    (fallback : PpIndices) (g : State) (n rank size : ℤ)
    → g.enabled ≡ true
    → pos 0 <ℤ n
    → InModel n (get_molink_pp_indices fallback g n rank size)
      × (InModel n (g.start_layer, g.end_layer)
          → get_molink_pp_indices fallback g n rank size ≡ (g.start_layer, g.end_layer))
      × (InModel n (g.start_layer, n)
          → g.end_layer ≡ all_remaining
          → get_molink_pp_indices fallback g n rank size ≡ (g.start_layer, n))
unfolding get_molink_pp_indices
get_molink_pp_indices-InModel fallback g n rank size on h = (
  rw on (clip_range-InModel g.start_layer g.end_layer n h),
  λ v. rw on (clip_range_valid g.start_layer g.end_layer n v),
  λ v e. rw (on, e) (clip_range_rest g.start_layer n v),
)

-- The layers s, s + 1, …, of the given number.
unfoldable pub layers_from : ℕ → ℕ → List ℕ
layers_from s zero = []
layers_from s (suc k) = s ∷ layers_from (suc s) k

-- The layers that `make_layers` builds from a range.
unfoldable pub layers_of : ℤ × ℤ → List ℕ
layers_of r = layers_from (pos_part r.0) (pos_part r.1 - pos_part r.0)

layers_from-append : (s k m : ℕ) → layers_from s k ++ layers_from (s + k) m ≡ layers_from s (k + m)
unfolding layers_from
layers_from-append s zero m =
    let e : s + 0 ≡ s = omega arith in let f : 0 + m ≡ m = omega arith in rw (e, f)
layers_from-append s (suc k) m =
    let e : s + suc k ≡ suc s + k = omega arith in
    let f : suc k + m ≡ suc (k + m) = omega arith in
    rw (e, f) (ap (◌∷◌ s) (layers_from-append (suc s) k m))

-- The layers that nodes in these states load of a model of `n` layers, node by node.
unfoldable pub loaded : PpIndices → ℕ → List State → List ℕ
loaded fallback n [] = []
loaded fallback n (g ∷ gs) =
    layers_of (get_molink_pp_indices fallback g (pos n) g.pp_rank g.pp_size) ++ loaded fallback n gs

-- The nodes' ranges follow one another from layer `s` to the end of a model of `n` layers, where
-- the last may end with -1.
abbrev pub Tiles : ℕ → ℕ → List State → Type 0
Tiles n s [] = s ≡ n
Tiles n s (g ∷ gs) =
    (e : ℕ) × (g.enabled ≡ true)
    × (g.start_layer ≡ pos s)
    × ((g.end_layer ≡ pos e) ⊎ ((g.end_layer ≡ all_remaining) × (e ≡ n)))
    × (s < e)
    × (e ≤ n)
    × Tiles n e gs

tile-range :
    (fallback : PpIndices) (g : State) (s e n : ℕ) (rank size : ℤ)
    → g.enabled ≡ true
    → g.start_layer ≡ pos s
    → (g.end_layer ≡ pos e) ⊎ ((g.end_layer ≡ all_remaining) × (e ≡ n))
    → s < e
    → e ≤ n
    → get_molink_pp_indices fallback g (pos n) rank size ≡ (pos s, pos e)
unfolding get_molink_pp_indices
tile-range fallback g s e n rank size on a (inl b) h k = ground arith
tile-range fallback g s e n rank size on a (inr (b, c)) h k = ground arith

layers_of-nat : (s e : ℕ) → layers_of (pos s, pos e) ≡ layers_from s (e - s)
unfolding layers_of
layers_of-nat s e = refl

loaded-from :
    (fallback : PpIndices) (n s : ℕ) (gs : List State)
    → s ≤ n
    → Tiles n s gs
    → loaded fallback n gs ≡ layers_from s (n - s)
unfolding loaded
loaded-from fallback n s [] h t = let z : n - s ≡ 0 = omega arith in unfold layers_from in rw z
loaded-from fallback n s (g ∷ gs) h t =
    let (e, on, a, b, lt, le, rest) = t in
    let there : s + (e - s) ≡ e = omega arith in
    let total : (e - s) + (n - e) ≡ n - s = omega arith in
    ap (λ r. layers_of r ++ loaded fallback n gs)
      (tile-range fallback g s e n g.pp_rank g.pp_size on a b lt le)
    ∙ ap (λ l. layers_of (pos s, pos e) ++ l) (loaded-from fallback n e gs le rest)
    ∙ ap (λ l. l ++ layers_from e (n - e)) (layers_of-nat s e)
    ∙ ap (λ m. layers_from s (e - s) ++ layers_from m (n - e)) (sym there)
    ∙ layers_from-append s (e - s) (n - e)
    ∙ ap (layers_from s) total

-- Where the configured ranges of a pipeline's nodes follow one another from layer 0 to the end of
-- the model, the nodes load every layer of the model, each once and in order.
pub loaded-Tiles :
    (fallback : PpIndices) (n : ℕ) (gs : List State)
    → Tiles n 0 gs
    → loaded fallback n gs ≡ layers_from 0 n
loaded-Tiles fallback n gs t =
    let e : n - 0 ≡ n = omega arith in
    loaded-from fallback n 0 gs (omega arith) t ∙ ap (layers_from 0) e
