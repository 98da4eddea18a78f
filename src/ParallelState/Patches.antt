-- ===== src/ParallelState/Patches.antt =====
-- The patches on vLLM's functions: applied any number of times they act as if applied once.
use mo_link.Prelude.{
  ℤ, ◌≡◌, ap, ◌∙◌, Bool, false, ◌&&◌, ◌||◌, none, some, List, [], ◌∷◌, ok, arith, if◌then◌else◌,
}
use mo_link.ParallelState.{
  State, PpIndices, Getter, RankGetter, Hooks, unpatched, apply_molink_patches, call_get_pp_indices,
  clip_range, is_first_rank, is_last_rank,
}

-- Each time the patches are applied, MoLink has some state and vLLM has its group or not.
abbrev pub Calls : Type 0
Calls = List (State × Bool)

unfoldable pub apply_all : Calls → Hooks → Hooks
apply_all [] h = h
apply_all ((g, has_pp_group) ∷ more) h = apply_all more (apply_molink_patches g has_pp_group h)

-- MoLink was enabled at one of the calls; and at one where vLLM had its group.
unfoldable pub ever_enabled : Calls → Bool
ever_enabled [] = false
ever_enabled ((g, has_pp_group) ∷ more) = g.enabled || ever_enabled more

unfoldable pub ever_grouped : Calls → Bool
ever_grouped [] = false
ever_grouped ((g, has_pp_group) ∷ more) = (g.enabled && has_pp_group) || ever_grouped more

hooks_after : Bool → Bool → Hooks
hooks_after indices ranks = record {
  saved = if indices then some Getter.own else none;
  get_pp_indices = if indices then Getter.patched else Getter.own;
  pp_group_patched = ranks;
  rank_property = if ranks then RankGetter.wraps RankGetter.own else RankGetter.own;
}

apply-hooks_after :
    (i r : Bool) (g : State) (has : Bool)
    → apply_molink_patches g has (hooks_after i r)
      ≡ hooks_after (i || g.enabled) (r || (g.enabled && has))
unfolding apply_molink_patches hooks_after
apply-hooks_after i r g has = ground arith

or_regroup : (a b c : Bool) → ((a || b) || c) ≡ (a || (b || c))
or_regroup a b c = ground arith

or_false : (a : Bool) → (a || false) ≡ a
or_false a = ground arith

apply_all-hooks_after :
    (calls : Calls) (i r : Bool)
    → apply_all calls (hooks_after i r)
      ≡ hooks_after (i || ever_enabled calls) (r || ever_grouped calls)
unfolding apply_all ever_enabled ever_grouped
apply_all-hooks_after [] i r = rw (or_false i, or_false r)
apply_all-hooks_after ((g, has) ∷ more) i r =
    ap (apply_all more) (apply-hooks_after i r g has)
    ∙ apply_all-hooks_after more (i || g.enabled) (r || (g.enabled && has))
    ∙ rw (
      or_regroup i g.enabled (ever_enabled more),
      or_regroup r (g.enabled && has) (ever_grouped more),
    )

apply_all-unpatched :
    (calls : Calls)
    → apply_all calls unpatched ≡ hooks_after (ever_enabled calls) (ever_grouped calls)
unfolding hooks_after
apply_all-unpatched calls = apply_all-hooks_after calls false false

module _ (vllm : PpIndices) (g : State) (n rank size : ℤ) where
  call-hooks_after :
      (i r : Bool)
      → call_get_pp_indices vllm g (hooks_after i r) n rank size
        ≡ ok (if g.enabled && i then clip_range g.start_layer g.end_layer n else vllm n rank size)
  unfolding call_get_pp_indices hooks_after
  call-hooks_after i r = ground arith

module _ (g : State) (own : Bool) (i r : Bool) where
  first-hooks_after :
      is_first_rank own g (hooks_after i r).rank_property
      ≡ (if g.enabled && r then g.is_first_stage else own)
  unfolding is_first_rank hooks_after
  first-hooks_after = ground arith

  last-hooks_after :
      is_last_rank own g (hooks_after i r).rank_property
      ≡ (if g.enabled && r then g.is_last_stage else own)
  unfolding is_last_rank hooks_after
  last-hooks_after = ground arith

-- However often the patches have been applied, and at whatever states of MoLink, vLLM's functions
-- answer as follows, and none fails or calls itself. `get_pp_indices` gives MoLink's range if
-- MoLink is enabled now and was enabled at one of the calls, and vLLM's own answer otherwise. The
-- coordinator's properties give MoLink's flags if MoLink is enabled now and was at one of the
-- calls at which vLLM had its group, and vLLM's own answers otherwise.
pub apply_all-answers :
    (calls : Calls) (vllm : PpIndices) (g : State) (n rank size : ℤ) (first last : Bool)
    → (call_get_pp_indices vllm g (apply_all calls unpatched) n rank size
        ≡ ok (
            if g.enabled && ever_enabled calls
            then clip_range g.start_layer g.end_layer n
            else vllm n rank size))
      × (is_first_rank first g (apply_all calls unpatched).rank_property
          ≡ (if g.enabled && ever_grouped calls then g.is_first_stage else first))
      × (is_last_rank last g (apply_all calls unpatched).rank_property
          ≡ (if g.enabled && ever_grouped calls then g.is_last_stage else last))
apply_all-answers calls vllm g n rank size first last =
    let i = ever_enabled calls in
    let r = ever_grouped calls in
    rw (apply_all-unpatched calls) (
      call-hooks_after vllm g n rank size i r,
      first-hooks_after g first i r,
      last-hooks_after g last i r,
    )
