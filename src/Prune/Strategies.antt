-- ===== src/Prune/Strategies.antt =====
-- prune/strategies.go.
pub mod Laws
use operator_lib.Common.{
  ℕ, ◌≤◌, Bool, true, false, List, [], ◌∷◌, ◌++◌, Outcome, returned, panicked, Result, ok, err, ltb,
  leb, if◌then◌else◌, length, drop,
}
use operator_lib.Common.Int.{ℤ, pos, negsuc, leℤ}
use mathlib.Core.List.{Perm, Pairwise}
use operator_lib.Prune.Registry.{Object, Error}

-- `StrategyFunc`; the context goes only to the strategies of a user
abbrev pub StrategyFunc : Type 0
StrategyFunc = List Object → Outcome (Result Error (List Object))

-- `sort.Slice` of Go's library, with what its documentation promises for a `less` that compares keys.
pub record SortSlice : Type 0 where
  pub sort_slice : (less : Object → Object → Bool) → List Object → List Object
  pub sort_slice-Perm :
      (less : Object → Object → Bool) (objs : List Object) → Perm (sort_slice less objs) objs
  pub sort_slice-Pairwise :
      (key : Object → ℕ) (objs : List Object)
      → Pairwise (λ a b. key a ≤ key b) (sort_slice (λ a b. ltb (key a) (key b)) objs)

-- `iTimestamp.Before(&jTimestamp)`
abbrev pub created_before : Object → Object → Bool
created_before a b = ltb a.creation_timestamp b.creation_timestamp

-- `s[count:]` of a slice that is longer than `count`
abbrev pub slice_from : ℤ → List Object → Outcome (Result Error (List Object))
slice_from (pos n) objs = returned (ok (drop n objs))
slice_from (negsuc n) objs = panicked

-- `NewPruneByCountStrategy`. The sort is in place; no caller in this repository reads the slice
-- again.
unfoldable pub new_prune_by_count_strategy : SortSlice → (count : ℤ) → StrategyFunc
new_prune_by_count_strategy sort count objs =
    if leℤ (pos (length objs)) count
    then returned (ok [])
    else slice_from count (sort.sort_slice created_before objs)

unfoldable pub created_after : (date : ℕ) (objs_to_prune objs : List Object) → List Object
created_after date objs_to_prune [] = objs_to_prune
created_after date objs_to_prune (obj ∷ objs) =
    created_after date
      (if ltb date obj.creation_timestamp then objs_to_prune ++ (obj ∷ []) else objs_to_prune) objs

-- `NewPruneByDateStrategy`
unfoldable pub new_prune_by_date_strategy : (date : ℕ) → StrategyFunc
new_prune_by_date_strategy date objs = returned (ok (created_after date [] objs))
