-- ===== src/Prune/Pruner/Count.antt =====
-- What a run of the pruner with the count strategy of prune/strategies.go leaves.
use operator_lib.Common.{
  returned_inj, ok_inj, ℕ, ◌≤◌, ◌-◌, List, ◌++◌, length, returned, ok, ◌≡◌, sym, ap, ◌∙◌, All,
}
use operator_lib.Common.Int.{pos}
use operator_lib.Prune.Registry.{Object}
use operator_lib.Prune.Strategies.{SortSlice, new_prune_by_count_strategy}
use operator_lib.Prune.Strategies.Laws.{new_prune_by_count_strategy-keeps}
use mathlib.Core.List.{Mem, Perm, mem-append_right}
use mathlib.Core.List.Perm
use mathlib.Core.Path.{subst}
use operator_lib.Prune.Pruner.{Pruner, Labels, prune}
use operator_lib.Prune.Pruner.Relation.{Prunes, Offers}
use operator_lib.Prune.Pruner.Refinement.{prune_iff}
use operator_lib.Prune.Pruner.Safety.{SelectsAmong, Allowed, Offers-Allowed}
use operator_lib.Prune.Pruner.Errors.{listing}

-- What `count` objects are kept of those offered, and the others pruned.
abbrev pub IsSplit : (kept offered : List Object) → (count : ℕ) → List Object → Type 0
IsSplit kept offered count pruned =
    Perm (kept ++ pruned) offered
    × (length pruned ≡ length offered - count)
    × ((k o : Object) → Mem k kept → Mem o pruned → k.creation_timestamp ≤ o.creation_timestamp)

pub Prunes-IsSplit :
    {World Selector : Type 0} (as_selector : Labels → Selector) (p : Pruner World Selector)
    (sort : SortSlice) (count : ℕ) (w w' : World) (pruned : List Object)
    → p.strategy ≡ new_prune_by_count_strategy sort (pos count)
    → (run : Prunes as_selector p w w' pruned)
    → (kept : List Object) × IsSplit kept run.offered count pruned
Prunes-IsSplit as_selector p sort count w w' pruned by_count run =
    let (kept, selected, says, same_objects, many, older) =
      new_prune_by_count_strategy-keeps sort count run.offered in
    let same =
      ok_inj (returned_inj (sym says ∙ ap (λ s. s run.offered) (sym by_count) ∙ run.selects)) in
    (kept, subst (IsSplit kept run.offered count) same (same_objects, many, older))

-- A run with the count strategy that returns has been offered objects of the pruner's kind that the
-- registry calls prunable, and has pruned all but `count` of them: those that are kept are none of
-- them newer than one that is pruned. (`sort` is the sort of Go's library.)
pub prune-keeps_count :
    {World Selector : Type 0} (as_selector : Labels → Selector) (p : Pruner World Selector)
    (sort : SortSlice) (count : ℕ) (w w' : World) (pruned : List Object)
    → p.strategy ≡ new_prune_by_count_strategy sort (pos count)
    → prune as_selector p w ≡ returned (w', ok pruned)
    → (listed : World) × (items : List Object) × (offered : List Object) × (kept : List Object)
      × (listing as_selector p w ≡ (listed, ok items))
      × Offers p items offered
      × All (Allowed p) offered
      × Perm (kept ++ pruned) offered
      × (length pruned ≡ length offered - count)
      × ((k o : Object) → Mem k kept → Mem o pruned → k.creation_timestamp ≤ o.creation_timestamp)
prune-keeps_count as_selector p sort count w w' pruned by_count h =
    let run = (prune_iff as_selector p w w' pruned).0 h in
    let (kept, (of_pruned, many, older)) =
      Prunes-IsSplit as_selector p sort count w w' pruned by_count run in
    (
      run.listed,
      run.items,
      run.offered,
      kept,
      run.lists,
      run.offers,
      Offers-Allowed p run.items run.offered run.offers,
      of_pruned,
      many,
      older,
    )

-- The count strategy selects among the objects that it is given.
pub count-SelectsAmong :
    (sort : SortSlice) (count : ℕ) → SelectsAmong (new_prune_by_count_strategy sort (pos count))
count-SelectsAmong sort count objs pruned h obj m =
    let (kept, selected, says, same_objects, _, _) =
      new_prune_by_count_strategy-keeps sort count objs in
    let same = ok_inj (returned_inj (sym says ∙ h)) in
    (Perm.mem_iff same_objects).0 (mem-append_right kept (subst (Mem obj) (sym same) m))
