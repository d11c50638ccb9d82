-- ===== src/Prune/Pruner/Settles.antt =====
-- What a second run of the pruner does.
use operator_lib.Common.{
  ok_inj, ℕ, ◌≤◌, ◌+◌, ◌∷◌, List, [], ◌++◌, length, returned, ok, ◌≡◌, sym, ap, ◌∙◌, arith,
}
use operator_lib.Common.Int.{pos}
use mathlib.Core.Path.{subst}
use operator_lib.Prune.Registry.{Object}
use operator_lib.Prune.Strategies.{SortSlice, new_prune_by_count_strategy}
use operator_lib.Prune.Strategies.Laws.{length-Perm}
use operator_lib.Prune.Pruner.{Pruner, Labels, prune}
use operator_lib.Prune.Pruner.Relation.{Offers, Deletes}
use operator_lib.Prune.Pruner.Errors.{listing}
use operator_lib.Prune.Pruner.Refinement.{prune_iff}
use operator_lib.Prune.Pruner.Count.{Prunes-IsSplit}
use operator_lib.Prune.Pruner.Store.{
  KeepsKeys, without_all, Offers-without_all, length-without_all-of_kept,
}

length-append : (xs ys : List Object) → length (xs ++ ys) ≡ length xs + length ys
length-append [] ys = omega arith
length-append (x ∷ xs) ys = omega (arith, length-append xs ys)

few_selected :
    (sort : SortSlice) (count : ℕ) (objs : List Object)
    → length objs ≤ count
    → new_prune_by_count_strategy sort (pos count) objs ≡ returned (ok [])
unfolding new_prune_by_count_strategy
few_selected sort count objs few = ground arith

-- After a run with the count strategy that returns, another one, for which the same objects are listed
-- less those that were pruned, finds no more than `count` objects that may be pruned, returns nothing
-- and deletes nothing. (So the deletions have taken effect by then and nothing else has changed; an
-- object keeps its key when it is converted; `sort` is the sort of Go's library.)
pub prune-settles :
    {World Selector : Type 0} (as_selector : Labels → Selector) (p : Pruner World Selector)
    (sort : SortSlice) (count : ℕ) (w listed w' u u' : World) (items pruned : List Object)
    → KeepsKeys p
    → p.strategy ≡ new_prune_by_count_strategy sort (pos count)
    → listing as_selector p w ≡ (listed, ok items)
    → prune as_selector p w ≡ returned (w', ok pruned)
    → listing as_selector p u ≡ (u', ok (without_all pruned items))
    → ((offered : List Object) × Offers p (without_all pruned items) offered
        × (length offered ≤ count))
      × (prune as_selector p u ≡ returned (u', ok []))
prune-settles as_selector p sort count w listed w' u u' items pruned converts by_count lists h
      later =
    let run = (prune_iff as_selector p w w' pruned).0 h in
    let (kept, (split, many, older)) =
      Prunes-IsSplit as_selector p sort count w w' pruned by_count run in
    let left = without_all pruned run.offered in
    let few : length left ≤ count = omega (
      arith,
      length-without_all-of_kept kept pruned run.offered split,
      length-Perm _ _ split,
      length-append kept pruned,
      many,
    ) in
    let offers =
      subst (λ l. Offers p (without_all pruned l) left)
        (ok_inj (ap (λ x. x.1) (sym run.lists ∙ lists)))
        (Offers-without_all p converts pruned run.items run.offered run.offers) in
    (
      (left, offers, few),
      (prune_iff as_selector p u u' []).1 (record {
        listed = u';
        items = without_all pruned items;
        offered = left;
        lists = later;
        offers = offers;
        selects = ap (λ s. s left) by_count ∙ few_selected sort count left few;
        deletes = Deletes.done;
      }),
    )
