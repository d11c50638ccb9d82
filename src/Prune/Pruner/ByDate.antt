-- ===== src/Prune/Pruner/ByDate.antt =====
-- What a run of the pruner with the date strategy of prune/strategies.go prunes.
use operator_lib.Common.{returned_inj, ok_inj, ℕ, ◌<◌, List, returned, ok, ◌≡◌, sym, ap, ◌∙◌, ◌↔◌}
use native.Mathlib.Decide.{dec_lt}
use mathlib.Core.List.{filter, filter-sublist}
use mathlib.Core.List.Sublist
use operator_lib.Prune.Registry.{Object}
use operator_lib.Prune.Strategies.{new_prune_by_date_strategy}
use operator_lib.Prune.Strategies.Laws.{new_prune_by_date_strategy-filter}
use operator_lib.Prune.Pruner.{Pruner, Labels, prune}
use operator_lib.Prune.Pruner.Relation.{Offers, Deletes}
use operator_lib.Prune.Pruner.Refinement.{prune_iff}
use operator_lib.Prune.Pruner.Safety.{SelectsAmong}
use operator_lib.Prune.Pruner.Errors.{listing}

-- `pruned` is what was created after the date, of the objects listed that may be pruned, in order; and
-- all of it has been deleted.
abbrev pub PrunesAfter :
    {World Selector : Type 0}
    → (Labels → Selector)
    → Pruner World Selector
    → (date : ℕ) (w w' : World) (pruned : List Object) → Type 0
PrunesAfter {World} as_selector p date w w' pruned =
    (listed : World) × (items : List Object) × (offered : List Object) × (listing as_selector p w
      ≡ (listed, ok items))
    × Offers p items offered
    × (pruned ≡ filter (λ o. dec_lt date o.creation_timestamp) offered)
    × Deletes p.client pruned listed w'

-- A run with the date strategy returns `pruned` exactly if `pruned` is what was created after the
-- date, of the objects listed that may be pruned, in the order in which they were listed, and every
-- one of them has been deleted.
pub prune-PrunesAfter_iff :
    {World Selector : Type 0} (as_selector : Labels → Selector) (p : Pruner World Selector)
    (date : ℕ) (w w' : World) (pruned : List Object)
    → p.strategy ≡ new_prune_by_date_strategy date
    → (prune as_selector p w ≡ returned (w', ok pruned))
      ↔ PrunesAfter as_selector p date w w' pruned
prune-PrunesAfter_iff as_selector p date w w' pruned by_date = (
  (λ h.
      let run = (prune_iff as_selector p w w' pruned).0 h in
      (
        run.listed,
        run.items,
        run.offered,
        run.lists,
        run.offers,
        ok_inj (returned_inj (sym run.selects ∙ says run.offered)),
        run.deletes,
      )),
  (λ (listed, items, offered, lists, offers, same, deletes).
      (prune_iff as_selector p w w' pruned).1 (record {
        listed = listed;
        items = items;
        offered = offered;
        lists = lists;
        offers = offers;
        selects = says offered ∙ ap (λ l. returned (ok l)) (sym same);
        deletes = deletes;
      })),
)
  where
    says :
        (offered : List Object)
        → p.strategy offered
          ≡ returned (ok (filter (λ o. dec_lt date o.creation_timestamp) offered))
    says offered = ap (λ s. s offered) by_date ∙ new_prune_by_date_strategy-filter date offered

-- The date strategy selects among the objects that it is given.
pub date-SelectsAmong : (date : ℕ) → SelectsAmong (new_prune_by_date_strategy date)
date-SelectsAmong date objs pruned h obj m =
    Sublist.subset (filter-sublist created_later {l = objs}) obj
      (rw (ok_inj (returned_inj (sym (new_prune_by_date_strategy-filter date objs) ∙ h))) m)
  where
    created_later : (o : Object) → Dec (date < o.creation_timestamp)
    created_later o = dec_lt date o.creation_timestamp
