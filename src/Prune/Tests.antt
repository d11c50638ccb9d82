-- ===== src/Prune/Tests.antt =====
-- Runs of the pruner in a small cluster.
mod Runs
use operator_lib.Prune.Registry.Defaults.{IsDone, default_registry-prunable_iff}
use operator_lib.Common.{
  returned_inj, ok_inj, ℕ, ◌≤◌, ◌<◌, ◌-◌, String, Bool, true, false, List, [], ◌∷◌, ◌++◌, length,
  Option, none, some, returned, if◌then◌else◌, ok, ◌≡◌, refl, sym, ◌∙◌, ◌&&◌, ◌↔◌, ◌≢◌, ◌==◌, All,
}
use operator_lib.Common.Int.{pos}
use operator_lib.Objects.{name_beq, gvk_beq, gvk_eq}
use operator_lib.Common.Maps.{lookup, insert}
use operator_lib.Prune.Registry.{
  default_pod_is_prunable, pod_body_is_prunable, default_job_is_prunable, is_unprunable,
  as_unprunable, register_is_prunable_func, pod, job, Object, is_prunable, default_registry,
  pod_gvk, job_gvk,
}
use operator_lib.Prune.Registry.Laws.{
  is_prunable-register, default_registry-pod_iff, default_registry-job_iff,
}
use operator_lib.Prune.Strategies.{
  new_prune_by_count_strategy, new_prune_by_date_strategy, created_after,
}
use operator_lib.Prune.Strategies.Laws.{
  new_prune_by_count_strategy-keeps, new_prune_by_date_strategy-filter,
}
use operator_lib.Prune.Sorting.{sorting}
use operator_lib.Prune.Pruner.{
  Client, Pruner, Labels, prune_listed, prune_collected, prune_selected, delete_all, collect,
  inspect, inspect_converted, judge, convert, convert_to, set_kind, prune,
}
use operator_lib.Prune.Pruner.Relation.{Prunes}
use operator_lib.Prune.Pruner.Refinement.{prune_iff}
use operator_lib.Prune.Pruner.ByDate.{PrunesAfter, prune-PrunesAfter_iff, date-SelectsAmong}
use operator_lib.Prune.Pruner.Safety.{prune-keeps, SelectsAmong, allowed}
use native.Mathlib.Decide.{dec_lt}
use mathlib.Core.List.{Mem, Perm, filter, filter-sublist}
use mathlib.Core.List.Sublist

-- What a run of the pruner computes by.
unfoldable pub pruning : Unit {0}
unfolding prune prune_listed prune_collected prune_selected delete_all collect inspect
    inspect_converted judge convert convert_to set_kind is_prunable default_registry
    register_is_prunable_func lookup insert default_pod_is_prunable pod_body_is_prunable
    default_job_is_prunable is_unprunable as_unprunable gvk_beq name_beq new_prune_by_count_strategy
    new_prune_by_date_strategy created_after
pruning = tt

abbrev pub pod_of : (name : String) (created : ℕ) (phase : String) → Object
pod_of name created phase = record {
  group_version_kind = pod_gvk;
  key = record { namespace = "ns"; name = name };
  creation_timestamp = created;
  body = pod phase;
}

abbrev pub pods : List Object
pods = pod_of "b" 3 "Succeeded" ∷ pod_of "a" 1 "Succeeded" ∷ pod_of "c" 2 "Running" ∷ []

-- The newer of the two pods that may be pruned is selected, not the oldest.
newest_selected :
    new_prune_by_count_strategy sorting
      (pos 1)
      (pod_of "b" 3 "Succeeded" ∷ pod_of "a" 1 "Succeeded" ∷ [])
    ≡ returned (ok (pod_of "b" 3 "Succeeded" ∷ []))
unfolding new_prune_by_count_strategy
newest_selected = refl

-- The world is the list of what has been deleted.
abbrev pub cluster : Client (List Object) Labels
cluster = record {
  list = λ gvk opts w. (w, ok pods);
  delete = λ obj w. (obj ∷ w, none);
  new = λ gvk. ok (some (pod_of "" 0 ""));
  convert_into = λ obj obj2. ok obj;
}

abbrev pub pruner : Pruner (List Object) Labels
pruner = record {
  registry = default_registry;
  client = cluster;
  gvk = pod_gvk;
  strategy = new_prune_by_count_strategy sorting (pos 1);
  labels = [];
  namespace = "ns";
}

pub pruned_newest :
    prune (λ labels. labels) pruner []
    ≡ returned (pod_of "b" 3 "Succeeded" ∷ [], ok (pod_of "b" 3 "Succeeded" ∷ []))
unfolding pruning
pruned_newest = refl

abbrev job_of : Option ℕ → Object
job_of t = record {
  group_version_kind = job_gvk;
  key = record { namespace = "ns"; name = "j" };
  creation_timestamp = 1;
  body = job t;
}

default_registry-prunable_iff_example :
    (is_prunable default_registry (job_of (some 5)) ≡ returned none) ↔ IsDone (job_of (some 5))
default_registry-prunable_iff_example = default_registry-prunable_iff (job_of (some 5))

new_prune_by_count_strategy-keeps_example :
    (kept : List Object) × (pruned : List Object) × (new_prune_by_count_strategy sorting
        (pos 1)
        pods
      ≡ returned (ok pruned))
    × Perm (kept ++ pruned) pods
    × (length pruned ≡ length pods - 1)
    × ((k p : Object) → Mem k kept → Mem p pruned → k.creation_timestamp ≤ p.creation_timestamp)
new_prune_by_count_strategy-keeps_example = new_prune_by_count_strategy-keeps sorting 1 pods

prune_iff_example :
    (prune (λ labels. labels) pruner []
      ≡ returned (pod_of "b" 3 "Succeeded" ∷ [], ok (pod_of "b" 3 "Succeeded" ∷ [])))
    ↔ Prunes
        (λ labels. labels)
        pruner
        []
        (pod_of "b" 3 "Succeeded" ∷ [])
        (pod_of "b" 3 "Succeeded" ∷ [])
prune_iff_example =
    prune_iff (λ labels. labels) pruner [] (pod_of "b" 3 "Succeeded" ∷ [])
      (pod_of "b" 3 "Succeeded" ∷ [])

abbrev by_date : Pruner (List Object) Labels
by_date = record pruner { strategy = new_prune_by_date_strategy 1 }

and_right : (a b : Bool) → (a && b) ≡ true → b ≡ true
and_right true b h = h
and_right false b h = cc

prune-keeps_example :
    All (λ o. (o.group_version_kind == pod_gvk) ≡ true) (pod_of "b" 3 "Succeeded" ∷ [])
unfolding pruning
prune-keeps_example =
    prune-keeps (λ labels. labels) by_date (All (λ o. (o.group_version_kind == pod_gvk) ≡ true))
      (date-SelectsAmong 1) (λ opts w h. h)
      (λ obj w h inv. (
        and_right (allowed (is_prunable default_registry obj)) (obj.group_version_kind == pod_gvk)
            h,
        inv,
      ))
      [] (pod_of "b" 3 "Succeeded" ∷ []) (ok (pod_of "b" 3 "Succeeded" ∷ [])) refl tt

prune-PrunesAfter_iff_example :
    (prune (λ labels. labels) by_date []
      ≡ returned (pod_of "b" 3 "Succeeded" ∷ [], ok (pod_of "b" 3 "Succeeded" ∷ [])))
    ↔ PrunesAfter
        (λ labels. labels)
        by_date
        1
        []
        (pod_of "b" 3 "Succeeded" ∷ [])
        (pod_of "b" 3 "Succeeded" ∷ [])
prune-PrunesAfter_iff_example =
    prune-PrunesAfter_iff (λ labels. labels) by_date 1 [] (pod_of "b" 3 "Succeeded" ∷ [])
      (pod_of "b" 3 "Succeeded" ∷ []) refl
