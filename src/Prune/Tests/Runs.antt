-- ===== src/Prune/Tests/Runs.antt =====
-- Runs of the pruner that fail or must return, and registrations beside a pruner.
use operator_lib.Common.{
  returned_inj, ok_inj, ◌==◌, ◌&&◌, Bool, map, string_eq, ◌≤◌, ◌-◌, String, List, [], ◌∷◌, ◌++◌,
  length, Option, none, some, returned, ok, err, ◌≡◌, refl, sym, ap, ◌↔◌, All,
}
use operator_lib.Common.Int.{pos}
use operator_lib.Objects.{name_beq, GroupVersionKind, gvk_eq}
use operator_lib.Prune.Registry.{
  Object, Error, plain, wrapped, Body, pod, job, unstructured, default_registry, pod_gvk,
}
use operator_lib.Prune.Pruner.Registered.{registered-keeps}
use operator_lib.Prune.Registry.Shared.{
  entries, register, store, made, Registrations, register_all, contents, init,
}
use operator_lib.Prune.Strategies.{StrategyFunc, new_prune_by_count_strategy}
use operator_lib.Prune.Sorting.{sorting}
use operator_lib.Prune.Pruner.{new_pruner, Pruner, Labels, convert, prune}
use operator_lib.Prune.Pruner.Relation.{Offers}
use operator_lib.Prune.Pruner.Safety.{Allowed}
use operator_lib.Prune.Pruner.Errors.{listing, FailsWith, prune_fails_iff}
use operator_lib.Prune.Pruner.Count.{prune-keeps_count, count-SelectsAmong}
use operator_lib.Prune.Pruner.Store.{without, without_all}
use operator_lib.Prune.Pruner.Settles.{prune-settles}
use operator_lib.Prune.Pruner.Configured.{
  Setting, namespace, labels, option, last_labels, last_namespace, new_pruner-configures,
  new_pruner-keeps_pods,
}
use operator_lib.Prune.Tests.{pruning, pruned_newest, pod_of, pods, cluster, pruner}
use mathlib.Core.List.{Mem, Perm}

-- A cluster that refuses every deletion after the first.
abbrev refuse : List Object → Option Error
refuse [] = none
refuse (o ∷ w) = some (plain "forbidden")

abbrev refusing : Pruner (List Object) Labels
refusing = record pruner {
  client = record cluster { delete = λ obj w. (obj ∷ w, refuse w) };
  strategy = new_prune_by_count_strategy sorting (pos 0);
}

abbrev deleted : List Object
deleted = pod_of "b" 3 "Succeeded" ∷ pod_of "a" 1 "Succeeded" ∷ []

abbrev refusal : Error
refusal = wrapped "error pruning object: " (plain "forbidden")

prune_refused : prune (λ l. l) refusing [] ≡ returned (deleted, err refusal)
unfolding pruning
prune_refused = refl

prune_fails_iff_example :
    (prune (λ l. l) refusing [] ≡ returned (deleted, err refusal))
    ↔ FailsWith (λ l. l) refusing [] deleted refusal
prune_fails_iff_example = prune_fails_iff (λ l. l) refusing [] deleted refusal

-- A scheme that makes a pod of anything.
abbrev phase : Body → String
phase (pod s) = s
phase (job t) = ""
phase unstructured = ""

prune-keeps_count_example :
    (listed : List Object) × (items : List Object) × (offered : List Object) × (kept : List Object)
    × (listing (λ l. l) pruner [] ≡ (listed, ok items))
    × Offers pruner items offered
    × All (Allowed pruner) offered
    × Perm (kept ++ (pod_of "b" 3 "Succeeded" ∷ [])) offered
    × (1 ≡ length offered - 1)
    × ((k o : Object)
        → Mem k kept
        → Mem o (pod_of "b" 3 "Succeeded" ∷ [])
        → k.creation_timestamp ≤ o.creation_timestamp)
prune-keeps_count_example =
    prune-keeps_count (λ l. l) pruner sorting 1 [] (pod_of "b" 3 "Succeeded" ∷ [])
      (pod_of "b" 3 "Succeeded" ∷ []) refl pruned_newest

-- Pods are allowed whatever their phase.
abbrev any_pod : Registrations
any_pod = (pod_gvk, λ o. returned none) ∷ []

-- A pruner for pods, of which a label and then two namespaces are set.
abbrev no_kind : GroupVersionKind → Bool
no_kind gvk = gvk.group == "" && gvk.version == "" && gvk.kind == ""

abbrev settings : List Setting
settings = labels (("app", "demo") ∷ []) ∷ namespace "default" ∷ namespace "ns" ∷ []

abbrev newest_one : StrategyFunc
newest_one = new_prune_by_count_strategy sorting (pos 1)

abbrev demo_pruner : Pruner (List Object) Labels
demo_pruner = record pruner { labels = ("app", "demo") ∷ [] }

makes_demo :
    new_pruner default_registry no_kind cluster pod_gvk newest_one (map option settings)
    ≡ ok demo_pruner
unfolding last_labels last_namespace
makes_demo = new_pruner-configures default_registry no_kind cluster pod_gvk newest_one settings

new_pruner-keeps_pods_example : All (λ o. o.body ≡ pod "Succeeded") (pod_of "b" 3 "Succeeded" ∷ [])
unfolding pruning
new_pruner-keeps_pods_example =
    new_pruner-keeps_pods no_kind (λ l. l) cluster newest_one settings demo_pruner
      (All (λ o. o.body ≡ pod "Succeeded")) makes_demo (count-SelectsAmong sorting 1)
      (λ opts w h. h) (λ obj w kind succeeded inv. (succeeded, inv)) []
      (pod_of "b" 3 "Succeeded" ∷ []) (ok (pod_of "b" 3 "Succeeded" ∷ [])) refl tt

-- The pruner is made, and then another function is registered for pods.
registering : Unit {0}
unfolding pruning contents register_all init entries register store made
registering = tt

abbrev early : Pruner (List Object) Labels
early = record demo_pruner { registry = contents init.1 init.0 }

makes_early :
    new_pruner (contents init.1 init.0) no_kind cluster pod_gvk newest_one (map option settings)
    ≡ ok early
unfolding last_labels last_namespace
makes_early =
    new_pruner-configures (contents init.1 init.0) no_kind cluster pod_gvk newest_one settings

abbrev newer_two : List Object
newer_two = pod_of "c" 2 "Running" ∷ pod_of "b" 3 "Succeeded" ∷ []

-- The running pod goes too, since the function that is asked now allows it.
registered-keeps_example :
    All
      (λ o. o.group_version_kind ≡ pod_gvk)
      (pod_of "b" 3 "Succeeded" ∷ pod_of "c" 2 "Running" ∷ [])
unfolding registering
registered-keeps_example =
    registered-keeps [] any_pod no_kind (λ l. l) cluster pod_gvk newest_one settings early
      (All (λ o. o.group_version_kind ≡ pod_gvk)) makes_early (count-SelectsAmong sorting 1)
      (λ opts w h. h) (λ obj w kind says inv. (kind, inv)) []
      (pod_of "b" 3 "Succeeded" ∷ pod_of "c" 2 "Running" ∷ []) (ok newer_two) refl tt

-- A cluster that stores the pods, and in which every conversion leaves an object as it is.
abbrev storing : Pruner (List Object) Labels
storing = record pruner {
  client = record cluster {
    list = λ gvk opts w. (w, ok w);
    delete = λ obj w. (without obj w, none);
  };
}

storing-converts :
    (item obj : Object)
    → convert storing.client pod_gvk item ≡ returned (ok obj)
    → obj.key ≡ item.key
unfolding pruning
storing-converts item obj h = sym (ap (λ (o : Object). o.key) (ok_inj (returned_inj h)))

abbrev left : List Object
left = pod_of "a" 1 "Succeeded" ∷ pod_of "c" 2 "Running" ∷ []

pruned_stored : prune (λ l. l) storing pods ≡ returned (left, ok (pod_of "b" 3 "Succeeded" ∷ []))
unfolding pruning
pruned_stored = refl

prune-settles_example :
    ((offered : List Object) × Offers storing
        (without_all (pod_of "b" 3 "Succeeded" ∷ []) pods)
        offered
      × (length offered ≤ 1))
    × (prune (λ l. l) storing left ≡ returned (left, ok []))
unfolding without_all name_beq
prune-settles_example =
    prune-settles (λ l. l) storing sorting 1 pods pods left left left pods
      (pod_of "b" 3 "Succeeded" ∷ []) storing-converts refl refl pruned_stored refl
