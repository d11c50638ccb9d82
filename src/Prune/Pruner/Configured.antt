-- ===== src/Prune/Pruner/Configured.antt =====
-- The pruner that `NewPruner` of prune/prune.go makes of the options `WithNamespace` and `WithLabels`.
use operator_lib.Common.{
  ok_inj, String, Bool, true, false, ◌&&◌, List, [], ◌∷◌, map, returned, Result, ok, err,
  if◌then◌else◌, ◌≡◌, refl, sym, ap, ◌∙◌, Bool-cases, inl, inr, ◌==◌, ==_sound, string_eq,
}
use operator_lib.Objects.{GroupVersionKind, gvk_eq, gvk_beq}
use operator_lib.Prune.Registry.{
  Registry, Object, Error, plain, Body, pod, job, unstructured, is_prunable, default_registry,
  pod_gvk, default_pod_is_prunable, pod_body_is_prunable,
}
use operator_lib.Prune.Registry.Laws.{default_registry-is_prunable}
use operator_lib.Prune.Strategies.{StrategyFunc}
use operator_lib.Prune.Pruner.{
  Client, ListOptions, Pruner, PrunerOption, Labels, with_namespace, with_labels, apply_options,
  new_pruner, prune,
}
use mathlib.Core.Path.{subst}
use operator_lib.Prune.Pruner.Safety.{allowed, SelectsAmong, prune-keeps}

-- The options that the package offers.
pub data Setting : Type 0 where
  namespace : String → Setting
  labels : Labels → Setting

abbrev pub option : {World Selector : Type 0} → Setting → PrunerOption World Selector
option (namespace s) = with_namespace s
option (labels l) = with_labels l

-- What is set last, and what there was if nothing is.
unfoldable pub last_namespace : List Setting → String → String
last_namespace [] s = s
last_namespace (namespace s' ∷ settings) s = last_namespace settings s'
last_namespace (labels l ∷ settings) s = last_namespace settings s

unfoldable pub last_labels : List Setting → Labels → Labels
last_labels [] l = l
last_labels (namespace s ∷ settings) l = last_labels settings l
last_labels (labels l' ∷ settings) l = last_labels settings l'

module _ {World Selector : Type 0} where
  apply_options_lem :
      (settings : List Setting) (p : Pruner World Selector)
      → apply_options (map option settings) p ≡ record p {
        labels = last_labels settings p.labels;
        namespace = last_namespace settings p.namespace;
      }
  unfolding apply_options last_labels last_namespace with_namespace with_labels
  apply_options_lem [] p = refl
  apply_options_lem (namespace s ∷ settings) p = apply_options_lem settings _
  apply_options_lem (labels l ∷ settings) p = apply_options_lem settings _

-- The pruner of the settings.
abbrev pub configured :
    {World Selector : Type 0}
    → Registry
    → Client World Selector
    → GroupVersionKind
    → StrategyFunc
    → List Setting
    → Pruner World Selector
configured default c gvk strategy settings = record {
  registry = default;
  client = c;
  gvk = gvk;
  strategy = strategy;
  labels = last_labels settings [];
  namespace = last_namespace settings "";
}

-- `NewPruner` refuses an empty kind; else the pruner has the kind, the client and the strategy given,
-- the copy of the default registry, and the namespace and the labels that the options set last, or none.
pub new_pruner-configures :
    {World Selector : Type 0} (default : Registry) (is_empty : GroupVersionKind → Bool)
    (c : Client World Selector) (gvk : GroupVersionKind) (strategy : StrategyFunc)
    (settings : List Setting)
    → new_pruner default is_empty c gvk strategy (map option settings) ≡ (
        if is_empty gvk
        then err (plain "error when creating a new Pruner: gvk parameter can not be empty")
        else ok (configured default c gvk strategy settings))
unfolding new_pruner
new_pruner-configures default is_empty c gvk strategy settings = elim (Bool-cases (is_empty gvk)) [
  | inl empty ↦ rw empty refl
  | inr given ↦ rw given (ap ok (apply_options_lem settings _))
]

ok_made :
    {World Selector : Type 0} (b : Bool) (e : Error) (q p : Pruner World Selector)
    → ◌≡◌ {A = Result Error (Pruner World Selector)} (if b then err e else ok q) (ok p)
    → q ≡ p
ok_made true e q p h = cc
ok_made false e q p h = ok_inj h

pub made_by :
    {World Selector : Type 0} (default : Registry) (is_empty : GroupVersionKind → Bool)
    (c : Client World Selector) (gvk : GroupVersionKind) (strategy : StrategyFunc)
    (settings : List Setting) (p : Pruner World Selector)
    → new_pruner default is_empty c gvk strategy (map option settings) ≡ ok p
    → configured default c gvk strategy settings ≡ p
made_by default is_empty c gvk strategy settings p makes =
    ok_made (is_empty gvk) _ (configured default c gvk strategy settings) p
      (sym (new_pruner-configures default is_empty c gvk strategy settings) ∙ makes)

pub and_both : (a b : Bool) → (a && b) ≡ true → (a ≡ true) × (b ≡ true)
and_both true b h = (refl, h)
and_both false b h = cc

pod_is_prunable :
    (obj : Object)
    → obj.group_version_kind ≡ pod_gvk
    → is_prunable default_registry obj ≡ pod_body_is_prunable obj obj.body
unfolding default_pod_is_prunable gvk_beq
pod_is_prunable obj e = default_registry-is_prunable obj ∙ rw e refl

allowed_body :
    (obj : Object) (b : Body) → allowed (pod_body_is_prunable obj b) ≡ true → b ≡ pod "Succeeded"
unfolding pod_body_is_prunable
allowed_body obj (pod phase) h = elim (Bool-cases (phase == "Succeeded")) [
  | inl done ↦ ap pod (==_sound phase "Succeeded" done)
  | inr running ↦ let h' = rw running at h in cc
]
allowed_body obj (job t) h = cc
allowed_body obj unstructured h = cc

-- The default registry allows the pods that have succeeded and no others.
Allowed_succeeded :
    (obj : Object)
    → (allowed (is_prunable default_registry obj) && (obj.group_version_kind == pod_gvk)) ≡ true
    → (obj.group_version_kind ≡ pod_gvk) × (obj.body ≡ pod "Succeeded")
Allowed_succeeded obj h =
    let (verdict, kind) =
      and_both (allowed (is_prunable default_registry obj)) (obj.group_version_kind == pod_gvk) h in
    let is_pod = ==_sound obj.group_version_kind pod_gvk kind in
    (is_pod, allowed_body obj obj.body (sym (ap allowed (pod_is_prunable obj is_pod)) ∙ verdict))

-- Whatever holds of the world, and is kept by a listing and by a deletion of a pod that has
-- succeeded, holds after `Prune` of a pruner that `NewPruner` makes for pods with the registry as the package
-- fills it, an error included. (The strategy selects among the objects that it is given; the options are the package's.)
pub new_pruner-keeps_pods :
    {World Selector : Type 0} (is_empty : GroupVersionKind → Bool) (as_selector : Labels → Selector)
    (c : Client World Selector) (strategy : StrategyFunc) (settings : List Setting)
    (p : Pruner World Selector) (Inv : World → Type 0)
    → new_pruner default_registry is_empty c pod_gvk strategy (map option settings) ≡ ok p
    → SelectsAmong strategy
    → ((opts : ListOptions Selector) (w : World) → Inv w → Inv (c.list pod_gvk opts w).0)
    → ((obj : Object) (w : World)
        → obj.group_version_kind ≡ pod_gvk
        → obj.body ≡ pod "Succeeded"
        → Inv w
        → Inv (c.delete obj w).0)
    → (w w' : World) (r : Result Error (List Object)) → prune as_selector p w ≡ returned (w', r)
    → Inv w
    → Inv w'
new_pruner-keeps_pods {World} is_empty as_selector c strategy settings p Inv makes selects lists
      deletes =
    subst
      (λ q.
        (w w' : World) (r : Result Error (List Object))
        → prune as_selector q w ≡ returned (w', r)
        → Inv w
        → Inv w')
      (made_by default_registry is_empty c pod_gvk strategy settings p makes)
      (prune-keeps as_selector (configured default_registry c pod_gvk strategy settings) Inv selects
        lists
        (λ obj w h.
          let (kind, succeeded) = Allowed_succeeded obj h in deletes obj w kind succeeded))
