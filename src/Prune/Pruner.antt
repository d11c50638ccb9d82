-- ===== src/Prune/Pruner.antt =====
-- prune/prune.go: the pruner, whose calls of the API server and of the scheme are parameters.
pub mod Relation
pub mod Steps
pub mod Refinement
pub mod Safety
pub mod Failures
pub mod Errors
pub mod Count
pub mod ByDate
pub mod Configured
pub mod Registered
pub mod Store
pub mod Settles
use operator_lib.Common.{
  String, Bool, List, [], ◌∷◌, ◌++◌, Option, none, some, Outcome, returned, panicked, bind, Result,
  ok, err, if◌then◌else◌,
}
use operator_lib.Objects.{GroupVersionKind}
use operator_lib.Prune.Registry.{
  Object, Error, plain, wrapped, is_unprunable, Registry, is_prunable,
}
use operator_lib.Prune.Strategies.{StrategyFunc}

abbrev pub Labels : Type 0
Labels = List (String × String)

-- `client.ListOptions`
pub record ListOptions (Selector : Type 0) : Type 0 where
  pub label_selector : Selector
  pub namespace : String

-- What is called of a `client.Client`, over the states `World` of all that is not the pruner.
-- `new` is `Scheme().New`, with `none` for a type that is no `client.Object`; `convert_into` is
-- `Scheme().Convert`, with the destination that it leaves.
pub record Client (World Selector : Type 0) : Type 0 where
  pub list : GroupVersionKind → ListOptions Selector → World → World × Result Error (List Object)
  pub delete : Object → World → World × Option Error
  pub new : GroupVersionKind → Result Error (Option Object)
  pub convert_into : Object → Object → Result Error Object

-- `Pruner`
pub record Pruner (World Selector : Type 0) : Type 0 where
  pub registry : Registry
  pub client : Client World Selector
  pub gvk : GroupVersionKind
  pub strategy : StrategyFunc
  pub labels : Labels
  pub namespace : String

-- `PrunerOption`
abbrev pub PrunerOption : (World Selector : Type 0) → Type 0
PrunerOption World Selector = Pruner World Selector → Pruner World Selector

unfoldable pub set_kind : GroupVersionKind → Result Error Object → Result Error Object
set_kind gvk (ok obj) = ok (record obj { group_version_kind = gvk })
set_kind gvk (err e) = err e

-- How an iteration of the first loop ends: with no object, with one, or with an error.
unfoldable pub judge : Object → Option Error → Result Error (Option Object)
judge obj e = if is_unprunable e then ok none else elim e [ some e ↦ err e | none ↦ ok (some obj) ]

unfoldable pub inspect_converted :
    Registry → Result Error Object → Outcome (Result Error (Option Object))
inspect_converted r (err e) = returned (err e)
inspect_converted r (ok obj) = bind (is_prunable r obj) (λ e. returned (judge obj e))

module _ {World Selector : Type 0} where
  -- `WithNamespace`, `WithLabels`
  unfoldable pub with_namespace : String → PrunerOption World Selector
  with_namespace namespace p = record p { namespace = namespace }

  unfoldable pub with_labels : Labels → PrunerOption World Selector
  with_labels labels p = record p { labels = labels }

  unfoldable pub apply_options : List (PrunerOption World Selector) → PrunerOption World Selector
  apply_options [] p = p
  apply_options (opt ∷ opts) p = apply_options opts (opt p)

  -- `NewPruner`, which copies `defaultRegistry`; `is_empty` is the method `Empty` of a
  -- `schema.GroupVersionKind`
  unfoldable pub new_pruner :
      (default : Registry)
      → (is_empty : GroupVersionKind → Bool) → Client World Selector
      → GroupVersionKind
      → StrategyFunc
      → List (PrunerOption World Selector)
      → Result Error (Pruner World Selector)
  new_pruner default is_empty prunerClient gvk strategy opts =
      if is_empty gvk
      then err (plain "error when creating a new Pruner: gvk parameter can not be empty")
      else ok (
          apply_options opts (record {
            registry = default;
            client = prunerClient;
            gvk = gvk;
            strategy = strategy;
            labels = [];
            namespace = "";
          }))

  unfoldable pub convert_to :
      Client World Selector
      → GroupVersionKind
      → Object
      → Result Error (Option Object)
      → Outcome (Result Error Object)
  convert_to c gvk obj (err e) = returned (err e)
  convert_to c gvk obj (ok none) = panicked
  convert_to c gvk obj (ok (some obj2)) = returned (set_kind gvk (c.convert_into obj obj2))

  -- `convert`; the type assertion panics
  unfoldable pub convert :
      Client World Selector → GroupVersionKind → Object → Outcome (Result Error Object)
  convert c gvk obj = convert_to c gvk obj (c.new gvk)

  unfoldable pub inspect : Pruner World Selector → Object → Outcome (Result Error (Option Object))
  inspect p item = bind (convert p.client p.gvk item) (inspect_converted p.registry)

  -- The first loop of `Prune`, with the slice that it appends to.
  unfoldable pub collect :
      Pruner World Selector
      → List Object
      → (objs : List Object) → Outcome (Result Error (List Object))
  collect p [] objs = returned (ok objs)
  collect p (item ∷ items) objs = bind (inspect p item) (λ r. elim r [
    | err e ↦ returned (err e)
    | ok none ↦ collect p items objs
    | ok (some obj) ↦ collect p items (objs ++ (obj ∷ []))
  ])

  -- The second loop of `Prune`.
  unfoldable pub delete_all : Client World Selector → List Object → World → World × Option Error
  delete_all c [] w = (w, none)
  delete_all c (obj ∷ objs) w =
      let deleted = c.delete obj w in
      elim deleted.1 [
        | some e ↦ (deleted.0, some (wrapped "error pruning object: " e))
        | none ↦ delete_all c objs deleted.0
      ]

  unfoldable pub prune_selected :
      Pruner World Selector
      → World
      → Result Error (List Object)
      → World × Result Error (List Object)
  prune_selected p w (err e) = (w, err (wrapped "error determining prunable objects: " e))
  prune_selected p w (ok objs_to_prune) =
      let deleted = delete_all p.client objs_to_prune w in
      (deleted.0, elim deleted.1 [ none ↦ ok objs_to_prune | some e ↦ err e ])

  unfoldable pub prune_collected :
      Pruner World Selector
      → World
      → Result Error (List Object)
      → Outcome (World × Result Error (List Object))
  prune_collected p w (err e) = returned (w, err e)
  prune_collected p w (ok objs) = bind (p.strategy objs) (λ r. returned (prune_selected p w r))

  unfoldable pub prune_listed :
      Pruner World Selector
      → World × Result Error (List Object)
      → Outcome (World × Result Error (List Object))
  prune_listed p (w, err e) = returned (w, err (wrapped "error getting a list of resources: " e))
  prune_listed p (w, ok items) = bind (collect p items []) (prune_collected p w)

  -- `Pruner.Prune`, where `as_selector` is `labels.Set.AsSelector`
  unfoldable pub prune :
      (as_selector : Labels → Selector)
      → Pruner World Selector
      → World
      → Outcome (World × Result Error (List Object))
  prune as_selector p w = prune_listed p (
      p.client.list p.gvk
        (record { label_selector = as_selector p.labels; namespace = p.namespace }) w)
