-- ===== src/Prune/Pruner/Registered.antt =====
-- prune/prune.go and prune/registry.go together: a pruner asks the functions that are registered
-- when it runs, also those that were registered after `NewPruner` had made it.
use operator_lib.Common.{
  Bool, true, false, List, [], ◌∷◌, ◌++◌, map, Option, none, some, Outcome, returned, Result, ok,
  if◌then◌else◌, ◌≡◌, refl, sym, ap, ◌∙◌, ◌==◌, ==_sound,
}
use mathlib.Core.Path.{subst}
use operator_lib.Objects.{GroupVersionKind, gvk_eq}
use operator_lib.Prune.Registry.{
  Object, Error, IsPrunableFunc, Registry, is_prunable, default_registry, register_is_prunable_func,
}
use operator_lib.Prune.Registry.Laws.{is_prunable-register}
use operator_lib.Prune.Registry.Shared.{
  Heap, MapRegistry, contents, Registrations, register_all, init,
}
use operator_lib.Prune.Registry.Aliasing.{registered, copied_registry_follows}
use operator_lib.Prune.Strategies.{StrategyFunc}
use operator_lib.Prune.Pruner.{Client, ListOptions, Pruner, Labels, new_pruner, prune}
use operator_lib.Prune.Pruner.Safety.{allowed, SelectsAmong, prune-keeps}
use operator_lib.Prune.Pruner.Configured.{Setting, option, configured, made_by, and_both}

-- The function that was registered last for a kind.
unfoldable pub last_registered : Registrations → GroupVersionKind → Option IsPrunableFunc
last_registered [] kind = none
last_registered ((gvk, f) ∷ regs) kind = elim (last_registered regs kind) [
  | some g ↦ some g
  | none ↦ if gvk == kind then some f else none
]

-- What it says of an object, and what the registry says if there is none.
abbrev pub ask_or : Option IsPrunableFunc → Object → Outcome (Option Error) → Outcome (Option Error)
ask_or (some f) obj verdict = f obj
ask_or none obj verdict = verdict

-- What the functions say that have been registered after those of the package.
abbrev pub verdict : Registrations → Object → Outcome (Option Error)
verdict regs obj =
    ask_or (last_registered regs obj.group_version_kind) obj (is_prunable default_registry obj)

combine :
    (last : Option IsPrunableFunc) (own : Bool) (f : IsPrunableFunc) (obj : Object)
    (v : Outcome (Option Error))
    → ask_or last obj (if own then f obj else v)
      ≡ ask_or (elim last [ some g ↦ some g | none ↦ if own then some f else none ]) obj v
combine (some g) own f obj v = refl
combine none true f obj v = refl
combine none false f obj v = refl

registered-is_prunable :
    (regs : Registrations) (r : Registry) (obj : Object)
    → is_prunable (registered regs r) obj
      ≡ ask_or (last_registered regs obj.group_version_kind) obj (is_prunable r obj)
unfolding registered last_registered
registered-is_prunable [] r obj = refl
registered-is_prunable ((gvk, f) ∷ regs) r obj =
    registered-is_prunable regs (register_is_prunable_func r gvk f) obj
    ∙ ap (ask_or (last_registered regs obj.group_version_kind) obj)
        (is_prunable-register r gvk f obj)
    ∙ combine (last_registered regs obj.group_version_kind) (gvk == obj.group_version_kind) f obj
        (is_prunable r obj)

-- A pruner as it runs in a heap: its registry `r` is a reference, and shows what the map holds now.
abbrev pub seen :
    {World Selector : Type 0} → Heap → MapRegistry → Pruner World Selector → Pruner World Selector
seen h r p = record p { registry = contents h r }

allowed-returned : (v : Outcome (Option Error)) → allowed v ≡ true → v ≡ returned none
allowed-returned (returned none) h = refl
allowed-returned (returned (some e)) h = cc
allowed-returned Outcome.panicked h = cc

-- What a copy of the default registry says of an object, after all registrations.
copy-verdict :
    (before after : Registrations) (obj : Object)
    → is_prunable
        (contents (register_all after (register_all before init)).1 (register_all before init).0)
        obj
      ≡ verdict (before ++ after) obj
copy-verdict before after obj =
    ap (λ r. is_prunable r obj) (copied_registry_follows before after)
    ∙ registered-is_prunable (before ++ after) default_registry obj

-- Whatever holds of the world, and is kept by a listing and by a deletion of an object of the pruner's
-- kind that the registered functions allow, holds after `Prune` of a pruner that `NewPruner` has made
-- between registrations, an error included. It is the function that is registered last for the kind
-- when the pruner runs that decides, or the package's if there is none, or else every object is
-- allowed. (The strategy selects among the objects that it is given; the options are the package's.)
pub registered-keeps :
    {World Selector : Type 0} (before after : Registrations) (is_empty : GroupVersionKind → Bool)
    (as_selector : Labels → Selector) (c : Client World Selector) (gvk : GroupVersionKind)
    (strategy : StrategyFunc) (settings : List Setting) (p : Pruner World Selector)
    (Inv : World → Type 0)
    → new_pruner
        (contents (register_all before init).1 (register_all before init).0)
        is_empty
        c
        gvk
        strategy
        (map option settings)
      ≡ ok p
    → SelectsAmong strategy
    → ((opts : ListOptions Selector) (w : World) → Inv w → Inv (c.list gvk opts w).0)
    → ((obj : Object) (w : World)
        → obj.group_version_kind ≡ gvk
        → verdict (before ++ after) obj ≡ returned none
        → Inv w
        → Inv (c.delete obj w).0)
    → (w w' : World) (r : Result Error (List Object))
    → prune as_selector
        (seen (register_all after (register_all before init)).1 (register_all before init).0 p)
        w
      ≡ returned (w', r)
    → Inv w
    → Inv w'
registered-keeps {World} before after is_empty as_selector c gvk strategy settings p Inv makes
      selects lists deletes =
    let made = register_all before init in
    let now = contents (register_all after made).1 made.0 in
    subst
      (λ q.
        (w w' : World) (r : Result Error (List Object))
        → prune as_selector (seen (register_all after made).1 made.0 q) w ≡ returned (w', r)
        → Inv w
        → Inv w')
      (made_by (contents made.1 made.0) is_empty c gvk strategy settings p makes)
      (prune-keeps as_selector (configured now c gvk strategy settings) Inv selects lists
        (λ obj w h.
          let (says, kind) =
            and_both (allowed (is_prunable now obj)) (obj.group_version_kind == gvk) h in
          deletes obj w (==_sound obj.group_version_kind gvk kind)
            (sym (copy-verdict before after obj) ∙ allowed-returned (is_prunable now obj) says)))
