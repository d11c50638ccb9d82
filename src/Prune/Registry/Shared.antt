-- ===== src/Prune/Registry/Shared.antt =====
-- prune/registry.go with the maps where they are: a `Registry` holds a reference to a map, and
-- `NewPruner` copies the `Registry`, not the map.
use operator_lib.Common.{ℕ, suc, List, [], ◌∷◌, Option, none, some, nat_eq}
use operator_lib.Common.Maps.{lookup, insert}
use operator_lib.Objects.{GroupVersionKind, gvk_eq}
use operator_lib.Prune.Registry.{
  IsPrunableFunc, Registry, default_pod_is_prunable, default_job_is_prunable, pod_gvk, job_gvk,
}

abbrev pub Prunables : Type 0
Prunables = List (GroupVersionKind × IsPrunableFunc)

-- The maps that there are, by their references, all of which are below `next`.
pub record Heap : Type 0 where
  pub maps : List (ℕ × Prunables)
  pub next : ℕ

-- `Registry`; a nil map is `none`
pub record MapRegistry : Type 0 where
  pub prunables : Option ℕ

-- `NewRegistry`, and `defaultRegistry` before `init`
abbrev pub new_map_registry : MapRegistry
new_map_registry = record { prunables = none }

abbrev or_empty : Option Prunables → Prunables
or_empty none = []
or_empty (some entries) = entries

-- The entries of a map; a nil map has none.
unfoldable pub entries : Heap → Option ℕ → Prunables
entries h none = []
entries h (some ref) = or_empty (lookup ref h.maps)

-- `make(map[schema.GroupVersionKind]IsPrunableFunc)`, if the map is nil
unfoldable pub made : Option ℕ → Heap → ℕ × Heap
made (some ref) h = (ref, h)
made none h = (h.next, record { maps = insert h.next [] h.maps; next = suc h.next })

-- `r.prunables[gvk] = isPrunable`
unfoldable pub store : GroupVersionKind → IsPrunableFunc → ℕ × Heap → MapRegistry × Heap
store gvk f (ref, h) = (
  record { prunables = some ref },
  record h { maps = insert ref (insert gvk f (entries h (some ref))) h.maps },
)

-- `Registry.RegisterIsPrunableFunc`
unfoldable pub register :
    GroupVersionKind → IsPrunableFunc → MapRegistry × Heap → MapRegistry × Heap
register gvk f (r, h) = store gvk f (made r.prunables h)

-- What a registry decides by when it is asked.
unfoldable pub contents : Heap → MapRegistry → Registry
contents h r = record { prunables = entries h r.prunables }

-- Registrations, the first one first.
abbrev pub Registrations : Type 0
Registrations = List (GroupVersionKind × IsPrunableFunc)

unfoldable pub register_all : Registrations → MapRegistry × Heap → MapRegistry × Heap
register_all [] m = m
register_all ((gvk, f) ∷ regs) m = register_all regs (register gvk f m)

-- `RegisterIsPrunableFunc`, in `defaultRegistry`
abbrev pub register_in_default :
    GroupVersionKind → IsPrunableFunc → MapRegistry × Heap → MapRegistry × Heap
register_in_default gvk f (default_registry, h) = register gvk f (default_registry, h)

-- `defaultRegistry` after `init` of prune/prune.go
unfoldable pub init : MapRegistry × Heap
init = register_in_default job_gvk default_job_is_prunable (
    register_in_default pod_gvk default_pod_is_prunable
      (new_map_registry, record { maps = []; next = 0 }))
