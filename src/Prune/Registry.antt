-- ===== src/Prune/Registry.antt =====
-- prune/registry.go and prune/prunables.go, with the error `Unprunable` of prune/prune.go.
pub mod Laws
pub mod Defaults
pub mod Shared
pub mod Aliasing
use operator_lib.Common.{
  ℕ, String, Bool, true, false, not, List, [], ◌∷◌, Option, none, some, Outcome, returned, panicked,
  if◌then◌else◌, ◌==◌, string_eq,
}
use operator_lib.Common.Maps.{lookup, insert}
use operator_lib.Objects.{NamespacedName, GroupVersionKind, gvk_eq}

-- The dynamic type of a `client.Object`, with what is read of the type.
pub data Body : Type 0 where
  pod : (phase : String) → Body
  job : (completion_time : Option ℕ) → Body
  unstructured : Body

-- `client.Object`. An instant is the number of nanoseconds since the zero `time.Time`.
pub record Object : Type 0 where
  pub group_version_kind : GroupVersionKind
  pub key : NamespacedName
  pub creation_timestamp : ℕ
  pub body : Body

-- `Unprunable`, an error of some other type, and an error wrapped by `fmt.Errorf` with `%w`
pub data Error : Type 0 where
  unprunable : Object → (reason : String) → Error
  plain : String → Error
  wrapped : String → Error → Error

-- `errors.As(err, &unprunable)`, which unwraps the error
unfoldable pub as_unprunable : Error → Bool
as_unprunable (unprunable obj reason) = true
as_unprunable (plain s) = false
as_unprunable (wrapped s e) = as_unprunable e

-- `IsUnprunable`; nil is `none`
unfoldable pub is_unprunable : Option Error → Bool
unfolding as_unprunable
is_unprunable none = false
is_unprunable (some e) = as_unprunable e

abbrev pub IsPrunableFunc : Type 0
IsPrunableFunc = Object → Outcome (Option Error)

-- `DefaultPodIsPrunable`; the type assertion panics on another type
unfoldable pub pod_body_is_prunable : Object → Body → Outcome (Option Error)
pod_body_is_prunable obj (pod phase) =
    returned
      (if not (phase == "Succeeded") then some (unprunable obj "Pod has not succeeded") else none)
pod_body_is_prunable obj (job t) = panicked
pod_body_is_prunable obj unstructured = panicked

unfoldable pub default_pod_is_prunable : IsPrunableFunc
unfolding pod_body_is_prunable
default_pod_is_prunable obj = pod_body_is_prunable obj obj.body

-- `DefaultJobIsPrunable`
unfoldable pub job_body_is_prunable : Object → Body → Outcome (Option Error)
job_body_is_prunable obj (job none) = returned (some (unprunable obj "Job has not completed"))
job_body_is_prunable obj (job (some t)) = returned none
job_body_is_prunable obj (pod phase) = panicked
job_body_is_prunable obj unstructured = panicked

unfoldable pub default_job_is_prunable : IsPrunableFunc
unfolding job_body_is_prunable
default_job_is_prunable obj = job_body_is_prunable obj obj.body

-- `Registry`; a nil map and an empty one behave alike, since a registration makes the map
pub record Registry : Type 0 where
  pub prunables : List (GroupVersionKind × IsPrunableFunc)

-- `NewRegistry`
abbrev pub new_registry : Registry
new_registry = record { prunables = [] }

-- `Registry.RegisterIsPrunableFunc`
unfoldable pub register_is_prunable_func : Registry → GroupVersionKind → IsPrunableFunc → Registry
register_is_prunable_func r gvk is_prunable = record r {
  prunables = insert gvk is_prunable r.prunables;
}

abbrev apply_found : Option IsPrunableFunc → Object → Outcome (Option Error)
apply_found none obj = returned none
apply_found (some is_prunable) obj = is_prunable obj

-- `Registry.IsPrunable`
unfoldable pub is_prunable : Registry → Object → Outcome (Option Error)
is_prunable r obj = apply_found (lookup obj.group_version_kind r.prunables) obj

abbrev pub pod_gvk : GroupVersionKind
pod_gvk = record { group = ""; version = "v1"; kind = "Pod" }

abbrev pub job_gvk : GroupVersionKind
job_gvk = record { group = "batch"; version = "v1"; kind = "Job" }

-- `defaultRegistry` after `init` of prune/prune.go
unfoldable pub default_registry : Registry
default_registry =
    register_is_prunable_func
      (register_is_prunable_func new_registry pod_gvk default_pod_is_prunable) job_gvk
      default_job_is_prunable
