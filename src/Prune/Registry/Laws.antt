-- ===== src/Prune/Registry/Laws.antt =====
-- What a registration changes, and what the default registry allows.
use operator_lib.Common.{
  ℕ, String, ◌≡◌, refl, ap, sym, ◌∙◌, ◌↔◌, ◌≢◌, Option, none, some, returned, if◌then◌else◌, ◌==◌,
  string_eq, Bool-cases, ==_sound, inl, inr,
}
use mathlib.Core.Bool.{false≢true}
use operator_lib.Common.Maps.{lookup, lookup-insert}
use operator_lib.Objects.{GroupVersionKind, gvk_eq, gvk_beq}
use operator_lib.Prune.Registry.{
  pod, job, Object, IsPrunableFunc, Registry, register_is_prunable_func, is_prunable,
  default_pod_is_prunable, default_job_is_prunable, default_registry, new_registry, pod_gvk,
  job_gvk, job_body_is_prunable,
}

new_registry-is_prunable : (obj : Object) → is_prunable new_registry obj ≡ returned none
unfolding is_prunable lookup
new_registry-is_prunable obj = refl

-- A registered function decides for the objects of its kind; for all others the registry decides as
-- it did before.
pub is_prunable-register :
    (r : Registry) (gvk : GroupVersionKind) (f : IsPrunableFunc) (obj : Object)
    → is_prunable (register_is_prunable_func r gvk f) obj
      ≡ (if gvk == obj.group_version_kind then f obj else is_prunable r obj)
unfolding is_prunable register_is_prunable_func
is_prunable-register r gvk f obj = elim (Bool-cases (gvk == obj.group_version_kind)) [
  | inl same ↦ rw (lookup-insert gvk obj.group_version_kind f r.prunables, same)
  | inr differs ↦ rw (lookup-insert gvk obj.group_version_kind f r.prunables, differs)
]

pub default_registry-is_prunable :
    (obj : Object)
    → is_prunable default_registry obj ≡ (
        if job_gvk == obj.group_version_kind
        then default_job_is_prunable obj
        else if pod_gvk == obj.group_version_kind
        then default_pod_is_prunable obj
        else returned none)
unfolding default_registry
default_registry-is_prunable obj =
    is_prunable-register (register_is_prunable_func new_registry pod_gvk default_pod_is_prunable)
      job_gvk default_job_is_prunable obj
    ∙ ap (λ r. if job_gvk == obj.group_version_kind then default_job_is_prunable obj else r)
        (is_prunable-register new_registry pod_gvk default_pod_is_prunable obj
          ∙ ap (λ r. if pod_gvk == obj.group_version_kind then default_pod_is_prunable obj else r)
              (new_registry-is_prunable obj))

-- By the default registry a pod may be pruned exactly if it has succeeded.
pub default_registry-pod_iff :
    (obj : Object) (phase : String)
    → obj.group_version_kind ≡ pod_gvk
    → obj.body ≡ pod phase
    → (is_prunable default_registry obj ≡ returned none) ↔ (phase ≡ "Succeeded")
unfolding gvk_beq default_pod_is_prunable
default_registry-pod_iff obj phase e b =
    rw (default_registry-is_prunable, e, default_pod_is_prunable, b)
      (elim (Bool-cases (phase == "Succeeded")) [
        | inl done ↦ rw done ((λ h. ==_sound phase "Succeeded" done), (λ h. refl))
        | inr running ↦ rw running (
          (λ h. cc),
          (λ h. absurd (false≢true (sym running ∙ (string_eq.beq_iff phase "Succeeded").1 h))),
        )
      ])

-- By the default registry a job may be pruned exactly if it has a completion time.
pub default_registry-job_iff :
    (obj : Object) (t : Option ℕ)
    → obj.group_version_kind ≡ job_gvk
    → obj.body ≡ job t
    → (is_prunable default_registry obj ≡ returned none) ↔ (t ≢ none)
unfolding gvk_beq default_job_is_prunable
default_registry-job_iff obj t e b =
    rw (default_registry-is_prunable, e, default_job_is_prunable, b) (by_time _ t)
  where
    by_time :
        (o : Object) (t : Option ℕ) → (job_body_is_prunable o (job t) ≡ returned none) ↔ (t ≢ none)
    by_time o none = ((λ h e. cc), (λ h. absurd (h refl)))
    by_time o (some s) = ((λ h e. cc), (λ h. refl))
