-- ===== src/Prune/Registry/Defaults.antt =====
-- prune/prunables.go: what the default registry allows to be pruned.
use operator_lib.Common.{
  ◌≡◌, ◌≢◌, refl, sym, ◌∙◌, ◌↔◌, ◌⊎◌, inl, inr, some, none, returned, ◌==◌, string_eq, Bool-cases,
  ==_sound,
}
use mathlib.Core.Bool.{false, false≢true}
use operator_lib.Objects.{GroupVersionKind, gvk_eq, gvk_beq}
use operator_lib.Prune.Registry.{
  pod, job, unstructured, Body, Object, is_prunable, default_pod_is_prunable,
  default_job_is_prunable, default_registry, pod_gvk, job_gvk, job_body_is_prunable,
  pod_body_is_prunable,
}
use operator_lib.Prune.Registry.Laws.{default_registry-is_prunable}

-- a pod that has succeeded
abbrev pub IsDonePod : Body → Type 0
IsDonePod (pod phase) = phase ≡ "Succeeded"
IsDonePod _ = ⊥

-- a job with a completion time
abbrev pub IsDoneJob : Body → Type 0
IsDoneJob (job (some t)) = Unit
IsDoneJob _ = ⊥

-- The object has the kind of pods and is a pod that has succeeded, or it has the kind of jobs and is
-- a completed job, or it has neither kind.
abbrev pub IsDone : Object → Type 0
IsDone obj =
    ((obj.group_version_kind ≡ pod_gvk) × IsDonePod obj.body)
    ⊎ ((obj.group_version_kind ≡ job_gvk) × IsDoneJob obj.body)
    ⊎ ((obj.group_version_kind ≢ pod_gvk) × (obj.group_version_kind ≢ job_gvk))

pod_iff : (obj : Object) (b : Body) → (pod_body_is_prunable obj b ≡ returned none) ↔ IsDonePod b
unfolding pod_body_is_prunable
pod_iff obj (pod phase) = elim (Bool-cases (phase == "Succeeded")) [
  | inl done ↦ rw done ((λ h. ==_sound phase "Succeeded" done), (λ h. refl))
  | inr running ↦ rw running (
    (λ h. cc),
    (λ h. absurd (false≢true (sym running ∙ (string_eq.beq_iff phase "Succeeded").1 h))),
  )
]
pod_iff obj (job t) = ((λ h. cc), (λ h. absurd h))
pod_iff obj unstructured = ((λ h. cc), (λ h. absurd h))

job_iff : (obj : Object) (b : Body) → (job_body_is_prunable obj b ≡ returned none) ↔ IsDoneJob b
unfolding job_body_is_prunable
job_iff obj (job (some t)) = ((λ h. tt), (λ h. refl))
job_iff obj (job none) = ((λ h. cc), (λ h. absurd h))
job_iff obj (pod phase) = ((λ h. cc), (λ h. absurd h))
job_iff obj unstructured = ((λ h. cc), (λ h. absurd h))

other_kinds : {k : GroupVersionKind} → k ≡ pod_gvk → k ≡ job_gvk → ⊥
unfolding gvk_beq
other_kinds e f = false≢true ((gvk_eq.beq_iff pod_gvk job_gvk).1 (sym e ∙ f))

differs : {a b : GroupVersionKind} → (a == b) ≡ false → b ≢ a
differs {a} {b} h e = false≢true (sym h ∙ (gvk_eq.beq_iff a b).1 (sym e))

-- By the default registry an object may be pruned exactly if it is done: a pod must have succeeded,
-- a job must have a completion time, and an object of any other kind is always allowed.
pub default_registry-prunable_iff :
    (obj : Object) → (is_prunable default_registry obj ≡ returned none) ↔ IsDone obj
unfolding default_pod_is_prunable default_job_is_prunable
default_registry-prunable_iff obj =
    rw (default_registry-is_prunable obj) (elim (Bool-cases (job_gvk == obj.group_version_kind)) [
      | inl is_job ↦
          let e = ==_sound job_gvk obj.group_version_kind is_job in
          rw is_job (
            (λ h. inr (inl (sym e, (job_iff obj obj.body).0 h))),
            elim [
              | inl p ↦ absurd (other_kinds p.0 (sym e))
              | inr (inl j) ↦ (job_iff obj obj.body).1 j.1
              | inr (inr n) ↦ absurd (n.1 (sym e))
            ],
          )
      | inr no_job ↦ elim (Bool-cases (pod_gvk == obj.group_version_kind)) [
        | inl is_pod ↦
            let e = ==_sound pod_gvk obj.group_version_kind is_pod in
            rw (no_job, is_pod)
              (
                (λ h. inl (sym e, (pod_iff obj obj.body).0 h)),
                elim [
                  | inl p ↦ (pod_iff obj obj.body).1 p.1
                  | inr (inl j) ↦ absurd (other_kinds (sym e) j.0)
                  | inr (inr n) ↦ absurd (n.0 (sym e))
                ],
              )
        | inr no_pod ↦
            rw (no_job, no_pod) ((λ h. inr (inr (differs no_pod, differs no_job))), (λ h. refl))
      ]
    ])
