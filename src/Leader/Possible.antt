-- ===== src/Leader/Possible.antt =====
-- That what `Become` finds out about another leader ends without an error, if the API server answers,
-- or with the one of a deletion that finds nothing.
use operator_lib.Common.{
  String, ◌≡◌, refl, ap, ◌⊎◌, inl, inr, List, [], ◌∷◌, Option, none, some, ok, err, ◌==◌, string_eq,
  Bool-cases, nat_eq, not, ◌&&◌,
}
use operator_lib.Common.Int.{ℤ}
use operator_lib.Leader.Program.{
  cancelled, OwnerReference, ConfigMap, Pod, not_found, Request, Reply, get_pod, get_node,
  get_config_map, delete_pod, delete_config_map, wait, elapsed, create_config_map, Prog,
}
use operator_lib.Leader.Helpers.{
  Error, api, is_not_ready_node, delete_leader, is_pod_evicted, is_pod_preempted, is_deleted,
  not_ready,
}
use operator_lib.Leader.Loop.{judge, inspect_leader, inspect_owners}
use operator_lib.Leader.Rounds.{Ends}

-- The answers of an API server that finds a pod or says that it is not there, and deletes what it is
-- told to or, if it `may_miss`, says that it is not there; and of a context that is not cancelled.
abbrev pub Possible : (may_miss : Type 0) (r : Request) → Reply r → Type 0
Possible may_miss (get_pod key) (ok p) = Unit
Possible may_miss (get_pod key) (err e) = e ≡ not_found
Possible may_miss (get_node key) x = Unit
Possible may_miss (get_config_map key) x = Unit
Possible may_miss (create_config_map cm) x = Unit
Possible may_miss (delete_config_map cm) (ok _) = Unit
Possible may_miss (delete_config_map cm) (err e) = (e ≡ not_found) × may_miss
Possible may_miss (delete_pod p) (ok _) = Unit
Possible may_miss (delete_pod p) (err e) = (e ≡ not_found) × may_miss
Possible may_miss (wait d) elapsed = Unit
Possible may_miss (wait d) (cancelled reason) = ⊥

-- No error, or that of a deletion that finds nothing.
abbrev pub IsHarmless : (may_miss : Type 0) → Option Error → Type 0
IsHarmless may_miss e = (e ≡ none) ⊎ ((e ≡ some (api not_found)) × may_miss)

-- The program ends with no other error, whatever of these is answered.
abbrev pub Succeeds : Type 0 → Prog (Option Error) → Type 0
Succeeds may_miss = Ends (Possible may_miss) (IsHarmless may_miss)

delete_leader-Succeeds :
    (miss : Type 0) (p : Pod) (cm : ConfigMap) → Succeeds miss (delete_leader p cm)
unfolding delete_leader
delete_leader-Succeeds miss p cm = elim [
  | ok _ ↦ λ _. elim [ ok _ ↦ λ _. inl refl | err e ↦ λ h. inr (ap (λ x. some (api x)) h.0, h.1) ]
  | err e ↦ λ h. inr (ap (λ x. some (api x)) h.0, h.1)
]

judge-Succeeds : (miss : Type 0) (p : Pod) (cm : ConfigMap) → Succeeds miss (judge p cm)
unfolding judge is_not_ready_node
judge-Succeeds miss p cm = elim (Bool-cases (is_pod_evicted p && not (is_deleted p))) [
  | inl evicted ↦ rw evicted (λ _ _. inl refl)
  | inr fine ↦ elim (Bool-cases (is_pod_preempted p && not (is_deleted p))) [
    | inl preempted ↦ rw (fine, preempted) (λ _ _. inl refl)
    | inr running ↦
        rw (fine, running)
          (λ r _. elim (Bool-cases (not_ready r)) [
            | inl lost ↦ rw lost (delete_leader-Succeeds miss p cm)
            | inr ready ↦ rw ready (inl refl)
          ])
  ]
]

inspect_leader-Succeeds :
    (miss : Type 0) (ns : String) (o : OwnerReference) (cm : ConfigMap)
    → Succeeds miss (inspect_leader ns o cm)
unfolding inspect_leader
inspect_leader-Succeeds miss ns o cm = elim [
  | ok p ↦ λ _. judge-Succeeds miss p cm
  | err e ↦ λ h. rw h (inl refl)
]

pub inspect_owners-Succeeds :
    (miss : Type 0) (ns : String) (os : List OwnerReference) (cm : ConfigMap)
    → Succeeds miss (inspect_owners ns os cm)
unfolding inspect_owners
inspect_owners-Succeeds miss ns [] cm = inl refl
inspect_owners-Succeeds miss ns (o ∷ []) cm = elim (Bool-cases (not (o.kind == "Pod"))) [
  | inl odd ↦ rw odd (inl refl)
  | inr pod ↦ rw pod (inspect_leader-Succeeds miss ns o cm)
]
inspect_owners-Succeeds miss ns (o ∷ o' ∷ os) cm = inl refl

pub Possible-elapsed :
    (miss : Type 0) (d : ℤ) (x : Reply (wait d)) → Possible miss (wait d) x → x ≡ elapsed
Possible-elapsed miss d elapsed h = refl
Possible-elapsed miss d (cancelled reason) h = absurd h
