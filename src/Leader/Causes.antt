-- ===== src/Leader/Causes.antt =====
-- After which answers `Become` ends, and the part of that which finds out about the leader.
use operator_lib.Common.{
  String, true, not, ◌&&◌, ◌≡◌, ◌≢◌, inl, inr, List, [], ◌∷◌, Option, none, some, Result, ok, err,
  ◌==◌, string_eq, Bool-cases,
}
use operator_lib.Common.Int.{ℤ}
use operator_lib.Objects.{NamespacedName}
use operator_lib.Leader.Program.{
  OwnerReference, ConfigMap, Pod, ApiError, Request, get_pod, get_config_map, create_config_map,
  delete_config_map, delete_pod, wait, Prog, cancelled, not_found, already_exists, other,
}
use operator_lib.Leader.Helpers.{
  Error, pod_name_unset, api, context, Config, is_pod_evicted, is_pod_preempted, is_deleted,
  is_not_ready_node, delete_leader, not_ready, owner_of,
}
use operator_lib.Leader.Loop.{judge, inspect_leader, inspect_owners, owned_by}
use operator_lib.Leader.Rounds.{Event, Past}

-- The answers, the last one first, after which `Become` returns an error; `c` is what configuring it
-- gives.
pub data Cause {Client : Type 0} (pod_name : String) (c : Result Error (Config Client))
    : List Event → Error → Type 0 where
  unconfigured : (e : Error) → c ≡ err e → Cause pod_name c [] e
  unnamed : pod_name ≡ "" → Cause pod_name c [] pod_name_unset
  pod_unread :
      (key : NamespacedName) (e : ApiError) (h : List Event)
      → Cause pod_name c ((get_pod key, err e) ∷ h) (api e)
  lock_unread :
      (key : NamespacedName) (e : ApiError) (h : List Event)
      → e ≢ not_found
      → Cause pod_name c ((get_config_map key, err e) ∷ h) (api e)
  not_created :
      (cm : ConfigMap) (e : ApiError) (h : List Event)
      → e ≢ already_exists
      → Cause pod_name c ((create_config_map cm, err e) ∷ h) (api e)
  pod_kept :
      (p : Pod) (e : ApiError) (h : List Event)
      → Cause pod_name c ((delete_pod p, err e) ∷ h) (api e)
  lock_kept :
      (cm : ConfigMap) (e : ApiError) (h : List Event)
      → Cause pod_name c ((delete_config_map cm, err e) ∷ h) (api e)
  stopped :
      (d : ℤ) (reason : String) (h : List Event)
      → Cause pod_name c ((wait d, cancelled reason) ∷ h) (context reason)

-- The pod has read itself, as `p`, before anything else.
pub data Began (pod_name ns : String) (p : Pod) : List Event → Type 0 where
  began : Began pod_name ns p ((get_pod (record { namespace = ns; name = pod_name }), ok p) ∷ [])
  later : (e : Event) (h : List Event) → Began pod_name ns p h → Began pod_name ns p (e ∷ h)

-- The answers after which `Become` returns nil: the pod has just created the lock with itself as the
-- one owner, or has just read it, at first, with itself among the owners.
pub data Won (pod_name ns lock_name : String) : List Event → Type 0 where
  created :
      (p : Pod) (h : List Event)
      → Began pod_name ns p h
      → Won pod_name ns lock_name (
          (
            create_config_map (record {
              key = record { namespace = ns; name = lock_name };
              owner_references = owner_of p ∷ [];
            }),
            ok tt,
          )
          ∷ h)
  owned :
      (p : Pod) (cm : ConfigMap)
      → owned_by p.key.name cm.owner_references ≡ true
      → Won pod_name ns lock_name (
          (get_config_map (record { namespace = ns; name = lock_name }), ok cm)
          ∷ (get_pod (record { namespace = ns; name = pod_name }), ok p)
          ∷ [])

-- Of the requests nothing is said.
abbrev pub Silent : List Event → Request → Type 0
Silent h r = Unit

module _ {Client : Type 0} (pod_name ns : String) (c : Result Error (Config Client)) where
  abbrev pub Stop : List Event → Option Error → Type 0
  Stop h none = Unit
  Stop h (some e) = Cause pod_name c h e

  abbrev Stops : List Event → Prog (Option Error) → Type 0
  Stops = Past Silent Stop

  delete_leader-Stops : (h : List Event) (p : Pod) (cm : ConfigMap) → Stops h (delete_leader p cm)
  unfolding delete_leader
  delete_leader-Stops h p cm = (
    tt,
    elim [
      | ok _ ↦ (tt, elim [ ok _ ↦ tt | err e ↦ Cause.lock_kept cm e _ ])
      | err e ↦ Cause.pod_kept p e h
    ],
  )

  judge-Stops : (h : List Event) (p : Pod) (cm : ConfigMap) → Stops h (judge p cm)
  unfolding judge is_not_ready_node
  judge-Stops h p cm = elim (Bool-cases (is_pod_evicted p && not (is_deleted p))) [
    | inl evicted ↦ rw evicted (tt, λ r. tt)
    | inr fine ↦ elim (Bool-cases (is_pod_preempted p && not (is_deleted p))) [
      | inl preempted ↦ rw (fine, preempted) (tt, λ r. tt)
      | inr running ↦
          rw (fine, running)
            (
              tt,
              λ r. elim (Bool-cases (not_ready r)) [
                | inl lost ↦ rw lost (delete_leader-Stops _ p cm)
                | inr ready ↦ rw ready tt
              ],
            )
    ]
  ]

  inspect_leader-Stops :
      (h : List Event) (o : OwnerReference) (cm : ConfigMap) → Stops h (inspect_leader ns o cm)
  unfolding inspect_leader
  inspect_leader-Stops h o cm = (
    tt,
    elim [
      | ok p ↦ judge-Stops _ p cm
      | err not_found ↦ tt
      | err already_exists ↦ Cause.pod_unread _ already_exists h
      | err (other m) ↦ Cause.pod_unread _ (other m) h
    ],
  )

  pub inspect_owners-Stops :
      (h : List Event) (os : List OwnerReference) (cm : ConfigMap)
      → Stops h (inspect_owners ns os cm)
  unfolding inspect_owners
  inspect_owners-Stops h [] cm = tt
  inspect_owners-Stops h (o ∷ []) cm = elim (Bool-cases (not (o.kind == "Pod"))) [
    | inl odd ↦ rw odd tt
    | inr pod ↦ rw pod (inspect_leader-Stops h o cm)
  ]
  inspect_owners-Stops h (o ∷ o' ∷ os) cm = tt
