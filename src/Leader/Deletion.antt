-- ===== src/Leader/Deletion.antt =====
-- What `Become` has seen when it deletes a pod or a lock.
use operator_lib.Common.{
  ℕ, zero, suc, String, not, ◌&&◌, ◌≡◌, refl, ◌⊎◌, inl, inr, List, [], ◌∷◌, Option, none, some,
  Result, ok, err, ◌==◌, string_eq, ==_sound, Bool-cases,
}
use operator_lib.Leader.Program.{
  OwnerReference, ConfigMap, Pod, ApiError, not_found, already_exists, other, elapsed, cancelled,
  NodeCondition, Request, get_pod, get_node, get_config_map, delete_pod, delete_config_map, Prog,
}
use operator_lib.Leader.Helpers.{
  Error, Config, Loop, Next, finished, again, is_pod_evicted, is_pod_preempted, is_deleted,
  is_not_ready_node, delete_leader, not_ready, my_owner_ref,
}
use operator_lib.Leader.Options.{Opt, configure}
use operator_lib.Leader.Loop.{
  judge, inspect_leader, inspect_owners, owned_by, pause, contend, attempt, campaign, start, become,
}
use operator_lib.Leader.Verdict.{
  IsRemoved, evicted-IsRemoved, preempted-IsRemoved, IsNotReady, not_ready-IsNotReady,
}
use operator_lib.Leader.Rounds.{rounds, Event, Past, Past->>=}

module _ (ns lock_name : String) where
  -- The last two answers: the lock `cm`, whose one owner is a pod, and then that pod, `p`.
  pub record Sighting (cm : ConfigMap) (p : Pod) (h : List Event) : Type 0 where
    pub owner : OwnerReference
    pub before : List Event
    pub single : cm.owner_references ≡ owner ∷ []
    pub is_pod : owner.kind ≡ "Pod"
    pub seen :
        h
        ≡ (get_pod (record { namespace = ns; name = owner.name }), ok p)
          ∷ (get_config_map (record { namespace = ns; name = lock_name }), ok cm)
          ∷ before

  -- The last answer says that the pod's node is not ready, after a sighting of the pod.
  abbrev pub IsLost : ConfigMap → Pod → List Event → Type 0
  IsLost cm p h =
      (r : Result ApiError (List NodeCondition)) × (h' : List Event) × (h
        ≡ (get_node (record { namespace = ""; name = p.node_name }), r) ∷ h')
      × IsNotReady r
      × Sighting cm p h'

  -- What was answered before a deletion allows it. Of the other requests nothing is said.
  abbrev pub MayDelete : List Event → Request → Type 0
  MayDelete h (delete_pod p) = (cm : ConfigMap) × ((Sighting cm p h × IsRemoved p) ⊎ IsLost cm p h)
  MayDelete h (delete_config_map cm) =
      (p : Pod) × (h' : List Event) × (h ≡ (delete_pod p, ok tt) ∷ h') × IsLost cm p h'
  MayDelete h _ = Unit

  abbrev Careful : List Event → Prog (Option Error) → Type 0
  Careful = Past MayDelete (λ _ _. Unit {0})

  delete_leader-Careful :
      (h : List Event) (p : Pod) (cm : ConfigMap) → IsLost cm p h → Careful h (delete_leader p cm)
  unfolding delete_leader
  delete_leader-Careful h p cm lost =
      ((cm, inr lost), elim [ ok _ ↦ ((p, h, refl, lost), λ r. tt) | err _ ↦ tt ])

  judge-Careful :
      (h : List Event) (p : Pod) (cm : ConfigMap) → Sighting cm p h → Careful h (judge p cm)
  unfolding judge is_not_ready_node
  judge-Careful h p cm s = elim (Bool-cases (is_pod_evicted p && not (is_deleted p))) [
    | inl evicted ↦ rw evicted ((cm, inl (s, evicted-IsRemoved p evicted)), λ r. tt)
    | inr fine ↦ elim (Bool-cases (is_pod_preempted p && not (is_deleted p))) [
      | inl preempted ↦
          rw (fine, preempted) ((cm, inl (s, preempted-IsRemoved p preempted)), λ r. tt)
      | inr running ↦
          rw (fine, running)
            (
              tt,
              λ r. elim (Bool-cases (not_ready r)) [
                | inl lost ↦
                    rw lost
                      (delete_leader-Careful _ p cm (r, h, refl, not_ready-IsNotReady r lost, s))
                | inr ready ↦ rw ready tt
              ],
            )
    ]
  ]

  inspect_leader-Careful :
      (h : List Event) (o : OwnerReference) (cm : ConfigMap)
      → cm.owner_references ≡ o ∷ []
      → o.kind ≡ "Pod"
      → Careful
          ((get_config_map (record { namespace = ns; name = lock_name }), ok cm) ∷ h)
          (inspect_leader ns o cm)
  unfolding inspect_leader
  inspect_leader-Careful h o cm single pod = (
    tt,
    elim [
      | ok p ↦
          judge-Careful _ p cm
            (record { owner = o; before = h; single = single; is_pod = pod; seen = refl })
      | err e ↦ tt
    ],
  )

  inspect_owners-Careful :
      (h : List Event) (os : List OwnerReference) (cm : ConfigMap)
      → cm.owner_references ≡ os
      → Careful
          ((get_config_map (record { namespace = ns; name = lock_name }), ok cm) ∷ h)
          (inspect_owners ns os cm)
  unfolding inspect_owners
  inspect_owners-Careful h [] cm e = tt
  inspect_owners-Careful h (o ∷ []) cm e = elim (Bool-cases (o.kind == "Pod")) [
    | inl pod ↦ rw pod (inspect_leader-Careful h o cm e (==_sound o.kind "Pod" pod))
    | inr odd ↦ rw odd tt
  ]
  inspect_owners-Careful h (o ∷ o' ∷ os) cm e = tt

module _ {Client : Type 0} (ns lock_name : String) where
  -- The loop goes on in this namespace, for this lock.
  abbrev pub Stays : Next Client → Type 0
  Stays (finished e) = Unit
  Stays (again l) = (l.ns ≡ ns) × (l.lock_name ≡ lock_name)

  abbrev CarefulNext : List Event → Prog (Next Client) → Type 0
  CarefulNext = Past (MayDelete ns lock_name) (λ _. Stays)

  pause-Careful : (h : List Event) (l : Loop Client) → Stays (again l) → CarefulNext h (pause l)
  unfolding pause
  pause-Careful h l same = (tt, elim [ elapsed ↦ same | cancelled _ ↦ tt ])

  contend-Careful : (h : List Event) (l : Loop Client) → Stays (again l) → CarefulNext h (contend l)
  unfolding contend
  contend-Careful h l same = (
    tt,
    elim [
      | err e ↦ same
      | ok cm ↦
          Past->>= (MayDelete ns lock_name) {P = λ _ _. Unit {0}} (λ _. Stays) _
            (inspect_owners l.ns cm.owner_references cm) _
            (rw (same.0, same.1)
              (inspect_owners-Careful ns lock_name h cm.owner_references cm refl))
            (elim [ none ↦ λ h' _. pause-Careful h' l same | some e ↦ λ h' _. tt ])
    ],
  )

  attempt-Careful : (h : List Event) (l : Loop Client) → Stays (again l) → CarefulNext h (attempt l)
  unfolding attempt
  attempt-Careful h l same = (
    tt,
    elim [
      | ok _ ↦ tt
      | err not_found ↦ tt
      | err already_exists ↦ contend-Careful _ l same
      | err (other _) ↦ tt
    ],
  )

  rounds-Careful :
      (n : ℕ) (h : List Event) (p : Prog (Next Client))
      → CarefulNext h p
      → CarefulNext h (rounds n p)
  unfolding rounds
  rounds-Careful zero h p c = c
  rounds-Careful (suc n) h p c =
      Past->>= (MayDelete ns lock_name) (λ _. Stays) h p _ c
        (elim [
          | finished e ↦ λ h' _. tt
          | again l ↦ λ h' same. rounds-Careful n h' (attempt l) (attempt-Careful h' l same)
        ])

  campaign-Careful :
      (h : List Event) (l : Loop Client) → Stays (again l) → CarefulNext h (campaign l)
  unfolding campaign
  campaign-Careful h l same = (
    tt,
    elim [
      | ok cm ↦ elim (Bool-cases (owned_by l.owner.name cm.owner_references)) [
        | inl mine ↦ rw mine tt
        | inr theirs ↦ rw theirs same
      ]
      | err not_found ↦ same
      | err already_exists ↦ tt
      | err (other _) ↦ tt
    ],
  )

  start-Careful :
      (pod_name : String) (c : Result Error (Config Client))
      → CarefulNext [] (start pod_name c (ok ns) lock_name)
  unfolding start my_owner_ref
  start-Careful pod_name (err e) = tt
  start-Careful pod_name (ok c) = elim (Bool-cases (pod_name == "")) [
    | inl unset ↦ rw unset tt
    | inr set ↦ rw set (tt, elim [ err e ↦ tt | ok p ↦ campaign-Careful _ _ (refl, refl) ])
  ]

-- In any number of rounds of `Become`, and whatever is answered: a pod is deleted only if it is the
-- one owner of the lock as last read, and was itself then read either as evicted or preempted and
-- not being deleted, or as running on a node that was reported not ready. A config map is deleted
-- only in the second case, at once after its owner was deleted with success, and it is the lock as
-- last read.
pub become-MayDelete :
    {Client : Type 0} (pod_name ns lock_name : String) (in_cluster : Result Error Client)
    (opts : List (Opt Client)) (n : ℕ)
    → Past
        (MayDelete ns lock_name)
        (λ _. Stays ns lock_name)
        []
        (rounds n (become pod_name (ok ns) in_cluster lock_name opts))
unfolding become
become-MayDelete pod_name ns lock_name in_cluster opts n =
    rounds-Careful ns lock_name n [] _
      (start-Careful ns lock_name pod_name (configure in_cluster opts))
