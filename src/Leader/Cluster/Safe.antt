-- ===== src/Leader/Cluster/Safe.antt =====
-- `Become` and the rounds of its loop do only what they may.
use operator_lib.Common.{
  String, true, not, ◌&&◌, ◌≡◌, refl, ◌⊎◌, inl, inr, List, [], ◌∷◌, Option, none, some, Result, ok,
  err, if◌then◌else◌, ◌==◌, string_eq, Bool-cases,
}
use operator_lib.Objects.{NamespacedName}
use operator_lib.Leader.Program.{
  OwnerReference, ConfigMap, Pod, ApiError, is_already_exists, not_found, already_exists, other,
  is_not_found, elapsed, cancelled, Prog, ret,
}
use operator_lib.Leader.Helpers.{
  Error, Config, Loop, Next, finished, again, not_ready, is_not_ready_node, my_owner_ref,
  is_pod_evicted, is_pod_preempted, is_deleted, api, failed, delete_leader,
}
use operator_lib.Leader.Options.{Opt, configure}
use operator_lib.Leader.Loop.{
  judge, inspect_leader, inspect_owners, owned_by, pause, contend, attempt, campaign, start, become,
}
use operator_lib.Leader.Cluster.Rules.{Rules, Won, Calm, Campaigns, Good, Good->>=}

-- Whatever is found out about the leader, only pods are touched, and locks by the rules.
abbrev Quiet : Rules → Prog (Option Error) → Type 0
Quiet rules = Calm rules (λ _. Unit {0})

delete_leader-Quiet :
    (rules : Rules) (p : Pod) (cm : ConfigMap) → rules.deletes → Quiet rules (delete_leader p cm)
unfolding delete_leader
delete_leader-Quiet rules p cm may = elim [ ok _ ↦ (may, λ r. tt) | err _ ↦ tt ]

judge-Quiet : (rules : Rules) (p : Pod) (cm : ConfigMap) → Quiet rules (judge p cm)
unfolding judge is_not_ready_node
judge-Quiet rules p cm = elim (Bool-cases (is_pod_evicted p && not (is_deleted p))) [
  | inl evicted ↦ rw evicted (λ r. tt)
  | inr fine ↦ elim (Bool-cases (is_pod_preempted p && not (is_deleted p))) [
    | inl preempted ↦ rw (fine, preempted) (λ r. tt)
    | inr running ↦
        rw (fine, running)
          (λ r at_r. elim (Bool-cases (not_ready r)) [
            | inl lost ↦ rw lost (delete_leader-Quiet rules p cm (rules.lost r at_r lost))
            | inr ready ↦ rw ready tt
          ])
  ]
]

inspect_leader-Quiet :
    (rules : Rules) (ns : String) (o : OwnerReference) (cm : ConfigMap)
    → Quiet rules (inspect_leader ns o cm)
unfolding inspect_leader
inspect_leader-Quiet rules ns o cm = (λ e. tt, λ p named. judge-Quiet rules p cm)

inspect_owners-Quiet :
    (rules : Rules) (ns : String) (os : List OwnerReference) (cm : ConfigMap)
    → Quiet rules (inspect_owners ns os cm)
unfolding inspect_owners
inspect_owners-Quiet rules ns [] cm = tt
inspect_owners-Quiet rules ns (o ∷ []) cm = elim (Bool-cases (not (o.kind == "Pod"))) [
  | inl odd ↦ rw odd tt
  | inr pod ↦ rw pod (inspect_leader-Quiet rules ns o cm)
]
inspect_owners-Quiet rules ns (o ∷ o' ∷ os) cm = tt

-- The end of `campaign` where the lock was found.
abbrev after_lock : {Client : Type 0} → Loop Client → ConfigMap → Prog (Next Client)
after_lock l cm = ret (if owned_by l.owner.name cm.owner_references then finished none else again l)

module _ {Client : Type 0} (key : NamespacedName) (i u : String) (rules : Rules)
    (l : Loop Client) where
  pause-Good : Campaigns key i u l → Good key i u rules (pause l)
  unfolding pause
  pause-Good c = elim [ elapsed ↦ c | cancelled _ ↦ tt ]

  contend-Good : Campaigns key i u l → Good key i u rules (contend l)
  unfolding contend
  contend-Good c = (
    c.0,
    λ e. c,
    λ cm. inl (
        Good->>= key i u rules (inspect_owners l.ns cm.owner_references cm) _
          (inspect_owners-Quiet rules l.ns cm.owner_references cm)
          (elim [ none ↦ λ _. pause-Good c | some e ↦ λ _. tt ])),
  )

  pub attempt-Good : Campaigns key i u l → Good key i u rules (attempt l)
  unfolding attempt
  attempt-Good c = ((c.0, l.owner, refl, c.1, c.2), refused, λ u. refl)
    where
      refused :
          (e : ApiError)
          → Good key i u rules (if is_already_exists e then contend l else ret (failed (api e)))
      refused not_found = tt
      refused already_exists = contend-Good c
      refused (other _) = tt

  campaign-Good : Campaigns key i u l → Good key i u rules (campaign l)
  unfolding campaign
  campaign-Good c = (c.0, missing, found)
    where
      missing :
          (e : ApiError)
          → Good key i u rules (ret (if is_not_found e then again l else failed (api e)))
      missing not_found = c
      missing already_exists = tt
      missing (other _) = tt

      found :
          (cm : ConfigMap)
          → Good key i u rules (after_lock l cm)
            ⊎ ((owned_by i cm.owner_references ≡ true) × Won (after_lock l cm))
      found cm = elim (Bool-cases (owned_by l.owner.name cm.owner_references)) [
        | inl mine ↦ inr (rw c.1 at mine, rw mine refl)
        | inr theirs ↦ inl (rw theirs c)
      ]

module _ {Client : Type 0} (i u ns lock_name : String) (rules : Rules) where
  start-Good :
      (c : Result Error (Config Client))
      → Good (record { namespace = ns; name = lock_name }) i u rules (start i c (ok ns) lock_name)
  unfolding start my_owner_ref
  start-Good (err e) = tt
  start-Good (ok config) = elim (Bool-cases (i == "")) [
    | inl unset ↦ rw unset tt
    | inr set ↦
        rw set (λ e. tt, λ p named same. campaign-Good _ i u rules _ (refl, named, same refl refl))
  ]

  pub become-Good :
      (in_cluster : Result Error Client) (opts : List (Opt Client))
      → Good
          (record { namespace = ns; name = lock_name })
          i
          u
          rules
          (become i (ok ns) in_cluster lock_name opts)
  unfolding become
  become-Good in_cluster opts = start-Good (configure in_cluster opts)
