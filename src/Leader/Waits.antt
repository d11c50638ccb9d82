-- ===== src/Leader/Waits.antt =====
-- What `Become` finds out about another leader takes neither a wait nor a creation.
use operator_lib.Common.{
  ℕ, suc, String, not, ◌&&◌, ◌≡◌, refl, inl, inr, List, [], ◌∷◌, ok, err, ◌==◌, string_eq,
  Bool-cases,
}
use operator_lib.Leader.Program.{
  OwnerReference, ConfigMap, Pod, Request, get_pod, get_node, get_config_map, create_config_map,
  delete_config_map, delete_pod, wait, Prog, ret, call,
}
use operator_lib.Leader.Helpers.{
  is_pod_evicted, is_pod_preempted, is_deleted, is_not_ready_node, delete_leader, not_ready,
}
use operator_lib.Leader.Loop.{judge, inspect_leader, inspect_owners}
use operator_lib.Leader.Rounds.{Event, Always, Past}

-- How often the program has waited.
unfoldable pub waits : List Event → ℕ
waits [] = 0
waits ((wait d, x) ∷ h) = suc (waits h)
waits (_ ∷ h) = waits h

-- a call that neither waits nor creates anything
abbrev pub IsInspecting : Request → Type 0
IsInspecting (wait d) = ⊥
IsInspecting (create_config_map cm) = ⊥
IsInspecting _ = Unit

-- The program makes no other calls.
abbrev pub Swift : {A : Type 0} → Prog A → Type 0
Swift = Always IsInspecting (λ _. Unit {0})

delete_leader-Swift : (p : Pod) (cm : ConfigMap) → Swift (delete_leader p cm)
unfolding delete_leader
delete_leader-Swift p cm = (tt, elim [ ok _ ↦ (tt, λ r. tt) | err _ ↦ tt ])

judge-Swift : (p : Pod) (cm : ConfigMap) → Swift (judge p cm)
unfolding judge is_not_ready_node
judge-Swift p cm = elim (Bool-cases (is_pod_evicted p && not (is_deleted p))) [
  | inl evicted ↦ rw evicted (tt, λ r. tt)
  | inr fine ↦ elim (Bool-cases (is_pod_preempted p && not (is_deleted p))) [
    | inl preempted ↦ rw (fine, preempted) (tt, λ r. tt)
    | inr running ↦
        rw (fine, running)
          (
            tt,
            λ r. elim (Bool-cases (not_ready r)) [
              | inl lost ↦ rw lost (delete_leader-Swift p cm)
              | inr ready ↦ rw ready tt
            ],
          )
  ]
]

inspect_leader-Swift :
    (ns : String) (o : OwnerReference) (cm : ConfigMap) → Swift (inspect_leader ns o cm)
unfolding inspect_leader
inspect_leader-Swift ns o cm = (tt, elim [ ok p ↦ judge-Swift p cm | err e ↦ tt ])

pub inspect_owners-Swift :
    (ns : String) (os : List OwnerReference) (cm : ConfigMap) → Swift (inspect_owners ns os cm)
unfolding inspect_owners
inspect_owners-Swift ns [] cm = tt
inspect_owners-Swift ns (o ∷ []) cm = elim (Bool-cases (not (o.kind == "Pod"))) [
  | inl odd ↦ rw odd tt
  | inr pod ↦ rw pod (inspect_leader-Swift ns o cm)
]
inspect_owners-Swift ns (o ∷ o' ∷ os) cm = tt

-- Each wait satisfies `D` together with the number of waits before it.
abbrev pub Timed : (ℕ → Request → Type 0) → List Event → Request → Type 0
Timed D h r = D (waits h) r

module _ (D : ℕ → Request → Type 0) (calls : (n : ℕ) (r : Request) → IsInspecting r → D n r) where
  -- Such a program leaves the number of waits.
  pub Swift-Past :
      {A : Type 0} (h : List Event) (p : Prog A)
      → Swift p
      → Past (Timed D) (λ h' _. waits h' ≡ waits h) h p
  unfolding waits
  Swift-Past h (ret a) s = refl
  Swift-Past h (call (wait d) k) s = absurd s.0
  Swift-Past h (call (get_pod key) k) s =
      (calls (waits h) _ tt, λ x. Swift-Past ((get_pod key, x) ∷ h) (k x) (s.1 x))
  Swift-Past h (call (get_node key) k) s =
      (calls (waits h) _ tt, λ x. Swift-Past ((get_node key, x) ∷ h) (k x) (s.1 x))
  Swift-Past h (call (get_config_map key) k) s =
      (calls (waits h) _ tt, λ x. Swift-Past ((get_config_map key, x) ∷ h) (k x) (s.1 x))
  Swift-Past h (call (create_config_map cm) k) s = absurd s.0
  Swift-Past h (call (delete_config_map cm) k) s =
      (calls (waits h) _ tt, λ x. Swift-Past ((delete_config_map cm, x) ∷ h) (k x) (s.1 x))
  Swift-Past h (call (delete_pod p) k) s =
      (calls (waits h) _ tt, λ x. Swift-Past ((delete_pod p, x) ∷ h) (k x) (s.1 x))
