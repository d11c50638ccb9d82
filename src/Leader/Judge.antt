-- ===== src/Leader/Judge.antt =====
-- leader/leader.go, the cases of a leader's pod that was found: what a round does about it.
use operator_lib.Common.{
  false, not, ◌&&◌, ◌≡◌, refl, sym, ap, ◌∙◌, if◌then◌else◌, ◌⊎◌, inl, inr, List, Option, none, some,
  Result, ok, err, string_eq, Bool-cases, Result-cases,
}
use mathlib.Core.Bool.{false≢true}
use operator_lib.Leader.Program.{
  ConfigMap, Pod, NodeCondition, ApiError, Request, Reply, get_node, delete_pod, delete_config_map,
  ret,
}
use operator_lib.Leader.Helpers.{
  Error, api, is_pod_evicted, is_pod_preempted, is_deleted, is_not_ready_node, delete_leader,
  not_ready,
}
use operator_lib.Leader.Loop.{judge}
use operator_lib.Leader.Rounds.{run}
use operator_lib.Leader.Verdict.{
  IsRemoved, evicted-IsRemoved, preempted-IsRemoved, IsRemoved-judged, IsNotReady,
  IsNotReady-not_ready, not_ready-IsNotReady,
}

module _ {W : Type 0} (answer : (r : Request) → W → Reply r × W) (cm : ConfigMap) where
  abbrev pub node_of : Pod → W → Result ApiError (List NodeCondition) × W
  node_of p v = answer (get_node (record { namespace = ""; name = p.node_name })) v

  -- What is done about the pod of the leader, from the state in which it was read.
  pub data Judges (p : Pod) (v : W) : Option Error → W → Type 0 where
    removes : IsRemoved p → Judges p v none (answer (delete_pod p) v).1
    leaves : ¬ IsRemoved p → ¬ IsNotReady (node_of p v).0 → Judges p v none (node_of p v).1
    keeps_pod :
        (e : ApiError)
        → ¬ IsRemoved p
        → IsNotReady (node_of p v).0
        → (answer (delete_pod p) (node_of p v).1).0 ≡ err e
        → Judges p v (some (api e)) (answer (delete_pod p) (node_of p v).1).1
    keeps_lock :
        (e : ApiError)
        → ¬ IsRemoved p
        → IsNotReady (node_of p v).0
        → (answer (delete_pod p) (node_of p v).1).0 ≡ ok tt
        → (answer (delete_config_map cm) (answer (delete_pod p) (node_of p v).1).1).0 ≡ err e
        → Judges p v
            (some (api e))
            (answer (delete_config_map cm) (answer (delete_pod p) (node_of p v).1).1).1
    frees :
        ¬ IsRemoved p
        → IsNotReady (node_of p v).0
        → (answer (delete_pod p) (node_of p v).1).0 ≡ ok tt
        → (answer (delete_config_map cm) (answer (delete_pod p) (node_of p v).1).1).0 ≡ ok tt
        → Judges p v none
            (answer (delete_config_map cm) (answer (delete_pod p) (node_of p v).1).1).1

  module _ (p : Pod) (v : W) where
    -- A pod that is not removed is judged by its node.
    stays-judge :
        ¬ IsRemoved p
        → run answer (judge p cm) v
          ≡ run answer
              (if not_ready (node_of p v).0 then delete_leader p cm else ret none)
              (node_of p v).1
    unfolding judge is_not_ready_node run
    stays-judge stays = elim (Bool-cases (is_pod_evicted p && not (is_deleted p))) [
      | inl evicted ↦ absurd (stays (evicted-IsRemoved p evicted))
      | inr fine ↦ elim (Bool-cases (is_pod_preempted p && not (is_deleted p))) [
        | inl preempted ↦ absurd (stays (preempted-IsRemoved p preempted))
        | inr running ↦ rw (fine, running) refl
      ]
    ]

    lost-judge :
        ¬ IsRemoved p
        → IsNotReady (node_of p v).0
        → run answer (judge p cm) v ≡ run answer (delete_leader p cm) (node_of p v).1
    lost-judge stays lost =
        stays-judge stays
        ∙ ap (λ b. run answer (if b then delete_leader p cm else ret none) (node_of p v).1)
            (IsNotReady-not_ready _ lost)

    ready-judge :
        ¬ IsRemoved p
        → not_ready (node_of p v).0 ≡ false
        → run answer (judge p cm) v ≡ (none, (node_of p v).1)
    unfolding run
    ready-judge stays ready =
        stays-judge stays
        ∙ ap (λ b. run answer (if b then delete_leader p cm else ret none) (node_of p v).1) ready

    removed-judge : IsRemoved p → run answer (judge p cm) v ≡ (none, (answer (delete_pod p) v).1)
    unfolding judge run
    removed-judge r = elim (IsRemoved-judged p r) [
      | inl evicted ↦ rw evicted refl
      | inr (fine, preempted) ↦ rw (fine, preempted) refl
    ]

    pub Judges-judge :
        (x : Option Error) (v' : W) → Judges p v x v' → run answer (judge p cm) v ≡ (x, v')
    unfolding delete_leader run
    Judges-judge x v' (Judges.removes r) = removed-judge r
    Judges-judge x v' (Judges.leaves stays ready) = elim (Bool-cases (not_ready (node_of p v).0)) [
      | inl lost ↦ absurd (ready (not_ready-IsNotReady _ lost))
      | inr fine ↦ ready-judge stays fine
    ]
    Judges-judge x v' (Judges.keeps_pod e stays lost kept) =
        lost-judge stays lost ∙ (rw (delete_leader, kept) refl)
    Judges-judge x v' (Judges.keeps_lock e stays lost gone kept) =
        lost-judge stays lost ∙ (rw (delete_leader, gone, kept) refl)
    Judges-judge x v' (Judges.frees stays lost gone freed) =
        lost-judge stays lost ∙ (rw (delete_leader, gone, freed) refl)

    IsRemoved-cases : IsRemoved p ⊎ (¬ IsRemoved p)
    IsRemoved-cases = elim (Bool-cases (is_pod_evicted p && not (is_deleted p))) [
      | inl evicted ↦ inl (evicted-IsRemoved p evicted)
      | inr fine ↦ elim (Bool-cases (is_pod_preempted p && not (is_deleted p))) [
        | inl preempted ↦ inl (preempted-IsRemoved p preempted)
        | inr running ↦ inr (λ r. elim (IsRemoved-judged p r) [
          | inl evicted ↦ false≢true (sym fine ∙ evicted)
          | inr (_, preempted) ↦ false≢true (sym running ∙ preempted)
        ])
      ]
    ]

    -- Some case is there.
    pub some_judgement : (x : Option Error) × (v' : W) × Judges p v x v'
    some_judgement = elim IsRemoved-cases [
      | inl removed ↦ (_, _, Judges.removes removed)
      | inr stays ↦ elim (Bool-cases (not_ready (node_of p v).0)) [
        | inr ready ↦
            (_, _, Judges.leaves stays (λ u. false≢true (sym ready ∙ IsNotReady-not_ready _ u)))
        | inl unready ↦
            let lost = not_ready-IsNotReady _ unready in
            elim (Result-cases (answer (delete_pod p) (node_of p v).1).0) [
              | inr (e, kept) ↦ (_, _, Judges.keeps_pod e stays lost kept)
              | inl (_, gone) ↦
                  elim (Result-cases
                    (answer (delete_config_map cm) (answer (delete_pod p) (node_of p v).1).1).0) [
                      | inr (e, kept) ↦ (_, _, Judges.keeps_lock e stays lost gone kept)
                      | inl (_, freed) ↦ (_, _, Judges.frees stays lost gone freed)
                    ]
            ]
      ]
    ]
