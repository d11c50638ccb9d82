-- ===== src/Leader/Verdict.antt =====
-- leader/leader.go: what the tests of a leader's pod and of its node mean.
use operator_lib.Common.{
  String, true, false, not, ◌&&◌, ◌≡◌, ◌≢◌, refl, sym, ◌∙◌, ◌⊎◌, inl, inr, List, [], ◌∷◌, Option,
  none, some, Result, ok, err, ◌==◌, string_eq, ==_sound, ==_of_ne, Bool-cases, arith,
}
use mathlib.Core.Bool.{Bool, false≢true}
use operator_lib.Leader.Program.{Pod, NodeCondition, ApiError}
use operator_lib.Leader.Helpers.{
  is_pod_evicted, is_pod_preempted, is_deleted, any_not_ready, not_ready,
}

-- The pod has failed by eviction or by preemption, and is not being deleted.
pub record IsRemoved (p : Pod) : Type 0 where
  pub failed : p.phase ≡ "Failed"
  pub why : (p.reason ≡ "Evicted") ⊎ (p.reason ≡ "Preempting")
  pub stays : p.deletion_timestamp ≡ none

both_true : (a b : Bool) → (a && b) ≡ true → (a ≡ true) × (b ≡ true)
both_true a b h = ground arith

not_deleted : (t : Option String) → not (elim t [ none ↦ false | some _ ↦ true ]) ≡ true → t ≡ none
not_deleted none h = refl
not_deleted (some t) h = absurd (false≢true h)

pub evicted-IsRemoved : (p : Pod) → (is_pod_evicted p && not (is_deleted p)) ≡ true → IsRemoved p
unfolding is_pod_evicted
evicted-IsRemoved p h =
    let (evicted, stays) = both_true (is_pod_evicted p) (not (is_deleted p)) h in
    let (failed, reason) = both_true (p.phase == "Failed") (p.reason == "Evicted") evicted in
    record {
      failed = ==_sound p.phase "Failed" failed;
      why = inl (==_sound p.reason "Evicted" reason);
      stays = not_deleted p.deletion_timestamp stays;
    }

pub preempted-IsRemoved :
    (p : Pod) → (is_pod_preempted p && not (is_deleted p)) ≡ true → IsRemoved p
unfolding is_pod_preempted
preempted-IsRemoved p h =
    let (preempted, stays) = both_true (is_pod_preempted p) (not (is_deleted p)) h in
    let (failed, reason) = both_true (p.phase == "Failed") (p.reason == "Preempting") preempted in
    record {
      failed = ==_sound p.phase "Failed" failed;
      why = inr (==_sound p.reason "Preempting" reason);
      stays = not_deleted p.deletion_timestamp stays;
    }

pod_evicted : (p : Pod) → p.phase ≡ "Failed" → p.reason ≡ "Evicted" → is_pod_evicted p ≡ true
unfolding is_pod_evicted
pod_evicted p failed reason = rw (failed, reason) refl

pod_preempted :
    (p : Pod)
    → p.phase ≡ "Failed"
    → p.reason ≡ "Preempting"
    → (is_pod_evicted p ≡ false) × (is_pod_preempted p ≡ true)
unfolding is_pod_evicted is_pod_preempted
pod_preempted p failed reason = (rw (failed, reason) refl, rw (failed, reason) refl)

pod_stays : (p : Pod) → p.deletion_timestamp ≡ none → is_deleted p ≡ false
pod_stays p stays = rw stays refl

pub IsRemoved-judged :
    (p : Pod)
    → IsRemoved p
    → ((is_pod_evicted p && not (is_deleted p)) ≡ true)
      ⊎ (((is_pod_evicted p && not (is_deleted p)) ≡ false)
          × ((is_pod_preempted p && not (is_deleted p)) ≡ true))
IsRemoved-judged p r = elim r.why [
  | inl evicted ↦ inl (ground (arith, pod_evicted p r.failed evicted, pod_stays p r.stays))
  | inr preempted ↦
      let (not_evicted, is_preempted) = pod_preempted p r.failed preempted in
      inr (
        ground (arith, not_evicted, pod_stays p r.stays),
        ground (arith, is_preempted, pod_stays p r.stays),
      )
]

-- Some condition of the node says that it is not ready.
pub data IsUnready : List NodeCondition → Type 0 where
  here :
      (c : NodeCondition) (cs : List NodeCondition)
      → c.type ≡ "Ready"
      → c.status ≢ "True"
      → IsUnready (c ∷ cs)
  there : (c : NodeCondition) (cs : List NodeCondition) → IsUnready cs → IsUnready (c ∷ cs)

-- The node has been read, and is not ready.
abbrev pub IsNotReady : Result ApiError (List NodeCondition) → Type 0
IsNotReady (ok cs) = IsUnready cs
IsNotReady (err e) = ⊥

IsUnready-any : (cs : List NodeCondition) → IsUnready cs → any_not_ready cs ≡ true
unfolding any_not_ready
IsUnready-any cs (IsUnready.here c rest ready status) =
    rw (ready, ==_of_ne c.status "True" status) refl
IsUnready-any cs (IsUnready.there c rest u) =
    elim (Bool-cases (c.type == "Ready" && not (c.status == "True"))) [
      | inl this ↦ rw this refl
      | inr other ↦ rw (other, IsUnready-any rest u) refl
    ]

any-IsUnready : (cs : List NodeCondition) → any_not_ready cs ≡ true → IsUnready cs
unfolding any_not_ready
any-IsUnready [] h = absurd (false≢true h)
any-IsUnready (c ∷ cs) h = elim (Bool-cases (c.type == "Ready" && not (c.status == "True"))) [
  | inl this ↦
      let (ready, status) = both_true (c.type == "Ready") (not (c.status == "True")) this in
      IsUnready.here c cs (==_sound c.type "Ready" ready)
        (λ e. false≢true (sym (rw ((string_eq.beq_iff c.status "True").1 e) refl) ∙ status))
  | inr other ↦ IsUnready.there c cs (any-IsUnready cs (rw other at h))
]

pub IsNotReady-not_ready :
    (r : Result ApiError (List NodeCondition)) → IsNotReady r → not_ready r ≡ true
unfolding any_not_ready
IsNotReady-not_ready (ok cs) u = IsUnready-any cs u
IsNotReady-not_ready (err e) u = absurd u

pub not_ready-IsNotReady :
    (r : Result ApiError (List NodeCondition)) → not_ready r ≡ true → IsNotReady r
unfolding any_not_ready
not_ready-IsNotReady (ok cs) h = any-IsUnready cs h
not_ready-IsNotReady (err e) h = absurd (false≢true h)
