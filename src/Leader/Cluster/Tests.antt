-- ===== src/Leader/Cluster/Tests.antt =====
-- Two pods against a small API server, by evaluation.
mod Races
use operator_lib.Common.{
  String, false, ◌≡◌, refl, sym, ap, List, [], ◌∷◌, none, some, ok, arith, string_eq,
}
use mathlib.Core.Option.{some-injective}
use mathlib.Core.Path.{subst}
use operator_lib.Leader.Program.{OwnerReference, ConfigMap}
use mathlib.Core.Bool.{false≢true}
use operator_lib.Leader.Helpers.{
  Loop, second, default_max_backoff_interval, my_owner_ref, is_pod_evicted, is_pod_preempted,
  is_not_ready_node, any_not_ready, delete_leader, owner_of,
}
use operator_lib.Leader.Options.{configure, apply_options, with_client, set_defaults}
use operator_lib.Leader.Loop.{
  become, campaign, attempt, contend, pause, inspect_owners, inspect_leader, judge, owned_by,
  next_backoff, own_lock,
}
use operator_lib.Leader.Cluster.{Leads, key_of, System, create, act, IsOwnerless, Reach}
use operator_lib.Leader.Cluster.Careful.{IsCareful, IsCarefulRun, NamesAnew, NamesAnewRun}
use operator_lib.Leader.Cluster.Exclusion.{careful_exclusion, mutual_exclusion}
use operator_lib.Leader.Cluster.Owners.{owned_by_single}
use operator_lib.Leader.Cluster.Schedule.{
  Run, nobody, join, turns, server_with-IsConsistent, server_with-NodesReady, init-IsInitial, init,
  server_with, Lock, all_ready, only_lost, leave, pod_named, create_in,
}
use operator_lib.Leader.Cluster.LockSpec.{LockStep, holder, careful-LockStep}
use operator_lib.Leader.Cluster.StaleDelete.{Obliges, deleting_leader, stale_delete}
use operator_lib.Leader.Cluster.ForLife.{Outlives, Outlives-Reach, Spares, careful_for_life}

abbrev pub loop_of : String → Loop (Unit {0})
loop_of name = record {
  config = record { client = some tt; max_backoff_interval = default_max_backoff_interval };
  ns = "ns";
  lock_name = "lock";
  owner = owner_of (pod_named (key_of "ns" name));
  backoff = second;
}

election : Unit {0}
unfolding nobody join leave turns become campaign attempt contend pause inspect_owners
    inspect_leader judge apply_options with_client set_defaults owned_by next_backoff my_owner_ref
    configure is_pod_evicted is_pod_preempted is_not_ready_node any_not_ready delete_leader
election = tt

abbrev first_run : Run all_ready
first_run = turns (join (nobody all_ready) "a") ("a" ∷ "a" ∷ "a" ∷ "a" ∷ [])

first-Leads : Leads first_run.last "a"
unfolding election
first-Leads = refl

first-NamesAnewRun : NamesAnewRun (server_with all_ready) "ns" "lock" first_run.reach
unfolding election NamesAnewRun NamesAnew
first-NamesAnewRun = (((((tt, λ cm there. cc), tt), tt), tt), tt)

mutual_exclusion_example : ◌≡◌ {A = String} "a" "a"
mutual_exclusion_example =
    mutual_exclusion (server_with all_ready) "ns" "lock" (init none) first_run.last
      (server_with-IsConsistent all_ready (key_of "ns" "lock")) server_with-NodesReady
      (init-IsInitial all_ready) first_run.reach first-NamesAnewRun "a" "a" first-Leads first-Leads

-- The leader's node is lost, and the second pod takes the lock while the first still leads.
abbrev lost_run : Run (only_lost "a")
lost_run =
    turns (join (turns (join (nobody (only_lost "a")) "a") ("a" ∷ "a" ∷ "a" ∷ "a" ∷ [])) "b")
      ("b" ∷ "b" ∷ "b" ∷ "b" ∷ "b" ∷ "b" ∷ "b" ∷ "b" ∷ "b" ∷ "b" ∷ "b" ∷ "b" ∷ [])

two_leaders : Leads lost_run.last "a" × Leads lost_run.last "b"
unfolding election
two_leaders = (refl, refl)

-- The leader is gone with its node. Two other pods both see that and delete the leader's pod; then
-- the one deletes the lock and takes it, and the other deletes that lock and takes it as well.
abbrev late_run : Run (only_lost "a")
late_run =
    turns
      (turns
        (turns
          (join
            (turns
              (join
                (leave (turns (join (nobody (only_lost "a")) "a") ("a" ∷ "a" ∷ "a" ∷ "a" ∷ [])) "a")
                "b")
              ("b" ∷ "b" ∷ "b" ∷ "b" ∷ "b" ∷ "b" ∷ "b" ∷ "b" ∷ []))
            "c")
          ("c" ∷ "c" ∷ "c" ∷ "c" ∷ "c" ∷ "c" ∷ "c" ∷ "c" ∷ []))
        ("b" ∷ "b" ∷ "b" ∷ "b" ∷ []))
      ("c" ∷ "c" ∷ "c" ∷ "c" ∷ [])

late_delete : (late_run.last.proc "a" ≡ none) × Leads late_run.last "b" × Leads late_run.last "c"
unfolding election
late_delete = (refl, refl, refl)

-- With a ready node the second pod waits.
abbrev waiting_run : Run all_ready
waiting_run =
    turns (join first_run "b")
      ("b" ∷ "b" ∷ "b" ∷ "b" ∷ "b" ∷ "b" ∷ "b" ∷ "b" ∷ "b" ∷ "b" ∷ "b" ∷ "b" ∷ [])

one_leader : Leads waiting_run.last "a" × ¬ Leads waiting_run.last "b"
unfolding election
one_leader = (refl, λ e. cc)

-- The leader is gone with its node. The second pod is about to delete the lock,
abbrev deleting : Run (only_lost "a")
deleting =
    turns
      (join (leave (turns (join (nobody (only_lost "a")) "a") ("a" ∷ "a" ∷ "a" ∷ "a" ∷ [])) "a")
        "b")
      ("b" ∷ "b" ∷ "b" ∷ "b" ∷ "b" ∷ "b" ∷ "b" ∷ "b" ∷ [])

-- does so, and takes it.
abbrev succession : Run (only_lost "a")
succession = turns deleting ("b" ∷ "b" ∷ "b" ∷ "b" ∷ [])

succession-Leads : Leads succession.last "b"
unfolding election
succession-Leads = refl

-- A lock that `i` has created names no other pod.
named_otherwise :
    (i j : String) (cm : ConfigMap)
    → ◌≡◌ {A = Lock} (some (own_lock (loop_of i))) (some cm)
    → owned_by j (own_lock (loop_of i)).owner_references ≡ false
    → owned_by j cm.owner_references ≡ false
named_otherwise i j cm there other =
    subst (λ (c : ConfigMap). owned_by j c.owner_references ≡ false) (some-injective _ _ there)
      other

deleting-IsCarefulRun : IsCarefulRun (server_with (only_lost "a")) "ns" "lock" deleting.reach
unfolding election IsCarefulRun IsCareful
deleting-IsCarefulRun = (
  (
    (
      (
        (
          (
            (
              (
                (
                  ((((((tt, λ cm there. cc), tt), tt), tt), tt), tt),
                  λ cm there. named_otherwise "a" "b" cm there refl,
                ),
                tt,
              ),
              tt,
            ),
            tt,
          ),
          tt,
        ),
        tt,
      ),
      tt,
    ),
    tt,
  ),
  tt,
)

abbrev owners : ConfigMap → List OwnerReference
owners cm = cm.owner_references

deleting-IsOwnerless :
    IsOwnerless (server_with (only_lost "a")) deleting.last.world (λ j. deleting.last.proc j ≡ none)
unfolding election
deleting-IsOwnerless cm there j mine =
    subst (λ k. deleting.last.proc k ≡ none) (owned_by_single j cm owner_a same mine) refl
  where
    owner_a : OwnerReference
    owner_a = owner_of (pod_named (key_of "ns" "a"))

    same : cm.owner_references ≡ owner_a ∷ []
    same = sym (ap owners (some-injective _ _ there))

succession-IsCarefulRun : IsCarefulRun (server_with (only_lost "a")) "ns" "lock" succession.reach
unfolding election IsCarefulRun IsCareful
succession-IsCarefulRun = ((((deleting-IsCarefulRun, deleting-IsOwnerless), tt), tt), tt)

careful_exclusion_example : ◌≡◌ {A = String} "b" "b"
careful_exclusion_example =
    careful_exclusion (server_with (only_lost "a")) "ns" "lock" (init none) succession.last
      (server_with-IsConsistent (only_lost "a") (key_of "ns" "lock"))
      (init-IsInitial (only_lost "a")) succession.reach succession-IsCarefulRun "b" "b"
      succession-Leads succession-Leads

-- The deletion frees the lock of the pod that is gone.
careful-LockStep_example : LockStep (λ i. deleting.last.proc i ≡ none) (some "a") none
unfolding election IsCareful
careful-LockStep_example =
    careful-LockStep (server_with (only_lost "a")) "ns" "lock" (init none) deleting.last _
      (server_with-IsConsistent (only_lost "a") (key_of "ns" "lock"))
      (init-IsInitial (only_lost "a")) deleting.reach (act "b" refl) deleting-IsCarefulRun
      deleting-IsOwnerless

-- A third pod joins, and the second one goes on leading.
abbrev joined : System Lock (Unit {0})
joined = (join succession "c").last

joins : Outlives (server_with (only_lost "a")) "ns" "lock" "b" succession.last joined
unfolding election Spares
joins =
    Outlives.later Outlives.begun
      (create "c" succession.last.world (ok tt) (with_client tt ∷ []) refl refl (λ j ne. refl))
      (λ e. false≢true ((string_eq.beq_iff "c" "b").1 e))

careful_for_life_example :
    Leads joined "b"
    × (holder (server_with (only_lost "a")) joined.world ≡ some "b")
    × ((j : String) → Leads joined j → j ≡ "b")
unfolding election Outlives-Reach joins IsCarefulRun IsCareful
careful_for_life_example =
    careful_for_life (server_with (only_lost "a")) "ns" "lock" "b" (init none) succession.last
      joined (server_with-IsConsistent (only_lost "a") (key_of "ns" "lock"))
      (init-IsInitial (only_lost "a")) succession.reach joins
      (succession-IsCarefulRun, λ cm there. named_otherwise "b" "c" cm there refl) succession-Leads
