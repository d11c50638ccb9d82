-- ===== src/Leader/Tests/Leaders.antt =====
-- What is done about a leader on a node that is not ready, and about one that has been evicted.
use operator_lib.Common.{String, ◌≡◌, refl, ◌↔◌, List, [], ◌∷◌, none, ok, err, string_eq}
use operator_lib.Leader.Program.{
  Pod, elapsed, already_exists, Request, get_pod, get_node, get_config_map, create_config_map,
  delete_config_map, delete_pod, wait, Reply,
}
use operator_lib.Leader.Helpers.{
  is_pod_evicted, is_pod_preempted, is_not_ready_node, any_not_ready, delete_leader,
}
use operator_lib.Leader.Loop.{judge, inspect_leader, inspect_owners}
use operator_lib.Leader.Rounds.{run}
use operator_lib.Leader.Inspect.{Inspects, inspect_owners-Inspects_iff}
use operator_lib.Leader.Tests.{the_pod, the_lock}

-- A cluster of one pod, on a node that is not ready; the world is what has been deleted, the last
-- first.
abbrev cluster_of : Pod → (r : Request) → List String → Reply r × List String
cluster_of p (get_pod k) d = (ok p, d)
cluster_of p (get_node k) d = (
  ok (
      record { type = "MemoryPressure"; status = "False" }
      ∷ record { type = "Ready"; status = "Unknown" }
      ∷ []),
  d,
)
cluster_of p (get_config_map k) d = (ok the_lock, d)
cluster_of p (create_config_map cm) d = (err already_exists, d)
cluster_of p (delete_config_map cm) d = (ok tt, "lock" ∷ d)
cluster_of p (delete_pod q) d = (ok tt, "pod" ∷ d)
cluster_of p (wait t) d = (elapsed, d)

lost_leader :
    run (cluster_of the_pod) (inspect_owners "ns" the_lock.owner_references the_lock) []
    ≡ (none, "lock" ∷ "pod" ∷ [])
unfolding inspect_owners inspect_leader judge is_pod_evicted is_pod_preempted is_not_ready_node
    any_not_ready delete_leader run
lost_leader = refl

inspect_owners-Inspects_iff_example :
    (run (cluster_of the_pod) (inspect_owners "ns" the_lock.owner_references the_lock) []
      ≡ (none, "lock" ∷ "pod" ∷ []))
    ↔ Inspects
        (cluster_of the_pod)
        "ns"
        the_lock
        []
        the_lock.owner_references
        none
        ("lock" ∷ "pod" ∷ [])
inspect_owners-Inspects_iff_example =
    inspect_owners-Inspects_iff (cluster_of the_pod) "ns" the_lock [] ("lock" ∷ "pod" ∷ []) none

abbrev evicted_pod : Pod
evicted_pod = record the_pod { phase = "Failed"; reason = "Evicted" }

evicted_leader :
    run (cluster_of evicted_pod) (inspect_owners "ns" the_lock.owner_references the_lock) []
    ≡ (none, "pod" ∷ [])
unfolding inspect_owners inspect_leader judge is_pod_evicted run
evicted_leader = refl
