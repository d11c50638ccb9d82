-- ===== src/Leader/Cluster/Tests/Races.antt =====
-- Pods that come upon each other's lock, or upon a free one.
use operator_lib.Common.{
  sym, false, ◌∙◌, ok, ◌==◌, List, ◌≢◌, String, ◌≡◌, refl, ap, [], ◌∷◌, none, some, string_eq,
}
use operator_lib.Leader.Program.{
  OwnerReference, ConfigMap, Request, get_pod, get_node, get_config_map, create_config_map,
  delete_config_map, delete_pod, wait,
}
use mathlib.Core.Bool.{false≢true}
use operator_lib.Leader.Helpers.{
  Config, default_max_backoff_interval, my_owner_ref, is_pod_evicted, is_pod_preempted,
  is_not_ready_node, any_not_ready, delete_leader, owner_of,
}
use operator_lib.Leader.Options.{Opt, configure, apply_options, with_client, set_defaults}
use operator_lib.Leader.Loop.{
  become, campaign, attempt, contend, pause, inspect_owners, inspect_leader, judge, owned_by,
  next_backoff, own_lock,
}
use operator_lib.Leader.Cluster.{IsInitial, Leads, key_of, System, Reach, update, create}
use operator_lib.Leader.Cluster.Schedule.{
  init, Status, answer_with, Run, nobody, join, turns, server_with-IsConsistent, server_with, Lock,
  all_ready, only_lost, leave, pod_named, create_in,
}
use operator_lib.Leader.Cluster.Comes.{Normal, Serves, HasFailed}
use operator_lib.Leader.Cluster.StaleName.{stale_name}
use operator_lib.Leader.Cluster.Tests.{loop_of}
use operator_lib.Objects.{NamespacedName}
use mathlib.Core.Option.{some-injective}
use operator_lib.Leader.Cluster.StaleDelete.{Obliges, deleting_leader, stale_delete}

racing : Unit {0}
unfolding nobody join leave turns become campaign attempt contend pause inspect_owners
    inspect_leader judge apply_options with_client set_defaults owned_by next_backoff my_owner_ref
    configure is_pod_evicted is_pod_preempted is_not_ready_node any_not_ready delete_leader
racing = tt

-- The third pod has found the first one's node lost, and the second pod leads by now.
abbrev overtaken : Run (only_lost "a")
overtaken =
    turns
      (join
        (turns
          (join (leave (turns (join (nobody (only_lost "a")) "a") ("a" ∷ "a" ∷ "a" ∷ "a" ∷ [])) "a")
            "c")
          ("c" ∷ "c" ∷ "c" ∷ "c" ∷ "c" ∷ "c" ∷ "c" ∷ []))
        "b")
      ("b" ∷ "b" ∷ "b" ∷ "b" ∷ "b" ∷ "b" ∷ "b" ∷ "b" ∷ "b" ∷ "b" ∷ "b" ∷ "b" ∷ [])

overtaken-deletes :
    overtaken.last.proc "c"
    ≡ some (deleting_leader (pod_named (key_of "ns" "a")) (own_lock (loop_of "a")) (loop_of "c"))
unfolding racing
overtaken-deletes = refl

overtaken-Leads : Leads overtaken.last "b"
unfolding racing
overtaken-Leads = refl

server_with-Obliges : Obliges (server_with (only_lost "a")) (key_of "ns" "lock")
server_with-Obliges = record {
  deletes_pod = λ p w. refl;
  deletes = λ cm w key. (refl, refl);
  waits = λ d w. (refl, refl);
  creates = λ cm w key free. ap (λ v. (create_in cm v).0) free;
}

stale_delete_example :
    (t : System Lock (Unit {0})) × Reach (server_with (only_lost "a")) "ns" "lock" overtaken.last t
    × Leads t "c"
    × Leads t "b"
stale_delete_example =
    stale_delete (server_with (only_lost "a")) "ns" "lock" "c" "b" overtaken.last
      (pod_named (key_of "ns" "a")) (own_lock (loop_of "a")) (loop_of "c") server_with-Obliges
      (λ e. false≢true ((string_eq.beq_iff "c" "b").1 e)) refl refl overtaken-deletes
      overtaken-Leads

normal :
    (status : Status) (own : NamespacedName) (r : Request) (w : Lock)
    → Normal own r (answer_with status r w).0
normal status own (get_pod k) w = tt
normal status own (get_node k) w = tt
normal status own (get_config_map k) none = refl
normal status own (get_config_map k) (some cm) = tt
normal status own (create_config_map cm) none = tt
normal status own (create_config_map cm) (some old) = refl
normal status own (delete_config_map cm) w = tt
normal status own (delete_pod p) w = tt
normal status own (wait d) w = tt

server_with-Serves :
    (status : Status) → Serves (server_with status) (key_of "ns" "b") (key_of "ns" "lock")
server_with-Serves status = record {
  normal = normal status (key_of "ns" "b");
  creates = λ cm w key free. ap (λ v. (create_in cm v).0) free;
}

-- The leader is gone. The second pod has found that it cannot create the lock.
abbrev left_alone : Run all_ready
left_alone =
    leave
      (turns (join (turns (join (nobody all_ready) "a") ("a" ∷ "a" ∷ "a" ∷ "a" ∷ [])) "b")
        ("b" ∷ "b" ∷ "b" ∷ "b" ∷ []))
      "a"

abbrev owners : ConfigMap → List OwnerReference
owners cm = cm.owner_references

given : List (Opt (Unit {0}))
given = with_client tt ∷ []

given_config : Config (Unit {0})
given_config = record { client = some tt; max_backoff_interval = default_max_backoff_interval }

configure-given : configure (ok tt) given ≡ ok given_config
unfolding configure apply_options with_client set_defaults given given_config
configure-given = refl

named : (i : String) → (i == "") ≡ false → i ≢ ""
named i h e = false≢true (sym h ∙ (string_eq.beq_iff i "").1 e)

-- The lock of a former pod "a", with another UID than any pod has.
abbrev old_owner : OwnerReference
old_owner = record (owner_of (pod_named (key_of "ns" "a"))) { uid = "old" }

abbrev old_lock : ConfigMap
old_lock = record { key = key_of "ns" "lock"; owner_references = old_owner ∷ [] }

old-IsInitial : IsInitial (server_with all_ready) (init (some old_lock))
old-IsInitial = record {
  idle = λ i. refl;
  single = λ cm there. (old_owner, sym (ap owners (some-injective _ _ there)));
}

abbrev candidate : System Lock (Unit {0})
candidate = record {
  world = some old_lock;
  proc = update (λ _. none) "b" (some (become "b" (ok "ns") (ok tt) "lock" given));
}

joined_late : Reach (server_with all_ready) "ns" "lock" (init (some old_lock)) candidate
joined_late =
    Reach.next Reach.here (create "b" (some old_lock) (ok tt) given refl refl (λ j ne. refl))

starts : ¬ HasFailed (become "b" (ok "ns") (ok tt) "lock" given)
unfolding racing given
starts h = let e = h.1 in cc

old_uid : ◌≢◌ {A = String} "u" "old"
old_uid e = false≢true ((string_eq.beq_iff "u" "old").1 e)

stale_name_example :
    (u : System Lock (Unit {0})) × Reach (server_with all_ready) "ns" "lock" candidate u
    × Leads u "b"
    × Leads u "a"
stale_name_example =
    stale_name (server_with all_ready) "ns" "lock" "b" "a" (init (some old_lock)) candidate
      (become "b" (ok "ns") (ok tt) "lock" given) old_lock old_owner (some old_lock)
      (pod_named (key_of "ns" "a")) (ok tt) given given_config
      (server_with-IsConsistent all_ready (key_of "ns" "lock")) (server_with-Serves all_ready)
      (λ v. (none, refl, λ j. refl)) old-IsInitial joined_late refl starts refl refl refl refl
      (record { lock = refl; others = λ k ne. refl }) old_uid
      (record { itself = refl; lock = refl }) configure-given (named "b" refl) (named "a" refl)
      (λ e. false≢true ((string_eq.beq_iff "b" "a").1 e))
