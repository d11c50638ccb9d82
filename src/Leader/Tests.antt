-- ===== src/Leader/Tests.antt =====
-- Runs of `Become` against small clients, and the theorems at concrete inputs.
mod Progress
mod Leaders
use operator_lib.Common.{
  ℕ, String, ◌≡◌, ◌≢◌, ◌↔◌, refl, List, [], ◌∷◌, ◌+◌, none, some, Result, ok, err, arith, string_eq,
}
use operator_lib.Common.Int.{ℤ, pos}
use operator_lib.Utils.{get_operator_namespace, not_exist, no_namespace}
use operator_lib.Leader.Program.{
  ConfigMap, Pod, ApiError, not_found, already_exists, elapsed, Request, get_pod, get_node,
  get_config_map, create_config_map, delete_config_map, delete_pod, wait, Reply, ret,
}
use operator_lib.Leader.Helpers.{
  Error, namespace, pod_name_unset, Config, Loop, second, default_max_backoff_interval, finished,
  again, failed,
}
use operator_lib.Leader.Options.{Opt, configure, apply_options, with_client, set_defaults}
use operator_lib.Leader.Loop.{become, attempt, owned_by, next_backoff}
use operator_lib.Leader.Rounds.{rounds, run, Past, Always}
use operator_lib.Leader.Causes.{Silent}
use operator_lib.Leader.Endings.{Ending, become-Ending}
use operator_lib.Leader.Waits.{waits, Timed}
use operator_lib.Leader.Backoff.{IsScheduled, ScheduledNext, become-IsScheduled}
use operator_lib.Leader.Deletion.{MayDelete, Stays, become-MayDelete}
use operator_lib.Leader.Unreadable.{IsUnreadable, rounds-unreadable}
use operator_lib.Leader.Start.{Ready, Starts, become-Starts_iff}
use operator_lib.Leader.Unstarted.{Unstarted, become-Unstarted_iff}
use operator_lib.Leader.Cluster.Schedule.{Lock, server_with, all_ready}

abbrev no_client : Result Error (Unit {0})
no_client = err (Error.setup "no kubeconfig")

abbrev given : List (Opt (Unit {0}))
given = with_client tt ∷ []

abbrev given_config : Config (Unit {0})
given_config = record { client = some tt; max_backoff_interval = default_max_backoff_interval }

configure-given : configure no_client given ≡ ok given_config
unfolding configure apply_options with_client set_defaults
configure-given = refl

become-IsScheduled_example :
    Past
      (Timed (IsScheduled 16_000_000_000))
      (λ h. ScheduledNext 16_000_000_000 (waits h))
      []
      (rounds 3 (become "a" (ok "ns") no_client "lock" given))
become-IsScheduled_example =
    become-IsScheduled 16_000_000_000 "a" (ok "ns") no_client "lock" given given_config 3
      (omega arith) configure-given refl

become-Ending_example :
    Past Silent
      (Ending "a" "ns" "lock" (configure no_client given))
      []
      (rounds 2 (become "a" (ok "ns") no_client "lock" given))
become-Ending_example = become-Ending "a" "ns" "lock" no_client given 2

become-MayDelete_example :
    Past
      (MayDelete "ns" "lock")
      (λ _. Stays "ns" "lock")
      []
      (rounds 2 (become "a" (ok "ns") no_client "lock" given))
become-MayDelete_example = become-MayDelete "a" "ns" "lock" no_client given 2

become-Unstarted_iff_example :
    (become "a" (get_operator_namespace (err not_exist)) no_client "lock" given
      ≡ ret (failed (namespace no_namespace)))
    ↔ ((e : Error) × (failed {Client = Unit} (namespace no_namespace) ≡ failed e)
        × Unstarted "a" (configure no_client given) (err not_exist) e)
become-Unstarted_iff_example =
    become-Unstarted_iff "a" "lock" (err not_exist) no_client given
      (failed (namespace no_namespace))

-- A pod whose POD_NAME is empty leaves at once.
become_unnamed :
    become "" (get_operator_namespace (ok "ns")) no_client "lock" given
    ≡ ret (failed pod_name_unset)
become_unnamed =
    (become-Unstarted_iff "" "lock" (ok "ns") no_client given (failed pod_name_unset)).1
      (_, refl, Unstarted.unnamed given_config "ns" configure-given refl refl)

abbrev loop_with : ℤ → ℤ → Loop (Unit {0})
loop_with max backoff = record {
  config = record { client = some tt; max_backoff_interval = max };
  ns = "ns";
  lock_name = "lock";
  owner = record { api_version = "v1"; kind = "Pod"; name = "a"; uid = "u" };
  backoff = backoff;
}

-- With an interval of three seconds the third wait is one of four.
overshoot : next_backoff (loop_with (pos 3_000_000_000) (pos 2_000_000_000)) ≡ pos 4_000_000_000
unfolding next_backoff
overshoot = refl

-- A client that cannot read config maps, in a world that counts the other calls.
abbrev blind : (r : Request) → ℕ → Reply r × ℕ
blind (get_pod k) n = (err not_found, n + 1)
blind (get_node k) n = (err not_found, n + 1)
blind (get_config_map k) n = (err (ApiError.other "forbidden"), n)
blind (create_config_map cm) n = (err already_exists, n)
blind (delete_config_map cm) n = (ok tt, n + 1)
blind (delete_pod p) n = (ok tt, n + 1)
blind (wait d) n = (elapsed, n + 1)

abbrev first_loop : Loop (Unit {0})
first_loop = loop_with default_max_backoff_interval second

blind-IsUnreadable : IsUnreadable blind (λ n. n ≡ 0) first_loop
blind-IsUnreadable = record {
  taken = λ w. refl;
  lost = λ w. (ApiError.other "forbidden", refl);
  create_keeps = λ w q. q;
  get_keeps = λ w q. q;
}

rounds-unreadable_example :
    ((run blind (rounds 100 (attempt first_loop)) 0).0 ≡ again first_loop)
    × ((run blind (rounds 100 (attempt first_loop)) 0).1 ≡ 0)
rounds-unreadable_example =
    rounds-unreadable blind (λ n. n ≡ 0) first_loop 100 0 blind-IsUnreadable refl

abbrev pub the_pod : Pod
the_pod = record {
  key = record { namespace = "ns"; name = "a" };
  uid = "u";
  phase = "Running";
  reason = "";
  node_name = "a";
  deletion_timestamp = none;
}

abbrev pub the_lock : ConfigMap
the_lock = record {
  key = record { namespace = "ns"; name = "lock" };
  owner_references = record { api_version = "v1"; kind = "Pod"; name = "a"; uid = "u" } ∷ [];
}

pub named_a : ◌≢◌ {A = String} "a" ""
named_a e = ground (arith, string_eq.beq_iff "a" "")

become-Starts_iff_example :
    (run
        (server_with all_ready).answer
        (become "a" (ok "ns") no_client "lock" given)
        (some the_lock)
      ≡ (finished none, some the_lock))
    ↔ Starts
        (server_with all_ready).answer
        "a"
        "lock"
        (configure no_client given)
        (ok "ns")
        (some the_lock)
        (finished none)
        (some the_lock)
become-Starts_iff_example =
    become-Starts_iff (server_with all_ready).answer "a" "lock" (ok "ns") no_client given
      (some the_lock) (some the_lock) (finished none)

-- A pod that restarts while it owns the lock leads again.
become_restarted :
    run (server_with all_ready).answer (become "a" (ok "ns") no_client "lock" given) (some the_lock)
    ≡ (finished none, some the_lock)
unfolding owned_by
become_restarted =
    (become-Starts_iff (server_with all_ready).answer "a" "lock" (ok "ns") no_client given
        (some the_lock) (some the_lock) (finished none)).1
      (Starts.leads given_config "ns" the_pod the_lock
        (record {
          ready = record { configured = configure-given; placed = refl; named = named_a };
          itself = refl;
        })
        refl refl)
