-- ===== src/Leader/Tests/Progress.antt =====
-- A world in which the lock becomes free, and a cancelled context.
use operator_lib.Common.{
  ℕ, zero, suc, ◌≤◌, ◌<◌, ◌≢◌, ◌⊎◌, inl, inr, ◌≡◌, refl, [], ◌∷◌, ok, err, arith, string_eq,
}
use operator_lib.Common.Int.{ℤ}
use operator_lib.Leader.Program.{
  ConfigMap, not_found, already_exists, elapsed, Request, get_pod, get_node, get_config_map,
  create_config_map, delete_config_map, delete_pod, wait, Reply,
}
use operator_lib.Leader.Loop.{become}
use operator_lib.Leader.Rounds.{rounds, run, Ends}
use operator_lib.Leader.Possible.{Possible}
use operator_lib.Leader.Liveness.{FreesUp, ReturnsWell, become-finishes}
use operator_lib.Leader.Cancellation.{Cancelled, Returns, become-Returns}
use operator_lib.Leader.Tests.{
  named_a, no_client, given, given_config, configure-given, the_pod, the_lock,
}

abbrev other_lock : ConfigMap
other_lock = record {
  key = record { namespace = "ns"; name = "lock" };
  owner_references = record { api_version = "v1"; kind = "Pod"; name = "b"; uid = "v" } ∷ [];
}

-- A world that is the number of waits until the lock of another pod is gone.
abbrev countdown : (r : Request) → ℕ → Reply r × ℕ
countdown (get_pod k) n = (ok (record the_pod { key = k }), n)
countdown (get_node k) n = (err not_found, n)
countdown (get_config_map k) zero = (err not_found, 0)
countdown (get_config_map k) (suc n) = (ok other_lock, suc n)
countdown (create_config_map cm) zero = (ok tt, 0)
countdown (create_config_map cm) (suc n) = (err already_exists, suc n)
countdown (delete_config_map cm) n = (ok tt, n)
countdown (delete_pod p) n = (ok tt, n)
countdown (wait d) zero = (elapsed, 0)
countdown (wait d) (suc n) = (elapsed, n)

countdown-Possible : (r : Request) (n : ℕ) → Possible ⊥ r (countdown r n).0
countdown-Possible (get_pod k) n = tt
countdown-Possible (get_node k) n = tt
countdown-Possible (get_config_map k) n = tt
countdown-Possible (create_config_map cm) n = tt
countdown-Possible (delete_config_map cm) n = tt
countdown-Possible (delete_pod p) n = tt
countdown-Possible (wait d) zero = tt
countdown-Possible (wait d) (suc n) = tt

countdown_keeps : (r : Request) (n : ℕ) → (countdown r n).1 ≤ n
countdown_keeps (get_pod k) n = omega arith
countdown_keeps (get_node k) n = omega arith
countdown_keeps (get_config_map k) zero = omega arith
countdown_keeps (get_config_map k) (suc n) = omega arith
countdown_keeps (create_config_map cm) zero = omega arith
countdown_keeps (create_config_map cm) (suc n) = omega arith
countdown_keeps (delete_config_map cm) n = omega arith
countdown_keeps (delete_pod p) n = omega arith
countdown_keeps (wait d) zero = omega arith
countdown_keeps (wait d) (suc n) = omega arith

taken_more : (n : ℕ) → n ≢ 0 → (countdown (create_config_map the_lock) n).0 ≡ err already_exists
taken_more zero more = absurd (more refl)
taken_more (suc n) more = refl

countdown_falls : (d : ℤ) (n : ℕ) → n ≢ 0 → (countdown (wait d) n).1 < n
countdown_falls d zero more = absurd (more refl)
countdown_falls d (suc n) more = omega arith

countdown_read :
    (n : ℕ)
    → ((cm : ConfigMap) × ((countdown (get_config_map the_lock.key) n).0 ≡ ok cm))
      ⊎ (((countdown (get_config_map the_lock.key) n).0 ≡ err not_found) × (n ≡ 0))
countdown_read zero = inr (refl, refl)
countdown_read (suc n) = inl (other_lock, refl)

countdown-FreesUp : FreesUp ⊥ countdown (λ n. n) the_lock
countdown-FreesUp = record {
  possible = countdown-Possible;
  free = λ w h. rw h refl;
  taken = λ w more. taken_more w more;
  read = countdown_read;
  elapses = countdown_falls;
  keeps = countdown_keeps;
}

become-finishes_example :
    ReturnsWell ⊥ (run countdown (rounds 4 (become "a" (ok "ns") no_client "lock" given)) 3).0
become-finishes_example =
    become-finishes ⊥ countdown (λ n. n) "a" "ns" "lock" no_client given 3 given_config the_pod 3
      (record {
        ready = record { configured = configure-given; placed = refl; named = named_a };
        itself = refl;
      })
      countdown-FreesUp (omega arith)

become-Returns_example :
    Ends (Cancelled "shutdown") Returns (rounds 1 (become "a" (ok "ns") no_client "lock" given))
become-Returns_example = become-Returns "shutdown" "a" "lock" (ok "ns") no_client given
