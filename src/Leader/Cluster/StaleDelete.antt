-- ===== src/Leader/Cluster/StaleDelete.antt =====
-- `deleteLeader` of leader/leader.go deletes the lock by its name, whoever owns it by then.
use operator_lib.Common.{String, ◌≡◌, ◌≢◌, refl, ◌∙◌, Option, none, some, ok, string_eq}
use operator_lib.Common.Int.{ℤ}
use operator_lib.Objects.{NamespacedName}
use operator_lib.Leader.Program.{
  ConfigMap, Pod, elapsed, create_config_map, delete_config_map, delete_pod, wait, Prog, ret, ask,
  ◌>>=◌,
}
use operator_lib.Leader.Helpers.{
  Error, Loop, Next, finished, again, failed, delete_leader, error_of,
}
use operator_lib.Leader.Loop.{lock_key, own_lock, next_backoff, pause, attempt}
use operator_lib.Leader.Cluster.Alone.{begun, step_to}
use operator_lib.Leader.Cluster.{Server, key_of, System, advance, Reach, Leads}

-- A server that does what it is asked: it deletes pods and the lock, lets the time of a wait pass, and
-- creates the lock where there is none.
pub record Obliges {W : Type 0} (server : Server W) (key : NamespacedName) : Type 0 where
  pub deletes_pod : (p : Pod) (w : W) → (server.answer (delete_pod p) w).0 ≡ ok tt
  pub deletes :
      (cm : ConfigMap) (w : W)
      → cm.key ≡ key
      → ((server.answer (delete_config_map cm) w).0 ≡ ok tt)
        × (server.lock (server.answer (delete_config_map cm) w).1 ≡ none)
  pub waits :
      (d : ℤ) (w : W)
      → ((server.answer (wait d) w).0 ≡ elapsed)
        × (server.lock (server.answer (wait d) w).1 ≡ server.lock w)
  pub creates :
      (cm : ConfigMap) (w : W)
      → cm.key ≡ key
      → server.lock w ≡ none
      → (server.answer (create_config_map cm) w).0 ≡ ok tt

-- The rest of a round of the loop from the call of `deleteLeader` on.
abbrev pub deleting_leader : {Client : Type 0} → Pod → ConfigMap → Loop Client → Prog (Next Client)
deleting_leader pod existing l =
    delete_leader pod existing >>= elim [ some e ↦ ret (failed e) | none ↦ pause l ]

module _ {W Client : Type 0} (server : Server W) (ns lock_name : String) where
  module _ (obliges : Obliges server (key_of ns lock_name)) (pod : Pod) (existing : ConfigMap)
      (l : Loop Client) where
    after : Option Error → Prog (Next Client)
    after = elim [ some e ↦ ret (failed e) | none ↦ pause l ]

    deleting_lock : Prog (Next Client)
    deleting_lock = (do reply ← ask (delete_config_map existing); ret (error_of reply)) >>= after

    deletes_pod :
        (w : W)
        → advance server (deleting_leader pod existing l) w
          ≡ (deleting_lock, (server.answer (delete_pod pod) w).1)
    unfolding advance delete_leader deleting_lock after
    deletes_pod w = rw (obliges.deletes_pod pod w) refl

    deletes_lock :
        (w : W)
        → existing.key ≡ key_of ns lock_name
        → advance server deleting_lock w
          ≡ (pause l, (server.answer (delete_config_map existing) w).1)
    unfolding advance deleting_lock after
    deletes_lock w key = rw ((obliges.deletes existing w key).0) refl

    next_loop : Loop Client
    next_loop = record l { backoff = next_backoff l }

    waits :
        (w : W)
        → advance server (pause l) w ≡ (ret (again next_loop), (server.answer (wait l.backoff) w).1)
    unfolding advance pause next_loop
    waits w = rw ((obliges.waits l.backoff w).0) refl

    goes_round : (w : W) → advance server (ret (again next_loop)) w ≡ (attempt next_loop, w)
    unfolding advance
    goes_round w = refl

    creates :
        (w : W)
        → lock_key l ≡ key_of ns lock_name
        → server.lock w ≡ none
        → advance server (attempt next_loop) w
          ≡ (ret (finished none), (server.answer (create_config_map (own_lock next_loop)) w).1)
    unfolding advance attempt next_loop
    creates w key free = rw (obliges.creates (own_lock next_loop) w key free) refl

-- A pod that calls `deleteLeader` for a lock that it read before, while another pod leads by now, may
-- delete that one's lock and take it: the cluster reaches a state in which both lead. (The server does
-- what it is asked; the pod goes round the loop for this lock.)
pub stale_delete :
    {W Client : Type 0} (server : Server W) (ns lock_name i j : String) (s : System W Client)
    (pod : Pod) (existing : ConfigMap) (l : Loop Client)
    → Obliges server (key_of ns lock_name)
    → i ≢ j
    → existing.key ≡ key_of ns lock_name
    → lock_key l ≡ key_of ns lock_name
    → s.proc i ≡ some (deleting_leader pod existing l)
    → Leads s j
    → (t : System W Client) × Reach server ns lock_name s t × Leads t i × Leads t j
stale_delete server ns lock_name i j s pod existing l obliges ne key own at_i leads =
    let go = step_to server ns lock_name i s in
    let w1 = (server.answer (delete_pod pod) s.world).1 in
    let w2 = (server.answer (delete_config_map existing) w1).1 in
    let w3 = (server.answer (wait l.backoff) w2).1 in
    let free = (obliges.waits l.backoff w2).1 ∙ (obliges.deletes existing w1 key).1 in
    let r1 =
      go _ _ s.world w1 (deletes_pod server ns lock_name obliges pod existing l s.world)
        (begun server ns lock_name i s (deleting_leader pod existing l) at_i) in
    let r2 = go _ _ w1 w2 (deletes_lock server ns lock_name obliges pod existing l w1 key) r1 in
    let r3 = go _ _ w2 w3 (waits server ns lock_name obliges pod existing l w2) r2 in
    let r4 = go _ _ w3 w3 (goes_round server ns lock_name obliges pod existing l w3) r3 in
    let r5 = go _ _ w3 _ (creates server ns lock_name obliges pod existing l w3 own free) r4 in
    (r5.last, r5.reach, r5.at_i, r5.others j ne ∙ leads)
