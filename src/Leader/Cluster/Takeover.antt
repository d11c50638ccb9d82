-- ===== src/Leader/Cluster/Takeover.antt =====
-- When the leader is gone, another pod can take its place.
use operator_lib.Common.{string_eq, String, ◌≡◌, ◌≢◌, refl, ap, ◌∙◌, ◌⊎◌, inl, inr, none, some, ok}
use mathlib.Core.Path.{subst}
use operator_lib.Leader.Program.{
  ConfigMap, Request, Reply, get_pod, get_node, get_config_map, create_config_map,
  delete_config_map, delete_pod, wait, not_found, Prog, ret, call,
}
use operator_lib.Leader.Helpers.{Loop, Next, finished, again, failed, api}
use operator_lib.Leader.Loop.{lock_key, own_lock, attempt}
use operator_lib.Leader.Cluster.{Server, IsConsistent, key_of, System, advance, Reach, Leads}
use operator_lib.Leader.Cluster.Comes.{Serves, Comes}
use operator_lib.Leader.Cluster.Alone.{At, begun, step_to}

module _ {W Client : Type 0} (miss : Type 0) (server : Server W) (ns lock_name i : String)
    (s : System W Client) (consistent : IsConsistent server (key_of ns lock_name))
    (serves : Serves server (key_of ns i) (key_of ns lock_name)) where
  -- A state that is reached by calls of `i` alone, in which it leads; or in which it has ended with the
  -- error of a deletion that found nothing, while there is no lock.
  abbrev Taken : Type 0
  Taken =
      (w : W) × (At server ns lock_name i s (ret (finished none)) w
        ⊎ (At server ns lock_name i s (ret (failed (api not_found))) w
            × (server.lock w ≡ none)
            × miss))

  to :
      (p q : Prog (Next Client)) (w v : W)
      → advance server p w ≡ (q, v)
      → At server ns lock_name i s p w
      → At server ns lock_name i s q v
  to = step_to server ns lock_name i s

  creates :
      (cm : ConfigMap) (k : Reply (create_config_map cm) → Prog (Next Client)) (w : W)
      → cm.key ≡ key_of ns lock_name
      → k (ok tt) ≡ ret (finished none)
      → server.lock w ≡ none
      → At server ns lock_name i s (call (create_config_map cm) k) w
      → Taken
  unfolding advance
  creates cm k w own won free at = (
    (server.answer (create_config_map cm) w).1,
    inl (
        to (call (create_config_map cm) k) (ret (finished none)) w
          (server.answer (create_config_map cm) w).1 (rw (serves.creates cm w own free, won) refl)
          at),
  )

  goes_round :
      (l : Loop Client) (w : W)
      → lock_key l ≡ key_of ns lock_name
      → server.lock w ≡ none
      → At server ns lock_name i s (ret (again l)) w
      → Taken
  unfolding advance attempt
  goes_round l w own free at =
      creates (own_lock l) _ w own refl free (to (ret (again l)) (attempt l) w w refl at)

  asks :
      (r : Request) (k : Reply r → Prog (Next Client)) (w : W)
      → At server ns lock_name i s (call r k) w
      → At server ns lock_name i s (k (server.answer r w).0) (server.answer r w).1
  unfolding advance
  asks r k w at = to (call r k) (k (server.answer r w).0) w (server.answer r w).1 refl at

  takes :
      (p : Prog (Next Client)) (w : W)
      → Comes miss (key_of ns i) (key_of ns lock_name) p
      → server.lock w ≡ none
      → At server ns lock_name i s p w
      → Taken
  takes (ret (finished none)) w c free at = (w, inl at)
  takes (ret (finished (some e))) w c free at =
      (w, inr (subst (λ x. At server ns lock_name i s (ret (failed x)) w) c.0 at, free, c.1))
  takes (ret (again l)) w c free at = goes_round l w c free at
  takes (call (create_config_map cm) k) w c free at = creates cm k w c.0 c.1 free at
  takes (call (get_pod p) k) w c free at =
      takes (k _) _ (c _ (serves.normal (get_pod p) w)) ((consistent.reads_keep p w).0 ∙ free)
        (asks (get_pod p) k w at)
  takes (call (get_node p) k) w c free at =
      takes (k _) _ (c _) ((consistent.reads_keep p w).1 ∙ free) (asks (get_node p) k w at)
  takes (call (get_config_map p) k) w c free at =
      takes (k _) _ (c _ (serves.normal (get_config_map p) w))
        ((consistent.reads_keep p w).2 ∙ free) (asks (get_config_map p) k w at)
  takes (call (delete_config_map cm) k) w c free at =
      takes (k _) _ (c.1 _ (serves.normal (delete_config_map cm) w))
        (elim (consistent.deleted cm w) [ inl same ↦ same ∙ free | inr gone ↦ gone ])
        (asks (delete_config_map cm) k w at)
  takes (call (delete_pod p) k) w c free at =
      takes (k _) _ (c.1 _ (serves.normal (delete_pod p) w))
        (consistent.delete_pod_keeps p w ∙ free) (asks (delete_pod p) k w at)
  takes (call (wait d) k) w c free at =
      takes (k _) _ (c _ (serves.normal (wait d) w)) (consistent.wait_keeps d w ∙ free)
        (asks (wait d) k w at)

-- Where the program of a pod comes to lead and there is no lock, its own next calls are enough to make
-- it the leader, or end it with the error of a deletion that found nothing, and still no lock: the other
-- pods are where they were.
pub takes_over :
    {W Client : Type 0} (miss : Type 0) (server : Server W) (ns lock_name i : String)
    (s : System W Client) (p : Prog (Next Client))
    → IsConsistent server (key_of ns lock_name)
    → Serves server (key_of ns i) (key_of ns lock_name)
    → server.lock s.world ≡ none
    → s.proc i ≡ some p
    → Comes miss (key_of ns i) (key_of ns lock_name) p
    → (t : System W Client) × Reach server ns lock_name s t
      × ((j : String) → i ≢ j → t.proc j ≡ s.proc j)
      × (Leads t i
          ⊎ ((t.proc i ≡ some (ret (failed (api not_found))))
              × (server.lock t.world ≡ none)
              × miss))
takes_over miss server ns lock_name i s p consistent serves free at_i comes =
    let (w, taken) =
      takes miss server ns lock_name i s consistent serves p s.world comes free
        (begun server ns lock_name i s p at_i) in
    elim taken [
      | inl r ↦ (r.last, r.reach, r.others, inl r.at_i)
      | inr (r, left, may) ↦
          (r.last, r.reach, r.others, inr (r.at_i, ap server.lock r.world ∙ left, may))
    ]
