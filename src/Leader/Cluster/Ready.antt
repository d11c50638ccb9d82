-- ===== src/Leader/Cluster/Ready.antt =====
-- Runs in which no node is reported not ready: no lock is deleted by `Become` at all.
use operator_lib.Common.{String, inl, inr, string_eq}
use operator_lib.Leader.Program.{
  get_pod, get_node, get_config_map, create_config_map, delete_config_map, delete_pod, wait, Prog,
  ret, call,
}
use operator_lib.Leader.Helpers.{Next}
use operator_lib.Leader.Cluster.{
  Server, IsConsistent, NodesReady, key_of, System, Step, create, restart, destroy, act, collect,
  other, Reach, here, next, IsInitial,
}
use operator_lib.Leader.Cluster.Careful.{
  DeletesOwnerless, IsCareful, IsCarefulRun, NamesAnew, NamesAnewRun,
}
use operator_lib.Leader.Cluster.Invariant.{Inv, Reach-Inv}
use operator_lib.Leader.Cluster.Rules.{ready_rules, Good}

module _ {W Client : Type 0} (server : Server W) (ns lock_name : String) where
  -- Where no node is reported not ready, every run is careful: no lock is deleted at all.
  Good-DeletesOwnerless :
      (i u : String) (p : Prog (Next Client)) (s : System W Client)
      → Good (key_of ns lock_name) i u ready_rules p
      → DeletesOwnerless server p s
  Good-DeletesOwnerless i u (ret x) s good = tt
  Good-DeletesOwnerless i u (call (get_pod k) f) s good = tt
  Good-DeletesOwnerless i u (call (get_node k) f) s good = tt
  Good-DeletesOwnerless i u (call (get_config_map k) f) s good = tt
  Good-DeletesOwnerless i u (call (create_config_map cm) f) s good = tt
  Good-DeletesOwnerless i u (call (delete_pod p) f) s good = tt
  Good-DeletesOwnerless i u (call (wait d) f) s good = tt
  Good-DeletesOwnerless i u (call (delete_config_map cm) f) s good = absurd good.0

  step-IsCareful :
      (s t : System W Client) (step : Step server ns lock_name s t)
      → NamesAnew server ns lock_name step
      → Inv Client server (key_of ns lock_name) ready_rules s
      → IsCareful server ns lock_name step
  unfolding IsCareful NamesAnew
  step-IsCareful s t (create i w in_cluster opts absent same uids) anew inv = anew
  step-IsCareful s t (restart i in_cluster opts at_i) anew inv = tt
  step-IsCareful s t (destroy i) anew inv = tt
  step-IsCareful s t (act i {p} e) anew inv = elim (inv.sound i p e) [
    | inl good ↦ Good-DeletesOwnerless i (server.uid i s.world) p s good
    | inr (won, owns) ↦ rw won tt
  ]
  step-IsCareful s t (collect w gone orphaned uids) anew inv = tt
  step-IsCareful s t (other w same uids) anew inv = tt

  pub Reach-IsCarefulRun :
      IsConsistent server (key_of ns lock_name)
      → NodesReady server
      → (s t : System W Client) → IsInitial server s
      → (reach : Reach server ns lock_name s t) → NamesAnewRun server ns lock_name reach
      → IsCarefulRun server ns lock_name reach
  unfolding IsCarefulRun NamesAnewRun
  Reach-IsCarefulRun c ready s t init here anew = tt
  Reach-IsCarefulRun c ready s t init (next {t = u} reach step) (anew_before, anew) =
      let before = Reach-IsCarefulRun c ready s u init reach anew_before in
      (
        before,
        step-IsCareful u t step anew
            (Reach-Inv server ns lock_name ready_rules c ready s u init reach before),
      )
