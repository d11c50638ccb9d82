-- ===== src/Leader/Cluster/Careful.antt =====
-- Runs of the cluster in which no lock is deleted while an owner of it is there, and no pod takes the
-- name of an owner of the lock.
use operator_lib.Common.{String, false, ◌≡◌, none, some}
use operator_lib.Leader.Program.{
  ConfigMap, get_pod, get_node, get_config_map, create_config_map, delete_config_map, delete_pod,
  wait, Prog, ret, call,
}
use operator_lib.Leader.Helpers.{Next}
use operator_lib.Leader.Loop.{owned_by}
use operator_lib.Leader.Cluster.{
  Server, System, IsOwnerless, Step, create, restart, destroy, act, collect, other, Reach, here,
  next,
}

module _ {W : Type 0} (server : Server W) where
  -- No owner of the lock, if there is one, has this name.
  abbrev pub IsUnnamed : String → W → Type 0
  IsUnnamed i w =
      (cm : ConfigMap) → server.lock w ≡ some cm → owned_by i cm.owner_references ≡ false

module _ {W Client : Type 0} (server : Server W) where
  -- If the next call is to delete the lock, no owner of the lock is there.
  abbrev pub DeletesOwnerless : Prog (Next Client) → System W Client → Type 0
  DeletesOwnerless (call (delete_config_map cm) f) s =
      IsOwnerless server s.world (λ j. s.proc j ≡ none)
  DeletesOwnerless (call (get_pod k) f) s = Unit
  DeletesOwnerless (call (get_node k) f) s = Unit
  DeletesOwnerless (call (get_config_map k) f) s = Unit
  DeletesOwnerless (call (create_config_map cm) f) s = Unit
  DeletesOwnerless (call (delete_pod p) f) s = Unit
  DeletesOwnerless (call (wait d) f) s = Unit
  DeletesOwnerless (ret x) s = Unit

  module _ (ns lock_name : String) where
    -- If the step creates a pod, no owner of the lock has its name.
    unfoldable pub NamesAnew : {s t : System W Client} → Step server ns lock_name s t → Type 0
    NamesAnew {s} (create i _ _ _ _ _ _) = IsUnnamed server i s.world
    NamesAnew (restart _ _ _ _) = Unit
    NamesAnew (destroy _) = Unit
    NamesAnew (act _ _) = Unit
    NamesAnew (collect _ _ _ _) = Unit
    NamesAnew (other _ _ _) = Unit

    unfoldable pub NamesAnewRun : {s t : System W Client} → Reach server ns lock_name s t → Type 0
    NamesAnewRun here = Unit
    NamesAnewRun (next reach step) = NamesAnewRun reach × NamesAnew step

    -- The step names anew, and deletes no lock while an owner of it is there.
    unfoldable pub IsCareful : {s t : System W Client} → Step server ns lock_name s t → Type 0
    IsCareful {s} (create i _ _ _ _ _ _) = IsUnnamed server i s.world
    IsCareful (restart _ _ _ _) = Unit
    IsCareful (destroy _) = Unit
    IsCareful {s} (act i {p} _) = DeletesOwnerless p s
    IsCareful (collect _ _ _ _) = Unit
    IsCareful (other _ _ _) = Unit

    unfoldable pub IsCarefulRun : {s t : System W Client} → Reach server ns lock_name s t → Type 0
    IsCarefulRun here = Unit
    IsCarefulRun (next reach step) = IsCarefulRun reach × IsCareful step
