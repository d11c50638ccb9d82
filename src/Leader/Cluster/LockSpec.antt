-- ===== src/Leader/Cluster/LockSpec.antt =====
-- The lock as its specification has it: the name of the pod that holds it for life.
use mathlib.Core.Option.{none-ne-some}
use mathlib.Core.Path.{subst}
use operator_lib.Common.{
  String, true, ◌≡◌, refl, sym, ap, ◌∙◌, inl, inr, List, [], ◌∷◌, Option, none, some, string_eq,
}
use operator_lib.Objects.{NamespacedName}
use operator_lib.Leader.Program.{OwnerReference, ConfigMap}
use operator_lib.Leader.Loop.{owned_by}
use operator_lib.Leader.Cluster.{
  Server, IsConsistent, key_of, System, advance, Step, create, restart, destroy, act, collect,
  other, Reach, IsInitial,
}
use operator_lib.Leader.Cluster.Calls.{Owns, IsSingle, KeepsLock, advance-KeepsLock}
use operator_lib.Leader.Cluster.Invariant.{Inv, Reach-Inv, IsOrphaned-IsOwnerless}
use operator_lib.Leader.Cluster.Careful.{IsCareful, IsCarefulRun}
use operator_lib.Leader.Cluster.Rules.{any_rules}
use operator_lib.Leader.Cluster.Owners.{owned_by_single, owner_owns}

-- The one owner of a lock.
abbrev owner_name : List OwnerReference → Option String
owner_name (o ∷ []) = some o.name
owner_name [] = none
owner_name (o ∷ o' ∷ os) = none

abbrev pub holder_of : Option ConfigMap → Option String
holder_of none = none
holder_of (some cm) = owner_name cm.owner_references

abbrev pub holder : {W : Type 0} → Server W → W → Option String
holder server w = holder_of (server.lock w)

-- What a lock for life may do, where `Gone` are the pods that are not there: it stays as it is, a
-- pod that is there takes it when nobody has it, or it is freed after the pod that has it is gone.
pub data LockStep (Gone : String → Type 0) (h : Option String) : Option String → Type 0 where
  stays : LockStep Gone h h
  taken : (i : String) → h ≡ none → ¬ Gone i → LockStep Gone h (some i)
  freed : (i : String) → h ≡ some i → Gone i → LockStep Gone h none

-- What the lock shows of its owner.
pub Owns-holder :
    {W : Type 0} (server : Server W) (i : String) (w : W)
    → IsSingle server w
    → Owns server i w
    → holder server w ≡ some i
Owns-holder server i w single (cm, there, mine) =
    let (o, owners) = single cm there in
    ap holder_of there ∙ ap owner_name owners ∙ ap some (owned_by_single i cm o owners mine)

same_holder : (Gone : String → Type 0) {h h' : Option String} → h' ≡ h → LockStep Gone h h'
same_holder Gone {h} same = subst (LockStep Gone h) (sym same) LockStep.stays

-- A lock without owners that are there is gone.
collect-LockStep :
    {W : Type 0} (server : Server W) (Gone : String → Type 0) (w w' : W)
    → IsSingle server w
    → server.lock w' ≡ none
    → ((cm : ConfigMap)
        → server.lock w ≡ some cm
        → (j : String) → owned_by j cm.owner_references ≡ true
        → Gone j)
    → LockStep Gone (holder server w) (holder server w')
collect-LockStep server Gone w w' single gone ownerless =
    subst (LockStep Gone (holder server w)) (sym (ap holder_of gone)) (go (server.lock w) refl)
  where
    go : (l : Option ConfigMap) → server.lock w ≡ l → LockStep Gone (holder server w) none
    go none there = same_holder Gone (sym (ap holder_of there))
    go (some cm) there =
        let (o, owners) = single cm there in
        LockStep.freed o.name (ap holder_of there ∙ ap owner_name owners)
          (ownerless cm there o.name (owner_owns cm o owners))

KeepsLock-LockStep :
    {W : Type 0} (server : Server W) (key : NamespacedName) (i u : String) (w w' : W)
    (Gone : String → Type 0)
    → IsSingle server w
    → ¬ Gone i
    → KeepsLock server key i u Gone w w'
    → LockStep Gone (holder server w) (holder server w')
KeepsLock-LockStep server key i u w w' Gone single runs (inl same) =
    same_holder Gone (ap holder_of same)
KeepsLock-LockStep server key i u w w' Gone single runs (inr (inl (gone, ownerless))) =
    collect-LockStep server Gone w w' single gone ownerless
KeepsLock-LockStep server key i u w w' Gone single runs
      (inr (inr (absent, (cm, there, (_, o, owners, name, _))))) =
    subst (LockStep Gone (holder server w))
      (sym (ap holder_of there ∙ ap owner_name owners ∙ ap some name))
      (LockStep.taken i (ap holder_of absent) runs)

module _ {W Client : Type 0} (server : Server W) (ns lock_name : String) where
  step-LockStep :
      IsConsistent server (key_of ns lock_name)
      → (s t : System W Client) → Inv Client server (key_of ns lock_name) any_rules s
      → (step : Step server ns lock_name s t) → IsCareful server ns lock_name step
      → LockStep (λ i. s.proc i ≡ none) (holder server s.world) (holder server t.world)
  unfolding advance IsCareful
  step-LockStep consistent s t inv (create i w in_cluster opts absent same uids) careful =
      same_holder _ (ap holder_of same)
  step-LockStep consistent s t inv (restart i in_cluster opts at_i) careful = LockStep.stays
  step-LockStep consistent s t inv (destroy i) careful = LockStep.stays
  step-LockStep consistent s t inv (act i {p} at_i) careful = elim (inv.sound i p at_i) [
    | inl good ↦
        KeepsLock-LockStep server (key_of ns lock_name) i (server.uid i s.world) _ _ _ inv.single
          (λ gone. none-ne-some _ (sym gone ∙ at_i))
          (advance-KeepsLock server (key_of ns lock_name) consistent any_rules i
            (server.uid i s.world) p s good careful)
    | inr (won, owns) ↦ rw won LockStep.stays
  ]
  step-LockStep consistent s t inv (collect w gone orphaned uids) careful =
      collect-LockStep server _ s.world w inv.single gone
        (IsOrphaned-IsOwnerless server (key_of ns lock_name) any_rules s inv orphaned)
  step-LockStep consistent s t inv (other w same uids) careful = same_holder _ (ap holder_of same)

-- Seen as the name of its owner, the lock is a lock for life: each step that the cluster makes from
-- a state that it reaches leaves the owner, or a pod that is there takes the lock when nobody has
-- it, or the lock is freed and no pod with its name is there any more. (The API server is
-- consistent; no lock is deleted by `Become` while an owner of it is there, and no pod is created
-- with the name of an owner of the lock; the garbage collector goes by name and UID; at first
-- nobody runs, and a lock has one owner.)
pub careful-LockStep :
    {W Client : Type 0} (server : Server W) (ns lock_name : String) (s t u : System W Client)
    → IsConsistent server (key_of ns lock_name)
    → IsInitial server s
    → (reach : Reach server ns lock_name s t) (step : Step server ns lock_name t u)
    → IsCarefulRun server ns lock_name reach
    → IsCareful server ns lock_name step
    → LockStep (λ i. t.proc i ≡ none) (holder server t.world) (holder server u.world)
careful-LockStep server ns lock_name s t u consistent init reach step before careful =
    step-LockStep server ns lock_name consistent t u
      (Reach-Inv server ns lock_name any_rules consistent (λ k w. tt) s t init reach before) step
      careful
