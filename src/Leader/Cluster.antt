-- ===== src/Leader/Cluster.antt =====
-- Several pods that run `Become` for one lock against one API server, a call at a time and in any
-- order, while the garbage collector and other users of the API server act in between.
pub mod Update
pub mod Rules
pub mod Safe
pub mod Careful
pub mod Owners
mod Calls
mod Invariant
mod Ready
pub mod Schedule
pub mod Exclusion
pub mod LockSpec
pub mod ForLife
pub mod Alone
pub mod Comes
pub mod Takeover
pub mod Succession
pub mod StaleDelete
pub mod StaleName
mod Tests
use operator_lib.Common.{
  String, Bool, true, false, ◌≡◌, ◌≢◌, ◌⊎◌, List, [], ◌∷◌, Option, none, some, Result, ok, err,
  if◌then◌else◌, ◌==◌, string_eq,
}
use operator_lib.Common.Int.{ℤ}
use operator_lib.Objects.{NamespacedName}
use operator_lib.Leader.Program.{
  OwnerReference, ConfigMap, Pod, ApiError, NodeCondition, Request, get_pod, get_node,
  get_config_map, create_config_map, delete_config_map, delete_pod, wait, Reply, Prog, ret, call,
}
use operator_lib.Leader.Helpers.{Error, Next, finished, again, not_ready}
use operator_lib.Leader.Options.{Opt}
use operator_lib.Leader.Loop.{owned_by, attempt, become}

-- An API server with the clock: how it answers a call in a state `W` of the world, the config map that
-- a state holds under the lock's key, and the UID of the pod that has a name in the operator's
-- namespace, or had it last.
pub record Server (W : Type 0) : Type 0 where
  pub answer : (r : Request) → W → Reply r × W
  pub lock : W → Option ConfigMap
  pub uid : String → W → String

-- What the API server promises of the config maps with the key `key`: it creates one only where
-- there is none, and reads return what is stored; a deletion removes the lock or leaves it. A pod that
-- is read has the name that was asked and its own UID, which no call changes.
pub record IsConsistent {W : Type 0} (server : Server W) (key : NamespacedName) : Type 0 where
  pub created :
      (cm : ConfigMap) (w : W) {u : Unit {0}}
      → cm.key ≡ key
      → (server.answer (create_config_map cm) w).0 ≡ ok u
      → (server.lock w ≡ none) × (server.lock (server.answer (create_config_map cm) w).1 ≡ some cm)
  pub refused :
      (cm : ConfigMap) (w : W) {e : ApiError}
      → (server.answer (create_config_map cm) w).0 ≡ err e
      → server.lock (server.answer (create_config_map cm) w).1 ≡ server.lock w
  pub read :
      (w : W) {cm : ConfigMap}
      → (server.answer (get_config_map key) w).0 ≡ ok cm
      → server.lock w ≡ some cm
  pub reads_keep :
      (k : NamespacedName) (w : W)
      → (server.lock (server.answer (get_pod k) w).1 ≡ server.lock w)
        × (server.lock (server.answer (get_node k) w).1 ≡ server.lock w)
        × (server.lock (server.answer (get_config_map k) w).1 ≡ server.lock w)
  pub delete_pod_keeps :
      (p : Pod) (w : W) → server.lock (server.answer (delete_pod p) w).1 ≡ server.lock w
  pub wait_keeps : (d : ℤ) (w : W) → server.lock (server.answer (wait d) w).1 ≡ server.lock w
  pub deleted :
      (cm : ConfigMap) (w : W)
      → (server.lock (server.answer (delete_config_map cm) w).1 ≡ server.lock w)
        ⊎ (server.lock (server.answer (delete_config_map cm) w).1 ≡ none)
  pub named :
      (k : NamespacedName) (w : W) {p : Pod}
      → (server.answer (get_pod k) w).0 ≡ ok p
      → p.key.name ≡ k.name
  pub identity :
      (k : NamespacedName) (w : W) {p : Pod}
      → k.namespace ≡ key.namespace
      → (server.answer (get_pod k) w).0 ≡ ok p
      → p.uid ≡ server.uid k.name w
  pub uid_keeps :
      (r : Request) (w : W) (i : String) → server.uid i (server.answer r w).1 ≡ server.uid i w

abbrev pub key_of : String → String → NamespacedName
key_of ns lock_name = record { namespace = ns; name = lock_name }

-- No node is ever reported to be not ready.
abbrev pub NodesReady : {W : Type 0} → Server W → Type 0
NodesReady {W} server =
    (k : NamespacedName) (w : W) → not_ready (server.answer (get_node k) w).0 ≡ false

-- The world, and for each pod name the rest of the program that its container runs, if there is
-- such a pod.
pub record System (W Client : Type 0) : Type 0 where
  pub world : W
  pub proc : String → Option (Prog (Next Client))

abbrev pub update {ℓ} : {A : Type ℓ} → (String → A) → String → A → String → A
update f i a j = if i == j then a else f j

module _ {W : Type 0} (server : Server W) where
  -- Every owner of the lock, if there is one, is among `Gone`.
  abbrev pub IsOwnerless : W → (String → Type 0) → Type 0
  IsOwnerless w Gone =
      (cm : ConfigMap)
      → server.lock w ≡ some cm
      → (j : String) → owned_by j cm.owner_references ≡ true
      → Gone j

module _ {W Client : Type 0} (server : Server W) where
  -- For none of the owners there is a pod with its name and its UID.
  abbrev pub AreGone : List OwnerReference → System W Client → Type 0
  AreGone [] s = Unit
  AreGone (o ∷ os) s = ((s.proc o.name ≡ none) ⊎ (server.uid o.name s.world ≢ o.uid)) × AreGone os s

  -- All the owners of the lock, if there is one, are gone.
  abbrev pub IsOrphaned : System W Client → Type 0
  IsOrphaned s = (cm : ConfigMap) → server.lock s.world ≡ some cm → AreGone cm.owner_references s

  -- The next call of a program, or the next round of its loop.
  pub advance : Prog (Next Client) → W → Prog (Next Client) × W
  advance (ret (again l)) w = (attempt l, w)
  advance (ret (finished e)) w = (ret (finished e), w)
  advance (call r k) w = (k (server.answer r w).0, (server.answer r w).1)

  module _ (ns lock_name : String) where
    pub data Step (s : System W Client) : System W Client → Type 0 where
      -- a pod is created, whose UID may be any
      create :
          (i : String) (w : W) (in_cluster : Result Error Client) (opts : List (Opt Client))
          → s.proc i ≡ none
          → server.lock w ≡ server.lock s.world
          → ((j : String) → i ≢ j → server.uid j w ≡ server.uid j s.world)
          → Step s (record {
            world = w;
            proc = update s.proc i (some (become i (ok ns) in_cluster lock_name opts));
          })
      -- the container of a pod restarts
      restart :
          (i : String) (in_cluster : Result Error Client) (opts : List (Opt Client))
          {p : Prog (Next Client)}
          → s.proc i ≡ some p
          → Step s (record s {
            proc = update s.proc i (some (become i (ok ns) in_cluster lock_name opts));
          })
      destroy : (i : String) → Step s (record s { proc = update s.proc i none })
      act :
          (i : String) {p : Prog (Next Client)}
          → s.proc i ≡ some p
          → Step s (record s {
            world = (advance p s.world).1;
            proc = update s.proc i (some (advance p s.world).0);
          })
      -- the garbage collector removes a lock all of whose owners are gone, by their UIDs
      collect :
          (w : W)
          → server.lock w ≡ none
          → IsOrphaned s
          → ((j : String) → server.uid j w ≡ server.uid j s.world)
          → Step s (record s { world = w })
      -- anybody changes anything but the lock and which pods there are
      other :
          (w : W)
          → server.lock w ≡ server.lock s.world
          → ((j : String) → server.uid j w ≡ server.uid j s.world)
          → Step s (record s { world = w })

    pub data Reach (s : System W Client) : System W Client → Type 0 where
      here : Reach s s
      next : {t u : System W Client} → Reach s t → Step t u → Reach s u

  -- Nobody runs, and a lock that is there has one owner.
  pub record IsInitial (s : System W Client) : Type 0 where
    pub idle : (i : String) → s.proc i ≡ none
    pub single :
        (cm : ConfigMap)
        → server.lock s.world ≡ some cm
        → (o : OwnerReference) × (cm.owner_references ≡ o ∷ [])

-- The pod's call of `Become` has returned nil.
abbrev pub Leads : {W Client : Type 0} → System W Client → String → Type 0
Leads s i = s.proc i ≡ some (ret (finished none))
