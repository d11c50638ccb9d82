-- ===== src/Leader/Loop.antt =====
-- The body of the `for` loop of `Become`, and `Become` itself.
use operator_lib.Common.{
  String, Bool, false, not, ◌&&◌, ◌||◌, List, [], ◌∷◌, Option, none, some, Result, ok, err,
  if◌then◌else◌, ◌==◌, string_eq,
}
use operator_lib.Common.Int.{ℤ, ltℤ, double_int64}
use operator_lib.Objects.{NamespacedName}
use operator_lib.Utils.{NamespaceError}
use operator_lib.Leader.Program.{
  OwnerReference, ConfigMap, Pod, is_not_found, is_already_exists, elapsed, cancelled, get_pod,
  get_config_map, create_config_map, delete_pod, wait, Prog, ret, ask, ◌>>=◌, ◌>>◌,
}
use operator_lib.Leader.Options.{Opt, configure}
use operator_lib.Leader.Helpers.{
  Error, namespace, api, context, second, Config, Loop, Next, finished, again, failed,
  is_pod_evicted, is_pod_preempted, is_deleted, my_owner_ref, is_not_ready_node, delete_leader,
}

module _ {Client : Type 0} where
  abbrev pub lock_key : Loop Client → NamespacedName
  lock_key l = record { namespace = l.ns; name = l.lock_name }

  -- `cm`, the lock that this pod would own
  abbrev pub own_lock : Loop Client → ConfigMap
  own_lock l = record { key = lock_key l; owner_references = l.owner ∷ [] }

-- The cases of a leader pod that was found; an error ends `Become`.
unfoldable pub judge : Pod → ConfigMap → Prog (Option Error)
judge pod existing =
    if is_pod_evicted pod && not (is_deleted pod)
    then (do ask (delete_pod pod); ret none)
    else if is_pod_preempted pod && not (is_deleted pod)
    then (do ask (delete_pod pod); ret none)
    else do
      lost ← is_not_ready_node pod.node_name
      if lost then delete_leader pod existing else ret none

unfoldable pub inspect_leader : String → OwnerReference → ConfigMap → Prog (Option Error)
inspect_leader ns leader existing = do
  reply ← ask (get_pod (record { namespace = ns; name = leader.name }))
  elim reply [
    | err e ↦ ret (if is_not_found e then none else some (api e))
    | ok pod ↦ judge pod existing
  ]

-- the `switch` on `existingOwners`
unfoldable pub inspect_owners : String → List OwnerReference → ConfigMap → Prog (Option Error)
inspect_owners ns (leader ∷ []) existing =
    if not (leader.kind == "Pod") then ret none else inspect_leader ns leader existing
inspect_owners ns _ existing = ret none

-- `existingOwner.Name == owner.Name` for some owner of the lock
unfoldable pub owned_by : String → List OwnerReference → Bool
owned_by name [] = false
owned_by name (o ∷ os) = o.name == name || owned_by name os

module _ {Client : Type 0} where
  -- `if backoff < config.MaxBackoffInterval { backoff *= 2 }`
  unfoldable pub next_backoff : Loop Client → ℤ
  next_backoff l =
      if ltℤ l.backoff l.config.max_backoff_interval then double_int64 l.backoff else l.backoff

  -- the `select` at the end of a round
  unfoldable pub pause : Loop Client → Prog (Next Client)
  pause l = do
    wake ← ask (wait l.backoff)
    ret (elim wake [
      | elapsed ↦ again (record l { backoff = next_backoff l })
      | cancelled reason ↦ failed (context reason)
    ])

  -- the case `apierrors.IsAlreadyExists(err)`; a lock that cannot be read ends the round at once
  unfoldable pub contend : Loop Client → Prog (Next Client)
  contend l = do
    refreshed ← ask (get_config_map (lock_key l))
    elim refreshed [
      | err _ ↦ ret (again l)
      | ok existing ↦ do
        stop ← inspect_owners l.ns existing.owner_references existing
        elim stop [ some e ↦ ret (failed e) | none ↦ pause l ]
    ]

  -- one round of the loop
  unfoldable pub attempt : Loop Client → Prog (Next Client)
  attempt l = do
    created ← ask (create_config_map (own_lock l))
    elim created [
      | ok _ ↦ ret (finished none)
      | err e ↦ if is_already_exists e then contend l else ret (failed (api e))
    ]

  -- from the look for a lock of this pod up to the loop
  unfoldable pub campaign : Loop Client → Prog (Next Client)
  campaign l = do
    found ← ask (get_config_map (lock_key l))
    elim found [
      | ok existing ↦
          ret (if owned_by l.owner.name existing.owner_references then finished none else again l)
      | err e ↦ ret (if is_not_found e then again l else failed (api e))
    ]

  -- from the configuration and the namespace on; each error ends `Become`
  unfoldable pub start :
      String
      → Result Error (Config Client)
      → Result NamespaceError String
      → String
      → Prog (Next Client)
  start pod_name (err e) ns lock_name = ret (failed e)
  start pod_name (ok config) (err e) lock_name = ret (failed (namespace e))
  start pod_name (ok config) (ok ns) lock_name = do
    owner ← my_owner_ref pod_name ns
    elim owner [
      | err e ↦ ret (failed e)
      | ok o ↦
          campaign (record {
            config = config;
            ns = ns;
            lock_name = lock_name;
            owner = o;
            backoff = second;
          })
    ]

  -- `Become(ctx, lockName, opts...)` up to the loop. Every call goes to the client of the
  -- configuration; `pod_name` is the variable POD_NAME, `ns` what `readNamespace` returns, and
  -- `in_cluster` what building a client from the environment gives.
  unfoldable pub become :
      String
      → Result NamespaceError String
      → Result Error Client
      → String
      → List (Opt Client)
      → Prog (Next Client)
  unfolding start
  become pod_name ns in_cluster lock_name opts =
      start pod_name (configure in_cluster opts) ns lock_name
