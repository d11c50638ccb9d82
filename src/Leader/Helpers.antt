-- ===== src/Leader/Helpers.antt =====
-- `Become` and its helpers. A round of the `for` loop is the program `attempt`, which ends the
-- call of `Become` or goes on to the next round. Logging is left out.
use operator_lib.Common.{
  String, Bool, true, false, not, ◌&&◌, ◌||◌, List, [], ◌∷◌, Option, none, some, Result, ok, err,
  if◌then◌else◌, ◌==◌, string_eq,
}
use operator_lib.Common.Int.{ℤ, pos}
use operator_lib.Utils.{NamespaceError}
use operator_lib.Leader.Program.{
  OwnerReference, ConfigMap, Pod, NodeCondition, ApiError, get_pod, get_node, delete_config_map,
  delete_pod, Prog, ret, ask, ◌>>=◌,
}

-- The errors that `Become` returns: of an option or of building a client (`setup`), of finding the
-- namespace, of a missing POD_NAME, of the API server, or `ctx.Err()`.
pub data Error : Type 0 where
  setup : String → Error
  namespace : NamespaceError → Error
  pod_name_unset : Error
  api : ApiError → Error
  context : String → Error

abbrev pub second : ℤ
second = pos 1_000_000_000

abbrev pub default_max_backoff_interval : ℤ
default_max_backoff_interval = pos 16_000_000_000

-- `Config`, over the type of clients; a nil client is `none`
pub record Config (Client : Type 0) : Type 0 where
  pub client : Option Client
  pub max_backoff_interval : ℤ

-- The variables that live through the rounds of the loop.
pub record Loop (Client : Type 0) : Type 0 where
  pub config : Config Client
  pub ns : String
  pub lock_name : String
  pub owner : OwnerReference
  pub backoff : ℤ

-- `return err`, where `none` is nil, or `continue`
pub data Next (Client : Type 0) : Type 0 where
  finished : Option Error → Next Client
  again : Loop Client → Next Client

abbrev pub failed : {Client : Type 0} → Error → Next Client
failed e = finished (some e)

-- `isPodEvicted` and `isPodPreempted`
unfoldable pub is_pod_evicted : Pod → Bool
is_pod_evicted pod = pod.phase == "Failed" && pod.reason == "Evicted"

unfoldable pub is_pod_preempted : Pod → Bool
is_pod_preempted pod = pod.phase == "Failed" && pod.reason == "Preempting"

abbrev pub is_deleted : Pod → Bool
is_deleted pod = elim pod.deletion_timestamp [ none ↦ false | some _ ↦ true ]

-- `getPod`, with `os.Getenv(podNameEnvVar)` as an argument
unfoldable pub get_own_pod : String → String → Prog (Result Error Pod)
get_own_pod pod_name ns = if pod_name == "" then ret (err pod_name_unset) else do
  reply ← ask (get_pod (record { namespace = ns; name = pod_name }))
  ret (elim reply [ ok pod ↦ ok pod | err e ↦ err (api e) ])

abbrev pub owner_of : Pod → OwnerReference
owner_of pod = record { api_version = "v1"; kind = "Pod"; name = pod.key.name; uid = pod.uid }

-- `myOwnerRef`
unfoldable pub my_owner_ref : String → String → Prog (Result Error OwnerReference)
unfolding get_own_pod
my_owner_ref pod_name ns = do
  my_pod ← get_own_pod pod_name ns
  ret (elim my_pod [ ok pod ↦ ok (owner_of pod) | err e ↦ err e ])

-- the loop of `isNotReadyNode`
unfoldable pub any_not_ready : List NodeCondition → Bool
any_not_ready [] = false
any_not_ready (c ∷ cs) = c.type == "Ready" && not (c.status == "True") || any_not_ready cs

abbrev pub not_ready : Result ApiError (List NodeCondition) → Bool
unfolding any_not_ready
not_ready (err _) = false
not_ready (ok conditions) = any_not_ready conditions

-- `isNotReadyNode`, with `getNode`
unfoldable pub is_not_ready_node : String → Prog Bool
is_not_ready_node node_name = do
  reply ← ask (get_node (record { namespace = ""; name = node_name }))
  ret (not_ready reply)

abbrev pub error_of : Result ApiError (Unit {0}) → Option Error
error_of (ok _) = none
error_of (err e) = some (api e)

-- `deleteLeader`
unfoldable pub delete_leader : Pod → ConfigMap → Prog (Option Error)
delete_leader leader_pod existing = do
  deleted ← ask (delete_pod leader_pod)
  elim deleted [
    | err e ↦ ret (some (api e))
    | ok _ ↦ do reply ← ask (delete_config_map existing); ret (error_of reply)
  ]
