-- ===== src/Leader/Cluster/Schedule.antt =====
-- Runs of the cluster by evaluation, on an API server that reports each node as it is told.
use operator_lib.Common.{
  String, ◌≡◌, refl, List, [], ◌∷◌, Option, none, some, Result, ok, err, arith, inr, if◌then◌else◌,
  ◌==◌, string_eq,
}
use operator_lib.Objects.{NamespacedName}
use operator_lib.Leader.Program.{
  ConfigMap, Pod, already_exists, not_found, elapsed, Request, get_pod, get_node, get_config_map,
  create_config_map, delete_config_map, delete_pod, wait, Reply, Prog, ApiError,
}
use operator_lib.Leader.Helpers.{Next, any_not_ready}
use operator_lib.Leader.Options.{with_client}
use operator_lib.Leader.Cluster.{
  Server, IsConsistent, NodesReady, System, advance, create, restart, destroy, act, Reach, here,
  next, IsInitial,
}

-- A world that is nothing but the lock. Every pod is there and runs on the node of its name.
abbrev pub pod_named : NamespacedName → Pod
pod_named k = record {
  key = k;
  uid = "u";
  phase = "Running";
  reason = "";
  node_name = k.name;
  deletion_timestamp = none;
}

abbrev pub or_not_found : Option ConfigMap → Result ApiError ConfigMap
or_not_found none = err not_found
or_not_found (some cm) = ok cm

abbrev pub create_in : ConfigMap → Option ConfigMap → Result ApiError (Unit {0}) × Option ConfigMap
create_in cm none = (ok tt, some cm)
create_in cm (some old) = (err already_exists, some old)

abbrev pub Lock : Type 0
Lock = Option ConfigMap

-- What the condition "Ready" of a node is reported to be.
abbrev pub Status : Type 0
Status = String → String

abbrev pub all_ready : Status
all_ready node = "True"

abbrev pub only_lost : String → Status
only_lost node other = if node == other then "Unknown" else "True"

abbrev pub answer_with : Status → (r : Request) → Lock → Reply r × Lock
answer_with status (get_pod k) w = (ok (pod_named k), w)
answer_with status (get_node k) w = (ok (record { type = "Ready"; status = status k.name } ∷ []), w)
answer_with status (get_config_map k) w = (or_not_found w, w)
answer_with status (create_config_map cm) w = create_in cm w
answer_with status (delete_config_map cm) w = (ok tt, none)
answer_with status (delete_pod p) w = (ok tt, w)
answer_with status (wait d) w = (elapsed, w)

-- The server that reports `status` for the condition "Ready" of each node.
abbrev pub server_with : Status → Server Lock
server_with status = record { answer = answer_with status; lock = λ w. w; uid = λ i w. "u" }

created_in :
    (cm : ConfigMap) (w : Lock) {u : Unit {0}}
    → (create_in cm w).0 ≡ ok u
    → (w ≡ none) × ((create_in cm w).1 ≡ some cm)
created_in cm none h = (refl, refl)
created_in cm (some old) h = cc

refused_in :
    (cm : ConfigMap) (w : Lock) {e : ApiError} → (create_in cm w).0 ≡ err e → (create_in cm w).1 ≡ w
refused_in cm none h = cc
refused_in cm (some old) h = refl

read_in : (w : Lock) {cm : ConfigMap} → or_not_found w ≡ ok cm → w ≡ some cm
read_in none h = cc
read_in (some old) h = cc

pub server_with-IsConsistent :
    (status : Status) (key : NamespacedName) → IsConsistent (server_with status) key
server_with-IsConsistent status key = record {
  created = λ cm w {u} same h. created_in cm w h;
  refused = λ cm w h. refused_in cm w h;
  read = λ w h. read_in w h;
  reads_keep = λ k w. (refl, refl, refl);
  delete_pod_keeps = λ p w. refl;
  wait_keeps = λ d w. refl;
  deleted = λ cm w. inr refl;
  named = λ k w h. ground arith;
  identity = λ k w in_ns h. ground arith;
  uid_keeps = λ r w i. refl;
}

pub server_with-NodesReady : NodesReady (server_with all_ready)
unfolding any_not_ready
server_with-NodesReady k w = refl

abbrev pub init : Lock → System Lock (Unit {0})
init w = record { world = w; proc = λ _. none }

pub init-IsInitial : (status : Status) → IsInitial (server_with status) (init none)
init-IsInitial status = record { idle = λ i. refl; single = λ cm there. cc }

-- A state that is reached in the namespace "ns" with the lock name "lock".
pub record Run (status : Status) : Type 0 where
  pub last : System Lock (Unit {0})
  pub reach : Reach (server_with status) "ns" "lock" (init none) last

act_as :
    {status : Status} (r : Run status) (i : String) (o : Option (Prog (Next Unit)))
    → r.last.proc i ≡ o
    → Run status
act_as r i none e = r
act_as {status} r i (some p) e = record { last = _; reach = next r.reach (act i e) }

-- Each pod that is named makes its next call.
unfoldable pub turns : {status : Status} → Run status → List String → Run status
unfolding act_as advance
turns r [] = r
turns r (i ∷ is) = turns (act_as r i (r.last.proc i) refl) is

-- A pod is created, or its container restarts.
unfoldable join_as :
    {status : Status} (r : Run status) (i : String) (o : Option (Prog (Next Unit)))
    → r.last.proc i ≡ o
    → Run status
join_as r i none absent = record {
  last = _;
  reach =
      next r.reach (create i r.last.world (ok tt) (with_client tt ∷ []) absent refl (λ j ne. refl));
}
join_as r i (some p) at_i = record {
  last = _;
  reach = next r.reach (restart i (ok tt) (with_client tt ∷ []) at_i);
}

unfoldable pub join : {status : Status} → Run status → String → Run status
unfolding join_as
join r i = join_as r i (r.last.proc i) refl

-- A pod is destroyed.
unfoldable pub leave : {status : Status} → Run status → String → Run status
leave r i = record { last = _; reach = next r.reach (destroy i) }

unfoldable pub nobody : (status : Status) → Run status
nobody status = record { last = init none; reach = here }
