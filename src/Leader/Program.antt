-- ===== src/Leader/Program.antt =====
-- The calls that `Become` makes of the API server and of the clock, and programs that are made of
-- such calls. A program says nothing of what a call answers: a client of the API server decides that,
-- and other processes may act between any two calls.
use operator_lib.Common.{String, Bool, true, false, List, Option, Result}
use operator_lib.Common.Int.{ℤ}
use operator_lib.Objects.{NamespacedName}

-- `metav1.OwnerReference`
pub record OwnerReference : Type 0 where
  pub api_version : String
  pub kind : String
  pub name : String
  pub uid : String

-- `corev1.ConfigMap`
pub record ConfigMap : Type 0 where
  pub key : NamespacedName
  pub owner_references : List OwnerReference

-- `corev1.Pod`; a deletion timestamp is there or not
pub record Pod : Type 0 where
  pub key : NamespacedName
  pub uid : String
  pub phase : String
  pub reason : String
  pub node_name : String
  pub deletion_timestamp : Option String

-- `corev1.NodeCondition`; a `corev1.Node` is read for its conditions alone
pub record NodeCondition : Type 0 where
  pub type : String
  pub status : String

-- The errors of the API server, as `apierrors.IsNotFound` and `apierrors.IsAlreadyExists` tell them
-- apart.
pub data ApiError : Type 0 where
  not_found already_exists : ApiError
  other : String → ApiError

abbrev pub is_not_found : ApiError → Bool
is_not_found not_found = true
is_not_found _ = false

abbrev pub is_already_exists : ApiError → Bool
is_already_exists already_exists = true
is_already_exists _ = false

-- How the `select` between `time.After` and `ctx.Done()` ends.
pub data Wake : Type 0 where
  elapsed : Wake
  cancelled : String → Wake

-- The calls. `wait` names the backoff, to which `wait.Jitter` of apimachinery adds up to a fifth.
pub data Request : Type 0 where
  get_pod get_node get_config_map : NamespacedName → Request
  create_config_map delete_config_map : ConfigMap → Request
  delete_pod : Pod → Request
  wait : ℤ → Request

abbrev pub Reply : Request → Type 0
Reply (get_pod _) = Result ApiError Pod
Reply (get_node _) = Result ApiError (List NodeCondition)
Reply (get_config_map _) = Result ApiError ConfigMap
Reply (wait _) = Wake
Reply _ = Result ApiError Unit

pub data Prog (A : Type 0) : Type 0 where
  ret : A → Prog A
  call : (r : Request) → (Reply r → Prog A) → Prog A

abbrev pub ask : (r : Request) → Prog (Reply r)
ask r = call r ret

infixl 5 ◌>>=◌ ◌>>◌
abbrev pub ◌>>=◌ : {A B : Type 0} → Prog A → (A → Prog B) → Prog B
ret a >>= f = f a
call r k >>= f = call r (λ x. k x >>= f)

abbrev pub ◌>>◌ : {A B : Type 0} → Prog A → Prog B → Prog B
m >> p = m >>= λ _. p
