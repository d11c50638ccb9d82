-- ===== src/Conditions.antt =====
-- conditions/conditions.go, conditions/factory.go and conditions/interface.go: a condition of the
-- operator in its `OperatorCondition` resource.
mod SetGet
mod History
pub mod Package
mod Factory
mod Tests
use operator_lib.Common.{
  String, Bool, List, [], ◌∷◌, Option, none, some, Result, ok, err, if◌then◌else◌, ◌==◌, string_eq,
}
use operator_lib.Objects.{NamespacedName}
use operator_lib.Utils.{NamespaceError}

-- `metav1.Condition`
pub record StatusCondition : Type 0 where
  pub type : String
  pub status : String
  pub reason : String
  pub message : String

-- `apiv2.OperatorCondition`; `conditions` are those of its spec
pub record OperatorCondition : Type 0 where
  pub key : NamespacedName
  pub conditions : List StatusCondition

-- What is called of a `client.Client`, over the states `World` of the API server, whose errors are
-- `E`.
pub record Client (World E : Type 0) : Type 0 where
  pub get : NamespacedName → World → Result E OperatorCondition
  pub update : OperatorCondition → World → World × Option E

-- `meta.FindStatusCondition` and `meta.SetStatusCondition` of apimachinery; the latter writes the
-- conditions that it is given.
pub record Meta : Type 0 where
  pub find_status_condition : List StatusCondition → String → Option StatusCondition
  pub set_status_condition : List StatusCondition → StatusCondition → List StatusCondition

pub data Error (E : Type 0) : Type 0 where
  client_error : E → Error E
  type_not_found : String → Error E

-- `condition`
pub record Condition (World E : Type 0) : Type 0 where
  pub namespaced_name : NamespacedName
  pub cond_type : String
  pub client : Client World E

-- `Option`, `WithReason`, `WithMessage`
abbrev pub Opt : Type 0
Opt = StatusCondition → StatusCondition

unfoldable pub with_reason : String → Opt
with_reason reason c = record c { reason = reason }

unfoldable pub with_message : String → Opt
with_message message c = record c { message = message }

unfoldable pub apply_options : List Opt → Opt
apply_options [] c = c
apply_options (opt ∷ opts) c = apply_options opts (opt c)

-- `newCond` before its options
abbrev pub bare : (type status : String) → StatusCondition
bare type status = record { type = type; status = status; reason = ""; message = "" }

-- the `OperatorCondition` that `Set` sends back
unfoldable pub with_condition : Meta → OperatorCondition → StatusCondition → OperatorCondition
with_condition library operator_cond new_cond = record operator_cond {
  conditions = library.set_status_condition operator_cond.conditions new_cond;
}

abbrev pub or_not_found :
    {E : Type 0} → String → Option StatusCondition → Result (Error E) StatusCondition
or_not_found type none = err (type_not_found type)
or_not_found type (some con) = ok con

module _ {World E : Type 0} (library : Meta) where
  -- `condition.Get`
  unfoldable pub get : Condition World E → World → Result (Error E) StatusCondition
  get c w = elim (c.client.get c.namespaced_name w) [
    | err e ↦ err (client_error e)
    | ok operator_cond ↦
        or_not_found c.cond_type
          (library.find_status_condition operator_cond.conditions c.cond_type)
  ]

  -- `condition.Set`
  unfoldable pub set : Condition World E → (status : String) → List Opt → World → World × Option E
  set c status options w = elim (c.client.get c.namespaced_name w) [
    | err e ↦ (w, some e)
    | ok operator_cond ↦
        c.client.update
          (with_condition library operator_cond (apply_options options (bare c.cond_type status))) w
  ]

pub data FactoryError : Type 0 where
  name_not_set : FactoryError
  namespace_unknown : NamespaceError → FactoryError

-- `getConditionName`, from the variable OPERATOR_CONDITION_NAME
unfoldable pub get_condition_name : String → Result FactoryError String
get_condition_name name = if name == "" then err name_not_set else ok name

-- `GetNamespacedName`, where `ns` is what `readNamespace` returns
unfoldable pub get_namespaced_name :
    (env_name : String) (ns : Result NamespaceError String) → Result FactoryError NamespacedName
get_namespaced_name env_name ns = elim (get_condition_name env_name) [
  | err e ↦ err e
  | ok condition_name ↦ elim ns [
    | err e ↦ err (namespace_unknown e)
    | ok condition_namespace ↦
        ok (record { namespace = condition_namespace; name = condition_name })
  ]
]

-- `NewCondition`
unfoldable pub new_condition :
    {World E : Type 0}
    → Client World E
    → (env_name : String) (ns : Result NamespaceError String) (cond_type : String)
    → Result FactoryError (Condition World E)
new_condition cl env_name ns cond_type = elim (get_namespaced_name env_name ns) [
  | err e ↦ err e
  | ok obj_key ↦ ok (record { namespaced_name = obj_key; cond_type = cond_type; client = cl })
]
