-- ===== src/Conditions/Package.antt =====
-- conditions/factory.go: the functions of the package itself, which are deprecated for the methods of
-- `InClusterFactory`, and the namespace that both read.
use operator_lib.Common.{String, Result}
use operator_lib.Objects.{NamespacedName}
use operator_lib.Utils.{FileError, NamespaceError, get_operator_namespace}
use operator_lib.Conditions
use operator_lib.Conditions.{Client, Condition, FactoryError}

-- `readNamespace`, from what reading the file of the service account's namespace gives
unfoldable pub read_namespace : Result FileError String → Result NamespaceError String
read_namespace = get_operator_namespace

-- `getConditionNamespace`
unfoldable pub get_condition_namespace : Result FileError String → Result NamespaceError String
unfolding read_namespace
get_condition_namespace file = read_namespace file

-- `GetNamespacedName`
unfoldable pub get_namespaced_name :
    (env_name : String) (file : Result FileError String) → Result FactoryError NamespacedName
unfolding get_condition_namespace
get_namespaced_name env_name file =
    Conditions.get_namespaced_name env_name (get_condition_namespace file)

-- `NewCondition`
unfoldable pub new_condition :
    {World E : Type 0}
    → Client World E
    → (env_name : String) (file : Result FileError String) (cond_type : String)
    → Result FactoryError (Condition World E)
unfolding get_condition_namespace
new_condition cl env_name file cond_type =
    Conditions.new_condition cl env_name (get_condition_namespace file) cond_type
