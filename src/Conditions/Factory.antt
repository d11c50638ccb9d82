-- ===== src/Conditions/Factory.antt =====
-- conditions/factory.go over internal/utils/utils.go: which condition `NewCondition` makes.
use operator_lib.Common.{
  String, Result, ok, err, ◌≡◌, ◌≢◌, ◌↔◌, refl, ap, sym, ◌∙◌, inl, inr, Bool-cases, Result-cases,
  ◌==◌, string_eq, ==_sound, ==_of_ne,
}
use mathlib.Core.Bool.{false, false≢true}
use mathlib.Core.Path.{subst}
use operator_lib.Common.Text.{trim_space}
use operator_lib.Objects.{NamespacedName}
use operator_lib.Utils.{
  FileError, NamespaceError, not_exist, unreadable, no_namespace, read_failed,
  get_operator_namespace,
}
use operator_lib.Conditions.Package
use operator_lib.Conditions.{
  Client, Condition, FactoryError, name_not_set, namespace_unknown, get_condition_name,
  get_namespaced_name, new_condition,
}

-- The outcomes of `NewCondition`, for the variable OPERATOR_CONDITION_NAME and what reading the file of
-- the service account's namespace gives.
pub data Makes {World E : Type 0} (cl : Client World E) (env_name : String)
    (file : Result FileError String) (cond_type : String)
    : Result FactoryError (Condition World E) → Type 0 where
  unnamed : env_name ≡ "" → Makes cl env_name file cond_type (err name_not_set)
  outside :
      env_name ≢ ""
      → file ≡ err not_exist
      → Makes cl env_name file cond_type (err (namespace_unknown no_namespace))
  unread :
      (reason : String)
      → env_name ≢ ""
      → file ≡ err (unreadable reason)
      → Makes cl env_name file cond_type (err (namespace_unknown (read_failed (unreadable reason))))
  makes :
      (text : String)
      → env_name ≢ ""
      → file ≡ ok text
      → Makes cl env_name file cond_type (
          ok (record {
            namespaced_name = record { namespace = trim_space text; name = env_name };
            cond_type = cond_type;
            client = cl;
          }))

module _ {World E : Type 0} (cl : Client World E) (env_name : String) (cond_type : String) where
  filled : (env_name == "") ≡ false → env_name ≢ ""
  filled h e = false≢true (sym h ∙ (string_eq.beq_iff env_name "").1 e)

  Makes-new_condition :
      (file : Result FileError String) (r : Result FactoryError (Condition World E))
      → Makes cl env_name file cond_type r
      → new_condition cl env_name (get_operator_namespace file) cond_type ≡ r
  unfolding new_condition get_namespaced_name get_condition_name get_operator_namespace
  Makes-new_condition file r (Makes.unnamed e) =
      rw (new_condition, get_namespaced_name, get_condition_name, e) refl
  Makes-new_condition file r (Makes.outside named e) =
      rw
        (
          new_condition,
          get_namespaced_name,
          get_condition_name,
          ==_of_ne env_name "" named,
          e,
          get_operator_namespace,
        )
        refl
  Makes-new_condition file r (Makes.unread reason named e) =
      rw
        (
          new_condition,
          get_namespaced_name,
          get_condition_name,
          ==_of_ne env_name "" named,
          e,
          get_operator_namespace,
        )
        refl
  Makes-new_condition file r (Makes.makes text named e) =
      rw
        (
          new_condition,
          get_namespaced_name,
          get_condition_name,
          ==_of_ne env_name "" named,
          e,
          get_operator_namespace,
        )
        refl

  some_outcome :
      (file : Result FileError String)
      → (r : Result FactoryError (Condition World E)) × Makes cl env_name file cond_type r
  some_outcome file = elim (Bool-cases (env_name == "")) [
    | inl empty ↦ (_, Makes.unnamed (==_sound env_name "" empty))
    | inr named ↦ by_file file (filled named)
  ]
    where
      by_file :
          (f : Result FileError String)
          → env_name ≢ ""
          → (r : Result FactoryError (Condition World E)) × Makes cl env_name f cond_type r
      by_file (err not_exist) named = (_, Makes.outside named refl)
      by_file (err (unreadable reason)) named = (_, Makes.unread reason named refl)
      by_file (ok text) named = (_, Makes.makes text named refl)

-- What `GetNamespacedName` returns where `NewCondition` returns this.
abbrev pub name_of :
    {World E : Type 0}
    → Result FactoryError (Condition World E)
    → Result FactoryError NamespacedName
name_of (err e) = err e
name_of (ok c) = ok c.namespaced_name

name-new_condition :
    {World E : Type 0} (cl : Client World E) (env_name : String) (ns : Result NamespaceError String)
    (cond_type : String)
    → get_namespaced_name env_name ns ≡ name_of (new_condition cl env_name ns cond_type)
unfolding new_condition
name-new_condition cl env_name ns cond_type =
    elim (Result-cases (get_namespaced_name env_name ns)) [
      | inl (n, named) ↦ rw (new_condition, named) refl
      | inr (e, stopped) ↦ rw (new_condition, stopped) refl
    ]

-- `NewCondition` returns an error if the variable is empty, else one that says that there is no
-- namespace if the file is not there, else the error with which it cannot be read; and else the
-- condition of the type that is asked for in the resource that has the name in the variable and, as
-- its namespace, the text of the file less the space around it. There is no other outcome, and
-- `GetNamespacedName` returns the same error, or the name of the same resource. (The functions of the
-- package, which call the methods of `InClusterFactory`.)
pub new_condition_iff :
    {World E : Type 0} (cl : Client World E) (env_name : String) (file : Result FileError String)
    (cond_type : String) (r : Result FactoryError (Condition World E))
    → ((Package.new_condition cl env_name file cond_type ≡ r) ↔ Makes cl env_name file cond_type r)
      × (Package.new_condition cl env_name file cond_type ≡ r
          → Package.get_namespaced_name env_name file ≡ name_of r)
unfolding Package.new_condition Package.get_namespaced_name Package.get_condition_namespace
    Package.read_namespace
new_condition_iff cl env_name file cond_type r = (
  (
    (λ h.
        let (r', m) = some_outcome cl env_name cond_type file in
        subst (Makes cl env_name file cond_type)
          (sym (Makes-new_condition cl env_name cond_type file r' m) ∙ h) m),
    Makes-new_condition cl env_name cond_type file r,
  ),
  λ h. name-new_condition cl env_name (get_operator_namespace file) cond_type ∙ ap name_of h,
)
