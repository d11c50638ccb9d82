-- ===== src/Predicates.antt =====
-- predicate/nogeneration.go and predicate/dependent.go: which events of an object are passed on.
mod Updates
mod Events
mod Tests
use operator_lib.Common.{
  ℕ, String, Bool, true, false, not, ◌&&◌, List, [], ◌∷◌, ◌++◌, Option, none, some, Outcome,
  returned, panicked, Eq, nat_eq, ◌==◌, if◌then◌else◌,
}
use operator_lib.Annotation.{Event, create, update, delete, generic}

-- `NoGenerationPredicate.Update`; a nil object is `none`, and the generation is `GetGeneration`
unfoldable pub no_generation_update :
    {T : Type 0} (get_generation : T → ℕ) → Option T → Option T → Bool
no_generation_update get_generation none new = false
no_generation_update get_generation (some old) none = false
no_generation_update get_generation (some old) (some new) =
    get_generation new == get_generation old && get_generation new == 0

-- `metav1.ManagedFieldsEntry`, with all but its time as one value
pub record ManagedFieldsEntry (Time Details : Type 0) : Type 0 where
  pub time : Option Time
  pub details : Details

-- `unstructured.Unstructured`: the fields that the predicate removes, and the others as one value.
pub record Unstructured (Status Time Details Rest : Type 0) : Type 0 where
  pub status : Option Status
  pub resource_version : String
  pub managed_fields : Option (List (ManagedFieldsEntry Time Details))
  pub rest : Rest

module _ {Time Details : Type 0} where
  -- the loop of `removeTimeFromManagedFields`
  unfoldable pub append_without_time :
      (new_fields fields : List (ManagedFieldsEntry Time Details))
      → List (ManagedFieldsEntry Time Details)
  append_without_time new_fields [] = new_fields
  append_without_time new_fields (field ∷ fields) =
      append_without_time (new_fields ++ (record field { time = none } ∷ [])) fields

  -- `removeTimeFromManagedFields`
  unfoldable pub remove_time_from_managed_fields :
      Option (List (ManagedFieldsEntry Time Details))
      → Option (List (ManagedFieldsEntry Time Details))
  remove_time_from_managed_fields none = none
  remove_time_from_managed_fields (some fields) = some (append_without_time [] fields)

-- `==` on two objects is `reflect.DeepEqual` of their contents. The type assertions of the methods
-- panic on an object of another type, and on nil: `none`.
module _ {Status Time Details Rest : Type 0} ⦃e : Eq (Unstructured Status Time Details Rest)⦄ where
  -- what `DependentPredicate.Update` compares
  unfoldable pub cleared :
      Unstructured Status Time Details Rest → Unstructured Status Time Details Rest
  cleared o = record o {
    status = none;
    resource_version = "";
    managed_fields = remove_time_from_managed_fields o.managed_fields;
  }

  -- `DependentPredicate.Create`, `Delete` and `Generic`
  unfoldable pub dependent_create : Option (Unstructured Status Time Details Rest) → Outcome Bool
  dependent_create none = panicked
  dependent_create (some o) = returned false

  unfoldable pub dependent_delete : Option (Unstructured Status Time Details Rest) → Outcome Bool
  dependent_delete none = panicked
  dependent_delete (some o) = returned true

  unfoldable pub dependent_generic : Option (Unstructured Status Time Details Rest) → Outcome Bool
  dependent_generic none = panicked
  dependent_generic (some o) = returned false

  -- `DependentPredicate.Update`
  unfoldable pub dependent_update :
      Option (Unstructured Status Time Details Rest)
      → Option (Unstructured Status Time Details Rest)
      → Outcome Bool
  dependent_update none updated = panicked
  dependent_update (some old) none = panicked
  dependent_update (some old) (some updated) =
      returned (if cleared old == cleared updated then false else true)

  -- The four methods of `DependentPredicate`.
  unfoldable pub dependent : Event (Unstructured Status Time Details Rest) → Outcome Bool
  dependent (create o) = dependent_create o
  dependent (delete o) = dependent_delete o
  dependent (generic o) = dependent_generic o
  dependent (update old updated) = dependent_update old updated
