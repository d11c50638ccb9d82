-- ===== src/Enqueue.antt =====
-- handler/enqueue_annotation.go: reconcile requests for the owner that an object's annotations name.
pub mod RoundTrip
mod Parse
pub mod Requests
pub mod Events
pub mod Maps
pub mod Edits
pub mod SetOwner
mod Tests
use operator_lib.Common.{
  String, Bool, true, false, List, [], ◌∷◌, Option, none, some, Result, ok, err, Outcome, returned,
  panicked, bind, if◌then◌else◌, ◌==◌, string_eq, length, nat_eq,
}
use operator_lib.Common.Maps.{lookup, insert}
use operator_lib.Common.Text.{◌++ˢ◌, trim_space, split_two}
use operator_lib.Annotation.{Event, create, update, delete, generic}
use operator_lib.Objects.{NamespacedName, GroupKind, GroupVersionKind}

abbrev pub Annotations : Type 0
Annotations = List (String × String)

abbrev pub namespaced_name_annotation : String
namespaced_name_annotation = "operator-sdk/primary-resource"

abbrev pub type_annotation : String
type_annotation = "operator-sdk/primary-resource-type"

-- The parts of a name; `strings.SplitN` returns at least one.
abbrev of_values : List String → NamespacedName
of_values [] = record { namespace = ""; name = "" }
of_values (name ∷ []) = record { namespace = ""; name = name }
of_values (namespace ∷ name ∷ _) = record { namespace = namespace; name = name }

-- `parseNamespacedName`
unfoldable pub parse_namespaced_name : String → NamespacedName
parse_namespaced_name s = of_values (split_two "/" s)

-- `reconcile.Request`
pub record Request : Type 0 where
  pub namespaced_name : NamespacedName

abbrev pub no_request : Bool × Request
no_request = (false, record { namespaced_name = record { namespace = ""; name = "" } })

-- the value of a map at a key, "" if there is none
abbrev pub or_empty : Option String → String
or_empty none = ""
or_empty (some s) = s

-- `GroupKind.String()` and the annotations of an object are parameters.
module _ {T : Type 0} (gk_string : GroupKind → String) (get_annotations : T → Annotations)
    (type : GroupKind) where
  -- from the namespaced name annotation on
  unfoldable pub request_for : String → Bool × Request
  request_for s =
      if trim_space s == ""
      then no_request
      else (true, record { namespaced_name = parse_namespaced_name s })

  abbrev pub typed_request : Annotations → Option String → Bool × Request
  typed_request m none = no_request
  typed_request m (some type_string) =
      if type_string == gk_string type
      then request_for (or_empty (lookup namespaced_name_annotation m))
      else no_request

  -- `getAnnotationRequests`; it calls a method of the object, so nil panics
  unfoldable pub get_annotation_requests : Option T → Outcome (Bool × Request)
  get_annotation_requests none = panicked
  get_annotation_requests (some object) =
      let m = get_annotations object in
      returned (if length m == 0 then no_request else typed_request m (lookup type_annotation m))

  -- `q.Add` is a parameter.
  module _ {Q : Type 0} (add : Request → Q → Q) where
    abbrev pub add_if : Bool × Request → Q → Q
    add_if (found, req) q = if found then add req q else q

    abbrev pub enqueue : Outcome (Bool × Request) → Q → Outcome Q
    enqueue panicked q = panicked
    enqueue (returned r) q = returned (add_if r q)

    -- `Create`, `Delete` and `Generic`
    unfoldable pub handle_create : Option T → Q → Outcome Q
    handle_create object q = enqueue (get_annotation_requests object) q

    unfoldable pub handle_delete : Option T → Q → Outcome Q
    handle_delete object q = enqueue (get_annotation_requests object) q

    unfoldable pub handle_generic : Option T → Q → Outcome Q
    handle_generic object q = enqueue (get_annotation_requests object) q

    -- `Update`
    unfoldable pub handle_update : Option T → Option T → Q → Outcome Q
    handle_update old new q =
        bind (enqueue (get_annotation_requests old) q) (enqueue (get_annotation_requests new))

    -- The four methods of `EnqueueRequestForAnnotation`.
    unfoldable pub handle : Event T → Q → Outcome Q
    handle (create object) q = handle_create object q
    handle (update old new) q = handle_update old new q
    handle (delete object) q = handle_delete object q
    handle (generic object) q = handle_generic object q

-- The owner, as `SetOwnerAnnotations` reads it.
pub record Owner : Type 0 where
  pub name : String
  pub namespace : String
  pub group_version_kind : GroupVersionKind

pub data OwnerError : Type 0 where
  no_name no_kind : OwnerError

abbrev pub or_new : Option Annotations → Annotations
or_new none = []
or_new (some m) = m

-- The annotations that `SetOwnerAnnotations` sets, from those of the object, which may be nil.
-- `GroupVersionKind.GroupKind()` is a parameter too.
module _ (gk_string : GroupKind → String) (group_kind : GroupVersionKind → GroupKind) where
  unfoldable pub set_owner_annotations : Owner → Option Annotations → Result OwnerError Annotations
  set_owner_annotations owner annotations =
      let owner_gk = group_kind owner.group_version_kind in
      if owner.name == ""
      then err no_name
      else if owner_gk.kind == ""
      then err no_kind
      else ok (
          insert type_annotation (gk_string owner_gk) (
            insert namespaced_name_annotation (owner.namespace ++ˢ ("/" ++ˢ owner.name))
              (or_new annotations)))
