-- ===== src/Enqueue/Edits.antt =====
-- Annotations that are written after those of the owner.
use operator_lib.Common.{
  ok_inj, nat_eq, String, Bool, true, List, [], ◌∷◌, some, Result, ok, err, Outcome, returned, ◌≡◌,
  ◌≢◌, refl, ◌∙◌, ◌==◌, string_eq, if◌then◌else◌,
}
use mathlib.Core.Path.{subst}
use mathlib.Core.Quot
use mathlib.Core.Quot.{Quot, Quot-set}
use operator_lib.Common.Text.Laws.{Lacks}
use operator_lib.Objects.{GroupKind, GroupVersionKind}
use operator_lib.Enqueue.RoundTrip.{requests-set_owner_annotations}
use operator_lib.Enqueue.{
  Annotations, Request, namespaced_name_annotation, type_annotation, set_owner_annotations, Owner,
  OwnerError, no_request,
}
use operator_lib.Enqueue.Maps.{
  AnnotationMap, annotate, requests_of, outcome_set, requests_of-annotate, as_map, set_owner,
}

-- Writes of annotations, one after the other.
abbrev pub edit : List (String × String) → AnnotationMap → AnnotationMap
edit [] m = m
edit ((key, value) ∷ writes) m = edit writes (annotate key value m)

-- No write is to the two annotations of the owner.
abbrev pub Spare : List (String × String) → Type 0
Spare [] = Unit
Spare ((key, value) ∷ writes) =
    (key ≢ type_annotation) × (key ≢ namespaced_name_annotation) × Spare writes

-- What a handler finds for an owner: a request for it, if the handler is for its type.
abbrev pub found :
    (GroupKind → String)
    → (GroupVersionKind → GroupKind)
    → GroupKind
    → Owner
    → Outcome (Bool × Request)
found gk_string group_kind type owner =
    if gk_string (group_kind owner.group_version_kind) == gk_string type
    then returned (
      true,
      record { namespaced_name = record { namespace = owner.namespace; name = owner.name } },
    )
    else returned no_request

requests_of-edit :
    (gk_string : GroupKind → String) (type : GroupKind) (writes : List (String × String))
    (m : AnnotationMap)
    → Spare writes
    → requests_of gk_string type (edit writes m) ≡ requests_of gk_string type m
requests_of-edit gk_string type [] m spare = refl
requests_of-edit gk_string type ((key, value) ∷ writes) m (not_type, not_name, spare) =
    requests_of-edit gk_string type writes (annotate key value m) spare
    ∙ requests_of-annotate gk_string type key value m not_type not_name

module _ (gk_string : GroupKind → String) (group_kind : GroupVersionKind → GroupKind)
    (type : GroupKind) (owner : Owner) (after : AnnotationMap)
    (lacks : Lacks "/" owner.namespace) where
  Finds : Type 0
  Finds = requests_of gk_string type after ≡ found gk_string group_kind type owner

  finds_list :
      (l : Annotations)
      → as_map (set_owner_annotations gk_string group_kind owner (some l)) ≡ ok after
      → Finds
  unfolding requests_of Finds
  finds_list l = go (set_owner_annotations gk_string group_kind owner (some l)) refl
    where
      go :
          (r : Result OwnerError Annotations)
          → set_owner_annotations gk_string group_kind owner (some l) ≡ r
          → as_map r ≡ ok after
          → Finds
      go (err e) hr h = cc
      go (ok l') hr h =
          subst (λ n. requests_of gk_string type n ≡ found gk_string group_kind type owner)
            (ok_inj h)
            (requests-set_owner_annotations gk_string group_kind (λ (a : Annotations). a) type owner
              (some l) l' hr lacks)

  requests_of-set_owner :
      (before : AnnotationMap) → set_owner gk_string group_kind owner before ≡ ok after → Finds
  unfolding set_owner Finds
  requests_of-set_owner =
      Quot.ind
        (λ b f g i set.
          outcome_set (requests_of gk_string type after) (found gk_string group_kind type owner)
            (f set) (g set) i)
        finds_list

-- After `SetOwnerAnnotations` has set the annotations of an object, and any others have been written
-- since, a handler for a type with the same text as the owner's type finds a request for the owner,
-- and a handler for any other type finds none: whatever the annotations were before, and in whichever
-- order they are listed. (The owner's namespace has no slash.)
pub requests_of-edit_owner :
    (gk_string : GroupKind → String) (group_kind : GroupVersionKind → GroupKind) (type : GroupKind)
    (owner : Owner) (before after : AnnotationMap) (writes : List (String × String))
    → set_owner gk_string group_kind owner before ≡ ok after
    → Lacks "/" owner.namespace
    → Spare writes
    → requests_of gk_string type (edit writes after) ≡ found gk_string group_kind type owner
unfolding Finds
requests_of-edit_owner gk_string group_kind type owner before after writes set lacks spare =
    requests_of-edit gk_string type writes after spare
    ∙ requests_of-set_owner gk_string group_kind type owner after lacks before set
