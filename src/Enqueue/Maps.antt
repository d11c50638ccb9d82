-- ===== src/Enqueue/Maps.antt =====
-- The annotations of an object as a map: what counts is the value of each key, and not how the
-- entries are listed.
use operator_lib.Common.{
  Bool-cases, inl, inr, nat_eq, suc-==-zero, String, Bool, [], ◌∷◌, Option, none, some, Result, ok,
  err, Outcome, returned, ◌≡◌, ◌≢◌, refl, sym, ap, ◌∙◌, ◌==◌, string_eq, if◌then◌else◌, length,
  ==_refl,
}
use text.Mathlib.TextEquality.{IsScalar-prop}
use mathlib.Core.Quot
use mathlib.Core.Quot.{Quot, Quot-set}
use operator_lib.Common.Maps.{
  lookup, insert, lookup-insert, lookup-insert_ne, length-insert-ne-zero,
}
use operator_lib.Objects.{GroupKind, GroupVersionKind}
use operator_lib.Enqueue.{
  Annotations, Request, namespaced_name_annotation, type_annotation, get_annotation_requests,
  set_owner_annotations, Owner, OwnerError, typed_request, no_request,
}

abbrev pub SameEntries : Annotations → Annotations → Type 0
SameEntries l m = (key : String) → lookup key l ≡ lookup key m

abbrev pub AnnotationMap : Type 0
AnnotationMap = Quot SameEntries

pub insert-SameEntries :
    (key value : String) (l m : Annotations)
    → SameEntries l m
    → SameEntries (insert key value l) (insert key value m)
insert-SameEntries key value l m h other =
    rw (lookup-insert key other value l, lookup-insert key other value m, h other) refl

-- `annotations[key] = value`
unfoldable pub annotate : (key value : String) → AnnotationMap → AnnotationMap
annotate key value =
    Quot.lift Quot-set (λ l. Quot.mk (insert key value l))
      (λ l m h. Quot.sound (insert-SameEntries key value l m h))

pub outcome_set : IsSet (Outcome (Bool × Request))
outcome_set = hlevel (IsScalar-prop)

SameEntries-empty : (l m : Annotations) → SameEntries l m → (length l == 0) ≡ (length m == 0)
unfolding lookup
SameEntries-empty [] [] h = refl
SameEntries-empty [] ((key, value) ∷ m) h = let e = h key in let e' = rw (==_refl key) at e in cc
SameEntries-empty ((key, value) ∷ l) [] h = let e = h key in let e' = rw (==_refl key) at e in cc
SameEntries-empty (x ∷ l) (y ∷ m) h = suc-==-zero (length l) ∙ sym (suc-==-zero (length m))

module _ (gk_string : GroupKind → String) (type : GroupKind) where
  typed_request-same :
      (l m : Annotations) (o : Option String)
      → lookup namespaced_name_annotation l ≡ lookup namespaced_name_annotation m
      → typed_request gk_string (λ (a : Annotations). a) type l o
        ≡ typed_request gk_string (λ (a : Annotations). a) type m o
  typed_request-same l m none h = refl
  typed_request-same l m (some s) h = rw h refl

  pub requests-SameEntries :
      (l m : Annotations)
      → SameEntries l m
      → get_annotation_requests gk_string (λ (a : Annotations). a) type (some l)
        ≡ get_annotation_requests gk_string (λ (a : Annotations). a) type (some m)
  unfolding get_annotation_requests
  requests-SameEntries l m h =
      rw (SameEntries-empty l m h, h type_annotation)
        (ap (λ r. returned (if length m == 0 then no_request else r))
          (typed_request-same l m (lookup type_annotation m) (h namespaced_name_annotation)))

  -- What `getAnnotationRequests` finds for an object with these annotations.
  unfoldable pub requests_of : AnnotationMap → Outcome (Bool × Request)
  requests_of =
      Quot.lift outcome_set
        (λ l. get_annotation_requests gk_string (λ (a : Annotations). a) type (some l))
        requests-SameEntries

  -- The requests of the two entries that count.
  requests-insert :
      (k v : String) (l : Annotations)
      → k ≢ type_annotation
      → k ≢ namespaced_name_annotation
      → get_annotation_requests gk_string (λ (a : Annotations). a) type (some (insert k v l))
        ≡ get_annotation_requests gk_string (λ (a : Annotations). a) type (some l)
  unfolding get_annotation_requests lookup
  requests-insert k v [] not_type not_name =
      rw (length-insert-ne-zero k v [], lookup-insert_ne k type_annotation v [] not_type) refl
  requests-insert k v (x ∷ l) not_type not_name =
      rw
        (
          length-insert-ne-zero k v (x ∷ l),
          suc-==-zero (length l),
          lookup-insert_ne k type_annotation v (x ∷ l) not_type,
        )
        (ap returned (
          typed_request-same (insert k v (x ∷ l)) (x ∷ l) (lookup type_annotation (x ∷ l))
            (lookup-insert_ne k namespaced_name_annotation v (x ∷ l) not_name)))

  pub requests_of-annotate :
      (k v : String) (m : AnnotationMap)
      → k ≢ type_annotation
      → k ≢ namespaced_name_annotation
      → requests_of (annotate k v m) ≡ requests_of m
  unfolding requests_of annotate
  requests_of-annotate k v m not_type not_name =
      Quot.ind (λ n. outcome_set (requests_of (annotate k v n)) (requests_of n))
        (λ l. requests-insert k v l not_type not_name) m

pub set_set : IsSet (Result OwnerError AnnotationMap)
set_set = hlevel (Quot-set)

-- The result of `SetOwnerAnnotations` as a map.
abbrev pub as_map : Result OwnerError Annotations → Result OwnerError AnnotationMap
as_map (ok l) = ok (Quot.mk l)
as_map (err e) = err e

module _ (gk_string : GroupKind → String) (group_kind : GroupVersionKind → GroupKind) where
  pub set_owner-SameEntries :
      (owner : Owner) (l m : Annotations)
      → SameEntries l m
      → as_map (set_owner_annotations gk_string group_kind owner (some l))
        ≡ as_map (set_owner_annotations gk_string group_kind owner (some m))
  unfolding set_owner_annotations
  set_owner-SameEntries owner l m h = elim (Bool-cases (owner.name == "")) [
    | inl no_name ↦ rw no_name refl
    | inr named ↦ elim (Bool-cases ((group_kind owner.group_version_kind).kind == "")) [
      | inl no_kind ↦ rw (named, no_kind) refl
      | inr kind ↦
          rw (named, kind)
            (ap (λ (n : AnnotationMap). ok n)
              (Quot.sound (
                insert-SameEntries type_annotation _ _ _
                  (insert-SameEntries namespaced_name_annotation _ _ _ h))))
    ]
  ]

  -- `SetOwnerAnnotations` of an object with these annotations
  unfoldable pub set_owner : Owner → AnnotationMap → Result OwnerError AnnotationMap
  set_owner owner =
      Quot.lift set_set (λ l. as_map (set_owner_annotations gk_string group_kind owner (some l)))
        (set_owner-SameEntries owner)
