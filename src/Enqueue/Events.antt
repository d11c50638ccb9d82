-- ===== src/Enqueue/Events.antt =====
-- What each method of the handler enqueues, and that the owner of an object is enqueued.
use operator_lib.Common.{
  ℕ, zero, suc, length, String, Bool, true, false, ◌≡◌, refl, ap, sym, ◌∙◌, List, [], ◌∷◌, map,
  Option, some, Outcome, returned, bind, ok, if◌then◌else◌, ◌==◌, string_eq, Bool-cases, inl, inr,
}
use operator_lib.Common.Text.Laws.{Lacks}
use operator_lib.Annotation.{Event, create, update, delete, generic}
use operator_lib.Objects.{GroupKind, GroupVersionKind}
use operator_lib.Enqueue.{
  Annotations, Request, no_request, get_annotation_requests, enqueue, handle_create, handle_update,
  handle_delete, handle_generic, handle, Owner, set_owner_annotations,
}
use operator_lib.Enqueue.Requests.{Finds, add_found, enqueue_found}
use operator_lib.Enqueue.RoundTrip.{requests-set_owner_annotations}

-- The objects of an event, the old one first.
abbrev pub objects : {T : Type 0} → Event T → List (Option T)
objects (create object) = object ∷ []
objects (update old new) = old ∷ new ∷ []
objects (delete object) = object ∷ []
objects (generic object) = object ∷ []

module _ {T Q : Type 0} (gk_string : GroupKind → String) (get_annotations : T → Annotations)
    (type : GroupKind) (add : Request → Q → Q) where
  -- One object after the other.
  enqueue_all : List (Option T) → Q → Outcome Q
  enqueue_all [] q = returned q
  enqueue_all (object ∷ rest) q =
      bind
        (enqueue gk_string get_annotations type add
          (get_annotation_requests gk_string get_annotations type object) q)
        (enqueue_all rest)

  bind-returned_id : (m : Outcome Q) → bind m (λ q. returned q) ≡ m
  bind-returned_id (returned q) = refl
  bind-returned_id Outcome.panicked = refl

  bind-nested :
      (m : Outcome Q) (f : Q → Outcome Q) → bind m f ≡ bind m (λ q. bind (f q) (λ r. returned r))
  bind-nested (returned q) f = sym (bind-returned_id (f q))
  bind-nested Outcome.panicked f = refl

  handle-enqueue_all :
      (e : Event T) (q : Q)
      → handle gk_string get_annotations type add e q ≡ enqueue_all (objects e) q
  unfolding handle handle_create handle_update handle_delete handle_generic enqueue_all
  handle-enqueue_all (create object) q = sym (bind-returned_id _)
  handle-enqueue_all (update old new) q =
      bind-nested
        (enqueue gk_string get_annotations type add
          (get_annotation_requests gk_string get_annotations type old) q)
        (enqueue gk_string get_annotations type add
          (get_annotation_requests gk_string get_annotations type new))
  handle-enqueue_all (delete object) q = sym (bind-returned_id _)
  handle-enqueue_all (generic object) q = sym (bind-returned_id _)

  -- Each object is found to have the request beside it, or none.
  abbrev pub AllFind : List T → List (Option Request) → Type 0
  AllFind [] [] = Unit
  AllFind [] (r ∷ rs) = ⊥
  AllFind (o ∷ os) [] = ⊥
  AllFind (o ∷ os) (r ∷ rs) = Finds gk_string type (get_annotations o) r × AllFind os rs

  abbrev pub add_all : List (Option Request) → Q → Q
  add_all [] q = q
  add_all (r ∷ rs) q = add_all rs (add_found add r q)

  enqueue_all-adds :
      (os : List T) (rs : List (Option Request)) (q : Q)
      → AllFind os rs
      → enqueue_all (map some os) q ≡ returned (add_all rs q)
  unfolding enqueue_all
  enqueue_all-adds [] [] q h = refl
  enqueue_all-adds [] (r ∷ rs) q h = absurd h
  enqueue_all-adds (o ∷ os) [] q h = absurd h
  enqueue_all-adds (o ∷ os) (r ∷ rs) q (here, later) =
      rw (enqueue_found gk_string get_annotations type add o r q here)
        (enqueue_all-adds os rs (add_found add r q) later)

-- For an event of any kind whose objects are there, the handler adds the requests that the objects'
-- annotations name, those of the old object first, and nothing else.
pub handle-adds :
    {T Q : Type 0} (gk_string : GroupKind → String) (get_annotations : T → Annotations)
    (type : GroupKind) (add : Request → Q → Q) (e : Event T) (os : List T)
    (found : List (Option Request)) (q : Q)
    → objects e ≡ map some os
    → AllFind gk_string get_annotations type add os found
    → handle gk_string get_annotations type add e q
      ≡ returned (add_all gk_string get_annotations type add found q)
handle-adds gk_string get_annotations type add e os found q there finds =
    handle-enqueue_all gk_string get_annotations type add e q
    ∙ ap (λ xs. enqueue_all gk_string get_annotations type add xs q) there
    ∙ enqueue_all-adds gk_string get_annotations type add os found q finds

-- The same request, so many times.
abbrev pub add_times : {Q : Type 0} → (Request → Q → Q) → Request → ℕ → Q → Q
add_times add req zero q = q
add_times add req (suc n) q = add_times add req n (add req q)

abbrev pub request_of : Owner → Request
request_of owner = record {
  namespaced_name = record { namespace = owner.namespace; name = owner.name };
}

if_returned :
    (b : Bool) (x y : Bool × Request)
    → (if b then returned x else returned y) ≡ returned (if b then x else y)
if_returned true x y = refl
if_returned false x y = refl

module _ {T Q : Type 0} (gk_string : GroupKind → String) (group_kind : GroupVersionKind → GroupKind)
    (get_annotations : T → Annotations) (type : GroupKind) (add : Request → Q → Q)
    (owner : Owner) where
  -- `SetOwnerAnnotations` has set the annotations of each object for the owner.
  abbrev pub AllOwned : List T → Type 0
  AllOwned [] = Unit
  AllOwned (o ∷ os) =
      ((before : Option Annotations) × (set_owner_annotations gk_string group_kind owner before
          ≡ ok (get_annotations o)))
      × AllOwned os

  requests_of :
      (o : T) (before : Option Annotations)
      → set_owner_annotations gk_string group_kind owner before ≡ ok (get_annotations o)
      → Lacks "/" owner.namespace
      → get_annotation_requests gk_string get_annotations type (some o)
        ≡ returned (
            if gk_string (group_kind owner.group_version_kind) == gk_string type
            then (true, request_of owner)
            else no_request)
  requests_of o before set lacks =
      requests-set_owner_annotations gk_string group_kind get_annotations type owner before o set
        lacks
      ∙ if_returned (gk_string (group_kind owner.group_version_kind) == gk_string type) _ _

  enqueue_all-owned :
      (os : List T) (q : Q)
      → Lacks "/" owner.namespace
      → AllOwned os
      → enqueue_all gk_string get_annotations type add (map some os) q
        ≡ returned (
            if gk_string (group_kind owner.group_version_kind) == gk_string type
            then add_times add (request_of owner) (length os) q
            else q)
  unfolding enqueue_all
  enqueue_all-owned [] q lacks h =
      elim (Bool-cases (gk_string (group_kind owner.group_version_kind) == gk_string type)) [
        | inl same ↦ rw same refl
        | inr differs ↦ rw differs refl
      ]
  enqueue_all-owned (o ∷ os) q lacks ((before, set), later) =
      elim (Bool-cases (gk_string (group_kind owner.group_version_kind) == gk_string type)) [
        | inl same ↦
            rw (requests_of o before set lacks, same)
              (rw same at (enqueue_all-owned os (add (request_of owner) q) lacks later))
        | inr differs ↦
            rw (requests_of o before set lacks, differs)
              (rw differs at (enqueue_all-owned os q lacks later))
      ]

-- Once `SetOwnerAnnotations` has set the annotations of the objects of an event of any kind, a handler
-- for a type with the same text as the owner's type adds a request for the owner for each of them, and
-- a handler for any other type leaves the queue. (The owner's namespace has no slash.)
pub handle-adds_owner :
    {T Q : Type 0} (gk_string : GroupKind → String) (group_kind : GroupVersionKind → GroupKind)
    (get_annotations : T → Annotations) (type : GroupKind) (add : Request → Q → Q) (owner : Owner)
    (e : Event T) (os : List T) (q : Q)
    → objects e ≡ map some os
    → Lacks "/" owner.namespace
    → AllOwned gk_string group_kind get_annotations type add owner os
    → handle gk_string get_annotations type add e q
      ≡ returned (
          if gk_string (group_kind owner.group_version_kind) == gk_string type
          then add_times add (request_of owner) (length os) q
          else q)
handle-adds_owner gk_string group_kind get_annotations type add owner e os q there lacks owned =
    handle-enqueue_all gk_string get_annotations type add e q
    ∙ ap (λ xs. enqueue_all gk_string get_annotations type add xs q) there
    ∙ enqueue_all-owned gk_string group_kind get_annotations type add owner os q lacks owned
