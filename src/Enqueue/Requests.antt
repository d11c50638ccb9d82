-- ===== src/Enqueue/Requests.antt =====
-- What is enqueued for an event.
use operator_lib.Common.{
  String, suc-==-zero, Bool, true, false, ◌≡◌, refl, ap, sym, ◌∙◌, ◌≢◌, ◌↔◌, [], ◌∷◌, Option, none,
  some, Outcome, returned, panicked, if◌then◌else◌, ◌==◌, string_eq, ==_refl, ==_sound, ==_of_ne,
  length, nat_eq, Bool-cases, inl, inr,
}
use mathlib.Core.Bool.{false≢true}
use operator_lib.Common.Maps.{lookup}
use operator_lib.Common.Text.{trim_space}
use operator_lib.Objects.{GroupKind}
use operator_lib.Enqueue.{
  Annotations, namespaced_name_annotation, type_annotation, parse_namespaced_name, Request,
  no_request, or_empty, request_for, typed_request, get_annotation_requests, enqueue, add_if,
  handle_update,
}

-- The annotations name the type that the handler is for, and a namespaced name that is not blank.
abbrev pub Names : (GroupKind → String) → GroupKind → Annotations → Request → Type 0
Names gk_string type m req =
    (s : String) × (lookup type_annotation m ≡ some (gk_string type))
    × (lookup namespaced_name_annotation m ≡ some s)
    × (trim_space s ≢ "")
    × (req ≡ record { namespaced_name = parse_namespaced_name s })

module _ {T : Type 0} (gk_string : GroupKind → String) (get_annotations : T → Annotations)
    (type : GroupKind) where
  request_for_sound :
      (o : Option String) (req : Request)
      → request_for gk_string get_annotations type (or_empty o) ≡ (true, req)
      → (s : String) × (o ≡ some s)
        × (trim_space s ≢ "")
        × (req ≡ record { namespaced_name = parse_namespaced_name s })
  unfolding request_for trim_space
  request_for_sound none req h = cc
  request_for_sound (some s) req h = elim (Bool-cases (trim_space s == "")) [
    | inl blank ↦ let h' = rw blank at h in cc
    | inr filled ↦ (
      s,
      refl,
      (λ e. false≢true (sym filled ∙ (string_eq.beq_iff (trim_space s) "").1 e)),
      sym (ap (λ (p : Bool × Request). p.1) (rw filled at h)),
    )
  ]

  typed_request_sound :
      (m : Annotations) (o : Option String) (req : Request)
      → typed_request gk_string get_annotations type m o ≡ (true, req)
      → lookup type_annotation m ≡ o
      → Names gk_string type m req
  typed_request_sound m none req h e = cc
  typed_request_sound m (some t) req h e = elim (Bool-cases (t == gk_string type)) [
    | inr other ↦ let h' = rw other at h in cc
    | inl same ↦
        let (s, there, blank, is_req) =
          request_for_sound (lookup namespaced_name_annotation m) req (rw same at h) in
        (s, e ∙ ap some (==_sound _ _ same), there, blank, is_req)
  ]

  Names-typed_request :
      (m : Annotations) (req : Request)
      → Names gk_string type m req
      → typed_request gk_string get_annotations type m (lookup type_annotation m) ≡ (true, req)
  unfolding request_for
  Names-typed_request m req (s, typed, there, blank, is_req) =
      rw (typed, ==_refl (gk_string type), there, ==_of_ne (trim_space s) "" blank)
        (ap (λ (r : Request). (true, r)) (sym is_req))

  found_iff :
      (m : Annotations) (req : Request)
      → ((if length m == 0
            then no_request
            else typed_request gk_string get_annotations type m (lookup type_annotation m))
          ≡ (true, req))
        ↔ Names gk_string type m req
  unfolding lookup
  found_iff [] req = (λ h. cc, λ names. let typed = names.1 in cc)
  found_iff (a ∷ m) req = rw (suc-==-zero (length m)) (
    (λ h. typed_request_sound (a ∷ m) (lookup type_annotation (a ∷ m)) req h refl),
    Names-typed_request (a ∷ m) req,
  )

abbrev the_request : Outcome (Bool × Request) → Bool × Request
the_request (returned r) = r
the_request panicked = no_request

-- A request is found exactly if the annotations name the handler's type and a namespaced name that
-- is not blank; it is then the one that is parsed from this name.
pub get_annotation_requests_iff :
    {T : Type 0} (gk_string : GroupKind → String) (get_annotations : T → Annotations)
    (type : GroupKind) (object : T) (req : Request)
    → (get_annotation_requests gk_string get_annotations type (some object) ≡ returned (true, req))
      ↔ Names gk_string type (get_annotations object) req
unfolding get_annotation_requests
get_annotation_requests_iff gk_string get_annotations type object req =
    let (to, from) = found_iff gk_string get_annotations type (get_annotations object) req in
    (λ h. to (ap the_request h), λ n. ap returned (from n))

-- What the annotations name, if anything.
abbrev pub Finds : (GroupKind → String) → GroupKind → Annotations → Option Request → Type 0
Finds gk_string type m none = (req : Request) → ¬ Names gk_string type m req
Finds gk_string type m (some req) = Names gk_string type m req

abbrev pub add_found : {Q : Type 0} → (Request → Q → Q) → Option Request → Q → Q
add_found add none q = q
add_found add (some req) q = add req q

module _ {T Q : Type 0} (gk_string : GroupKind → String) (get_annotations : T → Annotations)
    (type : GroupKind) (add : Request → Q → Q) where
  not_added :
      (r : Bool × Request) (q : Q)
      → ((req : Request) → r ≢ (true, req))
      → add_if gk_string get_annotations type add r q ≡ q
  not_added (true, req) q h = absurd (h req refl)
  not_added (false, req) q h = refl

  pub enqueue_found :
      (object : T) (found : Option Request) (q : Q)
      → Finds gk_string type (get_annotations object) found
      → enqueue gk_string get_annotations type add
          (get_annotation_requests gk_string get_annotations type (some object))
          q
        ≡ returned (add_found add found q)
  unfolding get_annotation_requests
  enqueue_found object (some req) q names =
      ap (λ r. enqueue gk_string get_annotations type add r q)
        ((get_annotation_requests_iff gk_string get_annotations type object req).1 names)
  enqueue_found object none q nothing = ap returned (
      not_added _ q (λ req h. nothing req (
        (get_annotation_requests_iff gk_string get_annotations type object req).0 (ap returned h))))

-- An update adds the request of the old object, if it has one, and then that of the new object.
pub handle_update-adds :
    {T Q : Type 0} (gk_string : GroupKind → String) (get_annotations : T → Annotations)
    (type : GroupKind) (add : Request → Q → Q) (old new : T) (a b : Option Request) (q : Q)
    → Finds gk_string type (get_annotations old) a
    → Finds gk_string type (get_annotations new) b
    → handle_update gk_string get_annotations type add (some old) (some new) q
      ≡ returned (add_found add b (add_found add a q))
unfolding handle_update
handle_update-adds gk_string get_annotations type add old new a b q find_a find_b =
    rw (enqueue_found gk_string get_annotations type add old a q find_a)
      (enqueue_found gk_string get_annotations type add new b (add_found add a q) find_b)
