-- ===== src/Enqueue/RoundTrip.antt =====
-- Annotations that are set name their owner.
use operator_lib.Common.{
  String, true, false, ◌≡◌, refl, ap, sym, ◌∙◌, ◌≢◌, Option, some, ok, returned, if◌then◌else◌,
  ◌==◌, string_eq, length, nat_eq, Bool-cases, inl, inr, ==_of_ne,
}
use text.Mathlib.TextLemmas.{nil-append, cons-append}
use operator_lib.Common.Maps.{
  lookup, insert, lookup-insert, lookup-insert_self, lookup-insert_ne, length-insert-ne-zero,
}
use operator_lib.Common.Text.{◌++ˢ◌, is_space, trim_space, split_two}
use operator_lib.Common.Text.Laws.{
  Lacks, trim_space-IsBlank, not-IsBlank-append, cut-append, cut-none,
}
use operator_lib.Objects.{NamespacedName, GroupKind, GroupVersionKind}
use operator_lib.Enqueue.{
  Annotations, namespaced_name_annotation, type_annotation, parse_namespaced_name, no_request,
  request_for, get_annotation_requests, Owner, or_new, set_owner_annotations,
}

-- The form `<namespace>/<name>`
abbrev pub format : NamespacedName → String
format n = n.namespace ++ˢ ("/" ++ˢ n.name)

pub slash-append : (s : String) → ("/" ++ˢ s) ≡ String.◌∷◌ "/" s
slash-append s = cons-append "/" "" s ∙ ap (λ r. String.◌∷◌ "/" r) (nil-append s)

-- A namespaced name is read back from `<namespace>/<name>`, if the namespace has no slash.
pub parse-format :
    (n : NamespacedName) → Lacks "/" n.namespace → parse_namespaced_name (format n) ≡ n
unfolding parse_namespaced_name split_two
parse-format n h = rw slash-append (rw (cut-append "/" n.namespace n.name h))

-- A text without a slash is a name with no namespace.
pub parse_name :
    (s : String) → Lacks "/" s → parse_namespaced_name s ≡ record { namespace = ""; name = s }
unfolding parse_namespaced_name split_two
parse_name s h = rw (cut-none "/" s h)

-- `<namespace>/<name>` is not blank.
format-trim : (n : NamespacedName) → (trim_space (format n) == "") ≡ false
unfolding is_space
format-trim n = ==_of_ne (trim_space (format n)) "" (λ blank.
    not-IsBlank-append n.namespace n.name "/" refl
      (trim_space-IsBlank _ (rw slash-append at blank)))

module _ (gk_string : GroupKind → String) (group_kind : GroupVersionKind → GroupKind)
    (owner : Owner) (before : Option Annotations) (after : Annotations) where
  abbrev owner_name : NamespacedName
  owner_name = record { namespace = owner.namespace; name = owner.name }

  set-insert :
      set_owner_annotations gk_string group_kind owner before ≡ ok after
      → after
        ≡ insert type_annotation
            (gk_string (group_kind owner.group_version_kind))
            (insert namespaced_name_annotation (format owner_name) (or_new before))
  unfolding set_owner_annotations
  set-insert set = elim (Bool-cases (owner.name == "")) [
    | inl no_name ↦ let set' = rw no_name at set in cc
    | inr named ↦ elim (Bool-cases ((group_kind owner.group_version_kind).kind == "")) [
      | inl no_kind ↦ let set' = rw (named, no_kind) at set in cc
      | inr kind ↦ let set' = rw (named, kind) at set in cc
    ]
  ]

  set-type :
      set_owner_annotations gk_string group_kind owner before ≡ ok after
      → lookup type_annotation after ≡ some (gk_string (group_kind owner.group_version_kind))
  set-type set = rw (set-insert set) (lookup-insert_self type_annotation _ _)

  set-name :
      set_owner_annotations gk_string group_kind owner before ≡ ok after
      → lookup namespaced_name_annotation after ≡ some (format owner_name)
  set-name set = rw (set-insert set) (
      lookup-insert type_annotation namespaced_name_annotation _ _
      ∙ lookup-insert_self namespaced_name_annotation _ _)

  -- The other annotations stay.
  set-others :
      set_owner_annotations gk_string group_kind owner before ≡ ok after
      → (k : String) → k ≢ type_annotation
      → k ≢ namespaced_name_annotation
      → lookup k after ≡ lookup k (or_new before)
  set-others set k not_type not_name = rw (set-insert set) (
      lookup-insert_ne type_annotation k _ _ (λ e. not_type (sym e))
      ∙ lookup-insert_ne namespaced_name_annotation k _ _ (λ e. not_name (sym e)))

  set-ne-nil :
      set_owner_annotations gk_string group_kind owner before ≡ ok after
      → (length after == 0) ≡ false
  set-ne-nil set = rw (set-insert set) (length-insert-ne-zero type_annotation _ _)

-- After `SetOwnerAnnotations` has set an object's annotations, a handler for a type with the same
-- text as the owner's type finds a request for the owner, if the owner's namespace has no slash; a
-- handler for any other type finds none.
pub requests-set_owner_annotations :
    {T : Type 0} (gk_string : GroupKind → String) (group_kind : GroupVersionKind → GroupKind)
    (get_annotations : T → Annotations) (type : GroupKind) (owner : Owner)
    (before : Option Annotations) (object : T)
    → set_owner_annotations gk_string group_kind owner before ≡ ok (get_annotations object)
    → Lacks "/" owner.namespace
    → get_annotation_requests gk_string get_annotations type (some object) ≡ (
        if gk_string (group_kind owner.group_version_kind) == gk_string type
        then returned (
          true,
          record { namespaced_name = record { namespace = owner.namespace; name = owner.name } },
        )
        else returned no_request)
unfolding get_annotation_requests request_for
requests-set_owner_annotations gk_string group_kind get_annotations type owner before object set
      lacks =
    let name : NamespacedName = record { namespace = owner.namespace; name = owner.name } in
    let there = set-type gk_string group_kind owner before _ set in
    let named = set-name gk_string group_kind owner before _ set in
    let filled = set-ne-nil gk_string group_kind owner before _ set in
    elim (Bool-cases (gk_string (group_kind owner.group_version_kind) == gk_string type)) [
      | inl same ↦ rw (filled, there, same, named, format-trim name, parse-format name lacks)
      | inr differs ↦ rw (filled, there, differs)
    ]

-- `SetOwnerAnnotations` leaves every annotation but its two, and sets them only for an owner that has
-- a name and a kind.
pub set_owner_annotations-others :
    (gk_string : GroupKind → String) (group_kind : GroupVersionKind → GroupKind) (owner : Owner)
    (before : Option Annotations) (after : Annotations) (k : String)
    → set_owner_annotations gk_string group_kind owner before ≡ ok after
    → k ≢ type_annotation
    → k ≢ namespaced_name_annotation
    → (lookup k after ≡ lookup k (or_new before))
      × (owner.name ≢ "")
      × ((group_kind owner.group_version_kind).kind ≢ "")
unfolding set_owner_annotations
set_owner_annotations-others gk_string group_kind owner before after k set not_type not_name = (
  set-others gk_string group_kind owner before after set k not_type not_name,
  λ e. named e,
  λ e. kinded e,
)
  where
    named : owner.name ≡ "" → ⊥
    named e = let set' = rw ((string_eq.beq_iff owner.name "").1 e) at set in cc

    kinded : (group_kind owner.group_version_kind).kind ≡ "" → ⊥
    kinded e = elim (Bool-cases (owner.name == "")) [
      | inl no_name ↦ let set' = rw no_name at set in cc
      | inr name ↦
          let set' =
            rw (name, (string_eq.beq_iff (group_kind owner.group_version_kind).kind "").1 e) at
              set in
          cc
    ]
