-- ===== src/Enqueue/SetOwner.antt =====
-- What `SetOwnerAnnotations` of handler/enqueue_annotation.go makes of the annotations of an object.
use operator_lib.Common.{
  String, Option, some, Result, ok, err, ◌≡◌, ◌≢◌, ◌↔◌, refl, sym, ap, ◌∙◌, inl, inr, Bool-cases,
  if◌then◌else◌, ◌==◌, string_eq, ==_sound, ==_of_ne,
}
use text.Mathlib.TextEquality.{IsScalar-prop}
use mathlib.Core.Bool.{false, false≢true}
use mathlib.Core.Path.{subst}
use mathlib.Core.Quot
use mathlib.Core.Quot.{Quot, Quot-set}
use operator_lib.Common.Maps.{lookup, lookup-insert}
use operator_lib.Objects.{GroupKind, GroupVersionKind}
use operator_lib.Enqueue.{
  namespaced_name_annotation, type_annotation, Owner, OwnerError, no_name, no_kind,
  set_owner_annotations,
}
use operator_lib.Enqueue.RoundTrip.{format}
use operator_lib.Enqueue.Maps.{AnnotationMap, annotate, set_owner, set_set}

find_set : IsSet (Option String)
find_set = hlevel (IsScalar-prop)

-- `value, ok := annotations[key]`
pub find : String → AnnotationMap → Option String
find key = Quot.lift find_set (lookup key) (λ l m h. h key)

find-annotate :
    (key value other : String) (m : AnnotationMap)
    → find other (annotate key value m) ≡ (if key == other then some value else find other m)
unfolding find annotate
find-annotate key value other =
    Quot.ind
      (λ m.
        find_set (find other (annotate key value m))
          (if key == other then some value else find other m))
      (lookup-insert key other value)

-- Two maps are equal if they have the same value at every key.
find-ext : (m n : AnnotationMap) → ((key : String) → find key m ≡ find key n) → m ≡ n
unfolding find
find-ext =
    Quot.ind (λ m f g i n h. Quot-set m n (f n h) (g n h) i)
      (λ l. Quot.ind (λ n f g i h. Quot-set (Quot.mk l) n (f h) (g h) i) (λ l' h. Quot.sound h))

module _ (gk_string : GroupKind → String) (group_kind : GroupVersionKind → GroupKind)
    (owner : Owner) where
  -- What is at a key once the owner is set, from what was there.
  abbrev pub owner_at : String → Option String → Option String
  owner_at key before =
      if type_annotation == key
      then some (gk_string (group_kind owner.group_version_kind))
      else if namespaced_name_annotation == key
      then some (format (record { namespace = owner.namespace; name = owner.name }))
      else before

  -- The outcomes: an error for an owner without a name or a kind, and else a map that has the owner's
  -- two annotations and all others as before.
  pub data Sets (before : AnnotationMap) : Result OwnerError AnnotationMap → Type 0 where
    unnamed : owner.name ≡ "" → Sets before (err no_name)
    unkinded :
        owner.name ≢ ""
        → (group_kind owner.group_version_kind).kind ≡ ""
        → Sets before (err no_kind)
    set :
        owner.name ≢ ""
        → (group_kind owner.group_version_kind).kind ≢ ""
        → (after : AnnotationMap)
        → ((key : String) → find key after ≡ owner_at key (find key before))
        → Sets before (ok after)

  with_owner : AnnotationMap → AnnotationMap
  with_owner m = annotate type_annotation (gk_string (group_kind owner.group_version_kind)) (
      annotate namespaced_name_annotation
        (format (record { namespace = owner.namespace; name = owner.name })) m)

  find-with_owner :
      (key : String) (m : AnnotationMap) → find key (with_owner m) ≡ owner_at key (find key m)
  unfolding with_owner
  find-with_owner key m =
      find-annotate type_annotation _ key _
      ∙ ap
          (λ o.
            if type_annotation == key
            then some (gk_string (group_kind owner.group_version_kind))
            else o)
          (find-annotate namespaced_name_annotation _ key m)

  expected : AnnotationMap → Result OwnerError AnnotationMap
  expected m =
      if owner.name == ""
      then err no_name
      else if (group_kind owner.group_version_kind).kind == ""
      then err no_kind
      else ok (with_owner m)

  set_owner-expected : (m : AnnotationMap) → set_owner gk_string group_kind owner m ≡ expected m
  unfolding set_owner set_owner_annotations annotate expected with_owner
  set_owner-expected =
      Quot.ind (λ m. set_set (set_owner gk_string group_kind owner m) (expected m))
        (λ l. elim (Bool-cases (owner.name == "")) [
          | inl nameless ↦ rw nameless refl
          | inr named ↦ elim (Bool-cases ((group_kind owner.group_version_kind).kind == "")) [
            | inl kindless ↦ rw (named, kindless) refl
            | inr kind ↦ rw (named, kind) refl
          ]
        ])

  filled : {s : String} → (s == "") ≡ false → s ≢ ""
  filled {s} h e = false≢true (sym h ∙ (string_eq.beq_iff s "").1 e)

  expected-Sets : (m : AnnotationMap) → Sets m (expected m)
  unfolding expected
  expected-Sets m = elim (Bool-cases (owner.name == "")) [
    | inl nameless ↦ rw nameless (Sets.unnamed (==_sound owner.name "" nameless))
    | inr named ↦ elim (Bool-cases ((group_kind owner.group_version_kind).kind == "")) [
      | inl kindless ↦ rw (named, kindless) (Sets.unkinded (filled named) (==_sound _ "" kindless))
      | inr kind ↦
          rw (named, kind)
            (Sets.set (filled named) (filled kind) (with_owner m) (λ key. find-with_owner key m))
    ]
  ]

  Sets-expected :
      (m : AnnotationMap) (r : Result OwnerError AnnotationMap) → Sets m r → expected m ≡ r
  unfolding expected
  Sets-expected m r (Sets.unnamed e) = rw e refl
  Sets-expected m r (Sets.unkinded named e) = rw (==_of_ne owner.name "" named, e) refl
  Sets-expected m r (Sets.set named kind after at) =
      rw (==_of_ne owner.name "" named, ==_of_ne _ "" kind)
        (ap (λ (n : AnnotationMap). ok n)
          (find-ext (with_owner m) after (λ key. find-with_owner key m ∙ sym (at key))))

-- `SetOwnerAnnotations` returns an error for an owner that has no name, and another for one that has a
-- name and no kind. Else the annotations that it leaves have the owner's kind and group at the one
-- key, its namespace and name at the other, and what was there before at every other key; and every
-- map of which this holds is the one that it leaves.
pub set_owner_iff :
    (gk_string : GroupKind → String) (group_kind : GroupVersionKind → GroupKind) (owner : Owner)
    (before : AnnotationMap) (r : Result OwnerError AnnotationMap)
    → (set_owner gk_string group_kind owner before ≡ r) ↔ Sets gk_string group_kind owner before r
set_owner_iff gk_string group_kind owner before r = (
  (λ h.
      subst (Sets gk_string group_kind owner before)
        (sym (set_owner-expected gk_string group_kind owner before) ∙ h)
        (expected-Sets gk_string group_kind owner before)),
  (λ h.
      set_owner-expected gk_string group_kind owner before
      ∙ Sets-expected gk_string group_kind owner before r h),
)
