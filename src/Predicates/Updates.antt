-- ===== src/Predicates/Updates.antt =====
-- Which updates are passed on.
use operator_lib.Common.{
  some_inj, ℕ, true, false, List, [], ◌∷◌, ◌++◌, map, ◌&&◌, Option, none, some, returned, Eq, ◌==◌,
  ==_sound, ==_refl, ◌≡◌, refl, sym, ap, ◌∙◌, ◌↔◌, nat_eq, arith, Bool-cases, inl, inr,
  if◌then◌else◌,
}
use mathlib.Core.List.{append-nil, append_assoc}
use mathlib.Core.Bool.{false≢true}
use operator_lib.Predicates.{
  no_generation_update, ManagedFieldsEntry, Unstructured, append_without_time,
  remove_time_from_managed_fields, cleared, dependent_update,
}

none-ne-some {ℓ} : {A : Type ℓ} {a : A} → none ≡ some a → ⊥
none-ne-some h = cc

both_zero : (m n : ℕ) → ((n == m && n == 0) ≡ true) ↔ ((m ≡ 0) × (n ≡ 0))
both_zero m n = ground arith

-- An update passes exactly if both objects are there and neither has a generation.
pub no_generation_update_iff :
    {T : Type 0} (get_generation : T → ℕ) (old new : Option T)
    → (no_generation_update get_generation old new ≡ true) ↔ (
        (a : T) × (b : T) × (old ≡ some a)
        × (new ≡ some b)
        × (get_generation a ≡ 0)
        × (get_generation b ≡ 0))
unfolding no_generation_update
no_generation_update_iff get_generation none new =
    (λ h. absurd (false≢true h), λ h. absurd (none-ne-some h.2))
no_generation_update_iff get_generation (some a) none =
    (λ h. absurd (false≢true h), λ h. absurd (none-ne-some h.3))
no_generation_update_iff {T} get_generation (some a) (some b) = (to, from)
  where
    both :
        ((get_generation b == get_generation a && get_generation b == 0) ≡ true)
        ↔ ((get_generation a ≡ 0) × (get_generation b ≡ 0))
    both = both_zero (get_generation a) (get_generation b)

    to :
        (get_generation b == get_generation a && get_generation b == 0) ≡ true
        → (x : T) × (y : T) × (some a ≡ some x)
          × (some b ≡ some y)
          × (get_generation x ≡ 0)
          × (get_generation y ≡ 0)
    to h = let (za, zb) = both.0 h in (a, b, refl, refl, za, zb)

    from :
        (x : T) × (y : T) × (some a ≡ some x)
          × (some b ≡ some y)
          × (get_generation x ≡ 0)
          × (get_generation y ≡ 0)
        → (get_generation b == get_generation a && get_generation b == 0) ≡ true
    from (x, y, is_x, is_y, zx, zy) =
        both.1 (ap get_generation (some_inj is_x) ∙ zx, ap get_generation (some_inj is_y) ∙ zy)

-- What the managed fields say but for their times.
abbrev pub details_of :
    {Time Details : Type 0}
    → Option (List (ManagedFieldsEntry Time Details))
    → Option (List Details)
details_of none = none
details_of (some fields) = some (map (λ f. f.details) fields)

module _ {Time Details : Type 0} where
  abbrev untimed : Details → ManagedFieldsEntry Time Details
  untimed d = record { time = none; details = d }

  abbrev all_untimed : Option (List Details) → Option (List (ManagedFieldsEntry Time Details))
  all_untimed none = none
  all_untimed (some ds) = some (map untimed ds)

  append_without_time-map :
      (fields acc : List (ManagedFieldsEntry Time Details))
      → append_without_time acc fields ≡ acc ++ map untimed (map (λ f. f.details) fields)
  unfolding append_without_time
  append_without_time-map [] acc = sym (append-nil acc)
  append_without_time-map (f ∷ fs) acc =
      append_without_time-map fs (acc ++ (untimed f.details ∷ []))
      ∙ append_assoc acc (untimed f.details ∷ []) (map untimed (map (λ f. f.details) fs))

  remove_time-all_untimed :
      (fields : Option (List (ManagedFieldsEntry Time Details)))
      → remove_time_from_managed_fields fields ≡ all_untimed (details_of fields)
  unfolding remove_time_from_managed_fields
  remove_time-all_untimed none = refl
  remove_time-all_untimed (some fields) = ap some (append_without_time-map fields [])

  details_of-remove_time :
      (fields : Option (List (ManagedFieldsEntry Time Details)))
      → details_of (remove_time_from_managed_fields fields) ≡ details_of fields
  details_of-remove_time fields =
      ap details_of (remove_time-all_untimed fields) ∙ details_of-all_untimed (details_of fields)
    where
      map-details : (ds : List Details) → map (λ f. f.details) (map untimed ds) ≡ ds
      map-details [] = refl
      map-details (d ∷ ds) = ap (λ r. d ∷ r) (map-details ds)

      details_of-all_untimed : (o : Option (List Details)) → details_of (all_untimed o) ≡ o
      details_of-all_untimed none = refl
      details_of-all_untimed (some ds) = ap some (map-details ds)

-- An update of two objects is stopped exactly if they agree in all but the status, the resource
-- version and the times of the managed fields.
pub dependent_update_iff :
    {Status Time Details Rest : Type 0} ⦃e : Eq (Unstructured Status Time Details Rest)⦄
    (old updated : Unstructured Status Time Details Rest)
    → (dependent_update (some old) (some updated) ≡ returned false) ↔ (
        (old.rest ≡ updated.rest)
        × (details_of old.managed_fields ≡ details_of updated.managed_fields))
unfolding dependent_update cleared
dependent_update_iff {Status} {Time} {Details} {Rest} old updated = (to, from)
  where
    shape : Rest → Option (List Details) → Unstructured Status Time Details Rest
    shape rest details = record {
      status = none;
      resource_version = "";
      managed_fields = all_untimed details;
      rest = rest;
    }

    cleared-shape :
        (o : Unstructured Status Time Details Rest)
        → cleared o ≡ shape o.rest (details_of o.managed_fields)
    cleared-shape o =
        ap (λ m. record { status = none; resource_version = ""; managed_fields = m; rest = o.rest })
          (remove_time-all_untimed o.managed_fields)

    to :
        dependent_update (some old) (some updated) ≡ returned false
        → (old.rest ≡ updated.rest)
          × (details_of old.managed_fields ≡ details_of updated.managed_fields)
    to h = elim (Bool-cases (cleared old == cleared updated)) [
      | inr differs ↦ let h' = rw differs at h in cc
      | inl agree ↦
          let same = ==_sound (cleared old) (cleared updated) agree in
          (
            ap (λ (o : Unstructured Status Time Details Rest). o.rest) same,
            sym (details_of-remove_time old.managed_fields)
                ∙ ap (λ (o : Unstructured Status Time Details Rest). details_of o.managed_fields)
                    same
                ∙ details_of-remove_time updated.managed_fields,
          )
    ]

    from :
        (old.rest ≡ updated.rest)
          × (details_of old.managed_fields ≡ details_of updated.managed_fields)
        → dependent_update (some old) (some updated) ≡ returned false
    from (same, details) =
        let agree : cleared old ≡ cleared updated =
          cleared-shape old ∙ (λ i. shape (same i) (details i)) ∙ sym (cleared-shape updated) in
        ap (λ b. returned (if b then false else true))
          (ap (λ o. o == cleared updated) agree ∙ ==_refl (cleared updated))
