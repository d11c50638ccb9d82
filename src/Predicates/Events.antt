-- ===== src/Predicates/Events.antt =====
-- Which events the two predicates pass.
use operator_lib.Common.{
  ℕ, Bool, true, false, not, ◌&&◌, ◌||◌, Option, none, some, Outcome, returned, panicked, Eq,
  nat_eq, ◌==◌, ◌≡◌, ◌≢◌, refl, sym, ◌∙◌, ◌↔◌, arith, Bool-cases, inl, inr, if◌then◌else◌,
  returned_inj,
}
use mathlib.Core.Bool.{false≢true}
use mathlib.Core.Path.{subst}
use operator_lib.Annotation.{Event, create, update, delete, generic}
use operator_lib.Predicates.{
  no_generation_update, Unstructured, cleared, dependent, dependent_create, dependent_delete,
  dependent_generic, dependent_update,
}
use operator_lib.Predicates.Updates.{details_of, dependent_update_iff}

module _ {Status Time Details Rest : Type 0} ⦃e : Eq (Unstructured Status Time Details Rest)⦄ where
  -- The objects agree in all but the status, the resource version and the times of the managed fields.
  abbrev pub Agree :
      Unstructured Status Time Details Rest → Unstructured Status Time Details Rest → Type 0
  Agree old updated =
      (old.rest ≡ updated.rest)
      × (details_of old.managed_fields ≡ details_of updated.managed_fields)

  -- What the predicate says of each event.
  pub data Answers : Event (Unstructured Status Time Details Rest) → Outcome Bool → Type 0 where
    created :
        (o : Unstructured Status Time Details Rest) → Answers (create (some o)) (returned false)
    deleted :
        (o : Unstructured Status Time Details Rest) → Answers (delete (some o)) (returned true)
    generic_event :
        (o : Unstructured Status Time Details Rest) → Answers (generic (some o)) (returned false)
    unchanged :
        (old updated : Unstructured Status Time Details Rest)
        → Agree old updated
        → Answers (update (some old) (some updated)) (returned false)
    changed :
        (old updated : Unstructured Status Time Details Rest)
        → ¬ Agree old updated
        → Answers (update (some old) (some updated)) (returned true)
    nothing_created : Answers (create none) panicked
    nothing_deleted : Answers (delete none) panicked
    nothing_generic : Answers (generic none) panicked
    nothing_old :
        (updated : Option (Unstructured Status Time Details Rest))
        → Answers (update none updated) panicked
    nothing_new :
        (old : Unstructured Status Time Details Rest) → Answers (update (some old) none) panicked

  update-Answers :
      (old updated : Unstructured Status Time Details Rest) (b : Bool)
      → dependent_update (some old) (some updated) ≡ returned b
      → Answers (update (some old) (some updated)) (returned b)
  update-Answers old updated true h =
      Answers.changed old updated
        (λ agree. false≢true (returned_inj (sym ((dependent_update_iff old updated).1 agree) ∙ h)))
  update-Answers old updated false h =
      Answers.unchanged old updated ((dependent_update_iff old updated).0 h)

  dependent-Answers :
      (evt : Event (Unstructured Status Time Details Rest)) → Answers evt (dependent evt)
  unfolding dependent dependent_create dependent_delete dependent_generic dependent_update
  dependent-Answers (create none) = Answers.nothing_created
  dependent-Answers (create (some o)) = Answers.created o
  dependent-Answers (delete none) = Answers.nothing_deleted
  dependent-Answers (delete (some o)) = Answers.deleted o
  dependent-Answers (generic none) = Answers.nothing_generic
  dependent-Answers (generic (some o)) = Answers.generic_event o
  dependent-Answers (update none updated) = Answers.nothing_old updated
  dependent-Answers (update (some old) none) = Answers.nothing_new old
  dependent-Answers (update (some old) (some updated)) =
      update-Answers old updated (if cleared old == cleared updated then false else true) refl

  update_changed :
      (old updated : Unstructured Status Time Details Rest)
      → ¬ Agree old updated
      → dependent_update (some old) (some updated) ≡ returned true
  unfolding dependent_update
  update_changed old updated differs = elim (Bool-cases (cleared old == cleared updated)) [
    | inr other ↦ rw other refl
    | inl same ↦
        absurd (differs ((dependent_update_iff old updated).0 (rw (dependent_update, same) refl)))
  ]

  no_old :
      (updated : Option (Unstructured Status Time Details Rest))
      → dependent_update none updated ≡ panicked
  unfolding dependent_update
  no_old updated = refl

  no_new :
      (old : Unstructured Status Time Details Rest) → dependent_update (some old) none ≡ panicked
  unfolding dependent_update
  no_new old = refl

  Answers-dependent :
      (evt : Event (Unstructured Status Time Details Rest)) (r : Outcome Bool)
      → Answers evt r
      → dependent evt ≡ r
  unfolding dependent dependent_create dependent_delete dependent_generic
  Answers-dependent evt r (Answers.created o) = refl
  Answers-dependent evt r (Answers.deleted o) = refl
  Answers-dependent evt r (Answers.generic_event o) = refl
  Answers-dependent evt r (Answers.unchanged old updated agree) =
      (dependent_update_iff old updated).1 agree
  Answers-dependent evt r (Answers.changed old updated differs) = update_changed old updated differs
  Answers-dependent evt r Answers.nothing_created = refl
  Answers-dependent evt r Answers.nothing_deleted = refl
  Answers-dependent evt r Answers.nothing_generic = refl
  Answers-dependent evt r (Answers.nothing_old updated) = no_old updated
  Answers-dependent evt r (Answers.nothing_new old) = no_new old

-- `DependentPredicate` passes every deletion, no creation and no generic event, and an update exactly
-- if the objects differ in more than the status, the resource version and the times of the managed
-- fields. It panics exactly if an object of the event is not there as an unstructured object.
pub dependent_iff :
    {Status Time Details Rest : Type 0} ⦃e : Eq (Unstructured Status Time Details Rest)⦄
    (evt : Event (Unstructured Status Time Details Rest)) (r : Outcome Bool)
    → (dependent evt ≡ r) ↔ Answers evt r
dependent_iff evt r =
    ((λ h. subst (Answers evt) h (dependent-Answers evt)), Answers-dependent evt r)

-- An update that is passed by `NoGenerationPredicate` or by the predicate of controller-runtime that
-- passes a changed generation is any but one of two objects with the same generation, which is not 0.
-- (Both objects are there.)
pub or_generation_changed_iff :
    {T : Type 0} (get_generation : T → ℕ) (generation_changed : T → T → Bool) (old new : T)
    → ((a b : T) → generation_changed a b ≡ not (get_generation a == get_generation b))
    → ((generation_changed old new || no_generation_update get_generation (some old) (some new))
        ≡ false)
      ↔ ((get_generation old ≡ get_generation new) × (get_generation new ≢ 0))
unfolding no_generation_update
or_generation_changed_iff get_generation generation_changed old new documented =
    rw (documented old new) (same_and_used (get_generation old) (get_generation new))
  where
    same_and_used : (m n : ℕ) → ((not (m == n) || (n == m && n == 0)) ≡ false) ↔ ((m ≡ n) × (n ≢ 0))
    same_and_used m n = ground arith
