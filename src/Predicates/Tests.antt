-- ===== src/Predicates/Tests.antt =====
-- Updates of two small objects.
use operator_lib.Common.{
  not, ◌||◌, ◌≢◌, ℕ, String, Bool, true, false, [], ◌∷◌, some, returned, Eq, string_eq, nat_eq,
  ◌==◌, ◌&&◌, ◌≡◌, refl, ◌↔◌, arith,
}
use operator_lib.Common.Equality.{option_beq, option_beq_iff, option_eq, list_beq, list_eq}
use operator_lib.Annotation.{update}
use operator_lib.Predicates.Events.{Answers, dependent_iff, or_generation_changed_iff}
use operator_lib.Predicates.{
  dependent, no_generation_update, ManagedFieldsEntry, Unstructured, append_without_time,
  remove_time_from_managed_fields, cleared, dependent_update,
}

abbrev Entry : Type 0
Entry = ManagedFieldsEntry ℕ String

abbrev Content : Type 0
Content = Unstructured ℕ ℕ String String

entry_beq : Entry → Entry → Bool
entry_beq a b = a.time == b.time && a.details == b.details

entry_beq_iff : (a b : Entry) → (entry_beq a b ≡ true) ↔ (a ≡ b)
unfolding entry_beq
entry_beq_iff a b =
    ground (arith, option_beq_iff a.time b.time, string_eq.beq_iff a.details b.details)

instance abbrev entry_eq : Eq Entry
entry_eq = record { beq = entry_beq; beq_iff = entry_beq_iff }

content_beq : Content → Content → Bool
content_beq a b =
    (a.status == b.status && a.resource_version == b.resource_version)
    && (a.managed_fields == b.managed_fields && a.rest == b.rest)

content_beq_iff : (a b : Content) → (content_beq a b ≡ true) ↔ (a ≡ b)
unfolding content_beq
content_beq_iff a b = ground (
  arith,
  option_beq_iff a.status b.status,
  string_eq.beq_iff a.resource_version b.resource_version,
  option_beq_iff a.managed_fields b.managed_fields,
  string_eq.beq_iff a.rest b.rest,
)

instance abbrev content_eq : Eq Content
content_eq = record { beq = content_beq; beq_iff = content_beq_iff }

abbrev content : ℕ → String → ℕ → String → Content
content status version time rest = record {
  status = some status;
  resource_version = version;
  managed_fields = some (record { time = some time; details = "kubectl" } ∷ []);
  rest = rest;
}

updates :
    (dependent_update (some (content 1 "v" 3 "spec")) (some (content 2 "w" 4 "spec"))
      ≡ returned false)
    × (dependent_update (some (content 1 "v" 3 "spec")) (some (content 1 "w" 3 "other"))
        ≡ returned true)
unfolding dependent_update cleared remove_time_from_managed_fields append_without_time content_beq
    entry_beq list_beq option_beq
updates = (refl, refl)

dependent_iff_example :
    (dependent (update (some (content 1 "v" 3 "spec")) (some (content 2 "w" 4 "spec")))
      ≡ returned false)
    ↔ Answers
        (update (some (content 1 "v" 3 "spec")) (some (content 2 "w" 4 "spec")))
        (returned false)
dependent_iff_example =
    dependent_iff (update (some (content 1 "v" 3 "spec")) (some (content 2 "w" 4 "spec")))
      (returned false)

-- Objects that are their generations.
abbrev generation_differs : ℕ → ℕ → Bool
generation_differs a b = not (a == b)

or_generation_changed_iff_example :
    ((generation_differs 0 0 || no_generation_update (λ (n : ℕ). n) (some 0) (some 0)) ≡ false)
    ↔ ((◌≡◌ {A = ℕ} 0 0) × (◌≢◌ {A = ℕ} 0 0))
or_generation_changed_iff_example =
    or_generation_changed_iff (λ (n : ℕ). n) generation_differs 0 0 (λ a b. refl)
