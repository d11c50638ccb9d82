-- ===== src/Instrumented/Tests.antt =====
-- A vector of gauges that is a function of the labels.
use operator_lib.Common.{
  some_inj, ℕ, ◌≡◌, ◌≢◌, refl, sym, ap, ◌∙◌, String, List, [], ◌∷◌, Option, none, some, returned,
  if◌then◌else◌, ◌==◌, ==_refl, ==_of_ne, string_eq,
}
use operator_lib.Common.Equality.{list_eq, pair_eq}
use operator_lib.Common.Int.{ℤ, pos}
use operator_lib.Objects.{name_beq, gvk_beq}
use operator_lib.Annotation.{Event, create, update, delete, EventHandler}
use operator_lib.Instrumented.{Labels, Object, GaugeVec, resource_created_at_labels}
use operator_lib.Instrumented.Gauges.{
  KeepsGauges, Resource, labels_of, known_after, known, seen, handle_all, enqueue_all,
  handle_all-known, resource_of, resource_beq,
}

abbrev Shown : Type 0
Shown = Labels → Option ℤ

abbrev or_zero : Option ℤ → ℤ
or_zero none = pos 0
or_zero (some v) = v

abbrev put : Labels → Option ℤ → Shown → Shown
put labels v s other = if other == labels then v else s other

-- A gauge is its labels.
abbrev by_function : GaugeVec Shown Labels
by_function = record {
  get_metric_with = λ labels s. (put labels (some (or_zero (s labels))) s, some labels);
  set = λ labels v s. put labels (some v) s;
  delete_labels = λ labels s. put labels none s;
}

put_self : (labels : Labels) (v : Option ℤ) (s : Shown) → put labels v s labels ≡ v
put_self labels v s = rw (==_refl labels) refl

put_ne :
    (labels other : Labels) (v : Option ℤ) (s : Shown)
    → labels ≢ other
    → put labels v s other ≡ s other
put_ne labels other v s h = rw (==_of_ne other labels (λ e. h (sym e))) refl

by_function-set :
    (labels : Labels) (s : Shown) (m : Labels) (v : ℤ)
    → labels ≡ m
    → put m (some v) (put labels (some (or_zero (s labels))) s) labels ≡ some v
by_function-set labels s m v is = rw is (put_self m (some v) (put m (some (or_zero (s m))) s))

by_function-set_ne :
    (labels other : Labels) (s : Shown) (m : Labels) (v : ℤ)
    → labels ≡ m
    → labels ≢ other
    → put m (some v) (put labels (some (or_zero (s labels))) s) other ≡ s other
by_function-set_ne labels other s m v is h =
    ap (λ l. put l (some v) (put labels (some (or_zero (s labels))) s) other) (sym is)
    ∙ put_ne labels other (some v) (put labels (some (or_zero (s labels))) s) h
    ∙ put_ne labels other (some (or_zero (s labels))) s h

by_function-KeepsGauges : KeepsGauges by_function resource_created_at_labels (λ labels s. s labels)
by_function-KeepsGauges = record {
  found = λ labels s named. (labels, refl);
  set = λ labels s m v is. by_function-set labels s m v (some_inj is);
  set_ne = λ labels other s m v is h. by_function-set_ne labels other s m v (some_inj is) h;
  deleted = λ labels s. put_self labels none s;
  deleted_ne = λ labels other s h. put_ne labels other none s h;
}

abbrev object : String → ℕ → Object
object name t = record {
  key = record { namespace = "ns"; name = name };
  group_version_kind = record { group = "apps"; version = "v1"; kind = "Deployment" };
  creation_timestamp = t;
}

-- A queue that is the list of the events.
abbrev collect : EventHandler Object (List (Event Object))
collect e q = e ∷ q

abbrev events : List (Event Object)
events =
    create (some (object "a" 62_135_596_801_000_000_000))
    ∷ create (some (object "b" 62_135_596_802_500_000_000))
    ∷ delete (some (object "a" 62_135_596_801_000_000_000))
    ∷ update none (some (object "b" 62_135_596_803_000_000_000))
    ∷ []

knows :
    (known_after (resource_of (object "a" 0)) events none ≡ none)
    × (known_after (resource_of (object "b" 0)) events none ≡ some (pos 3))
unfolding known_after known seen resource_beq gvk_beq name_beq
knows = (refl, refl)

handle_all-known_example :
    (s : Shown) × (handle_all by_function collect events (λ _. none, [])
      ≡ returned (s, enqueue_all collect events []))
    × ((r : Resource) → s (labels_of r) ≡ known_after r events none)
handle_all-known_example =
    handle_all-known by_function collect (λ labels s. s labels) events (λ _. none) []
      by_function-KeepsGauges
