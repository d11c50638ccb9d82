-- ===== src/Annotation/Tests.antt =====
-- Decisions of the filters on concrete events, and the theorems at concrete inputs. An object is its
-- annotations, and the queue is the list of the events that were enqueued.
use operator_lib.Common.{
  String, Bool, true, false, not, ◌≡◌, refl, ◌↔◌, List, [], ◌∷◌, Option, none, some, ok,
  if◌then◌else◌, string_eq,
}
use operator_lib.Common.Maps.{lookup}
use operator_lib.Annotation.{
  parse_bool, Event, create, update, EventHandler, Filter, Annotations, judge, run, passes, handle,
  new_filter, new_falsy_predicate, new_truthy_predicate, new_event_handler, new_falsy_event_handler,
  new_pause_predicate, new_pause_handler, validate_annotation,
}
use operator_lib.Annotation.Decision.{
  ShowsTruthy, new_truthy_predicate_iff, new_pause_handler-passes,
}

abbrev Queue : Type 0
Queue = List (Event Annotations)

abbrev identity : Annotations → Annotations
identity a = a

abbrev all_valid : Annotations → Option String
all_valid a = none

abbrev push : EventHandler Annotations Queue
push e q = e ∷ q

abbrev filter_of : Bool → Filter Annotations Queue
filter_of truthy = record { key = "paused"; ret = not truthy; hdlr = none }

abbrev paused : Annotations
paused = ("paused", "true") ∷ []

abbrev odd_value : Annotations
odd_value = ("paused", "maybe") ∷ []

annotation : Unit {0}
unfolding passes run judge lookup parse_bool handle new_filter new_falsy_predicate
    new_truthy_predicate new_event_handler new_falsy_event_handler new_pause_predicate
    new_pause_handler validate_annotation
annotation = tt

decisions :
    ((passes identity (filter_of false) (create (some paused))).0 ≡ false)
    × ((passes identity (filter_of true) (create (some paused))).0 ≡ true)
    × ((passes identity (filter_of false) (create (some odd_value))).0 ≡ true)
    × ((passes identity (filter_of true) (update (some paused) (some []))).0 ≡ false)
    × ((passes identity (filter_of true) (update (some paused) none)).0 ≡ true)
unfolding annotation
decisions = (refl, refl, refl, refl, refl)

made :
    (truthy : Bool)
    → new_filter all_valid {T = Annotations} {Q = Queue} "paused" (record { truthy = truthy })
      ≡ ok (filter_of truthy)
unfolding annotation
made truthy = refl

new_truthy_predicate_iff_example :
    ((passes identity (filter_of true) (create (some paused))).0 ≡ true)
    ↔ ShowsTruthy identity "paused" (create (some paused))
unfolding new_truthy_predicate
new_truthy_predicate_iff_example =
    new_truthy_predicate_iff identity all_valid "paused" (record { truthy = false })
      (filter_of true) (create (some paused)) (made true)

abbrev none_valid : Annotations → Option String
none_valid a = some "invalid"

new_pause_handler-passes_example :
    handle identity
      (record { key = "paused"; ret = true; hdlr = some push })
      push
      (create (some paused))
      []
    ≡ (if (passes identity (filter_of false) (create (some paused))).0
        then create (some paused) ∷ []
        else [])
unfolding annotation
new_pause_handler-passes_example =
    new_pause_handler-passes identity all_valid push "paused" (filter_of false)
      (handle identity (record { key = "paused"; ret = true; hdlr = some push }) push)
      (create (some paused)) [] refl refl
