-- ===== src/Annotation.antt =====
-- internal/annotation/filter.go, handler/pause.go and predicate/pause.go: predicates and event
-- handlers that pass or stop an object by a Boolean annotation.
pub mod Decision
mod Tests
use operator_lib.Common.{
  ℕ, String, Bool, true, false, not, List, [], ◌∷◌, Option, none, some, Result, ok, err, length,
  if◌then◌else◌, ◌==◌, nat_eq, string_eq,
}
use operator_lib.Common.Maps.{lookup}

-- `strconv.ParseBool`; `none` is its error
unfoldable pub parse_bool : String → Option Bool
parse_bool s =
    if s == "1"
    then some true
    else if s == "t"
    then some true
    else if s == "T"
    then some true
    else if s == "TRUE"
    then some true
    else if s == "true"
    then some true
    else if s == "True"
    then some true
    else if s == "0"
    then some false
    else if s == "f"
    then some false
    else if s == "F"
    then some false
    else if s == "FALSE"
    then some false
    else if s == "false"
    then some false
    else if s == "False"
    then some false
    else none

-- The typed events of controller-runtime; a nil object is `none`.
pub data Event (T : Type 0) : Type 0 where
  create delete generic : Option T → Event T
  update : (old new : Option T) → Event T

-- What the filter logs as an error.
pub data LogEntry : Type 0 where
  no_object no_metadata : LogEntry
  bad_value : (key value : String) → LogEntry

-- An event handler, which may add to a queue `Q`.
abbrev pub EventHandler : Type 0 → Type 0 → Type 0
EventHandler T Q = Event T → Q → Q

-- `Options`, less the logger
pub record Options : Type 0 where
  pub truthy : Bool

-- `filter`, less the logger
pub record Filter (T Q : Type 0) : Type 0 where
  pub key : String
  pub ret : Bool
  pub hdlr : Option (EventHandler T Q)

abbrev pub Annotations : Type 0
Annotations = List (String × String)

abbrev pub bool_eq : Bool → Bool → Bool
bool_eq true b = b
bool_eq false b = not b

abbrev pub is_nil : {A : Type 0} → Option A → Bool
is_nil none = true
is_nil (some _) = false

-- `obj.GetAnnotations()` is a parameter, since an object is of any type.
module _ {T Q : Type 0} (get_annotations : T → Annotations) where
  -- from the value of the annotation on
  unfoldable pub judge : Filter T Q → String → Option Bool → Bool × List LogEntry
  judge f value none = (f.ret, bad_value f.key value ∷ [])
  judge f value (some anno_bool) = (bool_eq (not anno_bool) f.ret, [])

  abbrev pub look : Filter T Q → Option String → Bool × List LogEntry
  look f none = (f.ret, [])
  look f (some value) = judge f value (parse_bool value)

  -- `filter.run`
  unfoldable pub run : Filter T Q → T → Bool × List LogEntry
  unfolding judge
  run f obj =
      let annotations = get_annotations obj in
      if length annotations == 0 then (f.ret, []) else look f (lookup f.key annotations)

  abbrev pub silent_in_handler : Filter T Q → List LogEntry
  silent_in_handler f = if is_nil f.hdlr then no_metadata ∷ [] else []

  -- `Create`, `Update`, `Delete` and `Generic`: whether the event passes, and what is logged
  unfoldable pub passes : Filter T Q → Event T → Bool × List LogEntry
  passes f (create none) = (f.ret, no_object ∷ [])
  passes f (create (some obj)) = run f obj
  passes f (update old (some new)) = run f new
  passes f (update (some old) none) = run f old
  passes f (update none none) = (f.ret, silent_in_handler f)
  passes f (delete none) = (f.ret, silent_in_handler f)
  passes f (delete (some obj)) = run f obj
  passes f (generic none) = (f.ret, silent_in_handler f)
  passes f (generic (some obj)) = run f obj

  -- The handler funcs of `newEventHandler`; what is logged is left out.
  unfoldable pub handle : Filter T Q → EventHandler T Q → EventHandler T Q
  handle f hdlr evt q = if (passes f evt).0 then hdlr evt q else q

-- `fmt.Sprintf("%v", b)`
abbrev pub format_bool : Bool → String
format_bool true = "true"
format_bool false = "false"

-- `validation.ValidateAnnotations` is a parameter; its nil error is `none`.
module _ {E : Type 0} (validate_annotations : Annotations → Option E) where
  unfoldable pub validate_annotation : String → Bool → Option E
  validate_annotation key truthy = validate_annotations ((key, format_bool truthy) ∷ [])

  module _ {T Q : Type 0} where
    -- `newFilter`
    unfoldable pub new_filter : String → Options → Result E (Filter T Q)
    new_filter key opts = elim (validate_annotation key opts.truthy) [
      | some e ↦ err e
      | none ↦ ok (record { key = key; ret = not opts.truthy; hdlr = none })
    ]

    unfoldable pub new_falsy_predicate : String → Options → Result E (Filter T Q)
    new_falsy_predicate key opts = new_filter key (record opts { truthy = false })

    unfoldable pub new_truthy_predicate : String → Options → Result E (Filter T Q)
    new_truthy_predicate key opts = new_filter key (record opts { truthy = true })

    -- `predicate.NewPause`
    unfoldable pub new_pause_predicate : String → Result E (Filter T Q)
    new_pause_predicate key = new_falsy_predicate key (record { truthy = false })

    -- `EnqueueRequestForObject` of controller-runtime is a parameter.
    module _ (get_annotations : T → Annotations) (enqueue : EventHandler T Q) where
      -- `newEventHandler`
      unfoldable pub new_event_handler : String → Options → Result E (EventHandler T Q)
      new_event_handler key opts = elim (new_filter key opts) [
        | err e ↦ err e
        | ok f ↦ ok (handle get_annotations (record f { hdlr = some enqueue }) enqueue)
      ]

      unfoldable pub new_falsy_event_handler : String → Options → Result E (EventHandler T Q)
      new_falsy_event_handler key opts = new_event_handler key (record opts { truthy = false })

      unfoldable pub new_truthy_event_handler : String → Options → Result E (EventHandler T Q)
      new_truthy_event_handler key opts = new_event_handler key (record opts { truthy = true })

      -- `handler.NewPause`
      unfoldable pub new_pause_handler : String → Result E (EventHandler T Q)
      new_pause_handler key = new_falsy_event_handler key (record { truthy = false })
