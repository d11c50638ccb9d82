-- ===== src/Annotation/Decision.antt =====
-- Which events the predicates and handlers pass.
use operator_lib.Common.{
  String, suc-==-zero, Bool, true, false, not, ◌≡◌, refl, sym, ◌∙◌, ◌↔◌, [], ◌∷◌, Option, none,
  some, ok, err, length, if◌then◌else◌, ◌==◌, nat_eq, string_eq, ap, Option-cases, Result-cases,
  inl, inr,
}
use mathlib.Core.Option.{some-injective}
use operator_lib.Common.Maps.{lookup}
use operator_lib.Annotation.{
  parse_bool, Event, create, update, delete, generic, EventHandler, Options, Filter, Annotations,
  judge, look, run, passes, handle, new_filter, new_falsy_predicate, new_truthy_predicate,
  new_event_handler, new_falsy_event_handler, validate_annotation, new_pause_handler,
  new_pause_predicate,
}

-- The object that an event is judged by: the new one of an update, if there is one.
abbrev pub subject : {T : Type 0} → Event T → Option T
subject (create o) = o
subject (delete o) = o
subject (generic o) = o
subject (update old none) = old
subject (update old (some new)) = some new

not-not : (b : Bool) → not (not b) ≡ b
not-not true = refl
not-not false = refl

abbrev parsed_true : Option Bool → Bool
parsed_true none = false
parsed_true (some b) = b

abbrev value_true : Option String → Bool
value_true none = false
value_true (some v) = parsed_true (parse_bool v)

parsed_true_iff : (o : Option Bool) → (parsed_true o ≡ true) ↔ (o ≡ some true)
parsed_true_iff none = (λ h. cc, λ h. cc)
parsed_true_iff (some b) = (λ h. ap some h, λ h. cc)

value_true_iff :
    (o : Option String)
    → (value_true o ≡ true) ↔ ((v : String) × (o ≡ some v) × (parse_bool v ≡ some true))
value_true_iff none = (λ h. cc, λ (v, e, p). cc)
value_true_iff (some v) = (
  λ h. (v, refl, (parsed_true_iff (parse_bool v)).0 h),
  λ (w, e, p). rw (some-injective _ _ e) ((parsed_true_iff (parse_bool w)).1 p),
)

module _ {T : Type 0} (get_annotations : T → Annotations) (key : String) where
  -- The object has the annotation, and its value parses as true.
  abbrev pub IsTruthy : T → Type 0
  IsTruthy o = (v : String) × (lookup key (get_annotations o) ≡ some v) × (parse_bool v ≡ some true)

  -- The event has an object, and the object that it is judged by is truthy.
  abbrev pub ShowsTruthy : Event T → Type 0
  ShowsTruthy e = (o : T) × (subject e ≡ some o) × IsTruthy o

  abbrev is_truthy : T → Bool
  is_truthy o = value_true (lookup key (get_annotations o))

  abbrev shows_truthy : Option T → Bool
  shows_truthy none = false
  shows_truthy (some o) = is_truthy o

  shows_truthy_iff :
      (s : Option T) → (shows_truthy s ≡ true) ↔ ((o : T) × (s ≡ some o) × IsTruthy o)
  shows_truthy_iff none = (λ h. cc, λ (o, e, t). cc)
  shows_truthy_iff (some o) = (
    λ h. (o, refl, (value_true_iff (lookup key (get_annotations o))).0 h),
    λ (o', e, t).
        rw (some-injective _ _ e) ((value_true_iff (lookup key (get_annotations o'))).1 t),
  )

module _ {T Q : Type 0} (get_annotations : T → Annotations) (f : Filter T Q) where
  judge-ret :
      (v : String) (o : Option Bool)
      → (judge get_annotations f v o).0 ≡ (if parsed_true o then not f.ret else f.ret)
  unfolding judge
  judge-ret v none = refl
  judge-ret v (some true) = refl
  judge-ret v (some false) = refl

  look-ret :
      (o : Option String)
      → (look get_annotations f o).0 ≡ (if value_true o then not f.ret else f.ret)
  look-ret none = refl
  look-ret (some v) = judge-ret v (parse_bool v)

  found-ret :
      (m : Annotations)
      → (if length m == 0 then (f.ret, []) else look get_annotations f (lookup f.key m)).0
        ≡ (if value_true (lookup f.key m) then not f.ret else f.ret)
  unfolding lookup
  found-ret [] = refl
  found-ret (a ∷ m) = rw (suc-==-zero (length m)) (look-ret (lookup f.key (a ∷ m)))

  run-ret :
      (o : T)
      → (run get_annotations f o).0
        ≡ (if is_truthy get_annotations f.key o then not f.ret else f.ret)
  unfolding run
  run-ret o = found-ret (get_annotations o)

  passes-ret :
      (e : Event T)
      → (passes get_annotations f e).0
        ≡ (if shows_truthy get_annotations f.key (subject e) then not f.ret else f.ret)
  unfolding passes
  passes-ret (create none) = refl
  passes-ret (create (some o)) = run-ret o
  passes-ret (delete none) = refl
  passes-ret (delete (some o)) = run-ret o
  passes-ret (generic none) = refl
  passes-ret (generic (some o)) = run-ret o
  passes-ret (update none none) = refl
  passes-ret (update (some o) none) = run-ret o
  passes-ret (update old (some o)) = run-ret o

if_self : (b : Bool) → (if b then true else false) ≡ b
if_self true = refl
if_self false = refl

if_not : (b : Bool) → (if b then false else true) ≡ not b
if_not true = refl
if_not false = refl

module _ {T Q E : Type 0} (validate : Annotations → Option E) (key : String) (opts : Options)
    (f : Filter T Q) where
  pub new_filter-fields :
      new_filter validate key opts ≡ ok f
      → f ≡ record { key = key; ret = not opts.truthy; hdlr = none }
  unfolding new_filter
  new_filter-fields made = elim (Option-cases (validate_annotation validate key opts.truthy)) [
    | inl valid ↦ let made' = rw (valid, new_filter) at made in cc
    | inr (e, invalid) ↦ let made' = rw (invalid, new_filter) at made in cc
  ]

  -- Whether an event passes, by what the filter was made from.
  made-passes :
      (get_annotations : T → Annotations)
      → new_filter validate key opts ≡ ok f
      → (e : Event T)
      → (passes get_annotations f e).0
        ≡ (if shows_truthy get_annotations key (subject e) then opts.truthy else not opts.truthy)
  made-passes get_annotations made e =
      let fields = new_filter-fields made in
      passes-ret get_annotations f e
      ∙ ap
          (λ (g : Filter T Q).
            if shows_truthy get_annotations g.key (subject e) then not g.ret else g.ret)
          fields
      ∙ ap (λ b. if shows_truthy get_annotations key (subject e) then b else not opts.truthy)
          (not-not opts.truthy)

-- A truthy predicate passes an event exactly if the object that it is judged by has the annotation
-- with a value that parses as true.
pub new_truthy_predicate_iff :
    {T Q E : Type 0} (get_annotations : T → Annotations) (validate : Annotations → Option E)
    (key : String) (opts : Options) (f : Filter T Q) (e : Event T)
    → new_truthy_predicate validate key opts ≡ ok f
    → ((passes get_annotations f e).0 ≡ true) ↔ ShowsTruthy get_annotations key e
unfolding new_truthy_predicate
new_truthy_predicate_iff get_annotations validate key opts f e made =
    let passed =
      made-passes validate key (record { truthy = true }) f get_annotations made e
      ∙ if_self (shows_truthy get_annotations key (subject e)) in
    let (to, from) = shows_truthy_iff get_annotations key (subject e) in
    (λ p. to (sym passed ∙ p), λ t. passed ∙ from t)

-- A falsy predicate passes an event exactly if the truthy predicate for the same key stops it.
pub falsy-not_truthy :
    {T Q E : Type 0} (get_annotations : T → Annotations) (validate : Annotations → Option E)
    (key : String) (opts opts' : Options) (f g : Filter T Q) (e : Event T)
    → new_falsy_predicate validate key opts ≡ ok f
    → new_truthy_predicate validate key opts' ≡ ok g
    → (passes get_annotations f e).0 ≡ not (passes get_annotations g e).0
unfolding new_falsy_predicate new_truthy_predicate
falsy-not_truthy get_annotations validate key opts opts' f g e made made' =
    let shown = shows_truthy get_annotations key (subject e) in
    let falsy = made-passes validate key (record { truthy = false }) f get_annotations made e in
    let truthy = made-passes validate key (record { truthy = true }) g get_annotations made' e in
    falsy ∙ if_not shown ∙ ap not (sym (truthy ∙ if_self shown))

-- An event handler cannot be made exactly where the predicate cannot, with the same error.
pub new_event_handler-error :
    {T Q E : Type 0} (get_annotations : T → Annotations) (validate : Annotations → Option E)
    (enqueue : EventHandler T Q) (key : String) (opts : Options) (e : E)
    → (new_event_handler validate get_annotations enqueue key opts ≡ err e)
      ↔ (new_filter validate {T = T} {Q = Q} key opts ≡ err e)
unfolding new_event_handler
new_event_handler-error {T} {Q} get_annotations validate enqueue key opts e =
    elim (Result-cases (new_filter validate {T = T} {Q = Q} key opts)) [
      | inl (f, good) ↦ rw (good, new_event_handler) (λ h. cc, λ h. cc)
      | inr (e', bad) ↦ rw (bad, new_event_handler) (λ h. cc, λ h. cc)
    ]

-- A handler that pauses gives an event to `EnqueueRequestForObject` exactly if the predicate that
-- pauses, for the same key, passes it; else it leaves the queue.
pub new_pause_handler-passes :
    {T Q E : Type 0} (get_annotations : T → Annotations) (validate : Annotations → Option E)
    (enqueue : EventHandler T Q) (key : String) (f : Filter T Q) (h : EventHandler T Q)
    (e : Event T) (q : Q)
    → new_pause_predicate validate key ≡ ok f
    → new_pause_handler validate get_annotations enqueue key ≡ ok h
    → h e q ≡ (if (passes get_annotations f e).0 then enqueue e q else q)
unfolding new_pause_predicate new_pause_handler new_falsy_predicate new_falsy_event_handler
    new_event_handler handle
new_pause_handler-passes {T} {Q} get_annotations validate enqueue key f h e q made made' =
    let made_of = rw (made, new_event_handler) at made' in
    let is_h : h ≡ handle get_annotations (record f { hdlr = some enqueue }) enqueue = cc in
    ap (λ (k : EventHandler T Q). k e q) is_h
    ∙ ap (λ b. if b then enqueue e q else q)
        (passes-ret get_annotations (record f { hdlr = some enqueue }) e
          ∙ sym (passes-ret get_annotations f e))
