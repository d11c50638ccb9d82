-- ===== src/Conditions/Tests.antt =====
-- A store of one resource, and conditions by lists.
use operator_lib.Common.{
  String, List, [], ◌∷◌, Option, none, some, Result, ok, err, ◌≡◌, refl, ◌↔◌, ◌≢◌, if◌then◌else◌,
  ◌==◌, string_eq, ==_refl, Bool-cases, inl, inr, ==_sound, sym, ◌∙◌, ap, ==_of_ne,
}
use operator_lib.Objects.{NamespacedName}
use operator_lib.Conditions.Package
use operator_lib.Conditions.{
  StatusCondition, OperatorCondition, Client, Meta, Condition, apply_options, bare, get, set,
  with_condition, with_reason, get_namespaced_name, get_condition_name, new_condition,
}
use operator_lib.Conditions.SetGet.{SetsConditions, Stores, get-set}
use operator_lib.Conditions.Factory.{Makes, name_of, new_condition_iff}
use operator_lib.Conditions.History.{Call, last_written, set_all, get-set_all}

abbrev find : List StatusCondition → String → Option StatusCondition
find [] type = none
find (c ∷ cs) type = if c.type == type then some c else find cs type

abbrev put : List StatusCondition → StatusCondition → List StatusCondition
put [] new = new ∷ []
put (c ∷ cs) new = if c.type == new.type then new ∷ cs else c ∷ put cs new

abbrev by_lists : Meta
by_lists = record { find_status_condition = find; set_status_condition = put }

find-put : (cs : List StatusCondition) (c : StatusCondition) → find (put cs c) c.type ≡ some c
find-put [] c = rw (==_refl c.type) refl
find-put (d ∷ cs) c = elim (Bool-cases (d.type == c.type)) [
  | inl same ↦ rw (same, ==_refl c.type) refl
  | inr differs ↦ rw (differs, differs) (find-put cs c)
]

find-put_ne :
    (cs : List StatusCondition) (c : StatusCondition) (type : String)
    → type ≢ c.type
    → find (put cs c) type ≡ find cs type
find-put_ne [] c type h = rw (==_of_ne c.type type (λ e. h (sym e))) refl
find-put_ne (d ∷ cs) c type h = elim (Bool-cases (d.type == c.type)) [
  | inl same ↦ rw same (
      rw
        (
          ==_of_ne c.type type (λ e. h (sym e)),
          ==_of_ne d.type type (λ e. h (sym e ∙ ==_sound d.type c.type same)),
        )
        refl)
  | inr differs ↦
      rw differs (ap (λ r. if d.type == type then some d else r) (find-put_ne cs c type h))
]

by_lists-SetsConditions : SetsConditions by_lists
by_lists-SetsConditions = record { find-set = find-put; find-set_ne = find-put_ne }

-- The world is the one resource that there is, if there is one.
abbrev read : NamespacedName → Option OperatorCondition → Result String OperatorCondition
read key none = err "not found"
read key (some o) =
    if o.key.name == key.name
    then (if o.key.namespace == key.namespace then ok o else err "not found")
    else err "not found"

abbrev store : Client (Option OperatorCondition) String
store = record { get = read; update = λ o w. (some o, none) }

read_key :
    (key : NamespacedName) (w : Option OperatorCondition) (o : OperatorCondition)
    → read key w ≡ ok o
    → o.key ≡ key
read_key key none o h = cc
read_key key (some p) o h = elim (Bool-cases (p.key.name == key.name)) [
  | inr differs ↦ let h' = rw differs at h in cc
  | inl same_name ↦ elim (Bool-cases (p.key.namespace == key.namespace)) [
    | inr differs ↦ let h' = rw (same_name, differs) at h in cc
    | inl same_namespace ↦
        let h' = rw (same_name, same_namespace) at h in
        let found : p ≡ o = cc in
        let name = ==_sound p.key.name key.name same_name in
        let ns = ==_sound p.key.namespace key.namespace same_namespace in
        ap (λ (q : OperatorCondition). q.key) (sym found)
        ∙ (λ i. record { namespace = ns i; name = name i })
  ]
]

read_update : (o : OperatorCondition) → read o.key (some o) ≡ ok o
read_update o = rw (==_refl o.key.name, ==_refl o.key.namespace) refl

store-Stores : Stores store
store-Stores = record {
  get-key = read_key;
  get-update = λ o w w' h.
      ap (λ (r : Option OperatorCondition × Option String). read o.key r.0) (sym h) ∙ read_update o;
}

abbrev operator : NamespacedName
operator = record { namespace = "ns"; name = "op" }

abbrev condition_of : String → Condition (Option OperatorCondition) String
condition_of type = record { namespaced_name = operator; cond_type = type; client = store }

abbrev stored : String → OperatorCondition
stored status = record {
  key = operator;
  conditions =
      bare "Bar" "True"
      ∷ record { type = "Foo"; status = status; reason = "why"; message = "" }
      ∷ [];
}

foo_is_set :
    get by_lists (condition_of "Foo") (some (stored "False"))
    ≡ ok (record { type = "Foo"; status = "False"; reason = "why"; message = "" })
unfolding get set with_condition with_reason apply_options
foo_is_set =
    get-set by_lists (condition_of "Foo") "False" (with_reason "why" ∷ []) (some (stored "True"))
      (some (stored "False")) by_lists-SetsConditions store-Stores refl refl

made_in_cluster : (t : String) → new_condition store "op" (ok "ns") t ≡ ok (condition_of t)
unfolding new_condition get_namespaced_name get_condition_name
made_in_cluster t = refl

abbrev calls : List Call
calls =
    record { type = "Foo"; status = "True"; options = [] }
    ∷ record { type = "Foo"; status = "False"; options = with_reason "why" ∷ [] }
    ∷ record { type = "Bar"; status = "True"; options = [] }
    ∷ []

abbrev empty : OperatorCondition
empty = record { key = operator; conditions = [] }

abbrev filled : OperatorCondition
filled = record {
  key = operator;
  conditions =
      record { type = "Foo"; status = "False"; reason = "why"; message = "" }
      ∷ bare "Bar" "True"
      ∷ [];
}

get-set_all_example :
    get by_lists (condition_of "Foo") (some filled)
    ≡ ok (record { type = "Foo"; status = "False"; reason = "why"; message = "" })
unfolding get set with_condition with_reason apply_options last_written set_all
get-set_all_example =
    get-set_all by_lists store "op" (ok "ns") condition_of "Foo" calls (some empty) (some filled)
      made_in_cluster by_lists-SetsConditions store-Stores (refl, (refl, (refl, tt))) refl

new_condition_iff_example :
    ((Package.new_condition store "op" (ok "ns\n") "Foo" ≡ ok (condition_of "Foo"))
      ↔ Makes store "op" (ok "ns\n") "Foo" (ok (condition_of "Foo")))
    × (Package.new_condition store "op" (ok "ns\n") "Foo" ≡ ok (condition_of "Foo")
        → Package.get_namespaced_name "op" (ok "ns\n") ≡ name_of (ok (condition_of "Foo")))
new_condition_iff_example = new_condition_iff store "op" (ok "ns\n") "Foo" (ok (condition_of "Foo"))
