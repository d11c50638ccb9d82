-- ===== src/Conditions/History.antt =====
-- Conditions that an operator makes with its factory and sets one after the other.
use operator_lib.Common.{
  ok_inj, String, false, List, [], ◌∷◌, Option, none, some, Result, ok, err, ◌≡◌, refl, sym, ap,
  ◌∙◌, ◌≢◌, inl, inr, Bool-cases, ◌==◌, string_eq, ==_sound, if◌then◌else◌,
}
use mathlib.Core.Bool.{false≢true}
use mathlib.Core.Path.{subst}
use operator_lib.Objects.{NamespacedName}
use operator_lib.Utils.{NamespaceError}
use operator_lib.Conditions.{
  StatusCondition, Client, Meta, Error, Condition, Opt, apply_options, bare, get, set, FactoryError,
  get_namespaced_name, new_condition,
}
use operator_lib.Conditions.SetGet.{SetsConditions, Stores, get-set, get-set_other}

-- a call `Set(ctx, status, options...)` of the condition of a type
pub record Call : Type 0 where
  pub type : String
  pub status : String
  pub options : List Opt

-- the condition that the call sets
abbrev pub written : Call → StatusCondition
written c = apply_options c.options (bare c.type c.status)

-- The options leave the type of the condition.
abbrev pub LeaveTypes : List Call → Type 0
LeaveTypes [] = Unit
LeaveTypes (c ∷ cs) = ((written c).type ≡ c.type) × LeaveTypes cs

-- the condition that the last of the calls for a type sets
unfoldable pub last_written : String → List Call → Option StatusCondition
last_written type [] = none
last_written type (c ∷ cs) = elim (last_written type cs) [
  | some d ↦ some d
  | none ↦ if c.type == type then some (written c) else none
]

abbrev pub or_else :
    {E : Type 0}
    → Option StatusCondition
    → Result (Error E) StatusCondition
    → Result (Error E) StatusCondition
or_else (some c) r = ok c
or_else none r = r

module _ {World E : Type 0} (library : Meta) (conds : String → Condition World E) where
  -- The calls one after the other; the first that fails is the last one made.
  unfoldable pub set_all : List Call → World → World × Option E
  set_all [] w = (w, none)
  set_all (c ∷ cs) w =
      let r = set library (conds c.type) c.status c.options w in
      elim r.1 [ none ↦ set_all cs r.0 | some e ↦ r ]

pub new_condition-fields :
    {World E : Type 0} (cl : Client World E) (env_name : String) (ns : Result NamespaceError String)
    (type : String) (c : Condition World E)
    → new_condition cl env_name ns type ≡ ok c
    → (c.client ≡ cl)
      × (c.cond_type ≡ type)
      × (get_namespaced_name env_name ns ≡ ok c.namespaced_name)
unfolding new_condition
new_condition-fields {World} {E} cl env_name ns type c h = go (get_namespaced_name env_name ns) h
  where
    go :
        (r : Result FactoryError NamespacedName)
        → ◌≡◌ {A = Result FactoryError (Condition World E)}
            (elim r [
              | err e ↦ err e
              | ok obj_key ↦
                  ok (record { namespaced_name = obj_key; cond_type = type; client = cl })
            ])
            (ok c)
        → (c.client ≡ cl) × (c.cond_type ≡ type) × (r ≡ ok c.namespaced_name)
    go (err e) h = cc
    go (ok key) h =
        let same = ok_inj h in
        (
          ap (λ (d : Condition World E). d.client) (sym same),
          ap (λ (d : Condition World E). d.cond_type) (sym same),
          ap (λ (d : Condition World E). ok d.namespaced_name) same,
        )

module _ {World E : Type 0} (library : Meta) (cl : Client World E) (env_name : String)
    (ns : Result NamespaceError String) (conds : String → Condition World E)
    (made : (type : String) → new_condition cl env_name ns type ≡ ok (conds type))
    (sets : SetsConditions library) (stores : Stores cl) where
  stored_by : (type : String) → Stores (conds type).client
  stored_by type =
      subst Stores (sym (new_condition-fields cl env_name ns type (conds type) (made type)).0)
        stores

  is_of : (type : String) → (conds type).cond_type ≡ type
  is_of type = (new_condition-fields cl env_name ns type (conds type) (made type)).1

  client_of : (type : String) → (conds type).client ≡ cl
  client_of type = (new_condition-fields cl env_name ns type (conds type) (made type)).0

  named : (type type' : String) → (conds type).namespaced_name ≡ (conds type').namespaced_name
  named type type' = ok_inj (
      sym (new_condition-fields cl env_name ns type (conds type) (made type)).2
      ∙ (new_condition-fields cl env_name ns type' (conds type') (made type')).2)

  typed :
      (c : Call)
      → (written c).type ≡ c.type
      → (apply_options c.options (bare (conds c.type).cond_type c.status)).type
        ≡ (conds c.type).cond_type
  typed c leaves =
      subst (λ t. (apply_options c.options (bare t c.status)).type ≡ t) (sym (is_of c.type)) leaves

  get-set_own :
      (c : Call) (w w' : World)
      → (written c).type ≡ c.type
      → set library (conds c.type) c.status c.options w ≡ (w', none)
      → get library (conds c.type) w' ≡ ok (written c)
  get-set_own c w w' leaves h =
      get-set library (conds c.type) c.status c.options w w' sets (stored_by c.type)
        (typed c leaves) h
      ∙ ap (λ t. ok (apply_options c.options (bare t c.status))) (is_of c.type)

  ne_of : {a b : String} → (a == b) ≡ false → a ≢ b
  ne_of {a} {b} differs e = false≢true (sym differs ∙ (string_eq.beq_iff a b).1 e)

  -- one call
  get-set_one :
      (type : String) (c : Call) (w w' : World)
      → (written c).type ≡ c.type
      → set library (conds c.type) c.status c.options w ≡ (w', none)
      → get library (conds type) w'
        ≡ or_else (if c.type == type then some (written c) else none) (get library (conds type) w)
  get-set_one type c w w' leaves h = elim (Bool-cases (c.type == type)) [
    | inl same ↦ rw same (
        ap (λ t. get library (conds t) w') (sym (==_sound c.type type same))
        ∙ get-set_own c w w' leaves h)
    | inr differs ↦ rw differs (
        get-set_other library (conds c.type) (conds type) c.status c.options w w' sets
          (stored_by c.type) (typed c leaves) (client_of type ∙ sym (client_of c.type))
          (named type c.type) (λ e. ne_of differs (sym (is_of c.type) ∙ sym e ∙ is_of type)) h)
  ]

  get-set_list :
      (type : String) (calls : List Call) (w w' : World)
      → LeaveTypes calls
      → set_all library conds calls w ≡ (w', none)
      → get library (conds type) w' ≡ or_else (last_written type calls) (get library (conds type) w)
  unfolding set_all last_written
  get-set_list type [] w w' leave h =
      ap (λ (r : World × Option E). get library (conds type) r.0) (sym h)
  get-set_list type (c ∷ cs) w w' leave h =
      go (λ w1. get-set_list type cs w1 w' leave.1)
        (set library (conds c.type) c.status c.options w) refl h
    where
      combine :
          (last own : Option StatusCondition) (r : Result (Error E) StatusCondition)
          → or_else last (or_else own r) ≡ or_else (elim last [ some d ↦ some d | none ↦ own ]) r
      combine (some d) own r = refl
      combine none own r = refl

      go :
          ((w1 : World)
            → set_all library conds cs w1 ≡ (w', none)
            → get library (conds type) w'
              ≡ or_else (last_written type cs) (get library (conds type) w1))
          → (r : World × Option E) → set library (conds c.type) c.status c.options w ≡ r
          → (elim r.1 [ none ↦ set_all library conds cs r.0 | some e ↦ r ]) ≡ (w', none)
          → get library (conds type) w'
            ≡ or_else (last_written type (c ∷ cs)) (get library (conds type) w)
      go rest (w1, some e) hr h = cc
      go rest (w1, none) hr h =
          rest w1 h
          ∙ ap (or_else (last_written type cs)) (get-set_one type c w w1 leave.0 hr)
          ∙ combine (last_written type cs) (if c.type == type then some (written c) else none)
              (get library (conds type) w)

-- After any calls of `Set`, of conditions that one factory has made, in any order and with no error,
-- a `Get` of any type of condition returns the one that the last call for this type has set, and
-- what it returned before if there is none. (The options leave the type; the functions of
-- apimachinery and the client behave as documented, and nobody else writes between.)
pub get-set_all :
    {World E : Type 0} (library : Meta) (cl : Client World E) (env_name : String)
    (ns : Result NamespaceError String) (conds : String → Condition World E) (type : String)
    (calls : List Call) (w w' : World)
    → ((t : String) → new_condition cl env_name ns t ≡ ok (conds t))
    → SetsConditions library
    → Stores cl
    → LeaveTypes calls
    → set_all library conds calls w ≡ (w', none)
    → get library (conds type) w' ≡ or_else (last_written type calls) (get library (conds type) w)
get-set_all library cl env_name ns conds type calls w w' made sets stores =
    get-set_list library cl env_name ns conds made sets stores type calls w w'
