-- ===== src/Conditions/SetGet.antt =====
-- What `Set` writes is what `Get` reads, and which resource both of them use.
use operator_lib.Common.{
  ok_inj, String, List, none, some, Result, ok, err, ◌≡◌, refl, sym, ap, ◌∙◌, ◌↔◌, ◌≢◌, inl, inr,
  Bool-cases, ◌==◌, string_eq, ==_of_ne,
}
use mathlib.Core.Bool.{false≢true}
use operator_lib.Objects.{NamespacedName}
use operator_lib.Utils.{NamespaceError}
use operator_lib.Conditions.{
  StatusCondition, OperatorCondition, Client, Meta, Condition, Opt, apply_options, bare, get, set,
  with_condition, or_not_found, get_condition_name, get_namespaced_name,
}

-- The documented behaviour of the two functions of apimachinery: a condition is there with its
-- fields after it was set, and the conditions of other types are as before.
pub record SetsConditions (library : Meta) : Type 0 where
  pub find-set :
      (cs : List StatusCondition) (c : StatusCondition)
      → library.find_status_condition (library.set_status_condition cs c) c.type ≡ some c
  pub find-set_ne :
      (cs : List StatusCondition) (c : StatusCondition) (type : String)
      → type ≢ c.type
      → library.find_status_condition (library.set_status_condition cs c) type
        ≡ library.find_status_condition cs type

-- The client reads a resource under the name that it has, and reads what it has written.
pub record Stores {World E : Type 0} (client : Client World E) : Type 0 where
  pub get-key :
      (key : NamespacedName) (w : World) (o : OperatorCondition)
      → client.get key w ≡ ok o
      → o.key ≡ key
  pub get-update :
      (o : OperatorCondition) (w w' : World)
      → client.update o w ≡ (w', none)
      → client.get o.key w' ≡ ok o

module _ {World E : Type 0} (library : Meta) (c : Condition World E)
    (stores : Stores c.client) where
  -- After a `Set` without an error the resource is the one that was read, with the condition set.
  set-stored :
      (status : String) (options : List Opt) (w w' : World)
      → set library c status options w ≡ (w', none)
      → (o : OperatorCondition) × (c.client.get c.namespaced_name w ≡ ok o)
        × (c.client.get c.namespaced_name w'
            ≡ ok (with_condition library o (apply_options options (bare c.cond_type status))))
  unfolding set with_condition
  set-stored status options w w' h = go (c.client.get c.namespaced_name w) refl h
    where
      new_cond : StatusCondition
      new_cond = apply_options options (bare c.cond_type status)

      go :
          (r : Result E OperatorCondition)
          → c.client.get c.namespaced_name w ≡ r
          → (elim r [
            | err e ↦ (w, some e)
            | ok o ↦ c.client.update (with_condition library o new_cond) w
          ])
            ≡ (w', none)
          → (o : OperatorCondition) × (c.client.get c.namespaced_name w ≡ ok o)
            × (c.client.get c.namespaced_name w' ≡ ok (with_condition library o new_cond))
      go (err e) hr h = cc
      go (ok o) hr h = (
        o,
        hr,
        ap (λ k. c.client.get k w') (sym (stores.get-key c.namespaced_name w o hr))
            ∙ stores.get-update (with_condition library o new_cond) w w' h,
      )

-- After a `Set` without an error a `Get` of the same condition returns the one that was set: its
-- status and what the options made of it. (The options leave its type; the functions of apimachinery
-- and the client behave as documented, and nobody else writes between.)
pub get-set :
    {World E : Type 0} (library : Meta) (c : Condition World E) (status : String)
    (options : List Opt) (w w' : World)
    → SetsConditions library
    → Stores c.client
    → (apply_options options (bare c.cond_type status)).type ≡ c.cond_type
    → set library c status options w ≡ (w', none)
    → get library c w' ≡ ok (apply_options options (bare c.cond_type status))
unfolding get with_condition
get-set library c status options w w' sets stores typed h =
    let (o, before, after) = set-stored library c stores status options w w' h in
    rw (get, after)
      (ap (or_not_found c.cond_type) (
        ap (library.find_status_condition _) (sym typed)
        ∙ sets.find-set o.conditions (apply_options options (bare c.cond_type status))))

-- A `Set` without an error leaves what a `Get` of any other type of condition of the same resource
-- returns. (The same conditions hold.)
pub get-set_other :
    {World E : Type 0} (library : Meta) (c d : Condition World E) (status : String)
    (options : List Opt) (w w' : World)
    → SetsConditions library
    → Stores c.client
    → (apply_options options (bare c.cond_type status)).type ≡ c.cond_type
    → d.client ≡ c.client
    → d.namespaced_name ≡ c.namespaced_name
    → d.cond_type ≢ c.cond_type
    → set library c status options w ≡ (w', none)
    → get library d w' ≡ get library d w
unfolding get with_condition
get-set_other library c d status options w w' sets stores typed same_client same_name differs h =
    let (o, before, after) = set-stored library c stores status options w w' h in
    rw (same_client, same_name, before, after)
      (ap (or_not_found d.cond_type) (
        sets.find-set_ne o.conditions (apply_options options (bare c.cond_type status)) d.cond_type
          (λ e. differs (e ∙ typed))))

-- The name of the resource is found exactly if the variable is not empty and the operator's
-- namespace is known, and it is then made of these two.
pub get_namespaced_name_iff :
    (env_name : String) (ns : Result NamespaceError String) (n : NamespacedName)
    → (get_namespaced_name env_name ns ≡ ok n)
      ↔ ((env_name ≢ "") × (ns ≡ ok n.namespace) × (n.name ≡ env_name))
unfolding get_namespaced_name get_condition_name
get_namespaced_name_iff env_name ns n = (to ns, λ h. from ns h.0 h.1 h.2)
  where
    to :
        (ns : Result NamespaceError String)
        → get_namespaced_name env_name ns ≡ ok n
        → (env_name ≢ "") × (ns ≡ ok n.namespace) × (n.name ≡ env_name)
    to (err e) h = elim (Bool-cases (env_name == "")) [
      | inl empty ↦ let h' = rw (get_namespaced_name, get_condition_name, empty) at h in cc
      | inr named ↦ let h' = rw (get_namespaced_name, get_condition_name, named) at h in cc
    ]
    to (ok s) h = elim (Bool-cases (env_name == "")) [
      | inl empty ↦ let h' = rw (get_namespaced_name, get_condition_name, empty) at h in cc
      | inr named ↦
          let h' = rw (get_namespaced_name, get_condition_name, named) at h in
          let same : record { namespace = s; name = env_name } ≡ n = cc in
          (
            λ e. false≢true (sym named ∙ (string_eq.beq_iff env_name "").1 e),
            ap (λ (k : NamespacedName). ok k.namespace) same,
            sym (ap (λ (k : NamespacedName). k.name) same),
          )
    ]

    from :
        (ns : Result NamespaceError String)
        → env_name ≢ ""
        → ns ≡ ok n.namespace
        → n.name ≡ env_name
        → get_namespaced_name env_name ns ≡ ok n
    from (err e) named known same = cc
    from (ok s) named known same =
        rw (get_namespaced_name, get_condition_name, ==_of_ne env_name "" named)
          (ap (λ r. ok r) (λ i. record { namespace = ok_inj known i; name = sym same i }))
