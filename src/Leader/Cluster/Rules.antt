-- ===== src/Leader/Cluster/Rules.antt =====
-- What a program of `Become` may do on its way, as predicates on programs.
use operator_lib.Common.{
  String, true, false, ◌≡◌, sym, ◌∙◌, ◌⊎◌, List, [], ◌∷◌, none, some, Result, ok, err, string_eq,
}
use mathlib.Core.Bool.{false≢true}
use operator_lib.Objects.{NamespacedName}
use operator_lib.Leader.Program.{
  OwnerReference, ConfigMap, Pod, ApiError, NodeCondition, Wake, get_pod, get_node, get_config_map,
  create_config_map, delete_pod, delete_config_map, wait, Prog, ret, call, ◌>>=◌,
}
use operator_lib.Leader.Helpers.{Loop, Next, finished, again, not_ready}
use operator_lib.Leader.Loop.{lock_key, owned_by}

-- What a run of the cluster may answer to a question for a node, and whether it may delete locks; it
-- may if a node may be reported not ready.
pub record Rules : Type 1 where
  pub node : Result ApiError (List NodeCondition) → Type 0
  pub deletes : Type 0
  pub lost : (r : Result ApiError (List NodeCondition)) → node r → not_ready r ≡ true → deletes

-- Anything may be answered, and deleted.
abbrev pub any_rules : Rules
any_rules = record { node = λ r. Unit; deletes = Unit; lost = λ r _ _. tt }

-- No node is reported not ready, and no lock is deleted.
abbrev pub ready_rules : Rules
ready_rules = record {
  node = λ r. not_ready r ≡ false;
  deletes = ⊥;
  lost = λ r ready lost. false≢true (sym ready ∙ lost);
}

-- The call of `Become` has returned nil.
abbrev pub Won : {Client : Type 0} → Prog (Next Client) → Type 0
Won p = p ≡ ret (finished none)

-- A config map with this key, and as its one owner the pod with this name and UID.
abbrev pub IsOwnLock : NamespacedName → (name uid : String) → ConfigMap → Type 0
IsOwnLock key i u cm =
    (cm.key ≡ key)
    × (o : OwnerReference) × (cm.owner_references ≡ o ∷ [])
    × (o.name ≡ i)
    × (o.uid ≡ u)

module _ (rules : Rules) where
  -- The program reads and creates no config map, deletes one only by the rules, and ends in `P`.
  abbrev pub Calm : {A : Type 0} → (A → Type 0) → Prog A → Type 0
  Calm P (ret a) = P a
  Calm P (call (get_pod k) f) =
      ((e : ApiError) → Calm P (f (err e))) × ((p : Pod) → p.key.name ≡ k.name → Calm P (f (ok p)))
  Calm P (call (get_node k) f) =
      (r : Result ApiError (List NodeCondition)) → rules.node r → Calm P (f r)
  Calm P (call (delete_pod p) f) = (r : Result ApiError (Unit {0})) → Calm P (f r)
  Calm P (call (wait d) f) = (w : Wake) → Calm P (f w)
  Calm P (call (get_config_map k) f) = ⊥
  Calm P (call (create_config_map cm) f) = ⊥
  Calm P (call (delete_config_map cm) f) =
      rules.deletes × ((r : Result ApiError (Unit {0})) → Calm P (f r))

module _ {Client : Type 0} (key : NamespacedName) (i u : String) where
  -- A loop for this lock, in the pod with this name and UID.
  abbrev pub Campaigns : Loop Client → Type 0
  Campaigns l = (lock_key l ≡ key) × (l.owner.name ≡ i) × (l.owner.uid ≡ u)

  module _ (rules : Rules) where
    -- The program returns nil only at once after it has created the lock or has read it with the
    -- pod among its owners, and deletes config maps only by the rules.
    abbrev pub Good : Prog (Next Client) → Type 0
    Good (ret (finished none)) = ⊥
    Good (ret (finished (some e))) = Unit
    Good (ret (again l)) = Campaigns l
    Good (call (get_pod k) f) =
        ((e : ApiError) → Good (f (err e)))
        × ((p : Pod)
            → p.key.name ≡ k.name
            → (k.namespace ≡ key.namespace → k.name ≡ i → p.uid ≡ u)
            → Good (f (ok p)))
    Good (call (get_node k) f) =
        (r : Result ApiError (List NodeCondition)) → rules.node r → Good (f r)
    Good (call (get_config_map k) f) =
        (k ≡ key)
        × ((e : ApiError) → Good (f (err e)))
        × ((cm : ConfigMap)
            → Good (f (ok cm)) ⊎ ((owned_by i cm.owner_references ≡ true) × Won (f (ok cm))))
    Good (call (create_config_map cm) f) =
        IsOwnLock key i u cm
        × ((e : ApiError) → Good (f (err e)))
        × ((u : Unit {0}) → Won (f (ok u)))
    Good (call (delete_config_map cm) f) =
        rules.deletes × ((r : Result ApiError (Unit {0})) → Good (f r))
    Good (call (delete_pod p) f) = (r : Result ApiError (Unit {0})) → Good (f r)
    Good (call (wait d) f) = (w : Wake) → Good (f w)

module _ {Client : Type 0} (key : NamespacedName) (i u : String) (rules : Rules) {A : Type 0}
    {P : A → Type 0} where
  pub Good->>= :
      (m : Prog A) (f : A → Prog (Next Client))
      → Calm rules P m
      → ((a : A) → P a → Good key i u rules (f a))
      → Good key i u rules (m >>= f)
  Good->>= (ret a) f c h = h a c
  Good->>= (call (get_pod k) g) f c h =
      (λ e. Good->>= (g (err e)) f (c.0 e) h, λ p n _. Good->>= (g (ok p)) f (c.1 p n) h)
  Good->>= (call (get_node k) g) f c h = λ r n. Good->>= (g r) f (c r n) h
  Good->>= (call (get_config_map k) g) f c h = absurd c
  Good->>= (call (create_config_map cm) g) f c h = absurd c
  Good->>= (call (delete_config_map cm) g) f c h = (c.0, λ r. Good->>= (g r) f (c.1 r) h)
  Good->>= (call (delete_pod p) g) f c h = λ r. Good->>= (g r) f (c r) h
  Good->>= (call (wait d) g) f c h = λ w. Good->>= (g w) f (c w) h
