-- ===== src/Leader/Cluster/Invariant.antt =====
-- The invariant of the cluster, and that each step keeps it.
use mathlib.Core.Path.{subst}
use mathlib.Core.Option.{none-ne-some, some-injective}
use mathlib.Core.Bool.{false≢true}
use operator_lib.Common.{
  String, ◌≡◌, ◌≢◌, refl, sym, ap, ◌∙◌, ◌⊎◌, inl, inr, List, [], ◌∷◌, none, some, Result, ok, ◌==◌,
  ==_sound, Bool-cases, Option-cases, string_eq,
}
use operator_lib.Objects.{NamespacedName}
use operator_lib.Leader.Program.{OwnerReference, ConfigMap, get_node, Prog}
use operator_lib.Leader.Helpers.{Error, Next}
use operator_lib.Leader.Options.{Opt}
use operator_lib.Leader.Loop.{become}
use operator_lib.Leader.Cluster.Owners.{owned_by_single, owner_owns, cons_inj}
use operator_lib.Leader.Cluster.{
  Server, IsConsistent, key_of, System, update, advance, IsOwnerless, IsOrphaned, AreGone, Step,
  create, restart, destroy, act, collect, other, Reach, here, next, IsInitial,
}
use operator_lib.Leader.Cluster.Careful.{IsUnnamed, DeletesOwnerless, IsCareful, IsCarefulRun}
use operator_lib.Leader.Cluster.Update.{update_rule}
use operator_lib.Leader.Cluster.Rules.{Rules, Good}
use operator_lib.Leader.Cluster.Safe.{become-Good}
use operator_lib.Leader.Cluster.Calls.{
  IsSingle, IsSound, KeepsLock, advance-uid, advance-KeepsLock, advance-IsSound, KeepsLock-IsSingle,
  KeepsLock-Owns,
}

module _ {W : Type 0} (Client : Type 0) (server : Server W) (key : NamespacedName)
    (rules : Rules) where
  -- The owner of a lock is the pod of its name, if there is one: it has the owner's UID.
  abbrev pub OwnerIsThere : System W Client → Type 0
  OwnerIsThere s =
      (cm : ConfigMap) (o : OwnerReference) (p : Prog (Next Client))
      → server.lock s.world ≡ some cm
      → cm.owner_references ≡ o ∷ []
      → s.proc o.name ≡ some p
      → o.uid ≡ server.uid o.name s.world

  pub record Inv (s : System W Client) : Type 0 where
    pub single : IsSingle server s.world
    pub sound :
        (j : String) (p : Prog (Next Client))
        → s.proc j ≡ some p
        → IsSound server key rules j (server.uid j s.world) p s.world
    pub owner : OwnerIsThere s

module _ {W Client : Type 0} (server : Server W) (key : NamespacedName) (rules : Rules) where
  -- A program is put in place of one that a pod has, or for a pod that no lock names.
  set-Inv :
      (s : System W Client) (i : String) (p : Prog (Next Client))
      → IsSound server key rules i (server.uid i s.world) p s.world
      → ((q : Prog (Next Client)) × (s.proc i ≡ some q)) ⊎ IsUnnamed server i s.world
      → Inv Client server key rules s
      → Inv Client server key rules (record s { proc = update s.proc i (some p) })
  set-Inv s i p sound known inv = record {
    single = inv.single;
    sound =
        update_rule (λ j q. IsSound server key rules j (server.uid j s.world) q s.world) s.proc i
          (some p)
          (λ q e.
            subst (λ r. IsSound server key rules i (server.uid i s.world) r s.world)
              (some-injective _ _ e) sound)
          inv.sound;
    owner = λ cm o q there owners at. elim (Bool-cases (i == o.name)) [
      | inr differs ↦ inv.owner cm o q there owners (rw differs at at)
      | inl same ↦ elim known [
        | inl (old, at_i) ↦
            inv.owner cm o old there owners (ap s.proc (sym (==_sound i o.name same)) ∙ at_i)
        | inr unnamed ↦ absurd (
            false≢true
              (sym (unnamed cm there) ∙ rw (==_sound i o.name same) (owner_owns cm o owners)))
      ]
    ];
  }

  destroy-Inv :
      (s : System W Client) (i : String)
      → Inv Client server key rules s
      → Inv Client server key rules (record s { proc = update s.proc i none })
  destroy-Inv s i inv = record {
    single = inv.single;
    sound =
        update_rule (λ j q. IsSound server key rules j (server.uid j s.world) q s.world) s.proc i
          none (λ q e. absurd (none-ne-some _ e)) inv.sound;
    owner = λ cm o q there owners at. elim (Bool-cases (i == o.name)) [
      | inr differs ↦ inv.owner cm o q there owners (rw differs at at)
      | inl same ↦ absurd (none-ne-some _ (rw same at at))
    ];
  }

  -- The world changes, and no program: the pods keep their UIDs.
  world-Inv :
      (s : System W Client) (i : String) (w : W)
      → KeepsLock server key i (server.uid i w) (λ j. s.proc j ≡ none) s.world w
      → ((j : String) (p : Prog (Next Client))
          → s.proc j ≡ some p
          → server.uid j w ≡ server.uid j s.world)
      → Inv Client server key rules s
      → Inv Client server key rules (record s { world = w })
  world-Inv s i w change uids inv = record {
    single = KeepsLock-IsSingle server key i (server.uid i w) _ change inv.single;
    sound = λ j p e. elim (inv.sound j p e) [
      | inl good ↦ inl (subst (λ u. Good key j u rules p) (sym (uids j p e)) good)
      | inr (won, owns) ↦ inr (
        won,
        KeepsLock-Owns server key i (server.uid i w) _ j (λ gone. none-ne-some _ (sym gone ∙ e))
            change owns,
      )
    ];
    owner = λ cm o p there owners at. elim change [
      | inl same ↦ inv.owner cm o p (sym same ∙ there) owners at ∙ sym (uids o.name p at)
      | inr (inl (gone, _)) ↦ absurd (none-ne-some _ (sym gone ∙ there))
      | inr (inr (_, (own, made, (_, o', owners', name, uid)))) ↦
          let same : cm ≡ own = some-injective _ _ (sym there ∙ made) in
          let is_own : o ≡ o' =
            cons_inj (sym owners ∙ ap (λ (c : ConfigMap). c.owner_references) same ∙ owners') in
          ap (λ (r : OwnerReference). r.uid) is_own
          ∙ uid
          ∙ ap (λ n. server.uid n w) (sym (ap (λ (r : OwnerReference). r.name) is_own ∙ name))
    ];
  }

  -- Where the garbage collector removes the lock, no pod has the name of an owner either.
  pub IsOrphaned-IsOwnerless :
      (s : System W Client)
      → Inv Client server key rules s
      → IsOrphaned server s
      → IsOwnerless server s.world (λ j. s.proc j ≡ none)
  IsOrphaned-IsOwnerless s inv orphaned cm there j mine =
      let (o, owners) = inv.single cm there in
      let is_j = owned_by_single j cm o owners mine in
      let gone = (subst (λ os. AreGone server os s) owners (orphaned cm there)).0 in
      subst (λ n. s.proc n ≡ none) is_j
        (elim gone [
          | inl absent ↦ absent
          | inr other_uid ↦ elim (Option-cases (s.proc o.name)) [
            | inl absent ↦ absent
            | inr (p, at) ↦ absurd (other_uid (sym (inv.owner cm o p there owners at)))
          ]
        ])

  act-Inv :
      IsConsistent server key
      → ((k : NamespacedName) (w : W) → rules.node (server.answer (get_node k) w).0)
      → (s : System W Client) (i : String) (p : Prog (Next Client)) → s.proc i ≡ some p
      → DeletesOwnerless server p s
      → Inv Client server key rules s
      → Inv Client server key rules (record s {
        world = (advance server p s.world).1;
        proc = update s.proc i (some (advance server p s.world).0);
      })
  unfolding advance
  act-Inv consistent fits s i p e free inv = elim (inv.sound i p e) [
    | inl good ↦
        let u = server.uid i s.world in
        let uids = advance-uid server key consistent rules i u p s.world in
        let sound = advance-IsSound server key consistent rules i u fits p s.world refl good in
        let change = advance-KeepsLock server key consistent rules i u p s good free in
        set-Inv (record s { world = (advance server p s.world).1 }) i _
          (subst
            (λ v.
              IsSound server key rules i v (advance server p s.world).0
                (advance server p s.world).1)
            (sym (uids i)) sound)
          (inl (p, e))
          (world-Inv s i _
            (subst
              (λ v.
                KeepsLock server key i v (λ j. s.proc j ≡ none) s.world
                  (advance server p s.world).1)
              (sym (uids i)) change)
            (λ j _ _. uids j) inv)
    | inr (won, owns) ↦ rw won (set-Inv s i _ (inr (refl, owns)) (inl (p, e)) inv)
  ]

  create-Inv :
      (ns lock_name : String)
      → key ≡ key_of ns lock_name
      → (s : System W Client) (i : String) (w : W) (in_cluster : Result Error Client)
        (opts : List (Opt Client))
      → s.proc i ≡ none
      → server.lock w ≡ server.lock s.world
      → ((j : String) → i ≢ j → server.uid j w ≡ server.uid j s.world)
      → IsUnnamed server i s.world
      → Inv Client server key rules s
      → Inv Client server key rules (record {
        world = w;
        proc = update s.proc i (some (become i (ok ns) in_cluster lock_name opts));
      })
  create-Inv ns lock_name e s i w in_cluster opts absent same uids unnamed inv =
      set-Inv (record s { world = w }) i _
        (inl (rw e (become-Good i (server.uid i w) ns lock_name rules in_cluster opts)))
        (inr (λ cm there. unnamed cm (sym same ∙ there)))
        (world-Inv s i w (inl same)
          (λ j p at. uids j (λ i_is_j. none-ne-some _ (sym absent ∙ ap s.proc i_is_j ∙ at))) inv)

  pub step-Inv :
      (ns lock_name : String)
      → key ≡ key_of ns lock_name
      → IsConsistent server key
      → ((k : NamespacedName) (w : W) → rules.node (server.answer (get_node k) w).0)
      → (s t : System W Client) (step : Step server ns lock_name s t)
      → IsCareful server ns lock_name step
      → Inv Client server key rules s
      → Inv Client server key rules t
  unfolding IsCareful
  step-Inv ns lock_name e c fits s t (create i w in_cluster opts absent same uids) careful inv =
      create-Inv ns lock_name e s i w in_cluster opts absent same uids careful inv
  step-Inv ns lock_name e c fits s t (restart i in_cluster opts {p} at_i) careful inv =
      set-Inv s i _
        (inl (rw e (become-Good i (server.uid i s.world) ns lock_name rules in_cluster opts)))
        (inl (p, at_i)) inv
  step-Inv ns lock_name e c fits s t (destroy i) careful inv = destroy-Inv s i inv
  step-Inv ns lock_name e c fits s t (act i p) careful inv = act-Inv c fits s i _ p careful inv
  step-Inv ns lock_name e c fits s t (collect w gone orphaned uids) careful inv =
      world-Inv s "" w (inr (inl (gone, IsOrphaned-IsOwnerless s inv orphaned))) (λ j _ _. uids j)
        inv
  step-Inv ns lock_name e c fits s t (other w same uids) careful inv =
      world-Inv s "" w (inl same) (λ j _ _. uids j) inv

module _ {W Client : Type 0} (server : Server W) (ns lock_name : String) where
  initial-Inv :
      (rules : Rules) (s : System W Client)
      → IsInitial server s
      → Inv Client server (key_of ns lock_name) rules s
  initial-Inv rules s init = record {
    single = init.single;
    sound = λ j p e. absurd (none-ne-some _ (sym (init.idle j) ∙ e));
    owner = λ cm o p _ _ e. absurd (none-ne-some _ (sym (init.idle o.name) ∙ e));
  }

  pub Reach-Inv :
      (rules : Rules)
      → IsConsistent server (key_of ns lock_name)
      → ((k : NamespacedName) (w : W) → rules.node (server.answer (get_node k) w).0)
      → (s t : System W Client) → IsInitial server s
      → (reach : Reach server ns lock_name s t) → IsCarefulRun server ns lock_name reach
      → Inv Client server (key_of ns lock_name) rules t
  unfolding IsCarefulRun
  Reach-Inv rules c fits s t init here careful = initial-Inv rules s init
  Reach-Inv rules c fits s t init (next {t = u} reach step) (before, careful) =
      step-Inv server (key_of ns lock_name) rules ns lock_name refl c fits u t step careful
        (Reach-Inv rules c fits s u init reach before)
