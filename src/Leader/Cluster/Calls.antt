-- ===== src/Leader/Cluster/Calls.antt =====
-- One call of a sound program: what becomes of the lock and of the rest of the program.
use mathlib.Core.Option.{none-ne-some}
use operator_lib.Common.{
  String, true, ◌≡◌, refl, sym, ap, ◌∙◌, ◌⊎◌, inl, inr, [], ◌∷◌, none, some, string_eq, ==_refl,
  Result-cases,
}
use operator_lib.Objects.{NamespacedName}
use operator_lib.Leader.Program.{
  OwnerReference, ConfigMap, get_pod, get_node, get_config_map, create_config_map, delete_pod,
  delete_config_map, wait, Prog, ret, call,
}
use operator_lib.Leader.Helpers.{Next, finished, again}
use operator_lib.Leader.Loop.{owned_by}
use operator_lib.Leader.Cluster.{Server, IsConsistent, IsOwnerless, System, advance}
use operator_lib.Leader.Cluster.Careful.{DeletesOwnerless}
use operator_lib.Leader.Cluster.Rules.{Rules, Won, IsOwnLock, Good}
use operator_lib.Leader.Cluster.Safe.{attempt-Good}

module _ {W : Type 0} (server : Server W) where
  -- The lock is there, and the pod is an owner of it.
  abbrev pub Owns : String → W → Type 0
  Owns i w = (cm : ConfigMap) × (server.lock w ≡ some cm) × (owned_by i cm.owner_references ≡ true)

  -- A lock has one owner.
  abbrev pub IsSingle : W → Type 0
  IsSingle w =
      (cm : ConfigMap)
      → server.lock w ≡ some cm
      → (o : OwnerReference) × (cm.owner_references ≡ o ∷ [])

  -- A step leaves the lock, or frees it when its owners are all among `Gone`, or creates the own
  -- lock of the pod `i` with the UID `u` where there was none.
  abbrev pub KeepsLock : NamespacedName → (name uid : String) → (String → Type 0) → W → W → Type 0
  KeepsLock key i u Gone w w' =
      (server.lock w' ≡ server.lock w)
      ⊎ (((server.lock w' ≡ none) × IsOwnerless server w Gone)
          ⊎ ((server.lock w ≡ none)
              × ((cm : ConfigMap) × (server.lock w' ≡ some cm) × IsOwnLock key i u cm)))

-- A program on its good way, or one that has won and has the lock.
abbrev pub IsSound :
    {W Client : Type 0}
    → Server W
    → NamespacedName
    → Rules
    → (name uid : String) → Prog (Next Client)
    → W
    → Type 0
IsSound server key rules i u p w = Good key i u rules p ⊎ (Won p × Owns server i w)

IsOwnLock-owned_by :
    (key : NamespacedName) (i u : String) (cm : ConfigMap)
    → IsOwnLock key i u cm
    → owned_by i cm.owner_references ≡ true
unfolding owned_by
IsOwnLock-owned_by key i u cm (_, o, owners, name, _) = rw owners (rw name (rw (==_refl i)))

module _ {W Client : Type 0} (server : Server W) (key : NamespacedName)
    (consistent : IsConsistent server key) (rules : Rules) (i u : String) where
  pub advance-KeepsLock :
      (p : Prog (Next Client)) (s : System W Client)
      → Good key i u rules p
      → DeletesOwnerless server p s
      → KeepsLock server key i u (λ j. s.proc j ≡ none) s.world (advance server p s.world).1
  unfolding advance
  advance-KeepsLock (ret (finished e)) s g free = inl refl
  advance-KeepsLock (ret (again l)) s g free = inl refl
  advance-KeepsLock (call (get_pod k) f) s g free = inl (consistent.reads_keep k s.world).0
  advance-KeepsLock (call (get_node k) f) s g free = inl (consistent.reads_keep k s.world).1
  advance-KeepsLock (call (get_config_map k) f) s g free = inl (consistent.reads_keep k s.world).2
  advance-KeepsLock (call (create_config_map cm) f) s g free =
      elim (Result-cases (server.answer (create_config_map cm) s.world).0) [
        | inl (_, made) ↦
            let (absent, there) = consistent.created cm s.world g.0.0 made in
            inr (inr (absent, (cm, there, g.0)))
        | inr (e, kept) ↦ inl (consistent.refused cm s.world kept)
      ]
  advance-KeepsLock (call (delete_pod p) f) s g free = inl (consistent.delete_pod_keeps p s.world)
  advance-KeepsLock (call (wait d) f) s g free = inl (consistent.wait_keeps d s.world)
  advance-KeepsLock (call (delete_config_map cm) f) s g free =
      elim (consistent.deleted cm s.world) [
        | inl same ↦ inl same
        | inr gone ↦ inr (inl (gone, free))
      ]

  pub advance-IsSound :
      ((k : NamespacedName) (w : W) → rules.node (server.answer (get_node k) w).0)
      → (p : Prog (Next Client)) (w : W) → server.uid i w ≡ u
      → Good key i u rules p
      → IsSound server key rules i u (advance server p w).0 (advance server p w).1
  unfolding advance
  advance-IsSound fits (ret (finished none)) w same g = absurd g
  advance-IsSound fits (ret (finished (some e))) w same g = inl tt
  advance-IsSound fits (ret (again l)) w same g = inl (attempt-Good key i u rules l g)
  advance-IsSound fits (call (get_pod k) f) w same g =
      elim (Result-cases (server.answer (get_pod k) w).0) [
        | inl (p, e) ↦ inl (
            rw e (
              g.1 p (consistent.named k w e) (λ in_ns own.
                consistent.identity k w in_ns e ∙ ap (λ n. server.uid n w) own ∙ same)))
        | inr (x, e) ↦ inl (rw e (g.0 x))
      ]
  advance-IsSound fits (call (get_node k) f) w same g = inl (g _ (fits k w))
  advance-IsSound fits (call (get_config_map k) f) w same g =
      elim (Result-cases (server.answer (get_config_map k) w).0) [
        | inl (cm, e) ↦ elim (g.2 cm) [
          | inl fine ↦ inl (rw e fine)
          | inr (mine, won) ↦ inr (
            rw e won,
            (cm, (consistent.reads_keep k w).2 ∙ consistent.read w (rw g.0 at e), mine),
          )
        ]
        | inr (x, e) ↦ inl (rw e (g.1 x))
      ]
  advance-IsSound fits (call (create_config_map cm) f) w same g =
      elim (Result-cases (server.answer (create_config_map cm) w).0) [
        | inl (done, made) ↦ inr (
          rw made (g.2 done),
          (cm, (consistent.created cm w g.0.0 made).1, IsOwnLock-owned_by key i u cm g.0),
        )
        | inr (e, kept) ↦ inl (rw kept (g.1 e))
      ]
  advance-IsSound fits (call (delete_pod p) f) w same g = inl (g _)
  advance-IsSound fits (call (wait d) f) w same g = inl (g _)
  advance-IsSound fits (call (delete_config_map cm) f) w same g = inl (g.1 _)

  -- A call leaves the pods' UIDs.
  pub advance-uid :
      (p : Prog (Next Client)) (w : W) (j : String)
      → server.uid j (advance server p w).1 ≡ server.uid j w
  unfolding advance
  advance-uid (ret (again l)) w j = refl
  advance-uid (ret (finished e)) w j = refl
  advance-uid (call r k) w j = consistent.uid_keeps r w j

module _ {W : Type 0} (server : Server W) (key : NamespacedName) (i u : String)
    (Gone : String → Type 0) {w w' : W} where
  pub KeepsLock-IsSingle :
      KeepsLock server key i u Gone w w' → IsSingle server w → IsSingle server w'
  KeepsLock-IsSingle (inl same) single cm there = single cm (sym same ∙ there)
  KeepsLock-IsSingle (inr (inl (gone, _))) single cm there =
      absurd (none-ne-some _ (sym gone ∙ there))
  KeepsLock-IsSingle (inr (inr (absent, (own, made, is_own)))) single cm there =
      let eq : cm ≡ own = cc in (is_own.1, ap (λ (c : ConfigMap). c.owner_references) eq ∙ is_own.2)

  pub KeepsLock-Owns :
      (j : String)
      → ¬ Gone j
      → KeepsLock server key i u Gone w w'
      → Owns server j w
      → Owns server j w'
  KeepsLock-Owns j runs (inl same) (cm, there, mine) = (cm, same ∙ there, mine)
  KeepsLock-Owns j runs (inr (inl (_, ownerless))) (cm, there, mine) =
      absurd (runs (ownerless cm there j mine))
  KeepsLock-Owns j runs (inr (inr (absent, _))) (cm, there, mine) =
      absurd (none-ne-some _ (sym absent ∙ there))
