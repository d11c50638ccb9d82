-- ===== src/Leader/Cluster/ForLife.antt =====
-- leader/doc.go: leader for life.
use mathlib.Core.Option.{some-injective}
use operator_lib.Common.{
  String, ◌≡◌, ◌≢◌, refl, sym, ap, ◌∙◌, inl, inr, none, some, ◌==◌, ==_sound, ==_of_ne, string_eq,
  Bool-cases,
}
use operator_lib.Leader.Program.{ret}
use operator_lib.Leader.Helpers.{finished}
use operator_lib.Leader.Cluster.{
  Server, IsConsistent, key_of, System, update, advance, Step, create, restart, destroy, act,
  collect, other, Reach, IsInitial, Leads,
}
use operator_lib.Leader.Cluster.Invariant.{Reach-Inv}
use operator_lib.Leader.Cluster.Careful.{IsCarefulRun}
use operator_lib.Leader.Cluster.Rules.{any_rules}
use operator_lib.Leader.Cluster.Exclusion.{Leads-Owns, careful_exclusion}
use operator_lib.Leader.Cluster.LockSpec.{holder, Owns-holder}

update_other : {A : Type 0} (f : String → A) (i j : String) (a : A) → i ≢ j → update f i a j ≡ f j
update_other f i j a h = rw (==_of_ne i j h) refl

module _ {W Client : Type 0} (server : Server W) (ns lock_name : String) where
  -- The pod `i` is not destroyed by the step, and its container does not restart.
  unfoldable pub Spares :
      (i : String) {s t : System W Client} → Step server ns lock_name s t → Type 0
  Spares i (create j _ _ _ _ _ _) = j ≢ i
  Spares i (restart j _ _ _) = j ≢ i
  Spares i (destroy j) = j ≢ i
  Spares i (act _ _) = Unit
  Spares i (collect _ _ _ _) = Unit
  Spares i (other _ _ _) = Unit

  -- Steps all of which spare the pod.
  pub data Outlives (i : String) (s : System W Client) : System W Client → Type 0 where
    begun : Outlives i s s
    later :
        {t u : System W Client}
        → Outlives i s t
        → (step : Step server ns lock_name t u) → Spares i step
        → Outlives i s u

  unfoldable pub Outlives-Reach :
      (i : String) (r s t : System W Client)
      → Reach server ns lock_name r s
      → Outlives i s t
      → Reach server ns lock_name r t
  Outlives-Reach i r s t reach Outlives.begun = reach
  Outlives-Reach i r s t reach (Outlives.later {t = u} run step spares) =
      Reach.next (Outlives-Reach i r s u reach run) step

  Spares-Leads :
      (i : String) (s t : System W Client) (step : Step server ns lock_name s t)
      → Spares i step
      → Leads s i
      → Leads t i
  unfolding Spares advance
  Spares-Leads i s t (create j w in_cluster opts absent same uids) h leads =
      update_other s.proc j i _ h ∙ leads
  Spares-Leads i s t (restart j in_cluster opts at_j) h leads = update_other s.proc j i _ h ∙ leads
  Spares-Leads i s t (destroy j) h leads = update_other s.proc j i none h ∙ leads
  Spares-Leads i s t (act j {p} at_j) h leads = elim (Bool-cases (j == i)) [
    | inl same ↦
        let won : p ≡ ret (finished none) =
          some-injective _ _ (sym at_j ∙ ap s.proc (==_sound j i same) ∙ leads) in
        rw same (ap (λ q. some (advance server q s.world).0) won)
    | inr differs ↦ rw differs leads
  ]
  Spares-Leads i s t (collect w gone orphaned uids) h leads = leads
  Spares-Leads i s t (other w same uids) h leads = leads

  Outlives-Leads : (i : String) (s t : System W Client) → Outlives i s t → Leads s i → Leads t i
  Outlives-Leads i s t Outlives.begun leads = leads
  Outlives-Leads i s t (Outlives.later {t = u} run step spares) leads =
      Spares-Leads i u t step spares (Outlives-Leads i s u run leads)

-- A pod that leads goes on leading, and has the lock, through any steps that neither destroy it nor
-- restart its container, and no other pod leads then. (The API server is consistent; no lock is
-- deleted by `Become` while an owner of it is there, and no pod is created with the name of an
-- owner of the lock; the garbage collector goes by name and UID; at first nobody runs, and a lock
-- has one owner.)
pub careful_for_life :
    {W Client : Type 0} (server : Server W) (ns lock_name i : String) (s t u : System W Client)
    → IsConsistent server (key_of ns lock_name)
    → IsInitial server s
    → (reach : Reach server ns lock_name s t) (run : Outlives server ns lock_name i t u)
    → IsCarefulRun server ns lock_name (Outlives-Reach server ns lock_name i s t u reach run)
    → Leads t i
    → Leads u i × (holder server u.world ≡ some i) × ((j : String) → Leads u j → j ≡ i)
careful_for_life server ns lock_name i s t u consistent init reach run careful leads =
    let reach_u = Outlives-Reach server ns lock_name i s t u reach run in
    let inv =
      Reach-Inv server ns lock_name any_rules consistent (λ k w. tt) s u init reach_u careful in
    let still = Outlives-Leads server ns lock_name i t u run leads in
    (
      still,
      Owns-holder server i u.world inv.single (Leads-Owns server any_rules u inv i still),
      λ j leads_j.
          careful_exclusion server ns lock_name s u consistent init reach_u careful j i leads_j
            still,
    )
