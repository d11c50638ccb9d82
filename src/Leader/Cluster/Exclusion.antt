-- ===== src/Leader/Cluster/Exclusion.antt =====
-- At most one pod leads.
use mathlib.Core.Option.{some-injective}
use operator_lib.Common.{String, ◌≡◌, sym, ◌∙◌, inl, inr, string_eq}
use operator_lib.Leader.Cluster.{
  Server, IsConsistent, NodesReady, key_of, System, Reach, IsInitial, Leads,
}
use operator_lib.Leader.Cluster.Calls.{Owns}
use operator_lib.Leader.Cluster.Owners.{owned_by_single}
use operator_lib.Leader.Cluster.Invariant.{Inv, Reach-Inv}
use operator_lib.Leader.Cluster.Ready.{Reach-IsCarefulRun}
use operator_lib.Leader.Cluster.Careful.{IsCarefulRun, NamesAnewRun}
use operator_lib.Leader.Cluster.Rules.{Rules, any_rules}

module _ {W Client : Type 0} (server : Server W) (rules : Rules) (s : System W Client) where
  pub Leads-Owns :
      {ns lock_name : String}
      → Inv Client server (key_of ns lock_name) rules s
      → (i : String) → Leads s i
      → Owns server i s.world
  Leads-Owns inv i leads = elim (inv.sound i _ leads) [
    | inl good ↦ absurd good
    | inr (won, owns) ↦ owns
  ]

-- If no lock is deleted by `Become` while an owner of it is there, and no pod is created with the
-- name of an owner of the lock, then in every state that the cluster reaches from one where nobody
-- runs and a lock has one owner, two pods that lead are one. (The API server is consistent; the
-- garbage collector removes the lock when no owner of it is there, by name and UID.)
pub careful_exclusion :
    {W Client : Type 0} (server : Server W) (ns lock_name : String) (s t : System W Client)
    → IsConsistent server (key_of ns lock_name)
    → IsInitial server s
    → (reach : Reach server ns lock_name s t) → IsCarefulRun server ns lock_name reach
    → (i j : String) → Leads t i
    → Leads t j
    → i ≡ j
careful_exclusion server ns lock_name s t consistent init reach careful i j lead_i lead_j =
    let inv =
      Reach-Inv server ns lock_name any_rules consistent (λ k w. tt) s t init reach careful in
    let (cm, there, mine) = Leads-Owns server any_rules t inv i lead_i in
    let (cm', there', mine') = Leads-Owns server any_rules t inv j lead_j in
    let (o, single) = inv.single cm there in
    let same : cm' ≡ cm = some-injective _ _ (sym there' ∙ there) in
    sym (owned_by_single i cm o single mine) ∙ owned_by_single j cm o single (rw same at mine')

-- If no node is ever reported to be not ready, and no pod is created with the name of an owner of
-- the lock, then in every state that the cluster reaches from one where nobody runs and a lock has
-- one owner, two pods that lead are one. (The API server is consistent; the garbage collector
-- removes the lock when no owner of it is there, by name and UID.)
pub mutual_exclusion :
    {W Client : Type 0} (server : Server W) (ns lock_name : String) (s t : System W Client)
    → IsConsistent server (key_of ns lock_name)
    → NodesReady server
    → IsInitial server s
    → (reach : Reach server ns lock_name s t) → NamesAnewRun server ns lock_name reach
    → (i j : String) → Leads t i
    → Leads t j
    → i ≡ j
mutual_exclusion server ns lock_name s t consistent ready init reach anew =
    careful_exclusion server ns lock_name s t consistent init reach
      (Reach-IsCarefulRun server ns lock_name consistent ready s t init reach anew)
