-- ===== src/Leader/Cluster/StaleName.antt =====
-- `Become` of leader/leader.go looks for the lock of a former run by the pod's name (its check for
-- an existing lock): a new pod with the name of an owner that is gone leads by the old lock.
use operator_lib.Common.{
  String, true, ◌≡◌, ◌≢◌, refl, sym, ap, ◌∙◌, inl, inr, List, [], ◌∷◌, none, some, Result, ok,
  ==_of_ne, string_eq,
}
use mathlib.Core.Path.{subst}
use mathlib.Core.Option.{some-injective}
use operator_lib.Leader.Program.{OwnerReference, ConfigMap, Pod, get_pod, get_config_map, Prog, ret}
use operator_lib.Leader.Helpers.{
  Error, Config, Loop, Next, finished, my_owner_ref, owner_of, second,
}
use operator_lib.Leader.Options.{Opt, configure}
use operator_lib.Leader.Loop.{owned_by, campaign, start, become}
use operator_lib.Leader.Cluster.{
  Server, IsConsistent, key_of, System, update, advance, create, Reach, here, next, IsInitial,
  Leads, AreGone, IsOrphaned,
}
use operator_lib.Leader.Cluster.Update.{update_same, update_ne}
use operator_lib.Leader.Cluster.Owners.{owner_owns}
use operator_lib.Leader.Cluster.Alone.{At, begun, step_to}
use operator_lib.Leader.Cluster.Comes.{Serves, HasFailed}
use operator_lib.Leader.Cluster.Succession.{Reach-trans, succession}

module _ {W : Type 0} (server : Server W) (ns lock_name j : String) where
  -- The new pod `j` reads itself in `w`, and then the lock.
  pub record ReadsLock (w : W) (pod : Pod) (cm : ConfigMap) : Type 0 where
    pub itself : (server.answer (get_pod (key_of ns j)) w).0 ≡ ok pod
    pub lock :
        (server.answer
          (get_config_map (key_of ns lock_name))
          (server.answer (get_pod (key_of ns j)) w).1).0
        ≡ ok cm

  -- The state of the world after the two calls.
  abbrev pub read_twice : W → W
  read_twice w =
      (server.answer (get_config_map (key_of ns lock_name))
        (server.answer (get_pod (key_of ns j)) w).1).1

module _ {W : Type 0} (server : Server W) where
  -- In any state of the world the lock may be removed.
  abbrev pub Collects : Type 0
  Collects =
      (v : W) → (w : W) × (server.lock w ≡ none) × ((j : String) → server.uid j w ≡ server.uid j v)

  -- The world after another pod has been created with the name.
  pub record Renews (j : String) (v w : W) : Type 0 where
    pub lock : server.lock w ≡ server.lock v
    pub others : (k : String) → j ≢ k → server.uid k w ≡ server.uid k v

abbrev owners_of : ConfigMap → List OwnerReference
owners_of cm = cm.owner_references

module _ {W Client : Type 0} (server : Server W) (ns lock_name j : String) where
  module _ (config : Config Client) (pod : Pod) (cm : ConfigMap) (w : W)
      (reads : ReadsLock server ns lock_name j w pod cm) where
    abbrev first_loop : Loop Client
    first_loop = record {
      config = config;
      ns = ns;
      lock_name = lock_name;
      owner = owner_of pod;
      backoff = second;
    }

    reads_itself :
        (in_cluster : Result Error Client) (opts : List (Opt Client))
        → configure in_cluster opts ≡ ok config
        → j ≢ ""
        → advance server (become j (ok ns) in_cluster lock_name opts) w
          ≡ (campaign first_loop, (server.answer (get_pod (key_of ns j)) w).1)
    unfolding advance become start my_owner_ref
    reads_itself in_cluster opts good named =
        rw (good, start, ==_of_ne j "" named) (rw reads.itself refl)

    reads_lock :
        owned_by pod.key.name cm.owner_references ≡ true
        → advance server (campaign first_loop) (server.answer (get_pod (key_of ns j)) w).1
          ≡ (ret (finished none), read_twice server ns lock_name j w)
    unfolding advance campaign
    reads_lock mine = rw (reads.lock, mine) refl

  leads_again :
      (s : System W Client) (config : Config Client) (pod : Pod) (cm : ConfigMap)
      (in_cluster : Result Error Client) (opts : List (Opt Client))
      → ReadsLock server ns lock_name j s.world pod cm
      → configure in_cluster opts ≡ ok config
      → j ≢ ""
      → owned_by pod.key.name cm.owner_references ≡ true
      → s.proc j ≡ some (become j (ok ns) in_cluster lock_name opts)
      → At server ns lock_name j s (ret (finished none)) (read_twice server ns lock_name j s.world)
  leads_again s config pod cm in_cluster opts reads good named mine at_j =
      step_to server ns lock_name j s _ _ _ _ (reads_lock config pod cm s.world reads mine) (
        step_to server ns lock_name j s _ _ _ _
          (reads_itself config pod cm s.world reads in_cluster opts good named)
          (begun server ns lock_name j s (become j (ok ns) in_cluster lock_name opts) at_j))

-- A pod is created with the name of the lock's one owner, which is gone, before the garbage
-- collector has removed the lock: it reads the lock and leads. The garbage collector may still
-- remove the lock, as the owner's UID is another one, and a second pod take it: from every state
-- that the cluster reaches, with such a lock and a second pod whose call of `Become` has not
-- returned an error, it reaches one in which both lead. (Nodes may all be ready; in any state of
-- the world the lock may have been removed in the next one; the API server is consistent and serves
-- the second pod, and the configuration and POD_NAME of both are good.)
pub stale_name :
    {W Client : Type 0} (server : Server W) (ns lock_name i j : String) (s t : System W Client)
    (p : Prog (Next Client)) (cm : ConfigMap) (o : OwnerReference) (w : W) (pod : Pod)
    (in_cluster : Result Error Client) (opts : List (Opt Client)) (c : Config Client)
    → IsConsistent server (key_of ns lock_name)
    → Serves server (key_of ns i) (key_of ns lock_name)
    → Collects server
    → IsInitial server s
    → Reach server ns lock_name s t
    → t.proc i ≡ some p
    → ¬ HasFailed p
    → t.proc j ≡ none
    → server.lock t.world ≡ some cm
    → cm.owner_references ≡ o ∷ []
    → o.name ≡ j
    → Renews server j t.world w
    → server.uid j w ≢ o.uid
    → ReadsLock server ns lock_name j w pod cm
    → configure in_cluster opts ≡ ok c
    → i ≢ ""
    → j ≢ ""
    → i ≢ j
    → (u : System W Client) × Reach server ns lock_name t u × Leads u i × Leads u j
stale_name server ns lock_name i j s t p cm o w pod in_cluster opts c consistent serves collects
      init reach at_i going absent there owners is_j renews renewed reads good i_named j_named ne =
    let program = become j (ok ns) in_cluster lock_name opts in
    let created : System _ _ = record { world = w; proc = update t.proc j (some program) } in
    let mine : owned_by pod.key.name cm.owner_references ≡ true =
      rw (consistent.named (key_of ns j) w reads.itself ∙ sym is_j) (owner_owns cm o owners) in
    let r =
      leads_again server ns lock_name j created c pod cm in_cluster opts reads good j_named mine
        (update_same j t.proc (some program)) in
    let before =
      Reach-trans server ns lock_name t created r.last
        (next here (create j w in_cluster opts absent renews.lock renews.others)) r.reach in
    let kept : server.lock r.last.world ≡ some cm =
      ap server.lock r.world
      ∙ (consistent.reads_keep (key_of ns lock_name) _).2
      ∙ (consistent.reads_keep (key_of ns j) w).0
      ∙ renews.lock
      ∙ there in
    let uid : server.uid j r.last.world ≡ server.uid j w =
      ap (server.uid j) r.world
      ∙ consistent.uid_keeps (get_config_map (key_of ns lock_name)) _ j
      ∙ consistent.uid_keeps (get_pod (key_of ns j)) w j in
    let orphaned : IsOrphaned server r.last = λ cm' there'.
      subst (λ os. AreGone server os r.last)
        (sym (ap owners_of (some-injective _ _ (sym there' ∙ kept)) ∙ owners))
        (inr (λ e. renewed (sym uid ∙ ap (λ n. server.uid n r.last.world) (sym is_j) ∙ e)), tt) in
    let (gone, free, uids) = collects r.last.world in
    let (v, after, others, ends) =
      succession server ns lock_name i s r.last p gone in_cluster opts c consistent serves init
        (Reach-trans server ns lock_name s t r.last reach before)
        (r.others i (λ e. ne (sym e))
          ∙ update_ne j t.proc (some program) i (λ e. ne (sym e))
          ∙ at_i)
        going orphaned free uids good i_named in
    let to_v = Reach-trans server ns lock_name t r.last v before after in
    elim ends [
      | inl leads ↦ (v, to_v, leads, others j ne ∙ r.at_i)
      | inr (_, (u, later, leads, others')) ↦
          (u, Reach-trans server ns lock_name t v u to_v later, leads, others' j ne ∙ r.at_i)
    ]
