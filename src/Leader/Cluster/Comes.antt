-- ===== src/Leader/Cluster/Comes.antt =====
-- What `Become` comes to where an API server serves it.
use operator_lib.Common.{
  ◌⊎◌, ◌==◌, string_eq, List, Result, Bool-cases, String, ◌≡◌, ◌≢◌, refl, sym, ◌∙◌, ==_sound, inl,
  inr, Option, none, some, ok, err,
}
use mathlib.Core.Path.{subst}
use operator_lib.Objects.{NamespacedName}
use operator_lib.Leader.Program.{
  not_found, ConfigMap, Request, Reply, already_exists, elapsed, cancelled, get_pod, get_node,
  get_config_map, create_config_map, delete_config_map, delete_pod, wait, Prog, ret, call, ◌>>=◌,
}
use operator_lib.Leader.Helpers.{
  api, failed, pod_name_unset, Config, my_owner_ref, Error, Loop, Next, finished, again,
}
use operator_lib.Leader.Loop.{
  start, become, campaign, owned_by, lock_key, inspect_owners, pause, contend, attempt,
}
use operator_lib.Leader.Options.{Opt, configure}
use operator_lib.Leader.Rounds.{Ends}
use operator_lib.Leader.Possible.{Possible, IsHarmless, inspect_owners-Succeeds}
use operator_lib.Leader.Waits.{Swift, inspect_owners-Swift}
use operator_lib.Leader.Cluster.{Server, key_of}

-- The answers of an API server that does what it is asked where it can: a creation fails only because
-- the config map is there, a reading or a deletion because there is no such object; and the pod `own`
-- is there.
abbrev pub Normal : (own : NamespacedName) (r : Request) → Reply r → Type 0
Normal own (create_config_map cm) (ok _) = Unit
Normal own (create_config_map cm) (err e) = e ≡ already_exists
Normal own (get_pod key) (ok p) = Unit
Normal own (get_pod key) (err e) = (e ≡ not_found) × (key ≢ own)
Normal own (get_node key) x = Unit
Normal own (get_config_map key) (ok cm) = Unit
Normal own (get_config_map key) (err e) = e ≡ not_found
Normal own (delete_config_map cm) x = Possible (Unit {0}) (delete_config_map cm) x
Normal own (delete_pod p) x = Possible (Unit {0}) (delete_pod p) x
Normal own (wait d) x = Possible (Unit {0}) (wait d) x

-- Such a server, which creates the lock where there is none.
pub record Serves {W : Type 0} (server : Server W) (own key : NamespacedName) : Type 0 where
  pub normal : (r : Request) (w : W) → Normal own r (server.answer r w).0
  pub creates :
      (cm : ConfigMap) (w : W)
      → cm.key ≡ key
      → server.lock w ≡ none
      → (server.answer (create_config_map cm) w).0 ≡ ok tt

Normal-Possible :
    (own key : NamespacedName) (x : Reply (get_pod key))
    → Normal own (get_pod key) x
    → Possible (Unit {0}) (get_pod key) x
Normal-Possible own key (ok p) n = tt
Normal-Possible own key (err e) n = n.0

module _ {Client : Type 0} (miss : Type 0) (own key : NamespacedName) where
  -- The program ends the round as the leader, or goes on to the next one; a creation that succeeds
  -- makes it the leader at once. If it may `miss`, it may delete, and end with the error of a deletion
  -- that finds nothing.
  abbrev pub Comes : Prog (Next Client) → Type 0
  Comes (ret (finished none)) = Unit
  Comes (ret (finished (some e))) = (e ≡ api not_found) × miss
  Comes (ret (again l)) = lock_key l ≡ key
  Comes (call (create_config_map cm) k) =
      (cm.key ≡ key) × (k (ok tt) ≡ ret (finished none)) × (miss → Comes (k (err already_exists)))
  Comes (call (get_pod p) k) = (x : Reply (get_pod p)) → Normal own (get_pod p) x → Comes (k x)
  Comes (call (get_node p) k) = (x : Reply (get_node p)) → Comes (k x)
  Comes (call (get_config_map p) k) =
      (x : Reply (get_config_map p)) → Normal own (get_config_map p) x → Comes (k x)
  Comes (call (delete_config_map p) k) =
      miss × ((x : Reply (delete_config_map p)) → Normal own (delete_config_map p) x → Comes (k x))
  Comes (call (delete_pod p) k) =
      miss × ((x : Reply (delete_pod p)) → Normal own (delete_pod p) x → Comes (k x))
  Comes (call (wait d) k) = (x : Reply (wait d)) → Normal own (wait d) x → Comes (k x)

  Comes->>= :
      (m : Prog (Option Error)) (f : Option Error → Prog (Next Client))
      → Swift m
      → Ends (Possible (Unit {0})) (IsHarmless (Unit {0})) m
      → miss
      → Comes (f none)
      → Comes (f (some (api not_found)))
      → Comes (m >>= f)
  Comes->>= (ret a) f s (inl e) may h lost = subst (λ b. Comes (f b)) (sym e) h
  Comes->>= (ret a) f s (inr (e, _)) may h lost = subst (λ b. Comes (f b)) (sym e) lost
  Comes->>= (call (wait d) k) f s e may h lost = absurd s.0
  Comes->>= (call (create_config_map cm) k) f s e may h lost = absurd s.0
  Comes->>= (call (get_pod p) k) f s e may h lost =
      λ x n. Comes->>= (k x) f (s.1 x) (e x (Normal-Possible own p x n)) may h lost
  Comes->>= (call (get_node p) k) f s e may h lost =
      λ x. Comes->>= (k x) f (s.1 x) (e x tt) may h lost
  Comes->>= (call (get_config_map p) k) f s e may h lost =
      λ x n. Comes->>= (k x) f (s.1 x) (e x tt) may h lost
  Comes->>= (call (delete_config_map p) k) f s e may h lost =
      (may, λ x n. Comes->>= (k x) f (s.1 x) (e x n) may h lost)
  Comes->>= (call (delete_pod p) k) f s e may h lost =
      (may, λ x n. Comes->>= (k x) f (s.1 x) (e x n) may h lost)

  pause-Comes : (l : Loop Client) → lock_key l ≡ key → Comes (pause l)
  unfolding pause
  pause-Comes l mine = elim [ elapsed ↦ λ _. mine | cancelled reason ↦ λ h. absurd h ]

  contend-Comes : (l : Loop Client) → lock_key l ≡ key → miss → Comes (contend l)
  unfolding contend
  contend-Comes l mine may = elim [
    | err e ↦ λ _. mine
    | ok cm ↦ λ _.
        Comes->>= (inspect_owners l.ns cm.owner_references cm) _
          (inspect_owners-Swift l.ns cm.owner_references cm)
          (inspect_owners-Succeeds (Unit {0}) l.ns cm.owner_references cm) may (pause-Comes l mine)
          (refl, may)
  ]

  pub attempt-Comes : (l : Loop Client) → lock_key l ≡ key → Comes (attempt l)
  unfolding attempt
  attempt-Comes l mine = (mine, refl, contend-Comes l mine)

  campaign-Comes : (l : Loop Client) → lock_key l ≡ key → Comes (campaign l)
  unfolding campaign
  campaign-Comes l mine = elim [
    | ok cm ↦ λ _. elim (Bool-cases (owned_by l.owner.name cm.owner_references)) [
      | inl owned ↦ rw owned tt
      | inr other ↦ rw other mine
    ]
    | err e ↦ λ n. rw n mine
  ]

module _ {Client : Type 0} (own key : NamespacedName) where
  pub answered-Comes :
      (r : Request) (k : Reply r → Prog (Next Client)) (x : Reply r)
      → Normal own r x
      → Comes (Unit {0}) own key (call r k)
      → Comes (Unit {0}) own key (k x)
  answered-Comes (create_config_map cm) k (ok tt) n c =
      subst (Comes (Unit {0}) own key) (sym c.1) tt
  answered-Comes (create_config_map cm) k (err e) n c =
      subst (λ e'. Comes (Unit {0}) own key (k (err e'))) (sym n) (c.2 tt)
  answered-Comes (get_pod p) k x n c = c x n
  answered-Comes (get_node p) k x n c = c x
  answered-Comes (get_config_map p) k x n c = c x n
  answered-Comes (delete_config_map p) k x n c = c.1 x n
  answered-Comes (delete_pod p) k x n c = c.1 x n
  answered-Comes (wait d) k x n c = c x n

-- The program has ended with an error.
abbrev pub HasFailed : {Client : Type 0} → Prog (Next Client) → Type 0
HasFailed p = (e : Error) × (p ≡ ret (failed e))

start-Comes :
    {Client : Type 0} (miss : Type 0) (i ns lock_name : String) (c : Result Error (Config Client))
    → ((e : Error) × (c ≡ err e))
      ⊎ (i ≡ "")
      ⊎ Comes miss (key_of ns i) (key_of ns lock_name) (start i c (ok ns) lock_name)
unfolding start my_owner_ref
start-Comes miss i ns lock_name (err e) = inl (e, refl)
start-Comes miss i ns lock_name (ok c) = elim (Bool-cases (i == "")) [
  | inl unset ↦ inr (inl (==_sound i "" unset))
  | inr set ↦ rw set (
      inr (
        inr (elim [
          | ok p ↦ λ _. campaign-Comes miss (key_of ns i) (key_of ns lock_name) _ refl
          | err e ↦ λ n. absurd (n.1 refl)
        ])))
]

start-HasFailed :
    {Client : Type 0} (i ns lock_name : String) (c : Result Error (Config Client))
    → ((e : Error) × (c ≡ err e)) ⊎ (i ≡ "")
    → HasFailed (start i c (ok ns) lock_name)
unfolding start my_owner_ref
start-HasFailed i ns lock_name c (inl (e, bad)) = (e, rw (bad, start) refl)
start-HasFailed i ns lock_name (err e) (inr unset) = (e, refl)
start-HasFailed i ns lock_name (ok c) (inr unset) = (pod_name_unset, rw (unset, start) refl)

-- Where the pod is there and the API server serves it, `Become` fails at once or comes to lead.
pub become-Comes :
    {Client : Type 0} (i ns lock_name : String) (in_cluster : Result Error Client)
    (opts : List (Opt Client))
    → HasFailed (become i (ok ns) in_cluster lock_name opts)
      ⊎ Comes
          (Unit {0})
          (key_of ns i)
          (key_of ns lock_name)
          (become i (ok ns) in_cluster lock_name opts)
unfolding become
become-Comes i ns lock_name in_cluster opts =
    let c = configure in_cluster opts in
    elim (start-Comes (Unit {0}) i ns lock_name c) [
      | inl bad ↦ inl (start-HasFailed i ns lock_name c (inl bad))
      | inr (inl unset) ↦ inl (start-HasFailed i ns lock_name c (inr unset))
      | inr (inr comes) ↦ inr comes
    ]

-- With a good configuration and a name it does not fail, and deletes nothing before it has tried to
-- create the lock.
pub become-Comes_straight :
    {Client : Type 0} (i ns lock_name : String) (in_cluster : Result Error Client)
    (opts : List (Opt Client)) (c : Config Client)
    → configure in_cluster opts ≡ ok c
    → i ≢ ""
    → Comes ⊥ (key_of ns i) (key_of ns lock_name) (become i (ok ns) in_cluster lock_name opts)
unfolding become
become-Comes_straight {Client = Client} i ns lock_name in_cluster opts c good named =
    elim (start-Comes ⊥ i ns lock_name (configure in_cluster opts)) [
      | inl (e, bad) ↦ absurd (ok_err (sym good ∙ bad))
      | inr (inl unset) ↦ absurd (named unset)
      | inr (inr comes) ↦ comes
    ]
  where
    ok_err : {e : Error} → ◌≡◌ {A = Result Error (Config Client)} (ok c) (err e) → ⊥
    ok_err h = cc
