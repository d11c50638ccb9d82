-- ===== src/Leader/Start.antt =====
-- leader/leader.go, `Become` up to its loop: what it has found out and returned, or with which
-- variables it goes into the loop.
use operator_lib.Common.{
  String, ◌≡◌, ◌≢◌, refl, sym, ◌∙◌, inl, inr, ◌↔◌, List, none, Result, ok, err, ◌==◌, string_eq,
  ==_sound, ==_of_ne, Bool-cases, Result-cases, true, false,
}
use mathlib.Core.Bool.{false≢true}
use mathlib.Core.Path.{subst}
use operator_lib.Utils.{NamespaceError}
use operator_lib.Leader.Program.{
  ConfigMap, Pod, ApiError, not_found, already_exists, other, Request, Reply, get_pod,
  get_config_map,
}
use operator_lib.Leader.Helpers.{
  Error, namespace, pod_name_unset, api, second, Config, Loop, Next, finished, again, failed,
  my_owner_ref, owner_of,
}
use operator_lib.Leader.Options.{Opt, configure}
use operator_lib.Leader.Loop.{owned_by, campaign, start, become}
use operator_lib.Leader.Rounds.{run}

module _ {W Client : Type 0} (answer : (r : Request) → W → Reply r × W)
    (pod_name lock_name : String) (c : Result Error (Config Client))
    (ns : Result NamespaceError String) (w : W) where
  -- The answer for the pod itself, and then for the lock, in a namespace.
  abbrev pub own_pod : String → Result ApiError Pod × W
  own_pod n = answer (get_pod (record { namespace = n; name = pod_name })) w

  abbrev pub first_lock : String → Result ApiError ConfigMap × W
  first_lock n = answer (get_config_map (record { namespace = n; name = lock_name })) (own_pod n).1

  -- the variables before the first round
  abbrev pub loop_of : Config Client → String → Pod → Loop Client
  loop_of config n pod = record {
    config = config;
    ns = n;
    lock_name = lock_name;
    owner = owner_of pod;
    backoff = second;
  }

  -- The configuration is good, the namespace is known, and POD_NAME is set.
  pub record Ready (config : Config Client) (n : String) : Type 0 where
    pub configured : c ≡ ok config
    pub placed : ns ≡ ok n
    pub named : pod_name ≢ ""

  -- The pod has been found, too.
  pub record Found (config : Config Client) (n : String) (pod : Pod) : Type 0 where
    pub ready : Ready config n
    pub itself : (own_pod n).0 ≡ ok pod

  -- What `Become` returns before its loop, or with which variables it goes on, and the state that its
  -- calls leave.
  pub data Starts : Next Client → W → Type 0 where
    unconfigured : (e : Error) → c ≡ err e → Starts (failed e) w
    unplaced :
        (config : Config Client) (e : NamespaceError)
        → c ≡ ok config
        → ns ≡ err e
        → Starts (failed (namespace e)) w
    unnamed :
        (config : Config Client) (n : String)
        → c ≡ ok config
        → ns ≡ ok n
        → pod_name ≡ ""
        → Starts (failed pod_name_unset) w
    pod_unread :
        (config : Config Client) (n : String) (e : ApiError)
        → Ready config n
        → (own_pod n).0 ≡ err e
        → Starts (failed (api e)) (own_pod n).1
    lock_unread :
        (config : Config Client) (n : String) (pod : Pod) (e : ApiError)
        → Found config n pod
        → (first_lock n).0 ≡ err e
        → e ≢ not_found
        → Starts (failed (api e)) (first_lock n).1
    leads :
        (config : Config Client) (n : String) (pod : Pod) (cm : ConfigMap)
        → Found config n pod
        → (first_lock n).0 ≡ ok cm
        → owned_by pod.key.name cm.owner_references ≡ true
        → Starts (finished none) (first_lock n).1
    no_lock :
        (config : Config Client) (n : String) (pod : Pod)
        → Found config n pod
        → (first_lock n).0 ≡ err not_found
        → Starts (again (loop_of config n pod)) (first_lock n).1
    lock_of_others :
        (config : Config Client) (n : String) (pod : Pod) (cm : ConfigMap)
        → Found config n pod
        → (first_lock n).0 ≡ ok cm
        → owned_by pod.key.name cm.owner_references ≡ false
        → Starts (again (loop_of config n pod)) (first_lock n).1

  -- Once the pod is found, the lock is looked for.
  run-Found :
      (config : Config Client) (n : String) (pod : Pod)
      → Found config n pod
      → run answer (start pod_name c ns lock_name) w
        ≡ run answer (campaign (loop_of config n pod)) (own_pod n).1
  unfolding start my_owner_ref run
  run-Found config n pod f =
      rw (f.ready.configured, f.ready.placed, start, ==_of_ne pod_name "" f.ready.named, f.itself)
        refl

  Starts-run :
      (x : Next Client) (w' : W)
      → Starts x w'
      → run answer (start pod_name c ns lock_name) w ≡ (x, w')
  unfolding start my_owner_ref campaign run
  Starts-run x w' (Starts.unconfigured e bad) = rw (bad, start) refl
  Starts-run x w' (Starts.unplaced config e good missing) = rw (good, missing, start) refl
  Starts-run x w' (Starts.unnamed config n good placed empty) = rw (good, placed, empty, start) refl
  Starts-run x w' (Starts.pod_unread config n e r lost) =
      rw (r.configured, r.placed, start, ==_of_ne pod_name "" r.named, lost) refl
  Starts-run x w' (Starts.lock_unread config n pod not_found f lost found) = absurd (found refl)
  Starts-run x w' (Starts.lock_unread config n pod already_exists f lost _) =
      rw (run-Found config n pod f, lost) refl
  Starts-run x w' (Starts.lock_unread config n pod (other m) f lost _) =
      rw (run-Found config n pod f, lost) refl
  Starts-run x w' (Starts.leads config n pod cm f there mine) =
      rw (run-Found config n pod f, there, mine) refl
  Starts-run x w' (Starts.no_lock config n pod f lost) = rw (run-Found config n pod f, lost) refl
  Starts-run x w' (Starts.lock_of_others config n pod cm f there theirs) =
      rw (run-Found config n pod f, there, theirs) refl

  -- Some outcome is there.
  abbrev HasOutcome : Type 0
  HasOutcome = (x : Next Client) × (w' : W) × Starts x w'

  after_lock :
      (config : Config Client) (n : String) (pod : Pod)
      → Found config n pod
      → (r : Result ApiError ConfigMap) → (first_lock n).0 ≡ r
      → HasOutcome
  after_lock config n pod f (ok cm) there =
      elim (Bool-cases (owned_by pod.key.name cm.owner_references)) [
        | inl mine ↦ (_, _, Starts.leads config n pod cm f there mine)
        | inr theirs ↦ (_, _, Starts.lock_of_others config n pod cm f there theirs)
      ]
  after_lock config n pod f (err not_found) lost = (_, _, Starts.no_lock config n pod f lost)
  after_lock config n pod f (err already_exists) lost =
      (_, _, Starts.lock_unread config n pod already_exists f lost (λ e. cc))
  after_lock config n pod f (err (other m)) lost =
      (_, _, Starts.lock_unread config n pod (other m) f lost (λ e. cc))

  after_config : (config : Config Client) (n : String) → c ≡ ok config → ns ≡ ok n → HasOutcome
  after_config config n good placed = elim (Bool-cases (pod_name == "")) [
    | inl unset ↦ (_, _, Starts.unnamed config n good placed (==_sound pod_name "" unset))
    | inr set ↦
        let ready : Ready config n = record {
          configured = good;
          placed = placed;
          named = λ e. false≢true (sym set ∙ (string_eq.beq_iff pod_name "").1 e);
        } in
        elim (Result-cases (own_pod n).0) [
          | inl (pod, itself) ↦
              after_lock config n pod (record { ready = ready; itself = itself }) _ refl
          | inr (e, lost) ↦ (_, _, Starts.pod_unread config n e ready lost)
        ]
  ]

  some_outcome : HasOutcome
  some_outcome = elim (Result-cases c) [
    | inr (e, bad) ↦ (_, _, Starts.unconfigured e bad)
    | inl (config, good) ↦ elim (Result-cases ns) [
      | inr (e, missing) ↦ (_, _, Starts.unplaced config e good missing)
      | inl (n, placed) ↦ after_config config n good placed
    ]
  ]

-- What `Become` does before its loop, whatever is answered. It ends with the error of its
-- configuration, else of the namespace, else of an empty POD_NAME, with no call made; else with that
-- of reading the pod itself, after this one call; else, after one more, with that of reading the lock,
-- unless there is none. It returns nil there exactly if the pod is named among the lock's owners, as
-- after a restart. Else it goes into its loop with the pod as the owner of the lock that it wants and
-- with a backoff of one second. There is no other outcome.
pub become-Starts_iff :
    {W Client : Type 0} (answer : (r : Request) → W → Reply r × W) (pod_name lock_name : String)
    (ns : Result NamespaceError String) (in_cluster : Result Error Client)
    (opts : List (Opt Client)) (w w' : W) (x : Next Client)
    → (run answer (become pod_name ns in_cluster lock_name opts) w ≡ (x, w'))
      ↔ Starts answer pod_name lock_name (configure in_cluster opts) ns w x w'
unfolding become
become-Starts_iff answer pod_name lock_name ns in_cluster opts w w' x =
    let c = configure in_cluster opts in
    let (x', v, s) = some_outcome answer pod_name lock_name c ns w in
    (
      (λ h.
          subst (λ r. Starts answer pod_name lock_name c ns w r.0 r.1)
            (sym (Starts-run answer pod_name lock_name c ns w x' v s) ∙ h) s),
      Starts-run answer pod_name lock_name c ns w x w',
    )
