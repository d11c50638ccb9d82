-- ===== src/Leader/Endings.antt =====
-- With what a call of `Become` ends: why it returns nil, and where each of its errors is from.
use operator_lib.Common.{
  ℕ, zero, suc, String, ◌≡◌, refl, inl, inr, List, [], ◌∷◌, none, some, Result, ok, err, ◌==◌,
  string_eq, ==_sound, Bool-cases,
}
use operator_lib.Common.Int.{ℤ}
use operator_lib.Leader.Program.{
  Pod, get_pod, Prog, elapsed, cancelled, not_found, already_exists, other,
}
use operator_lib.Leader.Helpers.{Error, Config, Loop, Next, finished, again, my_owner_ref, owner_of}
use operator_lib.Leader.Options.{Opt, configure}
use operator_lib.Leader.Loop.{
  inspect_owners, pause, contend, attempt, owned_by, campaign, start, become,
}
use operator_lib.Leader.Causes.{Cause, Began, Won, Stop, Silent, inspect_owners-Stops}
use operator_lib.Leader.Rounds.{rounds, Event, Past, Past->>=, Past-stays}

module _ {Client : Type 0} (pod_name ns lock_name : String) (c : Result Error (Config Client)) where
  -- The loop goes on for this lock, with the pod as its owner.
  pub record Goes (l : Loop Client) (h : List Event) : Type 0 where
    pub in_ns : l.ns ≡ ns
    pub for_lock : l.lock_name ≡ lock_name
    pub pod : Pod
    pub is_owner : l.owner ≡ owner_of pod
    pub self : Began pod_name ns pod h

  abbrev pub Ending : List Event → Next Client → Type 0
  Ending h (finished none) = Won pod_name ns lock_name h
  Ending h (finished (some e)) = Cause pod_name c h e
  Ending h (again l) = Goes l h

  abbrev Ends : List Event → Prog (Next Client) → Type 0
  Ends = Past Silent Ending

  later-Goes : (l : Loop Client) (e : Event) (h : List Event) → Goes l h → Goes l (e ∷ h)
  later-Goes l e h g = record {
    in_ns = g.in_ns;
    for_lock = g.for_lock;
    pod = g.pod;
    is_owner = g.is_owner;
    self = Began.later e h g.self;
  }

  pause-Ends : (h : List Event) (l : Loop Client) → Goes l h → Ends h (pause l)
  unfolding pause
  pause-Ends h l g = (
    tt,
    elim [
      | elapsed ↦ record {
        in_ns = g.in_ns;
        for_lock = g.for_lock;
        pod = g.pod;
        is_owner = g.is_owner;
        self = Began.later _ h g.self;
      }
      | cancelled reason ↦ Cause.stopped l.backoff reason h
    ],
  )

  contend-Ends : (h : List Event) (l : Loop Client) → Goes l h → Ends h (contend l)
  unfolding contend
  contend-Ends h l g = (
    tt,
    elim [
      | err e ↦ later-Goes l _ h g
      | ok cm ↦
          Past->>= Silent Ending _ (inspect_owners l.ns cm.owner_references cm) _
            (Past-stays Silent (Stop pod_name ns c) (Goes l) (later-Goes l) _
              (inspect_owners l.ns cm.owner_references cm) (later-Goes l _ h g)
              (rw g.in_ns (inspect_owners-Stops pod_name ns c _ cm.owner_references cm)))
            (elim [ none ↦ λ h' s. pause-Ends h' l s.1 | some e ↦ λ h' s. s.0 ])
    ],
  )

  attempt-Ends : (h : List Event) (l : Loop Client) → Goes l h → Ends h (attempt l)
  unfolding attempt
  attempt-Ends h l g = (
    tt,
    elim [
      | ok _ ↦ rw (g.in_ns, g.for_lock, g.is_owner) (Won.created g.pod h g.self)
      | err not_found ↦ Cause.not_created _ not_found h (λ e. cc)
      | err already_exists ↦ contend-Ends _ l (later-Goes l _ h g)
      | err (other m) ↦ Cause.not_created _ (other m) h (λ e. cc)
    ],
  )

  rounds-Ends : (n : ℕ) (h : List Event) (p : Prog (Next Client)) → Ends h p → Ends h (rounds n p)
  unfolding rounds
  rounds-Ends zero h p s = s
  rounds-Ends (suc n) h p s = Past->>= Silent Ending h p _ s (elim [
    | finished none ↦ λ h' won. won
    | finished (some e) ↦ λ h' cause. cause
    | again l ↦ λ h' g. rounds-Ends n h' (attempt l) (attempt-Ends h' l g)
  ])

  campaign-Ends :
      (p : Pod) (config : Config Client) (d : ℤ)
      → Ends ((get_pod (record { namespace = ns; name = pod_name }), ok p) ∷ []) (
          campaign (record {
            config = config;
            ns = ns;
            lock_name = lock_name;
            owner = owner_of p;
            backoff = d;
          }))
  unfolding campaign
  campaign-Ends p config d = (
    tt,
    elim [
      | ok cm ↦ elim (Bool-cases (owned_by p.key.name cm.owner_references)) [
        | inl mine ↦ rw mine (Won.owned p cm mine)
        | inr theirs ↦ rw theirs goes
      ]
      | err not_found ↦ goes
      | err already_exists ↦ Cause.lock_unread _ already_exists _ (λ e. cc)
      | err (other m) ↦ Cause.lock_unread _ (other m) _ (λ e. cc)
    ],
  )
    where
      goes :
          {e : Event}
          → Goes
              (record {
                config = config;
                ns = ns;
                lock_name = lock_name;
                owner = owner_of p;
                backoff = d;
              })
              (e ∷ (get_pod (record { namespace = ns; name = pod_name }), ok p) ∷ [])
      goes {e} = record {
        in_ns = refl;
        for_lock = refl;
        pod = p;
        is_owner = refl;
        self = Began.later e _ Began.began;
      }

start-Ends :
    {Client : Type 0} (pod_name ns lock_name : String) (c : Result Error (Config Client))
    → Ends pod_name ns lock_name c [] (start pod_name c (ok ns) lock_name)
unfolding start my_owner_ref
start-Ends pod_name ns lock_name (err e) = Cause.unconfigured e refl
start-Ends pod_name ns lock_name (ok c) = elim (Bool-cases (pod_name == "")) [
  | inl unset ↦ rw unset (Cause.unnamed (==_sound pod_name "" unset))
  | inr set ↦ rw set (
    tt,
    elim [
      | err e ↦ Cause.pod_unread _ e []
      | ok p ↦ campaign-Ends pod_name ns lock_name (ok c) p c _
    ],
  )
]

-- In any number of rounds, and whatever is answered: `Become` returns nil only when it has just
-- created the lock with the pod as its one owner, or when it has read at first that the pod is among
-- the lock's owners. It returns an error only if it could not be configured, or POD_NAME is empty, or
-- the last call has failed with this error, or the context has been cancelled in the last wait. That
-- the lock is not there when it is read, or is there when it is created, ends no call. (The namespace
-- is known.)
pub become-Ending :
    {Client : Type 0} (pod_name ns lock_name : String) (in_cluster : Result Error Client)
    (opts : List (Opt Client)) (n : ℕ)
    → Past Silent
        (Ending pod_name ns lock_name (configure in_cluster opts))
        []
        (rounds n (become pod_name (ok ns) in_cluster lock_name opts))
unfolding become
become-Ending pod_name ns lock_name in_cluster opts n =
    rounds-Ends pod_name ns lock_name (configure in_cluster opts) n [] _
      (start-Ends pod_name ns lock_name (configure in_cluster opts))
