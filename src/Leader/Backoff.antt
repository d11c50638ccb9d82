-- ===== src/Leader/Backoff.antt =====
-- How long `Become` waits between two rounds.
use operator_lib.Common.{
  ℕ, zero, suc, ◌^◌, ◌≤◌, String, ◌≡◌, sym, inl, inr, List, [], none, some, Result, ok, err, ◌==◌,
  string_eq, Bool-cases,
}
use mathlib.Core.Path.{subst}
use operator_lib.Common.Int.{pos}
use operator_lib.Utils.{NamespaceError}
use operator_lib.Leader.Program.{
  get_pod, get_node, get_config_map, create_config_map, delete_config_map, delete_pod, Request,
  wait, Prog, elapsed, cancelled, not_found, already_exists, other,
}
use operator_lib.Leader.Helpers.{Error, Config, Loop, Next, finished, again, my_owner_ref}
use operator_lib.Leader.Options.{Opt, configure}
use operator_lib.Leader.Loop.{
  inspect_owners, pause, contend, attempt, owned_by, campaign, start, become,
}
use operator_lib.Leader.Rounds.{rounds, Event, Always, Past, Past->>=, Past-Always}
use operator_lib.Leader.Waits.{waits, Timed, IsInspecting, inspect_owners-Swift, Swift-Past}
use operator_lib.Leader.Doubling.{
  IsBackoff, second-IsBackoff, next_backoff-IsBackoff, IsWithin, IsBackoff-IsWithin,
}

-- After `n` waits, a wait is for the backoff that is due then.
abbrev pub IsScheduled : ℕ → ℕ → Request → Type 0
IsScheduled m n (wait d) = IsBackoff m n d
IsScheduled m n _ = Unit

-- `config.MaxBackoffInterval` is `m` nanoseconds, and the backoff is the one due after `n` waits.
abbrev pub Scheduled : {Client : Type 0} → ℕ → ℕ → Loop Client → Type 0
Scheduled m n l = (l.config.max_backoff_interval ≡ pos m) × IsBackoff m n l.backoff

abbrev pub ScheduledNext : {Client : Type 0} → ℕ → ℕ → Next Client → Type 0
ScheduledNext m n (finished e) = Unit
ScheduledNext m n (again l) = Scheduled m n l

abbrev pub IsPaced : ℕ → Request → Type 0
IsPaced m (wait d) = IsWithin m d
IsPaced m _ = Unit

-- `config.MaxBackoffInterval` is `m` nanoseconds, and the next wait is within the bounds.
abbrev pub Paced : {Client : Type 0} → ℕ → Loop Client → Type 0
Paced m l = (l.config.max_backoff_interval ≡ pos m) × IsWithin m l.backoff

abbrev pub PacedNext : {Client : Type 0} → ℕ → Next Client → Type 0
PacedNext m (finished e) = Unit
PacedNext m (again l) = Paced m l

calls : (m n : ℕ) (r : Request) → IsInspecting r → IsScheduled m n r
calls m n (wait d) h = absurd h
calls m n (get_pod key) h = tt
calls m n (get_node key) h = tt
calls m n (get_config_map key) h = tt
calls m n (create_config_map cm) h = absurd h
calls m n (delete_config_map cm) h = tt
calls m n (delete_pod p) h = tt

IsScheduled-IsPaced : (m n : ℕ) (r : Request) → IsScheduled m n r → IsPaced m r
IsScheduled-IsPaced m n (wait d) h = IsBackoff-IsWithin m n d h
IsScheduled-IsPaced m n (get_pod key) h = tt
IsScheduled-IsPaced m n (get_node key) h = tt
IsScheduled-IsPaced m n (get_config_map key) h = tt
IsScheduled-IsPaced m n (create_config_map cm) h = tt
IsScheduled-IsPaced m n (delete_config_map cm) h = tt
IsScheduled-IsPaced m n (delete_pod p) h = tt

ScheduledNext-PacedNext :
    {Client : Type 0} (m n : ℕ) (a : Next Client) → ScheduledNext m n a → PacedNext m a
ScheduledNext-PacedNext m n (finished e) h = tt
ScheduledNext-PacedNext m n (again l) h = (h.0, IsBackoff-IsWithin m n l.backoff h.1)

module _ {Client : Type 0} (m : ℕ) (small : m ≤ 2 ^ 62) where
  abbrev Steady : List Event → Prog (Next Client) → Type 0
  Steady = Past (Timed (IsScheduled m)) (λ h. ScheduledNext m (waits h))

  pause-Steady : (h : List Event) (l : Loop Client) → Scheduled m (waits h) l → Steady h (pause l)
  unfolding pause waits
  pause-Steady h l p = (
    p.1,
    elim [ elapsed ↦ (p.0, next_backoff-IsBackoff m (waits h) l small p.0 p.1) | cancelled _ ↦ tt ],
  )

  contend-Steady :
      (h : List Event) (l : Loop Client) → Scheduled m (waits h) l → Steady h (contend l)
  unfolding contend waits
  contend-Steady h l p = (
    tt,
    elim [
      | err e ↦ p
      | ok cm ↦
          Past->>= (Timed (IsScheduled m)) (λ h'. ScheduledNext m (waits h')) _
            (inspect_owners l.ns cm.owner_references cm) _
            (Swift-Past (IsScheduled m) (calls m) _ _
              (inspect_owners-Swift l.ns cm.owner_references cm))
            (elim [
              | none ↦ λ h' same. pause-Steady h' l (subst (λ n. Scheduled m n l) (sym same) p)
              | some e ↦ λ h' _. tt
            ])
    ],
  )

  attempt-Steady :
      (h : List Event) (l : Loop Client) → Scheduled m (waits h) l → Steady h (attempt l)
  unfolding attempt waits
  attempt-Steady h l p = (
    tt,
    elim [
      | ok _ ↦ tt
      | err not_found ↦ tt
      | err already_exists ↦ contend-Steady _ l p
      | err (other _) ↦ tt
    ],
  )

  rounds-Steady :
      (n : ℕ) (h : List Event) (p : Prog (Next Client)) → Steady h p → Steady h (rounds n p)
  unfolding rounds
  rounds-Steady zero h p s = s
  rounds-Steady (suc n) h p s =
      Past->>= (Timed (IsScheduled m)) (λ h'. ScheduledNext m (waits h')) h p _ s
        (elim [
          | finished e ↦ λ h' _. tt
          | again l ↦ λ h' due. rounds-Steady n h' (attempt l) (attempt-Steady h' l due)
        ])

  campaign-Steady :
      (h : List Event) (l : Loop Client) → Scheduled m (waits h) l → Steady h (campaign l)
  unfolding campaign waits
  campaign-Steady h l p = (
    tt,
    elim [
      | ok cm ↦ elim (Bool-cases (owned_by l.owner.name cm.owner_references)) [
        | inl mine ↦ rw mine tt
        | inr theirs ↦ rw theirs p
      ]
      | err not_found ↦ p
      | err already_exists ↦ tt
      | err (other _) ↦ tt
    ],
  )

  start-Steady :
      (pod_name : String) (c : Config Client) (ns : Result NamespaceError String)
      (lock_name : String)
      → c.max_backoff_interval ≡ pos m
      → Steady [] (start pod_name (ok c) ns lock_name)
  unfolding start my_owner_ref waits
  start-Steady pod_name c (err e) lock_name max = tt
  start-Steady pod_name c (ok ns) lock_name max = elim (Bool-cases (pod_name == "")) [
    | inl unset ↦ rw unset tt
    | inr set ↦
        rw set (tt, elim [ err e ↦ tt | ok p ↦ campaign-Steady _ _ (max, second-IsBackoff m) ])
  ]

-- With a configuration whose interval is `m` nanoseconds, up to 2^62 of them, each backoff that
-- `Become` waits for, in any number of rounds, is one second, doubled once for each earlier wait
-- whose backoff was below the interval; from the first one on that is not below it, the backoff stays
-- as it is. The doubling does not overflow.
pub become-IsScheduled :
    {Client : Type 0} (m : ℕ) (pod_name : String) (ns : Result NamespaceError String)
    (in_cluster : Result Error Client) (lock_name : String) (opts : List (Opt Client))
    (c : Config Client) (n : ℕ)
    → m ≤ 2 ^ 62
    → configure in_cluster opts ≡ ok c
    → c.max_backoff_interval ≡ pos m
    → Past
        (Timed (IsScheduled m))
        (λ h. ScheduledNext m (waits h))
        []
        (rounds n (become pod_name ns in_cluster lock_name opts))
unfolding become
become-IsScheduled m pod_name ns in_cluster lock_name opts c n small good max = rw good (
    rounds-Steady m small n [] (start pod_name (ok c) ns lock_name)
      (start-Steady m small pod_name c ns lock_name max))

-- With a configuration whose interval is `m` nanoseconds, up to 2^62 of them, every backoff that
-- `Become` waits for, in any number of rounds, is one second, or at least a second and less than
-- twice the interval: the doubling does not overflow.
pub become-IsPaced :
    {Client : Type 0} (m : ℕ) (pod_name : String) (ns : Result NamespaceError String)
    (in_cluster : Result Error Client) (lock_name : String) (opts : List (Opt Client))
    (c : Config Client) (n : ℕ)
    → m ≤ 2 ^ 62
    → configure in_cluster opts ≡ ok c
    → c.max_backoff_interval ≡ pos m
    → Always (IsPaced m) (PacedNext m) (rounds n (become pod_name ns in_cluster lock_name opts))
become-IsPaced m pod_name ns in_cluster lock_name opts c n small good max =
    Past-Always {R = Timed (IsScheduled m)} {P = λ h. ScheduledNext m (waits h)} {R' = IsPaced m}
      {P' = PacedNext m} [] (rounds n (become pod_name ns in_cluster lock_name opts))
      (λ h. IsScheduled-IsPaced m (waits h)) (λ h. ScheduledNext-PacedNext m (waits h))
      (become-IsScheduled m pod_name ns in_cluster lock_name opts c n small good max)
