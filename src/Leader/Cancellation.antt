-- ===== src/Leader/Cancellation.antt =====
-- That `Become` ends when its context is cancelled.
use operator_lib.Common.{
  String, List, ◌≡◌, refl, Option, some, Result, ok, err, none, Bool-cases, inl, inr,
}
use operator_lib.Leader.Program.{
  Request, Reply, get_config_map, wait, ret, cancelled, is_already_exists,
}
use operator_lib.Leader.Helpers.{Error, Loop, Next, finished, again, context, api}
use operator_lib.Leader.Options.{Opt}
use operator_lib.Utils.{NamespaceError}
use operator_lib.Leader.Loop.{inspect_owners, pause, contend, attempt, become}
use operator_lib.Leader.Rounds.{rounds, Ends, Ends->>=, Ends-any}

-- `Become` returns.
abbrev pub Returns : {Client : Type 0} → Next Client → Type 0
Returns next = (e : Option Error) × (next ≡ finished e)

module _ (reason : String) where
  -- The context is cancelled, and config maps can be read.
  abbrev pub Cancelled : (r : Request) → Reply r → Type 0
  Cancelled (wait d) x = x ≡ cancelled reason
  Cancelled (get_config_map key) (ok cm) = Unit
  Cancelled (get_config_map key) (err e) = ⊥
  Cancelled _ x = Unit

  module _ {Client : Type 0} where
    pause-Returns : (l : Loop Client) → Ends Cancelled Returns (pause l)
    unfolding pause
    pause-Returns l = λ x is. rw is (some (context reason), refl)

    contend-Returns : (l : Loop Client) → Ends Cancelled Returns (contend l)
    unfolding contend
    contend-Returns l = elim [
      | err e ↦ λ h. absurd h
      | ok cm ↦ λ _.
          Ends->>= Cancelled (λ _. Unit {0}) Returns (inspect_owners l.ns cm.owner_references cm) _
            (Ends-any Cancelled (inspect_owners l.ns cm.owner_references cm))
            (elim [ none ↦ λ _. pause-Returns l | some e ↦ λ _. (some e, refl) ])
    ]

    attempt-Returns : (l : Loop Client) → Ends Cancelled Returns (attempt l)
    unfolding attempt
    attempt-Returns l = elim [
      | ok _ ↦ λ _. (none, refl)
      | err e ↦ λ _. elim (Bool-cases (is_already_exists e)) [
        | inl taken ↦ rw taken (contend-Returns l)
        | inr other ↦ rw other (some (api e), refl)
      ]
    ]

    next-Returns :
        (next : Next Client)
        → Ends Cancelled Returns
            (elim next [ finished e ↦ ret (finished e) | again l ↦ rounds 0 (attempt l) ])
    unfolding rounds
    next-Returns (finished e) = (e, refl)
    next-Returns (again l) = attempt-Returns l

-- Where the context is cancelled and config maps can be read, `Become` returns in its first round,
-- whatever else is answered and whether or not it could be configured.
pub become-Returns :
    {Client : Type 0} (reason pod_name lock_name : String) (ns : Result NamespaceError String)
    (in_cluster : Result Error Client) (opts : List (Opt Client))
    → Ends (Cancelled reason) Returns (rounds 1 (become pod_name ns in_cluster lock_name opts))
unfolding rounds
become-Returns reason pod_name lock_name ns in_cluster opts =
    Ends->>= (Cancelled reason) (λ _. Unit {0}) Returns
      (become pod_name ns in_cluster lock_name opts) _
      (Ends-any (Cancelled reason) (become pod_name ns in_cluster lock_name opts))
      (λ next _. next-Returns reason next)
