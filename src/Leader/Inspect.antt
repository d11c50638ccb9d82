-- ===== src/Leader/Inspect.antt =====
-- leader/leader.go, the `switch` on the lock's owners: what a round does about the leader that it
-- finds.
use operator_lib.Common.{
  String, true, false, not, ◌≡◌, ◌≢◌, refl, sym, ap, ◌∙◌, inl, inr, ◌↔◌, List, [], ◌∷◌, Option,
  none, some, Result, ok, err, ◌==◌, string_eq, ==_sound, Bool-cases,
}
use mathlib.Core.Bool.{false≢true}
use mathlib.Core.Path.{subst}
use operator_lib.Leader.Program.{
  OwnerReference, ConfigMap, Pod, ApiError, not_found, already_exists, other, Request, Reply,
  get_pod,
}
use operator_lib.Leader.Helpers.{Error, api}
use operator_lib.Leader.Loop.{inspect_leader, inspect_owners}
use operator_lib.Leader.Rounds.{run}
use operator_lib.Leader.Judge.{Judges, Judges-judge, some_judgement}

pod_kind : (kind : String) → not (kind == "Pod") ≡ false → kind ≡ "Pod"
pod_kind kind h = elim (Bool-cases (kind == "Pod")) [
  | inl same ↦ ==_sound kind "Pod" same
  | inr differs ↦ absurd (false≢true (sym h ∙ ap not differs))
]

odd_kind : (kind : String) → not (kind == "Pod") ≡ true → kind ≢ "Pod"
odd_kind kind h same = false≢true (sym (ap not ((string_eq.beq_iff kind "Pod").1 same)) ∙ h)

module _ {W : Type 0} (answer : (r : Request) → W → Reply r × W) (ns : String) (cm : ConfigMap)
    (w : W) where
  -- The owner is the one of the lock, and is a pod.
  pub record IsOwner (os : List OwnerReference) (o : OwnerReference) : Type 0 where
    pub single : os ≡ o ∷ []
    pub is_pod : o.kind ≡ "Pod"

  -- the answer for the owner's pod
  abbrev pub looked : OwnerReference → Result ApiError Pod × W
  looked o = answer (get_pod (record { namespace = ns; name = o.name })) w

  -- What is done about the owners, the error that ends `Become`, if any, and the state that is left.
  pub data Inspects (os : List OwnerReference) : Option Error → W → Type 0 where
    nobody : ((o : OwnerReference) → ¬ IsOwner os o) → Inspects os none w
    gone :
        (o : OwnerReference)
        → IsOwner os o
        → (looked o).0 ≡ err not_found
        → Inspects os none (looked o).1
    unread :
        (o : OwnerReference) (e : ApiError)
        → IsOwner os o
        → (looked o).0 ≡ err e
        → e ≢ not_found
        → Inspects os (some (api e)) (looked o).1
    found :
        (o : OwnerReference) (p : Pod) (x : Option Error) (v : W)
        → IsOwner os o
        → (looked o).0 ≡ ok p
        → Judges answer cm p (looked o).1 x v
        → Inspects os x v

  owner-inspect :
      (os : List OwnerReference) (o : OwnerReference)
      → IsOwner os o
      → run answer (inspect_owners ns os cm) w ≡ run answer (inspect_leader ns o cm) w
  unfolding inspect_owners
  owner-inspect os o owner = rw (owner.single, owner.is_pod) refl

  Inspects-inspect :
      (os : List OwnerReference) (x : Option Error) (v : W)
      → Inspects os x v
      → run answer (inspect_owners ns os cm) w ≡ (x, v)
  unfolding inspect_leader inspect_owners run
  Inspects-inspect [] x v (Inspects.nobody none_owns) = refl
  Inspects-inspect (o ∷ o' ∷ os) x v (Inspects.nobody none_owns) = refl
  Inspects-inspect (o ∷ []) x v (Inspects.nobody none_owns) =
      elim (Bool-cases (not (o.kind == "Pod"))) [
        | inl odd ↦ rw odd refl
        | inr pod ↦ absurd (none_owns o (record { single = refl; is_pod = pod_kind o.kind pod }))
      ]
  Inspects-inspect os x v (Inspects.gone o owner lost) = owner-inspect os o owner ∙ rw lost refl
  Inspects-inspect os x v (Inspects.unread o not_found owner lost there) = absurd (there refl)
  Inspects-inspect os x v (Inspects.unread o already_exists owner lost _) =
      owner-inspect os o owner ∙ rw lost refl
  Inspects-inspect os x v (Inspects.unread o (other m) owner lost _) =
      owner-inspect os o owner ∙ rw lost refl
  Inspects-inspect os x v (Inspects.found o p _ _ owner there judged) =
      owner-inspect os o owner ∙ rw there (Judges-judge answer cm p (looked o).1 x v judged)

  after_look :
      (os : List OwnerReference) (o : OwnerReference)
      → IsOwner os o
      → (r : Result ApiError Pod) → (looked o).0 ≡ r
      → (x : Option Error) × (v : W) × Inspects os x v
  after_look os o owner (ok p) there =
      let (x, v, judged) = some_judgement answer cm p (looked o).1 in
      (x, v, Inspects.found o p x v owner there judged)
  after_look os o owner (err not_found) lost = (_, _, Inspects.gone o owner lost)
  after_look os o owner (err already_exists) lost =
      (_, _, Inspects.unread o already_exists owner lost (λ e. cc))
  after_look os o owner (err (other m)) lost =
      (_, _, Inspects.unread o (other m) owner lost (λ e. cc))

  some_outcome : (os : List OwnerReference) → (x : Option Error) × (v : W) × Inspects os x v
  some_outcome [] = (_, _, Inspects.nobody (λ o owner. nil_owner o owner.single))
    where
      nil_owner : (o : OwnerReference) → ◌≡◌ {A = List OwnerReference} [] (o ∷ []) → ⊥
      nil_owner o e = cc
  some_outcome (o ∷ o' ∷ os) = (_, _, Inspects.nobody (λ q owner. two_owners q owner.single))
    where
      two_owners : (q : OwnerReference) → ◌≡◌ {A = List OwnerReference} (o ∷ o' ∷ os) (q ∷ []) → ⊥
      two_owners q e = cc
  some_outcome (o ∷ []) = elim (Bool-cases (not (o.kind == "Pod"))) [
    | inl odd ↦ (_, _, Inspects.nobody (λ q owner. not_pod odd q owner.single owner.is_pod))
    | inr pod ↦
        after_look (o ∷ []) o (record { single = refl; is_pod = pod_kind o.kind pod }) _ refl
  ]
    where
      not_pod :
          not (o.kind == "Pod") ≡ true
          → (q : OwnerReference) → ◌≡◌ {A = List OwnerReference} (o ∷ []) (q ∷ [])
          → q.kind ≡ "Pod"
          → ⊥
      not_pod odd q e pod =
          let same : o ≡ q = cc in
          odd_kind o.kind odd (ap (λ (r : OwnerReference). r.kind) same ∙ pod)

-- What a round does about the owners of the lock that it has read, whatever is answered. Unless the
-- lock has one owner, which is a pod, nothing is done. The owner's pod is looked for: if there is none,
-- nothing more is done, and an error of any other kind ends `Become`. A pod that has been evicted or
-- preempted and is not being deleted is deleted, whatever is answered to this; the lock stays, and the
-- node is not looked at. Else, exactly if the pod's node is read and says that it is not ready, the pod
-- is deleted and then the lock, and an error of the first deletion, before the second, or of the second
-- ends `Become`. There is no other outcome.
pub inspect_owners-Inspects_iff :
    {W : Type 0} (answer : (r : Request) → W → Reply r × W) (ns : String) (cm : ConfigMap)
    (w w' : W) (x : Option Error)
    → (run answer (inspect_owners ns cm.owner_references cm) w ≡ (x, w'))
      ↔ Inspects answer ns cm w cm.owner_references x w'
inspect_owners-Inspects_iff answer ns cm w w' x =
    let os = cm.owner_references in
    let (x', v, i) = some_outcome answer ns cm w os in
    (
      (λ h.
          subst (λ r. Inspects answer ns cm w os r.0 r.1)
            (sym (Inspects-inspect answer ns cm w os x' v i) ∙ h) i),
      Inspects-inspect answer ns cm w os x w',
    )
