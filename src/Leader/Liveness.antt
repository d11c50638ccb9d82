-- ===== src/Leader/Liveness.antt =====
-- That `Become` ends with success when the lock becomes free.
use operator_lib.Common.{
  ℕ, zero, suc, ◌≤◌, ◌<◌, String, ◌≡◌, ◌≢◌, refl, sym, ap, ◌∙◌, ◌⊎◌, inl, inr, List, [], ◌∷◌, none,
  Result, ok, err, ◌==◌, string_eq, arith, Bool-cases, ==_sound, ==_of_ne, nat_eq,
}
use operator_lib.Common.Int.{ℤ}
use mathlib.Core.Bool.{false≢true}
use operator_lib.Leader.Program.{
  ConfigMap, Pod, not_found, already_exists, Request, Reply, get_pod, get_config_map, wait,
  create_config_map, Prog, ret, call,
}
use operator_lib.Leader.Helpers.{
  Error, api, Config, Loop, Next, finished, again, failed, my_owner_ref, owner_of, second,
}
use operator_lib.Leader.Options.{Opt, configure}
use operator_lib.Leader.Loop.{
  own_lock, inspect_owners, pause, contend, attempt, owned_by, campaign, start, become,
  next_backoff,
}
use operator_lib.Leader.Rounds.{rounds, run, run->>=, Ends}
use operator_lib.Leader.Start.{Found, own_pod}
use operator_lib.Leader.Possible.{Possible, IsHarmless, inspect_owners-Succeeds, Possible-elapsed}

-- A world in which the lock `own` is free after at most `left` more waits: it can be created exactly
-- when none is left, it is read while it is there, every wait makes one less, and no call makes more.
-- Pods are read or are not there, and a deletion succeeds or, if it `may_miss`, finds nothing.
pub record FreesUp {W : Type 0} (may_miss : Type 0) (answer : (r : Request) → W → Reply r × W)
    (left : W → ℕ) (own : ConfigMap) : Type 0 where
  pub possible : (r : Request) (w : W) → Possible may_miss r (answer r w).0
  pub free : (w : W) → left w ≡ 0 → (answer (create_config_map own) w).0 ≡ ok tt
  pub taken : (w : W) → left w ≢ 0 → (answer (create_config_map own) w).0 ≡ err already_exists
  pub read :
      (w : W)
      → ((cm : ConfigMap) × ((answer (get_config_map own.key) w).0 ≡ ok cm))
        ⊎ (((answer (get_config_map own.key) w).0 ≡ err not_found) × (left w ≡ 0))
  pub elapses : (d : ℤ) (w : W) → left w ≢ 0 → left (answer (wait d) w).1 < left w
  pub keeps : (r : Request) (w : W) → left (answer r w).1 ≤ left w

-- `Become` returns nil, or the error of a deletion that finds nothing.
abbrev pub ReturnsWell : {Client : Type 0} → Type 0 → Next Client → Type 0
ReturnsWell may_miss x = (x ≡ finished none) ⊎ ((x ≡ failed (api not_found)) × may_miss)

module _ {W : Type 0} (may_miss : Type 0) (answer : (r : Request) → W → Reply r × W) (left : W → ℕ)
    (own : ConfigMap) (frees : FreesUp may_miss answer left own) where
  run-Ends :
      {A : Type 0} (P : A → Type 0) (m : Prog A)
      → Ends (Possible may_miss) P m
      → (w : W) → P (run answer m w).0 × (left (run answer m w).1 ≤ left w)
  unfolding run
  run-Ends P (ret a) h w = (h, omega arith)
  run-Ends P (call r k) h w =
      let (p, le) =
        run-Ends P (k (answer r w).0) (h (answer r w).0 (frees.possible r w)) (answer r w).1 in
      (p, omega (arith, frees.keeps r w))

  waited : (n : ℕ) (w : W) (d : ℤ) → left w ≤ suc n → left (answer (wait d) w).1 ≤ n
  waited n w d le = grind (arith, frees.elapses d w, frees.keeps (wait d) w)

  module _ {Client : Type 0} where
    -- The run goes round the loop once more, with at most `n` waits left.
    abbrev Goes : ℕ → Next Client × W → Type 0
    Goes n (next, w) = (l : Loop Client) × (next ≡ again l) × (own_lock l ≡ own) × (left w ≤ n)

    -- The run does so, or ends with the error of a deletion that finds nothing.
    abbrev GoesOrMisses : ℕ → Next Client × W → Type 0
    GoesOrMisses n (next, w) = Goes n (next, w) ⊎ ((next ≡ failed (api not_found)) × may_miss)

    pause-Goes :
        (n : ℕ) (l : Loop Client) (w : W)
        → own_lock l ≡ own
        → left w ≤ suc n
        → Goes n (run answer (pause l) w)
    unfolding run pause
    pause-Goes n l w mine le =
        rw (Possible-elapsed may_miss l.backoff _ (frees.possible (wait l.backoff) w))
          (record l { backoff = next_backoff l }, refl, mine, waited n w l.backoff le)

    contend-Goes :
        (n : ℕ) (l : Loop Client) (w : W)
        → own_lock l ≡ own
        → left w ≤ suc n
        → GoesOrMisses n (run answer (contend l) w)
    unfolding run contend
    contend-Goes n l w mine le =
        let key = ap (λ (cm : ConfigMap). cm.key) mine in
        elim (frees.read w) [
          | inr (lost, none_left) ↦
              rw (key, lost)
                (inl (l, refl, mine, omega (arith, frees.keeps (get_config_map own.key) w)))
          | inl (cm, there) ↦
              let inspect = inspect_owners l.ns cm.owner_references cm in
              let w' = (answer (get_config_map own.key) w).1 in
              let (harmless, le') =
                run-Ends (IsHarmless may_miss) inspect
                  (inspect_owners-Succeeds may_miss l.ns cm.owner_references cm) w' in
              rw (key, there, run->>= answer inspect _ w')
                (elim harmless [
                  | inl succeeds ↦ rw succeeds (
                      inl (
                        pause-Goes n l (run answer inspect w').1 mine
                          (omega (arith, le', frees.keeps (get_config_map own.key) w))))
                  | inr (misses, may) ↦ rw misses (inr (refl, may))
                ])
        ]

    attempt-Goes :
        (n : ℕ) (l : Loop Client) (w : W)
        → own_lock l ≡ own
        → left w ≢ 0
        → left w ≤ suc n
        → GoesOrMisses n (run answer (attempt l) w)
    unfolding run attempt
    attempt-Goes n l w mine more le =
        rw (mine, frees.taken w more)
          (contend-Goes n l (answer (create_config_map own) w).1 mine
            (omega (arith, frees.keeps (create_config_map own) w)))

    attempt_free :
        (l : Loop Client) (w : W)
        → own_lock l ≡ own
        → left w ≡ 0
        → (run answer (attempt l) w).0 ≡ finished none
    unfolding run attempt
    attempt_free l w mine none_left = rw (mine, frees.free w none_left) refl

    run-ret : (x : Next Client) (w : W) → (run answer (ret x) w).0 ≡ x
    unfolding run
    run-ret x w = refl

    -- Of the rounds `n`, as many as waits are left are enough.
    rounds-finish :
        (n : ℕ) (l : Loop Client) (w : W)
        → own_lock l ≡ own
        → left w ≤ n
        → ReturnsWell may_miss (run answer (rounds n (attempt l)) w).0
    unfolding rounds
    rounds-finish zero l w mine le = inl (attempt_free l w mine (omega arith))
    rounds-finish (suc n) l w mine le =
        rw (run->>= answer (attempt l) _ w) (elim (Bool-cases (left w == 0)) [
          | inl done ↦
              rw (attempt_free l w mine (==_sound (left w) 0 done))
                (inl (run-ret (finished none) (run answer (attempt l) w).1))
          | inr more ↦
              elim (attempt-Goes n l w mine
                (λ e. false≢true (sym more ∙ (nat_eq.beq_iff (left w) 0).1 e)) le) [
                  | inl (l', goes, mine', le') ↦ rw goes (rounds-finish n l' _ mine' le')
                  | inr (misses, may) ↦
                      rw misses
                        (inr (run-ret (failed (api not_found)) (run answer (attempt l) w).1, may))
                ]
        ])

    campaign_lem :
        (l : Loop Client) (w : W)
        → own_lock l ≡ own
        → ((run answer (campaign l) w).0 ≡ finished none)
          ⊎ (((run answer (campaign l) w).0 ≡ again l)
              × (left (run answer (campaign l) w).1 ≤ left w))
    unfolding run campaign
    campaign_lem l w mine =
        let key = ap (λ (cm : ConfigMap). cm.key) mine in
        elim (frees.read w) [
          | inr (absent, none_left) ↦
              rw (key, absent) (inr (refl, frees.keeps (get_config_map own.key) w))
          | inl (cm, there) ↦ elim (Bool-cases (owned_by l.owner.name cm.owner_references)) [
            | inl owned ↦ rw (key, there, owned) (inl refl)
            | inr other ↦
                rw (key, there, other) (inr (refl, frees.keeps (get_config_map own.key) w))
          ]
        ]

    -- The loop that `campaign` may enter ends as well.
    campaign-finish :
        (n : ℕ) (l : Loop Client) (w : W)
        → own_lock l ≡ own
        → left w ≤ n
        → ReturnsWell may_miss (run answer (rounds (suc n) (campaign l)) w).0
    unfolding rounds
    campaign-finish n l w mine le =
        rw (run->>= answer (campaign l) _ w) (elim (campaign_lem l w mine) [
          | inl leads ↦ rw leads (inl (run-ret (finished none) (run answer (campaign l) w).1))
          | inr (goes, le') ↦
              rw goes (rounds-finish n l (run answer (campaign l) w).1 mine (omega arith))
        ])

-- If the lock becomes free after at most `n` waits, `Become` returns within `n` rounds of waiting and
-- one more: nil, or, only if a deletion may find nothing, the NotFound error of a deletion. (A pod that
-- is looked for is read or is not there, nodes may be reported as they like, and no deletion fails
-- otherwise, neither of a pod nor of a config map; the lock is read while it is there. The
-- configuration is good, POD_NAME is set, the pod itself is found, and the context is not cancelled.)
pub become-finishes :
    {W Client : Type 0} (may_miss : Type 0) (answer : (r : Request) → W → Reply r × W)
    (left : W → ℕ) (pod_name ns lock_name : String) (in_cluster : Result Error Client)
    (opts : List (Opt Client)) (w : W) (c : Config Client) (pod : Pod) (n : ℕ)
    → Found answer pod_name lock_name (configure in_cluster opts) (ok ns) w c ns pod
    → FreesUp may_miss answer left (record {
      key = record { namespace = ns; name = lock_name };
      owner_references = owner_of pod ∷ [];
    })
    → left w ≤ n
    → ReturnsWell may_miss
        (run answer (rounds (suc n) (become pod_name (ok ns) in_cluster lock_name opts)) w).0
unfolding become start my_owner_ref rounds run
become-finishes {Client} may_miss answer left pod_name ns lock_name in_cluster opts w c pod n can
      frees le =
    rw (can.ready.configured, start, ==_of_ne pod_name "" can.ready.named, can.itself)
      (campaign-finish may_miss answer left (own_lock first) frees n first
        (own_pod answer pod_name lock_name (configure in_cluster opts) (ok ns) w ns).1 refl
        (omega (arith, frees.keeps (get_pod (record { namespace = ns; name = pod_name })) w)))
  where
    first : Loop Client
    first = record {
      config = c;
      ns = ns;
      lock_name = lock_name;
      owner = owner_of pod;
      backoff = second;
    }
