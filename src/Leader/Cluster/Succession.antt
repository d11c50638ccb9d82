-- ===== src/Leader/Cluster/Succession.antt =====
-- When the leader is gone, another pod can take its place.
use operator_lib.Common.{
  String, ◌≡◌, ◌≢◌, refl, sym, ◌∙◌, ◌⊎◌, inl, inr, List, Option, none, some, Result, ok, Bool-cases,
  ◌==◌, ==_sound, string_eq,
}
use mathlib.Core.Path.{subst}
use mathlib.Core.Option.{none-ne-some, some-injective}
use operator_lib.Leader.Program.{Prog, not_found, ret, call}
use operator_lib.Leader.Helpers.{Config, Error, api, Next, finished, again, failed}
use operator_lib.Leader.Cluster.{
  Server, IsConsistent, key_of, System, advance, update, create, restart, destroy, act, collect,
  other, Step, Reach, here, next, Leads, IsOrphaned, IsInitial,
}
use operator_lib.Leader.Cluster.Comes.{
  Serves, Comes, HasFailed, become-Comes, become-Comes_straight, answered-Comes, attempt-Comes,
}
use operator_lib.Leader.Cluster.Takeover.{takes_over}
use operator_lib.Leader.Cluster.Update.{update_same, update_ne}
use operator_lib.Leader.Options.{Opt, configure}
use operator_lib.Leader.Loop.{become}

module _ {W Client : Type 0} (server : Server W) (ns lock_name i : String)
    (serves : Serves server (key_of ns i) (key_of ns lock_name)) where
  -- The program has failed, or comes to lead.
  abbrev OnItsWay : Prog (Next Client) → Type 0
  OnItsWay p = HasFailed p ⊎ Comes (Unit {0}) (key_of ns i) (key_of ns lock_name) p

  advance-Comes :
      (p : Prog (Next Client)) (w : W)
      → Comes (Unit {0}) (key_of ns i) (key_of ns lock_name) p
      → Comes (Unit {0}) (key_of ns i) (key_of ns lock_name) (advance server p w).0
  unfolding advance
  advance-Comes (ret (finished none)) w c = c
  advance-Comes (ret (finished (some e))) w c = c
  advance-Comes (ret (again l)) w c =
      attempt-Comes (Unit {0}) (key_of ns i) (key_of ns lock_name) l c
  advance-Comes (call r k) w c =
      answered-Comes (key_of ns i) (key_of ns lock_name) r k (server.answer r w).0
        (serves.normal r w) c

  advance-OnItsWay : (p : Prog (Next Client)) (w : W) → OnItsWay p → OnItsWay (advance server p w).0
  unfolding advance
  advance-OnItsWay p w (inl (e, failed)) = inl (e, rw failed refl)
  advance-OnItsWay p w (inr c) = inr (advance-Comes p w c)

  -- Each program that the pod `i` runs is on its way.
  abbrev Good : System W Client → Type 0
  Good s = (p : Prog (Next Client)) → s.proc i ≡ some p → OnItsWay p

  changed :
      (s : System W Client) (j : String) (o : Option (Prog (Next Client)))
      → (j ≡ i → (p : Prog (Next Client)) → o ≡ some p → OnItsWay p)
      → Good s
      → (p : Prog (Next Client)) → update s.proc j o i ≡ some p
      → OnItsWay p
  changed s j o new good p e = elim (Bool-cases (j == i)) [
    | inl same ↦ new (==_sound j i same) p (rw same at e)
    | inr differs ↦ good p (rw differs at e)
  ]

  step-Good : (s t : System W Client) → Step server ns lock_name s t → Good s → Good t
  step-Good s t (create j w in_cluster opts absent same uids) good =
      changed s j _
        (λ same p e.
          subst OnItsWay (some-injective _ _ e)
            (rw same (become-Comes i ns lock_name in_cluster opts)))
        good
  step-Good s t (restart j in_cluster opts at_j) good =
      changed s j _
        (λ same p e.
          subst OnItsWay (some-injective _ _ e)
            (rw same (become-Comes i ns lock_name in_cluster opts)))
        good
  step-Good s t (destroy j) good = changed s j none (λ same p e. absurd (none-ne-some _ e)) good
  step-Good s t (act j {p = q} at_j) good =
      changed s j _
        (λ same p e.
          subst OnItsWay (some-injective _ _ e)
            (advance-OnItsWay q s.world (good q (rw same at at_j))))
        good
  step-Good s t (collect w gone orphaned uids) good = good
  step-Good s t (other w same uids) good = good

  Reach-Good : (s t : System W Client) → IsInitial server s → Reach server ns lock_name s t → Good t
  Reach-Good s t init here = λ p e. absurd (none-ne-some _ (sym (init.idle i) ∙ e))
  Reach-Good s t init (next {t = u} reach step) = step-Good u t step (Reach-Good s u init reach)

module _ {W Client : Type 0} (server : Server W) (ns lock_name : String) where
  pub Reach-trans :
      (s t u : System W Client)
      → Reach server ns lock_name s t
      → Reach server ns lock_name t u
      → Reach server ns lock_name s u
  Reach-trans s t u before here = before
  Reach-trans s t u before (next {t = v} after step) = next (Reach-trans s t v before after) step

-- Where there is no lock, a pod whose container restarts can become the leader by its next calls.
restarts :
    {W Client : Type 0} (server : Server W) (ns lock_name i : String) (v : System W Client)
    (q : Prog (Next Client)) (in_cluster : Result Error Client) (opts : List (Opt Client))
    (c : Config Client)
    → IsConsistent server (key_of ns lock_name)
    → Serves server (key_of ns i) (key_of ns lock_name)
    → server.lock v.world ≡ none
    → v.proc i ≡ some q
    → configure in_cluster opts ≡ ok c
    → i ≢ ""
    → (u : System W Client) × Reach server ns lock_name v u
      × Leads u i
      × ((j : String) → i ≢ j → u.proc j ≡ v.proc j)
restarts server ns lock_name i v q in_cluster opts c consistent serves free at_i good named =
    let program = become i (ok ns) in_cluster lock_name opts in
    let again = record v { proc = update v.proc i (some program) } in
    let (u, after, others, ends) =
      takes_over ⊥ server ns lock_name i again program consistent serves free
        (update_same i v.proc (some program))
        (become-Comes_straight i ns lock_name in_cluster opts c good named) in
    elim ends [
      | inl leads ↦ (
        u,
        Reach-trans server ns lock_name v again u (next here (restart i in_cluster opts at_i))
            after,
        leads,
        λ j ne. others j ne ∙ update_ne i v.proc (some program) j ne,
      )
      | inr (_, _, no_miss) ↦ absurd no_miss
    ]

pub succession :
    {W Client : Type 0} (server : Server W) (ns lock_name i : String) (s t : System W Client)
    (p : Prog (Next Client)) (w : W) (in_cluster : Result Error Client) (opts : List (Opt Client))
    (c : Config Client)
    → IsConsistent server (key_of ns lock_name)
    → Serves server (key_of ns i) (key_of ns lock_name)
    → IsInitial server s
    → Reach server ns lock_name s t
    → t.proc i ≡ some p
    → ¬ HasFailed p
    → IsOrphaned server t
    → server.lock w ≡ none
    → ((j : String) → server.uid j w ≡ server.uid j t.world)
    → configure in_cluster opts ≡ ok c
    → i ≢ ""
    → (v : System W Client) × Reach server ns lock_name t v
      × ((j : String) → i ≢ j → v.proc j ≡ t.proc j)
      × (Leads v i
          ⊎ ((v.proc i ≡ some (ret (failed (api not_found))))
              × ((u : System W Client) × Reach server ns lock_name v u
                  × Leads u i
                  × ((j : String) → i ≢ j → u.proc j ≡ t.proc j))))
succession server ns lock_name i s t p w in_cluster opts c consistent serves init reach at_i going
      orphaned free uids good named =
    let collected = record t { world = w } in
    let comes =
      elim (Reach-Good server ns lock_name i serves s t init reach p at_i)
        as (λ _. Comes (Unit {0}) (key_of ns i) (key_of ns lock_name) p) [
          | inl failed ↦ absurd (going failed)
          | inr c ↦ c
        ] in
    let (v, after, others, ends) =
      takes_over (Unit {0}) server ns lock_name i collected p consistent serves free at_i comes in
    let reach_v =
      Reach-trans server ns lock_name t collected v (next here (collect w free orphaned uids))
        after in
    elim ends [
      | inl leads ↦ (v, reach_v, others, inl leads)
      | inr (at_v, left, _) ↦
          let (u, later, leads, others') =
            restarts server ns lock_name i v _ in_cluster opts c consistent serves left at_v good
              named in
          (v, reach_v, others, inr (at_v, (u, later, leads, λ j ne. others' j ne ∙ others j ne)))
    ]
