-- ===== src/Leader/Cluster/Alone.antt =====
-- Runs of the cluster in which one pod makes calls and everything else stands still.
use operator_lib.Common.{String, ◌≡◌, ◌≢◌, refl, ap, ◌∙◌, some, string_eq}
use mathlib.Core.Path.{subst}
use operator_lib.Leader.Program.{Prog}
use operator_lib.Leader.Helpers.{Next}
use operator_lib.Leader.Cluster.Update.{update_same, update_ne}
use operator_lib.Leader.Cluster.{Server, System, advance, act, Reach, here, next}

module _ {W Client : Type 0} (server : Server W) (ns lock_name i : String)
    (s : System W Client) where
  -- A state that is reached from `s` by calls of `i` alone, in which `p` is the rest of its program.
  pub record At (p : Prog (Next Client)) (w : W) : Type 0 where
    pub last : System W Client
    pub reach : Reach server ns lock_name s last
    pub at_i : last.proc i ≡ some p
    pub world : last.world ≡ w
    pub others : (j : String) → i ≢ j → last.proc j ≡ s.proc j

  pub begun : (p : Prog (Next Client)) → s.proc i ≡ some p → At p s.world
  begun p at_i = record { last = s; reach = here; at_i = at_i; world = refl; others = λ j ne. refl }

  pub step_on :
      (p : Prog (Next Client)) (w : W) → At p w → At (advance server p w).0 (advance server p w).1
  step_on p w r = record {
    last = _;
    reach = next r.reach (act i r.at_i);
    at_i = update_same i r.last.proc _ ∙ ap (λ v. some (advance server p v).0) r.world;
    world = ap (λ v. (advance server p v).1) r.world;
    others = λ j ne. update_ne i r.last.proc _ j ne ∙ r.others j ne;
  }

  pub step_to : (p q : Prog (Next Client)) (w v : W) → advance server p w ≡ (q, v) → At p w → At q v
  step_to p q w v e r = subst (λ x. At x.0 x.1) e (step_on p w r)
