-- ===== src/Leader/Unreadable.antt =====
-- A loop of `Become` that neither ends nor waits.
use operator_lib.Common.{ℕ, zero, suc, ◌≡◌, refl, err, string_eq}
use operator_lib.Leader.Program.{
  ApiError, already_exists, Request, Reply, get_config_map, create_config_map,
}
use operator_lib.Leader.Helpers.{Loop, again}
use operator_lib.Leader.Loop.{lock_key, own_lock, contend, attempt}
use operator_lib.Leader.Rounds.{rounds, run, run->>=}

module _ {W Client : Type 0} (answer : (r : Request) → W → Reply r × W) (Q : W → Type 0)
    (l : Loop Client) where
  -- The lock exists whenever it is to be created, and can never be read; these two calls keep `Q`.
  pub record IsUnreadable : Type 0 where
    pub taken : (w : W) → (answer (create_config_map (own_lock l)) w).0 ≡ err already_exists
    pub lost : (w : W) → (e : ApiError) × ((answer (get_config_map (lock_key l)) w).0 ≡ err e)
    pub create_keeps : (w : W) → Q w → Q (answer (create_config_map (own_lock l)) w).1
    pub get_keeps : (w : W) → Q w → Q (answer (get_config_map (lock_key l)) w).1

  attempt_again :
      IsUnreadable
      → (w : W) → Q w
      → ((run answer (attempt l) w).0 ≡ again l) × Q (run answer (attempt l) w).1
  unfolding attempt contend run
  attempt_again h w q = rw (h.taken w) (rw (h.lost _).1 (refl, h.get_keeps _ (h.create_keeps w q)))

-- While the lock cannot be created because it exists, and cannot be read either, `Become` goes
-- round its loop for any number of rounds with the same variables, and makes no calls but those two
-- (whatever these two calls keep is kept): it neither waits nor looks at its context.
pub rounds-unreadable :
    {W Client : Type 0} (answer : (r : Request) → W → Reply r × W) (Q : W → Type 0)
    (l : Loop Client) (n : ℕ) (w : W)
    → IsUnreadable answer Q l
    → Q w
    → ((run answer (rounds n (attempt l)) w).0 ≡ again l)
      × Q (run answer (rounds n (attempt l)) w).1
unfolding rounds
rounds-unreadable answer Q l zero w h q = attempt_again answer Q l h w q
rounds-unreadable answer Q l (suc n) w h q =
    let (same, kept) = attempt_again answer Q l h w q in
    rw (run->>= answer (attempt l) _ w) (rw same (rounds-unreadable answer Q l n _ h kept))
