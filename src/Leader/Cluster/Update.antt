-- ===== src/Leader/Cluster/Update.antt =====
-- Functions on pod names that are changed at one name.
use operator_lib.Common.{
  String, ◌≡◌, ◌≢◌, refl, Option, some, ◌==◌, ==_refl, ==_of_ne, ==_sound, string_eq, Bool-cases,
  inl, inr,
}
use operator_lib.Leader.Cluster.{update}

pub update_same : {A : Type 0} (i : String) (f : String → A) (a : A) → update f i a i ≡ a
update_same i f a = rw (==_refl i) refl

pub update_ne :
    {A : Type 0} (i : String) (f : String → A) (a : A) (j : String) → i ≢ j → update f i a j ≡ f j
update_ne i f a j h = rw (==_of_ne i j h) refl

-- What holds of the value that is written, and of the old values elsewhere, holds after an update.
pub update_rule {ℓ} :
    {A : Type 0} (P : String → A → Type ℓ) (f : String → Option A) (i : String) (o : Option A)
    → ((a : A) → o ≡ some a → P i a)
    → ((j : String) (a : A) → f j ≡ some a → P j a)
    → (j : String) (a : A) → update f i o j ≡ some a
    → P j a
update_rule P f i o new old j a e = elim (Bool-cases (i == j)) [
  | inl same ↦ rw (← ==_sound i j same) (new a (rw same at e))
  | inr differs ↦ old j a (rw differs at e)
]
