-- ===== src/Leader/Doubling.antt =====
-- The arithmetic of the backoff: what `backoff *= 2` below the interval makes of a second.
use operator_lib.Common.{
  ℕ, zero, suc, ◌*◌, ◌^◌, ◌≤◌, ◌<◌, ◌≡◌, refl, ap, ◌∙◌, ◌⊎◌, inl, inr, string_eq, arith, Bool-cases,
  ltb,
}
use mathlib.Core.Path.{subst}
use operator_lib.Common.Int.{ℤ, pos, double_int64}
use operator_lib.Leader.Helpers.{Loop, second}
use operator_lib.Leader.Loop.{next_backoff}

-- The backoff `d` after `n` waits, for an interval of `m` nanoseconds: a second, doubled `k` times. It
-- has been doubled after each wait for which it was below the interval, and after no other.
pub record IsBackoff (m n : ℕ) (d : ℤ) : Type 0 where
  pub k : ℕ
  pub is : d ≡ pos (1_000_000_000 * 2 ^ k)
  pub within : k ≤ n
  pub below : (j : ℕ) → j < k → 1_000_000_000 * 2 ^ j < m
  pub reaches : (k ≡ n) ⊎ (m ≤ 1_000_000_000 * 2 ^ k)

none_before : {j m : ℕ} → j < 0 → 1_000_000_000 * 2 ^ j < m
none_before h = omega arith

pub second-IsBackoff : (m : ℕ) → IsBackoff m 0 second
second-IsBackoff m = record {
  k = 0;
  is = refl;
  within = omega arith;
  below = λ j h. none_before h;
  reaches = inl refl;
}

double-lt : (n m : ℕ) → n < m → m ≤ 2 ^ 62 → double_int64 (pos n) ≡ pos (2 * n)
double-lt n m h k = ground arith

doubled : (k : ℕ) → 2 * (1_000_000_000 * 2 ^ k) ≡ 1_000_000_000 * 2 ^ (suc k)
doubled k = ground arith

below_suc :
    (m k : ℕ)
    → ((j : ℕ) → j < k → 1_000_000_000 * 2 ^ j < m)
    → 1_000_000_000 * 2 ^ k < m
    → (j : ℕ) → j < suc k
    → 1_000_000_000 * 2 ^ j < m
below_suc m k below now j h = elim (Bool-cases (ltb j k)) [
  | inl earlier ↦ below j (ground arith)
  | inr last ↦ subst (λ i. 1_000_000_000 * 2 ^ i < m) (k_is (ground arith)) now
]
  where
    k_is : ¬ (j < k) → k ≡ j
    k_is not_less = omega arith

not_both : {a b : ℕ} → a < b → b ≤ a → ⊥
not_both h k = omega arith

later : {a b : ℕ} → a ≤ b → a ≤ suc b
later h = omega arith

pub next_backoff-IsBackoff :
    {Client : Type 0} (m n : ℕ) (l : Loop Client)
    → m ≤ 2 ^ 62
    → l.config.max_backoff_interval ≡ pos m
    → IsBackoff m n l.backoff
    → IsBackoff m (suc n) (next_backoff l)
unfolding next_backoff
next_backoff-IsBackoff m n l small max b = elim (Bool-cases (ltb (1_000_000_000 * 2 ^ b.k) m)) [
  | inl less ↦ record {
    k = suc b.k;
    is = rw (max, b.is, less) (double-lt _ m (ground arith) small ∙ ap pos (doubled b.k));
    within = omega arith;
    below = below_suc m b.k b.below (ground arith);
    reaches = elim b.reaches [
      | inl e ↦ inl (ap suc e)
      | inr high ↦ absurd (not_both (ground arith) high)
    ];
  }
  | inr more ↦ record {
    k = b.k;
    is = rw (max, b.is, more) refl;
    within = later b.within;
    below = b.below;
    reaches = inr (ground arith);
  }
]

-- A wait of one second, or of at least a second and less than twice the interval `m`.
abbrev pub IsWithin : ℕ → ℤ → Type 0
IsWithin m d = (n : ℕ) × (d ≡ pos n) × (1_000_000_000 ≤ n) × ((n ≡ 1_000_000_000) ⊎ (n < 2 * m))

power_pos : (k : ℕ) → 1 ≤ 2 ^ k
power_pos zero = omega arith
power_pos (suc k) = let h = power_pos k in ground arith

within_suc :
    (m k : ℕ)
    → 1_000_000_000 * 2 ^ k < m
    → (1_000_000_000 ≤ 1_000_000_000 * 2 ^ (suc k)) × (1_000_000_000 * 2 ^ (suc k) < 2 * m)
within_suc m k h = let least = power_pos k in (ground arith, ground arith)

-- A backoff is below twice the interval, since half of it was below the interval.
pub IsBackoff-IsWithin : (m n : ℕ) (d : ℤ) → IsBackoff m n d → IsWithin m d
IsBackoff-IsWithin m n d b = go b.k b.is b.below
  where
    go :
        (k : ℕ)
        → d ≡ pos (1_000_000_000 * 2 ^ k)
        → ((j : ℕ) → j < k → 1_000_000_000 * 2 ^ j < m)
        → IsWithin m d
    go zero is below = (1_000_000_000, is, omega arith, inl refl)
    go (suc k) is below =
        let bounds = within_suc m k (below k (omega arith)) in
        (1_000_000_000 * 2 ^ (suc k), is, bounds.0, inr bounds.1)
