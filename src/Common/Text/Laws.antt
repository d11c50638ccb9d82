-- ===== src/Common/Text/Laws.antt =====
-- Laws of trimming and of splitting at a separator.
use Prim.Native.Char.{Char, code}
use Prim.Native.String.{String, [], ◌∷◌}
use mathlib.Core.Path.{◌≡◌, refl, ap}
use mathlib.Core.Logic.{◌≢◌, inl, inr}
use mathlib.Core.Bool.{Bool, true, false, ◌&&◌}
use mathlib.Core.Option.{none, some}
use native.Mathlib.Omega.{arith}
use text.Mathlib.TextEquality.{Char-path, eq_iff}
use text.Mathlib.TextLemmas.{nil-append, cons-append, cons≢nil}
use operator_lib.Common.Tests.{◌==◌, ==_refl, ==_sound, nat_eq, string_eq, Bool-cases, Option-cases}
use operator_lib.Common.Text.{◌++ˢ◌, is_space, trim_left, trim_right, trim_space, cut}

-- The character does not occur in the text.
abbrev pub Lacks : Char → String → Type 0
Lacks sep [] = Unit
Lacks sep (c ∷ s) = (code c ≢ code sep) × Lacks sep s

-- The text has nothing but white space.
abbrev pub IsBlank : String → Type 0
IsBlank [] = Unit
IsBlank (c ∷ s) = (is_space c ≡ true) × IsBlank s

and_true : (a b : Bool) → (a && b) ≡ true → (a ≡ true) × (b ≡ true)
and_true a b h = ground arith

trim_right-IsBlank : (s : String) → trim_right s ≡ "" → IsBlank s
unfolding trim_right
trim_right-IsBlank [] h = tt
trim_right-IsBlank (c ∷ s) h = elim (Bool-cases (trim_right s == "" && is_space c)) [
  | inl both ↦
      let (blank, space) = and_true _ _ both in
      (space, trim_right-IsBlank s ((eq_iff (trim_right s) "").0 blank))
  | inr other ↦ absurd (cons≢nil (rw other at h))
]

trim_left-IsBlank : (s : String) → IsBlank (trim_left s) → IsBlank s
unfolding trim_left
trim_left-IsBlank [] h = tt
trim_left-IsBlank (c ∷ s) h = elim (Bool-cases (is_space c)) [
  | inl space ↦ (space, trim_left-IsBlank s (rw (space, trim_left) at h))
  | inr other ↦ (rw other at h)
]

-- A text that trims to nothing is blank.
pub trim_space-IsBlank : (s : String) → trim_space s ≡ "" → IsBlank s
unfolding trim_space
trim_space-IsBlank s h = trim_left-IsBlank s (trim_right-IsBlank (trim_left s) h)

pub not-IsBlank-append : (s t : String) (c : Char) → is_space c ≡ false → ¬ IsBlank (s ++ˢ (c ∷ t))
not-IsBlank-append [] t c h b = ground (arith, nil-append (c ∷ t))
not-IsBlank-append (d ∷ s) t c h b =
    not-IsBlank-append s t c h (ground (arith, cons-append d s (c ∷ t)))

code-==_refl : (c : Char) → (code c == code c) ≡ true
code-==_refl c = ==_refl (code c)

-- The first separator of `a ++ sep ∷ b` is the one that is shown, if `a` has none.
pub cut-append : (sep : Char) (a b : String) → Lacks sep a → cut sep (a ++ˢ (sep ∷ b)) ≡ some (a, b)
unfolding cut
cut-append sep [] b h = rw nil-append (rw (code-==_refl sep))
cut-append sep (c ∷ a) b h =
    rw cons-append (ground (arith, cut-append sep a b, nat_eq.beq_iff (code c) (code sep)))

-- A cut takes out one separator, and the part before it has none.
pub cut_sound :
    (sep : Char) (s a b : String) → cut sep s ≡ some (a, b) → (s ≡ a ++ˢ (sep ∷ b)) × Lacks sep a
unfolding cut
cut_sound sep [] a b h = cc
cut_sound sep (c ∷ s) a b h = elim (Bool-cases (code c == code sep)) [
  | inl same ↦
      let first : "" ≡ a = cc in
      let rest : s ≡ b = cc in
      let is_sep : c ≡ sep = Char-path c sep (==_sound _ _ same) in
      rw (← first, ← rest, is_sep, nil-append) (refl, tt)
  | inr other ↦ elim (Option-cases (cut sep s)) [
    | inl nothing ↦ cc
    | inr (p, found) ↦
        let h' = rw (other, found, cut) at h in
        let first : c ∷ p.0 ≡ a = cc in
        let second : p.1 ≡ b = cc in
        let (joined, lacks) = cut_sound sep s p.0 p.1 found in
        rw (← first, ← second, cons-append) (ap (λ r. c ∷ r) joined, ((λ e. ground arith), lacks))
  ]
]

-- Where there is nothing to cut at, there is no separator, and the other way round.
pub cut-none : (sep : Char) (s : String) → Lacks sep s → cut sep s ≡ none
unfolding cut
cut-none sep [] h = refl
cut-none sep (c ∷ s) h = ground (arith, cut-none sep s, nat_eq.beq_iff (code c) (code sep))

pub none-cut : (sep : Char) (s : String) → cut sep s ≡ none → Lacks sep s
unfolding cut
none-cut sep [] h = tt
none-cut sep (c ∷ s) h = elim (Bool-cases (code c == code sep)) [
  | inl same ↦ let h' = rw (same, cut) at h in cc
  | inr other ↦ elim (Option-cases (cut sep s)) [
    | inl nothing ↦
        ((λ e. ground (arith, nat_eq.beq_iff (code c) (code sep))), none-cut sep s nothing)
    | inr (p, found) ↦ let h' = rw (other, found, cut) at h in cc
  ]
]
