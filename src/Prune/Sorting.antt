-- ===== src/Prune/Sorting.antt =====
-- A sort that keeps the promises of `sort.Slice`, for the runs of the strategies.
use operator_lib.Common.{
  ℕ, ◌≤◌, Bool, true, false, List, [], ◌∷◌, ◌≡◌, ltb, if◌then◌else◌, Bool-cases, inl, inr, arith,
}
use operator_lib.Objects.{gvk_eq}
use operator_lib.Prune.Registry.{Object}
use operator_lib.Prune.Strategies.{SortSlice}
use mathlib.Core.List.{Mem, Memᴰ, Perm, Pairwise, not-mem-nil}
use mathlib.Core.List.Perm
use mathlib.Core.Logic.{∥∥₁_elim}
use native.Mathlib.Bridge.{le_prop}

le_of_ltb : (a b : ℕ) → ltb a b ≡ true → a ≤ b
le_of_ltb a b h = ground arith

le_of_not_ltb : (a b : ℕ) → ltb a b ≡ false → b ≤ a
le_of_not_ltb a b h = ground arith

le_trans : (a b c : ℕ) → a ≤ b → b ≤ c → a ≤ c
le_trans a b c h k = omega arith

module _ (less : Object → Object → Bool) where
  abbrev insert_sorted : Object → List Object → List Object
  insert_sorted x [] = x ∷ []
  insert_sorted x (y ∷ ys) = if less y x then y ∷ insert_sorted x ys else x ∷ y ∷ ys

  abbrev insertion_sort : List Object → List Object
  insertion_sort [] = []
  insertion_sort (x ∷ xs) = insert_sorted x (insertion_sort xs)

  insert_sorted-Perm : (x : Object) (ys : List Object) → Perm (insert_sorted x ys) (x ∷ ys)
  insert_sorted-Perm x [] = Perm.refl (x ∷ [])
  insert_sorted-Perm x (y ∷ ys) = elim (Bool-cases (less y x)) [
    | inl before ↦ rw before (Perm.trans (Perm.cons y (insert_sorted-Perm x ys)) (Perm.swap x y ys))
    | inr not_before ↦ rw not_before (Perm.refl (x ∷ y ∷ ys))
  ]

  pub insertion_sort-Perm : (xs : List Object) → Perm (insertion_sort xs) xs
  insertion_sort-Perm [] = Perm.refl []
  insertion_sort-Perm (x ∷ xs) =
      Perm.trans (insert_sorted-Perm x (insertion_sort xs)) (Perm.cons x (insertion_sort-Perm xs))

module _ (key : Object → ℕ) where
  abbrev Below : ℕ → List Object → Type 0
  Below n xs = (x : Object) → Mem x xs → n ≤ key x

  abbrev IsSorted : List Object → Type 0
  IsSorted = Pairwise (λ a b. key a ≤ key b)

  abbrev by_key : Object → Object → Bool
  by_key a b = ltb (key a) (key b)

  Below-cons : (n : ℕ) (y : Object) (ys : List Object) → n ≤ key y → Below n ys → Below n (y ∷ ys)
  Below-cons n y ys h hs x m = ∥∥₁_elim m (le_prop {n = n} {m = key x}) go
    where
      go : Memᴰ x (y ∷ ys) → n ≤ key x
      go (Memᴰ.head e) = rw e h
      go (Memᴰ.tail d) = hs x ∣ d ∣₁

  insert_sorted-IsSorted :
      (x : Object) (ys : List Object) → IsSorted ys → IsSorted (insert_sorted by_key x ys)
  insert_sorted-IsSorted x [] sorted = Pairwise.cons (λ a m. absurd (not-mem-nil m)) Pairwise.nil
  insert_sorted-IsSorted x (y ∷ ys) (Pairwise.cons h sorted) = elim (Bool-cases (by_key y x)) [
    | inl before ↦ rw before (
        Pairwise.cons
          (λ a m.
            Below-cons (key y) x ys (le_of_ltb (key y) (key x) before) h a
              ((Perm.mem_iff (insert_sorted-Perm by_key x ys)).0 m))
          (insert_sorted-IsSorted x ys sorted))
    | inr not_before ↦ rw not_before (
        Pairwise.cons
          (Below-cons (key x) y ys (le_of_not_ltb (key y) (key x) not_before) (λ a m.
            le_trans (key x) (key y) (key a) (le_of_not_ltb (key y) (key x) not_before) (h a m)))
          (Pairwise.cons h sorted))
  ]

  pub insertion_sort-IsSorted : (xs : List Object) → IsSorted (insertion_sort by_key xs)
  insertion_sort-IsSorted [] = Pairwise.nil
  insertion_sort-IsSorted (x ∷ xs) =
      insert_sorted-IsSorted x (insertion_sort by_key xs) (insertion_sort-IsSorted xs)

abbrev pub sorting : SortSlice
sorting = record {
  sort_slice = insertion_sort;
  sort_slice-Perm = insertion_sort-Perm;
  sort_slice-Pairwise = insertion_sort-IsSorted;
}
