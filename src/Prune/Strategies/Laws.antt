-- ===== src/Prune/Strategies/Laws.antt =====
-- What the two strategies select.
use operator_lib.Common.{
  ℕ, ◌≤◌, ◌<◌, ◌-◌, suc, true, false, List, [], ◌∷◌, ◌++◌, returned, ok, ltb, leb, if◌then◌else◌,
  length, drop, take, length-drop, take-append-drop, ◌≡◌, refl, ap, sym, ◌∙◌, arith, Bool-cases,
  inl, inr,
}
use operator_lib.Common.Int.{pos}
use mathlib.Core.List
use mathlib.Core.List.{
  Perm, Pairwise, Mem, filter, Pairwise-append, append-nil, not-mem-nil, append_assoc,
}
use mathlib.Core.List.Perm
use operator_lib.Prune.Registry.{Object}
use operator_lib.Prune.Strategies.{
  SortSlice, created_before, new_prune_by_count_strategy, created_after, new_prune_by_date_strategy,
}
use native.Mathlib.Nat.{ℕ_set}
use native.Mathlib.Bridge.{le_prop}
use native.Mathlib.Decide.{dec_lt}
use mathlib.Core.Logic.{ite}

length-foldr : (objs : List Object) → length objs ≡ List.foldr (λ _ n. suc n) 0 objs
length-foldr [] = refl
length-foldr (x ∷ xs) = ap suc (length-foldr xs)

pub length-Perm : (xs ys : List Object) → Perm xs ys → length xs ≡ length ys
length-Perm xs ys p =
    length-foldr xs ∙ Perm.foldr-eq ℕ_set (λ _ n. suc n) (λ a b x. refl) p 0 ∙ sym (length-foldr ys)

sub-of_leb : (n m : ℕ) → leb n m ≡ true → 0 ≡ n - m
sub-of_leb n m h = ground arith

abbrev NotNewer : Object → Object → Type 0
NotNewer a b = a.creation_timestamp ≤ b.creation_timestamp

kept_older :
    (n : ℕ) (objs : List Object)
    → Pairwise NotNewer objs
    → (k p : Object) → Mem k (take n objs)
    → Mem p (drop n objs)
    → NotNewer k p
kept_older n objs h k p mk mp =
    ((Pairwise-append {R = NotNewer}
          (λ a b. le_prop {n = a.creation_timestamp} {m = b.creation_timestamp}) {l₁ = take n objs}
          {l₂ = drop n objs}).0
        (rw (take-append-drop n objs) h)).2
      k mk p mp

-- The strategy that keeps `count` objects selects all the others, and the objects that it selects
-- are none of them older than one that it keeps. (`sort` is the sort of Go's library.)
pub new_prune_by_count_strategy-keeps :
    (sort : SortSlice) (count : ℕ) (objs : List Object)
    → (kept : List Object) × (pruned : List Object) × (new_prune_by_count_strategy sort
          (pos count)
          objs
        ≡ returned (ok pruned))
      × Perm (kept ++ pruned) objs
      × (length pruned ≡ length objs - count)
      × ((k p : Object) → Mem k kept → Mem p pruned → k.creation_timestamp ≤ p.creation_timestamp)
unfolding new_prune_by_count_strategy
new_prune_by_count_strategy-keeps sort count objs = elim (Bool-cases (leb (length objs) count)) [
  | inl few ↦ (
    objs,
    [],
    rw few refl,
    rw (append-nil objs) (Perm.refl objs),
    sub-of_leb (length objs) count few,
    λ k p _ m. absurd (not-mem-nil m),
  )
  | inr many ↦
      let sorted = sort.sort_slice created_before objs in
      (
        take count sorted,
        drop count sorted,
        rw many refl,
        rw (take-append-drop count sorted) (sort.sort_slice-Perm created_before objs),
        length-drop count sorted
            ∙ ap (λ n. n - count)
                (length-Perm sorted objs (sort.sort_slice-Perm created_before objs)),
        kept_older count sorted (sort.sort_slice-Pairwise (λ o. o.creation_timestamp) objs),
      )
]

ltb_of_lt : (n m : ℕ) → n < m → ltb n m ≡ true
ltb_of_lt n m h = ground arith

ltb_of_not_lt : (n m : ℕ) → ¬ (n < m) → ltb n m ≡ false
ltb_of_not_lt n m h = ground arith

created_after-filter :
    (date : ℕ) (objs acc : List Object)
    → created_after date acc objs ≡ acc ++ filter (λ o. dec_lt date o.creation_timestamp) objs
unfolding created_after
created_after-filter date [] acc = sym (append-nil acc)
created_after-filter date (o ∷ objs) acc =
    created_after-filter date objs _ ∙ step (dec_lt date o.creation_timestamp)
  where
    later : List Object
    later = filter (λ o. dec_lt date o.creation_timestamp) objs

    step :
        (d : Dec (date < o.creation_timestamp))
        → (if ltb date o.creation_timestamp then acc ++ (o ∷ []) else acc) ++ later
          ≡ acc ++ ite d (o ∷ later) later
    step (yes h) = rw (ltb_of_lt date o.creation_timestamp h) (append_assoc acc (o ∷ []) later)
    step (no h) = rw (ltb_of_not_lt date o.creation_timestamp h) refl

-- The strategy by date selects exactly the objects created after the date, in the order in which
-- they were listed.
pub new_prune_by_date_strategy-filter :
    (date : ℕ) (objs : List Object)
    → new_prune_by_date_strategy date objs
      ≡ returned (ok (filter (λ o. dec_lt date o.creation_timestamp) objs))
unfolding new_prune_by_date_strategy
new_prune_by_date_strategy-filter date objs = rw (created_after-filter date objs []) refl
