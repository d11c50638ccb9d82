-- ===== src/Prune/Pruner/Store.antt =====
-- Lists of objects less those that have been deleted.
use operator_lib.Common.{
  ◌≤◌, length, Bool, true, false, List, [], ◌∷◌, ◌++◌, returned, ok, ◌≡◌, refl, sym, ap, ◌∙◌, ◌==◌,
  ==_refl, arith, Bool-cases, inl, inr,
}
use mathlib.Core.Bool.{false≢true, Bool-set}
use mathlib.Core.Logic.Or
use operator_lib.Prune.Strategies.Laws.{length-Perm}
use mathlib.Core.List.{
  Mem, Perm, filter, mem-filter, mem-cons, mem-cons_self, not-mem-nil, append-nil,
}
use mathlib.Core.List.Perm
use operator_lib.Objects.{name_eq}
use operator_lib.Prune.Registry.{Object}
use operator_lib.Prune.Pruner.{Pruner, convert}
use operator_lib.Prune.Pruner.Relation.{Offers}

abbrev pub is_false : (b : Bool) → Dec (b ≡ false)
is_false true = no (λ h. false≢true (sym h))
is_false false = yes refl

-- The objects but those with the key of `obj`, and but those with the key of any of `objs`.
abbrev pub without : Object → List Object → List Object
without obj = filter (λ o. is_false (o.key == obj.key))

unfoldable pub without_all : List Object → List Object → List Object
without_all [] xs = xs
without_all (obj ∷ objs) xs = without_all objs (without obj xs)

-- An object that is converted keeps its key.
abbrev pub KeepsKeys : {World Selector : Type 0} → Pruner World Selector → Type 0
KeepsKeys p =
    (item obj : Object) → convert p.client p.gvk item ≡ returned (ok obj) → obj.key ≡ item.key

length-without : (obj : Object) (xs : List Object) → length (without obj xs) ≤ length xs
length-without obj [] = omega arith
length-without obj (x ∷ xs) = elim (Bool-cases (x.key == obj.key)) [
  | inl same ↦ rw same (omega (arith, length-without obj xs))
  | inr differs ↦ rw differs (omega (arith, length-without obj xs))
]

length-without_all : (objs xs : List Object) → length (without_all objs xs) ≤ length xs
unfolding without_all
length-without_all [] xs = omega arith
length-without_all (obj ∷ objs) xs =
    omega (arith, length-without_all objs (without obj xs), length-without obj xs)

without-append :
    (obj : Object) (xs ys : List Object) → without obj (xs ++ ys) ≡ without obj xs ++ without obj ys
without-append obj [] ys = refl
without-append obj (x ∷ xs) ys = elim (Bool-cases (x.key == obj.key)) [
  | inl same ↦ rw same (without-append obj xs ys)
  | inr differs ↦ rw differs (ap (λ zs. x ∷ zs) (without-append obj xs ys))
]

without_all-append :
    (objs xs ys : List Object)
    → without_all objs (xs ++ ys) ≡ without_all objs xs ++ without_all objs ys
unfolding without_all
without_all-append [] xs ys = refl
without_all-append (obj ∷ objs) xs ys =
    ap (without_all objs) (without-append obj xs ys)
    ∙ without_all-append objs (without obj xs) (without obj ys)

without_all-Perm :
    (objs : List Object) {xs ys : List Object}
    → Perm xs ys
    → Perm (without_all objs xs) (without_all objs ys)
unfolding without_all
without_all-Perm [] p = p
without_all-Perm (obj ∷ objs) p =
    without_all-Perm objs (Perm.filter (λ (o : Object). is_false (o.key == obj.key)) p)

-- What is left has the key of none of them.
mem-without_all :
    (objs xs : List Object) (x : Object)
    → Mem x (without_all objs xs)
    → Mem x xs × ((o : Object) → Mem o objs → (x.key == o.key) ≡ false)
unfolding without_all
mem-without_all [] xs x m = (m, λ o h. absurd (not-mem-nil h))
mem-without_all (obj ∷ objs) xs x m =
    let (left, others) = mem-without_all objs (without obj xs) x m in
    let (there, differs) = (mem-filter (λ (o : Object). is_false (o.key == obj.key))).0 left in
    (
      there,
      λ o h.
          Or.elim (Bool-set _ _) (mem-cons.0 h)
            (λ same. ap (λ (q : Object). x.key == q.key) same ∙ differs) (others o),
    )

no_members : (xs : List Object) → ((x : Object) → ¬ Mem x xs) → xs ≡ []
no_members [] h = refl
no_members (x ∷ xs) h = absurd (h x mem-cons_self)

without_all_self : (objs : List Object) → without_all objs objs ≡ []
without_all_self objs = no_members (without_all objs objs) (λ x m.
    let (there, differs) = mem-without_all objs objs x m in
    false≢true (sym (differs x there) ∙ ==_refl x.key))

-- Of the objects that are kept or pruned, no more are left than were kept.
pub length-without_all-of_kept :
    (kept pruned offered : List Object)
    → Perm (kept ++ pruned) offered
    → length (without_all pruned offered) ≤ length kept
length-without_all-of_kept kept pruned offered split =
    let same = length-Perm _ _ (without_all-Perm pruned split) in
    let parts : without_all pruned (kept ++ pruned) ≡ without_all pruned kept =
      without_all-append pruned kept pruned
      ∙ ap (λ xs. without_all pruned kept ++ xs) (without_all_self pruned)
      ∙ append-nil (without_all pruned kept) in
    omega (arith, same, ap length parts, length-without_all pruned kept)

module _ {World Selector : Type 0} (p : Pruner World Selector) (converts : KeepsKeys p) where
  Offers-without :
      (obj : Object) (items offered : List Object)
      → Offers p items offered
      → Offers p (without obj items) (without obj offered)
  Offers-without obj items offered Offers.done = Offers.done
  Offers-without obj (item ∷ items) offered (Offers.skip e hc he hu rest) =
      elim (Bool-cases (item.key == obj.key)) [
        | inl same ↦ rw same (Offers-without obj items offered rest)
        | inr differs ↦ rw differs (Offers.skip e hc he hu (Offers-without obj items offered rest))
      ]
  Offers-without obj (item ∷ items) (o ∷ offered) (Offers.offer hc he rest) =
      let key = ap (λ k. k == obj.key) (converts item o hc) in
      elim (Bool-cases (item.key == obj.key)) [
        | inl same ↦ rw (key ∙ same, same) (Offers-without obj items offered rest)
        | inr differs ↦
            rw (key ∙ differs, differs) (Offers.offer hc he (Offers-without obj items offered rest))
      ]

  pub Offers-without_all :
      (objs items offered : List Object)
      → Offers p items offered
      → Offers p (without_all objs items) (without_all objs offered)
  unfolding without_all
  Offers-without_all [] items offered offers = offers
  Offers-without_all (obj ∷ objs) items offered offers =
      Offers-without_all objs (without obj items) (without obj offered)
        (Offers-without obj items offered offers)
