-- ===== src/Leader/Rounds.antt =====
-- The rounds of the loop one after the other, runs of a program against a client, and predicates on
-- every path through a program.
use operator_lib.Common.{ℕ, zero, suc, List, ◌∷◌, ◌≡◌, refl}
use operator_lib.Leader.Program.{Request, Reply, Prog, ret, call, ◌>>=◌}
use operator_lib.Leader.Helpers.{Next, finished, again}
use operator_lib.Leader.Loop.{attempt}

module _ {Client : Type 0} where
  -- The program, and then at most so many rounds of the loop.
  unfoldable pub rounds : ℕ → Prog (Next Client) → Prog (Next Client)
  rounds zero p = p
  rounds (suc n) p = p >>= elim [ finished e ↦ ret (finished e) | again l ↦ rounds n (attempt l) ]

module _ {W A : Type 0} (answer : (r : Request) → W → Reply r × W) where
  -- What the program returns, and the state that it leaves.
  unfoldable pub run : Prog A → W → A × W
  run (ret a) w = (a, w)
  run (call r k) w = run (k (answer r w).0) (answer r w).1

pub run->>= :
    {W A B : Type 0} (answer : (r : Request) → W → Reply r × W) (p : Prog A) (f : A → Prog B)
    (w : W)
    → run answer (p >>= f) w ≡ run answer (f (run answer p w).0) (run answer p w).1
unfolding run
run->>= answer (ret a) f w = refl
run->>= answer (call r k) f w = run->>= answer (k (answer r w).0) f (answer r w).1

module _ {A : Type 0} (R : Request → Type 0) (P : A → Type 0) where
  -- Whatever is answered, each request satisfies `R`, and the result `P`.
  abbrev pub Always : Prog A → Type 0
  Always (ret a) = P a
  Always (call r k) = R r × ((x : Reply r) → Always (k x))

module _ {A B : Type 0} (R : Request → Type 0) {P : A → Type 0} (Q : B → Type 0) where
  pub Always->>= :
      (m : Prog A) (f : A → Prog B)
      → Always R P m
      → ((a : A) → P a → Always R Q (f a))
      → Always R Q (m >>= f)
  Always->>= (ret a) f h g = g a h
  Always->>= (call r k) f h g = (h.0, λ x. Always->>= (k x) f (h.1 x) g)

-- A call and its answer.
abbrev pub Event : Type 0
Event = (r : Request) × Reply r

module _ {A : Type 0} (R : List Event → Request → Type 0) (P : List Event → A → Type 0) where
  -- Each request satisfies `R` together with what was answered before it, the last answer first,
  -- and so does the result satisfy `P`.
  abbrev pub Past : List Event → Prog A → Type 0
  Past h (ret a) = P h a
  Past h (call r k) = R h r × ((x : Reply r) → Past ((r, x) ∷ h) (k x))

module _ {A B : Type 0} (R : List Event → Request → Type 0) {P : List Event → A → Type 0}
    (Q : List Event → B → Type 0) where
  pub Past->>= :
      (h : List Event) (m : Prog A) (f : A → Prog B)
      → Past R P h m
      → ((a : A) (h' : List Event) → P h' a → Past R Q h' (f a))
      → Past R Q h (m >>= f)
  Past->>= h (ret a) f p g = g a h p
  Past->>= h (call r k) f p g = (p.0, λ x. Past->>= ((r, x) ∷ h) (k x) f (p.1 x) g)

module _ {A : Type 0} (R : List Event → Request → Type 0) (P : List Event → A → Type 0)
    (S : List Event → Type 0) (stays : (e : Event) (h : List Event) → S h → S (e ∷ h)) where
  -- What stays true of the answers as more are given is true in the end.
  pub Past-stays :
      (h : List Event) (m : Prog A) → S h → Past R P h m → Past R (λ h' a. P h' a × S h') h m
  Past-stays h (ret a) s p = (p, s)
  Past-stays h (call r k) s p = (p.0, λ x. Past-stays ((r, x) ∷ h) (k x) (stays (r, x) h s) (p.1 x))

module _ {A : Type 0} {R : List Event → Request → Type 0} {P : List Event → A → Type 0}
    {R' : Request → Type 0} {P' : A → Type 0} where
  pub Past-Always :
      (h : List Event) (m : Prog A)
      → ((h' : List Event) (r : Request) → R h' r → R' r)
      → ((h' : List Event) (a : A) → P h' a → P' a)
      → Past R P h m
      → Always R' P' m
  Past-Always h (ret a) f g p = g h a p
  Past-Always h (call r k) f g p = (f h r p.0, λ x. Past-Always ((r, x) ∷ h) (k x) f g (p.1 x))

module _ (Possible : (r : Request) → Reply r → Type 0) where
  -- With possible answers alone, the program returns a value with `P`.
  abbrev pub Ends : {A : Type 0} → (A → Type 0) → Prog A → Type 0
  Ends P (ret a) = P a
  Ends P (call r k) = (x : Reply r) → Possible r x → Ends P (k x)

  pub Ends->>= :
      {A B : Type 0} (P : A → Type 0) (Q : B → Type 0) (m : Prog A) (f : A → Prog B)
      → Ends P m
      → ((a : A) → P a → Ends Q (f a))
      → Ends Q (m >>= f)
  Ends->>= P Q (ret a) f h g = g a h
  Ends->>= P Q (call r k) f h g = λ x p. Ends->>= P Q (k x) f (h x p) g

  pub Ends-any : {A : Type 0} (m : Prog A) → Ends (λ _. Unit {0}) m
  Ends-any (ret a) = tt
  Ends-any (call r k) = λ x p. Ends-any (k x)
