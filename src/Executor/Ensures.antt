-- ===== src/Executor/Ensures.antt =====
-- Triples for actions: what holds of the state, of a result and of an exception.
use agentic_google_workspace.Prelude.{◌≡◌, refl, ok, err}
use agentic_google_workspace.Contracts.{Checked, Exception}
use agentic_google_workspace.Database.{Rows}
use agentic_google_workspace.Executor.{World, Action}
use agentic_google_workspace.Executor.Monad.{pure, lift, continue, write, ◌>>=◌}

-- A result satisfies `Q`, an exception `E`.
abbrev pub Outcome : {A : Type 0} → (A → Type 0) → (Exception → Type 0) → Checked A → Type 0
Outcome Q E (ok a) = Q a
Outcome Q E (err e) = E e

pub record Ensures {A : Type 0} (P : World → Type 0) (Q : A → Type 0) (E : Exception → Type 0)
    (m : Action A) : Type 0 where
  pub keeps : (w : World) → P w → P (m w).1
  pub gives : (w : World) → P w → Outcome Q E (m w).0

Outcome-weaken :
    {A : Type 0} (Q R : A → Type 0) (E : Exception → Type 0) (r : Checked A)
    → ((a : A) → Q a → R a)
    → Outcome Q E r
    → Outcome R E r
Outcome-weaken Q R E (ok a) f q = f a q
Outcome-weaken Q R E (err e) f q = q

module _ {P : World → Type 0} {E : Exception → Type 0} where
  pub Ensures-pure : {A : Type 0} (Q : A → Type 0) (a : A) → Q a → Ensures P Q E (pure a)
  unfolding ◌>>=◌
  Ensures-pure Q a q = record { keeps = λ w p. p; gives = λ w p. q }

  pub Ensures-lift :
      {A : Type 0} (Q : A → Type 0) (m : Checked A) → Outcome Q E m → Ensures P Q E (lift m)
  unfolding ◌>>=◌
  Ensures-lift Q m q = record { keeps = λ w p. p; gives = λ w p. q }

  Ensures-continue :
      {A B : Type 0} (Q : A → Type 0) (R : B → Type 0) (r : Checked A) (f : A → Action B)
      → Outcome Q E r
      → ((a : A) → Q a → Ensures P R E (f a))
      → Ensures P R E (continue r f)
  Ensures-continue Q R (ok a) f q k = k a q
  Ensures-continue Q R (err e) f q k = record { keeps = λ w p. p; gives = λ w p. q }

  pub Ensures-bind :
      {A B : Type 0} (Q : A → Type 0) (R : B → Type 0) (m : Action A) (f : A → Action B)
      → Ensures P Q E m
      → ((a : A) → Q a → Ensures P R E (f a))
      → Ensures P R E (m >>= f)
  unfolding ◌>>=◌
  Ensures-bind Q R m f h k = record {
    keeps = λ w p. (Ensures-continue Q R (m w).0 f (h.gives w p) k).keeps (m w).1 (h.keeps w p);
    gives = λ w p. (Ensures-continue Q R (m w).0 f (h.gives w p) k).gives (m w).1 (h.keeps w p);
  }

  pub Ensures-write :
      (Q : Unit {0} → Type 0) (f : Rows → Rows)
      → ((w : World) → P w → P (write f w).1)
      → Q tt
      → Ensures P Q E (write f)
  unfolding ◌>>=◌
  Ensures-write Q f k q = record { keeps = k; gives = λ w p. q }

  pub Ensures-weaken :
      {A : Type 0} (Q R : A → Type 0) (m : Action A)
      → ((a : A) → Q a → R a)
      → Ensures P Q E m
      → Ensures P R E m
  Ensures-weaken Q R m f h = record {
    keeps = h.keeps;
    gives = λ w p. Outcome-weaken Q R E (m w).0 f (h.gives w p);
  }

-- What holds of a result and of the state behind it; nothing is said where an exception is raised.
pub record OnSuccess {A : Type 0} (P : World → Type 0) (Q : A → Type 0) (R : World → Type 0)
    (m : Action A) : Type 0 where
  pub at : (w : World) → P w → (a : A) → (m w).0 ≡ ok a → Q a × R (m w).1

continue-OnSuccess :
    {A B : Type 0} (Q : A → Type 0) (S : B → Type 0) (T R : World → Type 0) (r : Checked A)
    (f : A → Action B) (v : World)
    → ((a : A) → r ≡ ok a → Q a × T v)
    → ((a : A) → Q a → OnSuccess T S R (f a))
    → (b : B) → (continue r f v).0 ≡ ok b
    → S b × R (continue r f v).1
continue-OnSuccess Q S T R (ok a) f v h k b e = let (q, t) = h a refl in (k a q).at v t b e
continue-OnSuccess Q S T R (err c) f v h k b e = cc

pub OnSuccess-bind :
    {A B : Type 0} {P R : World → Type 0} (Q : A → Type 0) (S : B → Type 0) (T : World → Type 0)
    (m : Action A) (f : A → Action B)
    → OnSuccess P Q T m
    → ((a : A) → Q a → OnSuccess T S R (f a))
    → OnSuccess P S R (m >>= f)
unfolding ◌>>=◌
OnSuccess-bind {R = R} Q S T m f h k = record {
  at = λ w p b e. continue-OnSuccess Q S T R (m w).0 f (m w).1 (λ a r. h.at w p a r) k b e;
}
