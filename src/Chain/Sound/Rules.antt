-- ===== src/Chain/Sound/Rules.antt =====
-- Rules for the outcome of a flow: what holds of the trace if it throws, and of its answer and the
-- trace if it returns.
use mathlib.Core.Path.{subst}
use solana_governance.Common.{◌≡◌, refl, Option, none, some, ◌∷◌}
use solana_governance.Chain.Types.{Error, Result, ok, err}
use solana_governance.Chain.Flow.{Event, Trace, Flow, continue, ◌>>=◌, ask, lift, return, require}

abbrev pub Outcome :
    {A : Type 0} → (Trace → Type 0) → (A → Trace → Type 0) → Result A → Trace → Type 0
Outcome E Q (ok a) tr = Q a tr
Outcome E Q (err e) tr = E tr

pub record Ensures {A : Type 0} (m : Flow A) (tr : Trace) (E : Trace → Type 0)
    (Q : A → Trace → Type 0) : Type 0 where
  pub outcome : Outcome E Q (m tr).0 (m tr).1

module _ {A B : Type 0} {E : Trace → Type 0} {R : B → Trace → Type 0} where
  continue-Ensures :
      {Q : A → Trace → Type 0} (f : A → Flow B) (r : Result A) (tr : Trace)
      → Outcome E Q r tr
      → ((a : A) (t : Trace) → Q a t → Ensures (f a) t E R)
      → Outcome E R (continue f r tr).0 (continue f r tr).1
  continue-Ensures f (ok a) tr o k = (k a tr o).outcome
  continue-Ensures f (err x) tr o k = o

  pub bind-Ensures :
      {Q : A → Trace → Type 0} (m : Flow A) (f : A → Flow B) (tr : Trace)
      → Ensures m tr E Q
      → ((a : A) (t : Trace) → Q a t → Ensures (f a) t E R)
      → Ensures (m >>= f) tr E R
  unfolding ◌>>=◌
  bind-Ensures {Q} m f tr o k = record {
    outcome = continue-Ensures {Q = Q} f (m tr).0 (m tr).1 o.outcome k;
  }

  pub lift-Ensures :
      (r : Result A) (f : A → Flow B) (tr : Trace)
      → E tr
      → ((a : A) → r ≡ ok a → Ensures (f a) tr E R)
      → Ensures (lift r >>= f) tr E R
  unfolding ◌>>=◌ lift
  lift-Ensures (ok a) f tr e k = record { outcome = (k a refl).outcome }
  lift-Ensures (err x) f tr e k = record { outcome = e }

  pub ask-Ensures :
      (event : Event) (answer : Trace → Result A) (f : A → Flow B) (tr : Trace)
      → E (event ∷ tr)
      → ((a : A) → answer tr ≡ ok a → Ensures (f a) (event ∷ tr) E R)
      → Ensures (ask event answer >>= f) tr E R
  unfolding ◌>>=◌ lift ask
  ask-Ensures event answer f tr e k = record {
    outcome = (lift-Ensures (answer tr) f (event ∷ tr) e k).outcome;
  }

  pub require-Ensures :
      (x : Error) (o : Option A) (f : A → Flow B) (tr : Trace)
      → E tr
      → ((a : A) → o ≡ some a → Ensures (f a) tr E R)
      → Ensures (require x o >>= f) tr E R
  unfolding ◌>>=◌ require
  require-Ensures x (some a) f tr e k = record { outcome = (k a refl).outcome }
  require-Ensures x none f tr e k = record { outcome = e }

  pub given-Ensures :
      (x : Error) (o : Option A) (a : A) (f : A → Flow B) (tr : Trace)
      → o ≡ some a
      → Ensures (f a) tr E R
      → Ensures (require x o >>= f) tr E R
  unfolding ◌>>=◌ require
  given-Ensures x o a f tr e k = rw e (record { outcome = k.outcome })

pub return-Ensures :
    {A : Type 0} {E : Trace → Type 0} {Q : A → Trace → Type 0} (a : A) (tr : Trace)
    → Q a tr
    → Ensures (return a) tr E Q
unfolding return
return-Ensures a tr q = record { outcome = q }

pub lift_last-Ensures :
    {A : Type 0} {E : Trace → Type 0} {Q : A → Trace → Type 0} (r : Result A) (tr : Trace)
    → E tr
    → ((a : A) → r ≡ ok a → Q a tr)
    → Ensures (lift r) tr E Q
unfolding lift
lift_last-Ensures (ok a) tr e k = record { outcome = k a refl }
lift_last-Ensures (err x) tr e k = record { outcome = e }

pub ask_last-Ensures :
    {A : Type 0} {E : Trace → Type 0} {Q : A → Trace → Type 0} (event : Event)
    (answer : Trace → Result A) (tr : Trace)
    → E (event ∷ tr)
    → ((a : A) → answer tr ≡ ok a → Q a (event ∷ tr))
    → Ensures (ask event answer) tr E Q
unfolding lift ask
ask_last-Ensures event answer tr e k = record {
  outcome = (lift_last-Ensures (answer tr) (event ∷ tr) e k).outcome;
}

anyhow-Outcome :
    {A : Type 0} (E : Trace → Type 0) (r : Result A) (tr : Trace)
    → E tr
    → Outcome E (λ _ t. E t) r tr
anyhow-Outcome E (ok a) tr e = e
anyhow-Outcome E (err x) tr e = e

-- what holds of the trace anyhow
pub anyhow-Ensures :
    {A : Type 0} {E : Trace → Type 0} (m : Flow A) (tr : Trace)
    → E (m tr).1
    → Ensures m tr E (λ _ t. E t)
anyhow-Ensures {E} m tr e = record { outcome = anyhow-Outcome E (m tr).0 (m tr).1 e }

Outcome-anyhow :
    {A : Type 0} (E : Trace → Type 0) (Q : A → Trace → Type 0) (r : Result A) (tr : Trace)
    → ((a : A) (t : Trace) → Q a t → E t)
    → Outcome E Q r tr
    → E tr
Outcome-anyhow E Q (ok a) tr k o = k a tr o
Outcome-anyhow E Q (err x) tr k o = o

pub Ensures-anyhow :
    {A : Type 0} {E : Trace → Type 0} {Q : A → Trace → Type 0} (m : Flow A) (tr : Trace)
    → ((a : A) (t : Trace) → Q a t → E t)
    → Ensures m tr E Q
    → E (m tr).1
Ensures-anyhow {E} {Q} m tr k o = Outcome-anyhow E Q (m tr).0 (m tr).1 k o.outcome

weaken-Outcome :
    {A : Type 0} (E : Trace → Type 0) (Q R : A → Trace → Type 0) (r : Result A) (tr : Trace)
    → ((a : A) (t : Trace) → Q a t → R a t)
    → Outcome E Q r tr
    → Outcome E R r tr
weaken-Outcome E Q R (ok a) tr k o = k a tr o
weaken-Outcome E Q R (err x) tr k o = o

pub weaken-Ensures :
    {A : Type 0} {E : Trace → Type 0} {Q R : A → Trace → Type 0} (m : Flow A) (tr : Trace)
    → ((a : A) (t : Trace) → Q a t → R a t)
    → Ensures m tr E Q
    → Ensures m tr E R
weaken-Ensures {E} {Q} {R} m tr k o = record {
  outcome = weaken-Outcome E Q R (m tr).0 (m tr).1 k o.outcome;
}

trivial-Outcome :
    {A : Type 0} (r : Result A) (tr : Trace) → Outcome (λ _. Unit {0}) (λ _ _. Unit {0}) r tr
trivial-Outcome (ok a) tr = tt
trivial-Outcome (err x) tr = tt

pub trivial-Ensures :
    {A : Type 0} (m : Flow A) (tr : Trace) → Ensures m tr (λ _. Unit {0}) (λ _ _. Unit {0})
trivial-Ensures m tr = record { outcome = trivial-Outcome (m tr).0 (m tr).1 }

answer-Outcome :
    {A : Type 0} (E : Trace → Type 0) (Q : A → Trace → Type 0) (r : Result A) (tr : Trace) (a : A)
    → r ≡ ok a
    → Outcome E Q r tr
    → Q a tr
answer-Outcome E Q r tr a e o = subst (λ x. Outcome E Q x tr) e o

-- what holds of an answer
pub Ensures-answer :
    {A : Type 0} {E : Trace → Type 0} {Q : A → Trace → Type 0} (m : Flow A) (tr : Trace) (a : A)
    → Ensures m tr E Q
    → (m tr).0 ≡ ok a
    → Q a (m tr).1
Ensures-answer {E} {Q} m tr a o e = answer-Outcome E Q (m tr).0 (m tr).1 a e o.outcome
