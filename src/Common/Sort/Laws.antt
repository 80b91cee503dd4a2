-- ===== src/Common/Sort/Laws.antt =====
-- A sorted list is a rearrangement in order, and equal elements keep theirs.
use mathlib.Core.Bool.{Bool, true, false}
use mathlib.Core.Path.{◌≡◌, refl, ap, ◌∙◌}
use mathlib.Core.Logic.{inl, inr}
use mathlib.Core.List.{List, [], ◌∷◌, Perm}
use mathlib.Core.List.Perm
use native.Mathlib.Omega.{arith}
use solana_governance.Common.Tests.{if◌then◌else◌, Bool-cases}
use solana_governance.Common.Lists.{All}
use solana_governance.Common.Sort.{insert, sort}

-- `xs.filter(p)`
unfoldable pub keep {ℓ} : {A : Type ℓ} → (A → Bool) → List A → List A
keep p [] = []
keep p (x ∷ xs) = let rest = keep p xs in if p x then x ∷ rest else rest

module _ {A : Type 0} (le : A → A → Bool) where
  -- each element may stand before all behind it
  abbrev pub IsSorted : List A → Type 0
  IsSorted [] = Unit
  IsSorted (x ∷ xs) = All (λ y. le x y ≡ true) xs × IsSorted xs

  abbrev pub IsTransitive : Type 0
  IsTransitive = (x y z : A) → le x y ≡ true → le y z ≡ true → le x z ≡ true

  abbrev pub IsTotal : Type 0
  IsTotal = (x y : A) → le x y ≡ false → le y x ≡ true

  insert_first : (x y : A) (ys : List A) → le x y ≡ true → insert le x (y ∷ ys) ≡ x ∷ y ∷ ys
  unfolding insert
  insert_first x y ys h = ground arith

  insert_later :
      (x y : A) (ys : List A) → le x y ≡ false → insert le x (y ∷ ys) ≡ y ∷ insert le x ys
  unfolding insert
  insert_later x y ys h = ground arith

  insert-perm : (x : A) (ys : List A) → Perm (insert le x ys) (x ∷ ys)
  unfolding insert
  insert-perm x [] = Perm.rfl
  insert-perm x (y ∷ ys) = elim (Bool-cases (le x y)) [
    | inl h ↦ rw (insert_first x y ys h) Perm.rfl
    | inr h ↦
        rw (insert_later x y ys h) (Perm.trans (Perm.cons y (insert-perm x ys)) (Perm.swap x y ys))
  ]

  pub sort-perm : (xs : List A) → Perm (sort le xs) xs
  unfolding sort
  sort-perm [] = Perm.rfl
  sort-perm (x ∷ xs) = Perm.trans (insert-perm x (sort le xs)) (Perm.cons x (sort-perm xs))

  All-insert : (P : A → Type 0) (x : A) (ys : List A) → P x → All P ys → All P (insert le x ys)
  unfolding insert
  All-insert P x [] p a = (p, tt)
  All-insert P x (y ∷ ys) p a = elim (Bool-cases (le x y)) [
    | inl h ↦ rw (insert_first x y ys h) (p, a)
    | inr h ↦ rw (insert_later x y ys h) (a.0, All-insert P x ys p a.1)
  ]

  All-le :
      (x y : A) (ys : List A)
      → IsTransitive
      → le x y ≡ true
      → All (λ z. le y z ≡ true) ys
      → All (λ z. le x z ≡ true) ys
  All-le x y [] t h a = tt
  All-le x y (z ∷ ys) t h a = (t x y z h a.0, All-le x y ys t h a.1)

  insert-IsSorted :
      (x : A) (ys : List A) → IsTransitive → IsTotal → IsSorted ys → IsSorted (insert le x ys)
  unfolding insert
  insert-IsSorted x [] t o s = (tt, tt)
  insert-IsSorted x (y ∷ ys) t o s = elim (Bool-cases (le x y)) [
    | inl h ↦ rw (insert_first x y ys h) ((h, All-le x y ys t h s.0), s)
    | inr h ↦
        rw (insert_later x y ys h)
          (All-insert (λ z. le y z ≡ true) x ys (o x y h) s.0, insert-IsSorted x ys t o s.1)
  ]

  pub sort-IsSorted : (xs : List A) → IsTransitive → IsTotal → IsSorted (sort le xs)
  unfolding sort
  sort-IsSorted [] t o = tt
  sort-IsSorted (x ∷ xs) t o = insert-IsSorted x (sort le xs) t o (sort-IsSorted xs t o)

  apart : (b : Bool) → b ≡ false → b ≡ true → ⊥
  apart b f t = ground arith

  swapped :
      (p : A → Bool) (x y : A) (ys rest : List A)
      → keep p rest ≡ keep p (x ∷ ys)
      → (p x ≡ true → p y ≡ true → ⊥)
      → keep p (y ∷ rest) ≡ keep p (x ∷ y ∷ ys)
  unfolding keep
  swapped p x y ys rest h n = ground (arith, h, n)

  insert-keep :
      (p : A → Bool) (x : A) (ys : List A)
      → ((y z : A) → p y ≡ true → p z ≡ true → le y z ≡ true)
      → keep p (insert le x ys) ≡ keep p (x ∷ ys)
  unfolding insert keep
  insert-keep p x [] e = refl
  insert-keep p x (y ∷ ys) e = elim (Bool-cases (le x y)) [
    | inl h ↦ ap (keep p) (insert_first x y ys h)
    | inr h ↦
        ap (keep p) (insert_later x y ys h)
        ∙ swapped p x y ys (insert le x ys) (insert-keep p x ys e)
            (λ b c. apart (le x y) h (e x y b c))
  ]

  -- what the order does not tell apart keeps its order
  pub sort-keep :
      (p : A → Bool) (xs : List A)
      → ((y z : A) → p y ≡ true → p z ≡ true → le y z ≡ true)
      → keep p (sort le xs) ≡ keep p xs
  unfolding sort keep
  sort-keep p [] e = refl
  sort-keep p (x ∷ xs) e =
      insert-keep p x (sort le xs) e
      ∙ ap (λ rest. if p x then x ∷ rest else rest) (sort-keep p xs e)
