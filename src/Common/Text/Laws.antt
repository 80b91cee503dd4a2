-- ===== src/Common/Text/Laws.antt =====
-- Laws of the operations on texts.
use Prim.Native.Nat.{ℕ}
use mathlib.Core.Path.{◌≡◌, refl, sym, ap, ◌∙◌}
use mathlib.Core.Logic.{inl, inr}
use mathlib.Core.Bool.{Bool, true, false, not, ◌&&◌, ◌||◌}
use mathlib.Core.List.{List, [], ◌∷◌, ◌++◌, reverse, reverse-cons, reverse-reverse}
use native.Mathlib.Omega.{arith}
use solana_governance.Common.Tests.{◌==◌, Bool-cases, ==_iff}
use solana_governance.Common.Lists.{length, All}
use solana_governance.Common.Text.{
  Text, text_eq, starts_with, extend, split, join, all, some_part, non_empty, is_empty, drop,
  drop_while, is_space, trim, trim_start, trim_end,
}

pub text_eq_refl : (s : Text) → text_eq s s ≡ true
unfolding text_eq
text_eq_refl [] = refl
text_eq_refl (c ∷ s) = ground (arith, text_eq_refl s)

pub text_eq_sound : (s t : Text) → text_eq s t ≡ true → s ≡ t
unfolding text_eq
text_eq_sound [] [] h = refl
text_eq_sound [] (d ∷ t) h = cc
text_eq_sound (c ∷ s) [] h = cc
text_eq_sound (c ∷ s) (d ∷ t) h = ground (arith, text_eq_sound s t)

pub starts_with-append : (s t : Text) → starts_with (s ++ t) s ≡ true
unfolding starts_with
starts_with-append [] t = refl
starts_with-append (c ∷ s) t = ground (arith, starts_with-append s t)

module _ (sep : ℕ) where
  -- a split has a first part
  pub split-cons : (s : Text) → (part : Text) × (parts : List Text) × (split sep s ≡ part ∷ parts)
  unfolding split
  split-cons [] = ([], [], refl)
  split-cons (c ∷ s) = elim (Bool-cases (c == sep)) [
    | inl h ↦ ([], split sep s, rw h refl)
    | inr h ↦ let rest = split-cons s in (c ∷ rest.0, rest.1, rw h (rw rest.2 refl))
  ]

  pub split_at_sep : (c : ℕ) (s : Text) → (c == sep) ≡ true → split sep (c ∷ s) ≡ [] ∷ split sep s
  unfolding split
  split_at_sep c s h = rw h refl

  pub split_inside :
      (c : ℕ) (s part : Text) (parts : List Text)
      → (c == sep) ≡ false
      → split sep s ≡ part ∷ parts
      → split sep (c ∷ s) ≡ (c ∷ part) ∷ parts
  unfolding split
  split_inside c s part parts h e = rw h (rw e refl)

  join_push :
      (c : ℕ) (part : Text) (parts : List Text)
      → join (sep ∷ []) ((c ∷ part) ∷ parts) ≡ c ∷ join (sep ∷ []) (part ∷ parts)
  unfolding join
  join_push c part [] = refl
  join_push c part (next ∷ parts) = refl

  -- joining a split gives the text back
  pub join-split : (s : Text) → join (sep ∷ []) (split sep s) ≡ s
  unfolding join
  join-split [] = unfold split in refl
  join-split (c ∷ s) =
      let rest = split-cons s in
      elim (Bool-cases (c == sep)) [
        | inl h ↦
            ap (join (sep ∷ [])) (split_at_sep c s h ∙ ap (λ ps. [] ∷ ps) rest.2)
            ∙ ap (λ t. sep ∷ t) (ap (join (sep ∷ [])) (sym rest.2) ∙ join-split s)
            ∙ ap (λ d. d ∷ s) (sym ((==_iff c sep).0 h))
        | inr h ↦
            ap (join (sep ∷ [])) (split_inside c s rest.0 rest.1 h rest.2)
            ∙ join_push c rest.0 rest.1
            ∙ ap (λ t. c ∷ t) (ap (join (sep ∷ [])) (sym rest.2) ∙ join-split s)
      ]

  -- a separator at the end opens an empty part
  pub split_trailing : (s : Text) → split sep (s ++ sep ∷ []) ≡ split sep s ++ [] ∷ []
  unfolding split
  split_trailing [] = ground arith
  split_trailing (c ∷ s) =
      let rest = split-cons s in
      elim (Bool-cases (c == sep)) [
        | inl h ↦ rw h (ap (λ ps. [] ∷ ps) (split_trailing s))
        | inr h ↦ rw h (ap (extend c) (split_trailing s) ∙ rw rest.2 refl)
      ]

  All-extend :
      (p : ℕ → Bool) (c : ℕ) (parts : List Text)
      → p c ≡ true
      → All (λ part. all p part ≡ true) parts
      → All (λ part. all p part ≡ true) (extend c parts)
  All-extend p c [] h a = (ground arith, tt)
  All-extend p c (part ∷ parts) h a = (rw h a.0, a.1)

  all-head :
      (p : ℕ → Bool) (c : ℕ) (s : Text) → all p (c ∷ s) ≡ true → (p c ≡ true) × (all p s ≡ true)
  all-head p c s h = ground arith

  -- a test of characters passes to the parts
  pub All-split :
      (p : ℕ → Bool) (s : Text) → all p s ≡ true → All (λ part. all p part ≡ true) (split sep s)
  unfolding split
  All-split p [] h = (refl, tt)
  All-split p (c ∷ s) h =
      let parts = all-head p c s h in
      elim (Bool-cases (c == sep)) [
        | inl e ↦ rw e (refl, All-split p s parts.1)
        | inr e ↦ rw e (All-extend p c (split sep s) parts.0 (All-split p s parts.1))
      ]

pub non_empty-split_end : (parts : List Text) → non_empty (parts ++ [] ∷ []) ≡ non_empty parts
unfolding non_empty
non_empty-split_end [] = refl
non_empty-split_end (part ∷ parts) = ground (arith, non_empty-split_end parts)

pub non_empty_id : (parts : List Text) → some_part is_empty parts ≡ false → non_empty parts ≡ parts
unfolding non_empty
non_empty_id [] h = refl
non_empty_id (part ∷ parts) h = ground (arith, non_empty_id parts)

pub starts_with-drop :
    (s prefix : Text) → starts_with s prefix ≡ true → s ≡ prefix ++ drop (length prefix) s
unfolding starts_with
starts_with-drop s [] h = refl
starts_with-drop [] (p ∷ ps) h = cc
starts_with-drop (c ∷ s) (p ∷ ps) h = ground (arith, starts_with-drop s ps)

pub some_part-append :
    (p : Text → Bool) (xs ys : List Text)
    → some_part p (xs ++ ys) ≡ (some_part p xs || some_part p ys)
some_part-append p [] ys = refl
some_part-append p (x ∷ xs) ys = ground (arith, some_part-append p xs ys)

pub all-append : (p : ℕ → Bool) (s t : Text) → all p (s ++ t) ≡ (all p s && all p t)
all-append p [] t = refl
all-append p (c ∷ s) t = ground (arith, all-append p s t)

abbrev no_space : ℕ → Bool
no_space c = not (is_space c)

drop_while_id : (s : Text) → all no_space s ≡ true → drop_while is_space s ≡ s
unfolding drop_while
drop_while_id [] h = refl
drop_while_id (c ∷ s) h = ground arith

all-reverse : (p : ℕ → Bool) (s : Text) → all p s ≡ true → all p (reverse s) ≡ true
all-reverse p [] h = refl
all-reverse p (c ∷ s) h =
    rw (reverse-cons c s) (all-append p (reverse s) (c ∷ []) ∙ ground (arith, all-reverse p s))

pub trim_id : (s : Text) → all no_space s ≡ true → trim s ≡ s
unfolding trim trim_start trim_end
trim_id s h =
    ap (λ t. reverse (drop_while is_space (reverse t))) (drop_while_id s h)
    ∙ ap reverse (drop_while_id (reverse s) (all-reverse no_space s h))
    ∙ reverse-reverse s
