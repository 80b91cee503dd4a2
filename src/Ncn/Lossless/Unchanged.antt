-- ===== src/Ncn/Lossless/Unchanged.antt =====
-- A response keeps its characters, quotes aside (frontend/src/lib/ncnApi.ts).
use solana_governance.Common.{
  ℕ, zero, suc, ◌+◌, ◌≡◌, refl, sym, ap, ◌∙◌, Bool, not, Option, none, some, List, [], ◌∷◌, ◌++◌,
  ◌==◌, if◌then◌else◌, arith,
}
use solana_governance.Common.Sort.Laws.{keep}
use solana_governance.Common.Text.{Text, take, drop}
use solana_governance.Ncn.Lossless.{
  match_integer, replaced, after_match, quote_integers, normalized,
}

abbrev pub no_quote : ℕ → Bool
no_quote c = not (c == b'"')

-- a text without its quotes
abbrev pub bare : Text → Text
bare s = keep no_quote s

bare-append : (s t : Text) → bare (s ++ t) ≡ bare s ++ bare t
unfolding keep
bare-append [] t = refl
bare-append (c ∷ s) t = ground (arith, bare-append s t)

take-drop : (n : ℕ) (s : Text) → take n s ++ drop n s ≡ s
take-drop zero s = refl
take-drop (suc n) [] = refl
take-drop (suc n) (c ∷ s) = ap (λ t. c ∷ t) (take-drop n s)

drop-empty : (n : ℕ) → drop n [] ≡ []
drop-empty zero = refl
drop-empty (suc n) = refl

-- a match, piece by piece
pieces : (k n : ℕ) (s : Text) → take k s ++ (take n (drop k s) ++ drop (k + n) s) ≡ s
pieces zero n s =
    let sum : 0 + n ≡ n = omega arith in ap (λ m. take n s ++ drop m s) sum ∙ take-drop n s
pieces (suc k) zero [] = drop-empty (suc k + 0)
pieces (suc k) (suc n) [] = drop-empty (suc k + suc n)
pieces (suc k) n (c ∷ s) =
    let sum : suc k + n ≡ suc (k + n) = omega arith in
    ap (λ m. c ∷ (take k s ++ (take n (drop k s) ++ drop m (c ∷ s)))) sum
    ∙ ap (λ t. c ∷ t) (pieces k n s)

bare-replaced :
    (s : Text) (k n : ℕ) (rest : Text)
    → bare rest ≡ bare (drop (k + n) s)
    → bare (replaced s k n rest) ≡ bare s
unfolding keep
bare-replaced s k n rest h =
    bare-append (take k s) _
    ∙ ap (λ t. bare (take k s) ++ t) (bare-append (take n (drop k s)) _)
    ∙ ap (λ t. bare (take k s) ++ (bare (take n (drop k s)) ++ t)) h
    ∙ ap (λ t. bare (take k s) ++ t) (sym (bare-append (take n (drop k s)) (drop (k + n) s)))
    ∙ sym (bare-append (take k s) (take n (drop k s) ++ drop (k + n) s))
    ∙ ap bare (pieces k n s)

bare-cons : (c : ℕ) (s t : Text) → bare s ≡ bare t → bare (c ∷ s) ≡ bare (c ∷ t)
unfolding keep
bare-cons c s t h = ap (λ r. if no_quote c then c ∷ r else r) h

bare-after_match :
    (c : ℕ) (s : Text) (rest : ℕ → Text) (found : Option (ℕ × ℕ))
    → ((k : ℕ) → bare (rest k) ≡ bare (drop k s))
    → bare (after_match c s rest found) ≡ bare (c ∷ s)
bare-after_match c s rest none h = bare-cons c (rest 0) s (h 0)
bare-after_match c s rest (some (k, n)) h =
    bare-cons c (replaced s k n (rest (k + n))) s (bare-replaced s k n (rest (k + n)) (h (k + n)))

bare-quote_integers :
    (field : Text) (skip : ℕ) (s : Text) → bare (quote_integers field skip s) ≡ bare (drop skip s)
unfolding quote_integers
bare-quote_integers field zero [] = refl
bare-quote_integers field (suc skip) [] = refl
bare-quote_integers field (suc skip) (c ∷ s) = bare-quote_integers field skip s
bare-quote_integers field zero (c ∷ s) =
    bare-after_match c s (λ skip. quote_integers field skip s) (match_integer field (c ∷ s))
      (λ k. bare-quote_integers field k s)

-- Whatever the fields and the response are, the text that is parsed has the characters of the
-- response in their order, quotes left aside.
pub normalized-bare : (fields : List Text) (body : Text) → bare (normalized fields body) ≡ bare body
unfolding normalized
normalized-bare [] body = refl
normalized-bare (field ∷ fields) body =
    normalized-bare fields (quote_integers field 0 body) ∙ bare-quote_integers field 0 body
