-- ===== src/Data/Splits/Totals.antt =====
-- The tallies are the sums of the votes (frontend/src/hooks/useValidatorsVoterSplits.ts).
use Prim.Native.String.{String}
use text.Mathlib.Text.{◌==◌ as str_eq}
use text.Mathlib.TextEquality.{eq_iff}
use solana_governance.Common.{
  ◌≡◌, ◌⊎◌, ◌↔◌, ◌||◌, ◌+◌, ℕ, refl, sym, ap, ◌∙◌, inl, inr, Bool, true, false, List, [], ◌∷◌,
  if◌then◌else◌, arith, Bool-cases,
}
use solana_governance.Data.Splits.{
  Vote, Sums, Tally, no_votes, add_vote, counted, count_vote, is_known, tally_from,
}

-- the sums under an identity, and none without an entry
abbrev pub sums_at : String → List Tally → Sums
sums_at identity [] = no_votes
sums_at identity (tally ∷ tallies) =
    if str_eq tally.identity identity then tally.sums else sums_at identity tallies

-- the sums of the votes of an identity, added to others
abbrev pub total_from : String → List Vote → Sums → Sums
total_from identity [] s = s
total_from identity (vote ∷ votes) s =
    total_from identity votes (if str_eq vote.validator identity then add_vote vote s else s)

count_vote_here :
    (vote : Vote) (tally : Tally) (tallies : List Tally)
    → str_eq tally.identity vote.validator ≡ true
    → count_vote vote (tally ∷ tallies) ≡ counted vote tally ∷ tallies
unfolding count_vote
count_vote_here vote tally tallies h = ground arith

count_vote_later :
    (vote : Vote) (tally : Tally) (tallies : List Tally)
    → str_eq tally.identity vote.validator ≡ false
    → count_vote vote (tally ∷ tallies) ≡ tally ∷ count_vote vote tallies
unfolding count_vote
count_vote_later vote tally tallies h = ground arith

-- two texts that equal a third are not told apart
str_eq_joins : (s t u : String) → str_eq s u ≡ true → str_eq t u ≡ true → str_eq s t ≡ true
str_eq_joins s t u h k = (eq_iff s t).1 ((eq_iff s u).0 h ∙ sym ((eq_iff t u).0 k))

sums_at-count_vote :
    (vote : Vote) (identity : String) (tallies : List Tally)
    → sums_at identity (count_vote vote tallies) ≡ (
        if str_eq vote.validator identity
        then add_vote vote (sums_at identity tallies)
        else sums_at identity tallies)
unfolding count_vote
sums_at-count_vote vote identity [] = refl
sums_at-count_vote vote identity (tally ∷ tallies) =
    elim (Bool-cases (str_eq tally.identity vote.validator)) [
      | inl h ↦
          ap (sums_at identity) (count_vote_here vote tally tallies h)
          ∙ bumped (str_eq tally.identity identity) (str_eq vote.validator identity) vote tally.sums
              (sums_at identity tallies)
              (ap (λ s. str_eq s identity) ((eq_iff tally.identity vote.validator).0 h))
      | inr h ↦
          ap (sums_at identity) (count_vote_later vote tally tallies h)
          ∙ passed (str_eq tally.identity identity) (str_eq vote.validator identity) vote tally.sums
              (sums_at identity tallies) (sums_at identity (count_vote vote tallies))
              (λ a b.
                differ (str_eq tally.identity vote.validator) h
                  (str_eq_joins tally.identity vote.validator identity a b))
              (sums_at-count_vote vote identity tallies)
    ]
  where
    differ : (b : Bool) → b ≡ false → b ≡ true → ⊥
    differ b f t = ground arith

    bumped :
        (a b : Bool) (vote : Vote) (s rest : Sums)
        → a ≡ b
        → (if a then add_vote vote s else rest)
          ≡ (if b then add_vote vote (if a then s else rest) else (if a then s else rest))
    bumped true true vote s rest h = refl
    bumped true false vote s rest h = absurd (cc)
    bumped false true vote s rest h = absurd (cc)
    bumped false false vote s rest h = refl

    passed :
        (a b : Bool) (vote : Vote) (s rest rest' : Sums)
        → (a ≡ true → b ≡ true → ⊥)
        → rest' ≡ (if b then add_vote vote rest else rest)
        → (if a then s else rest')
          ≡ (if b then add_vote vote (if a then s else rest) else (if a then s else rest))
    passed true true vote s rest rest' n h = absurd (n refl refl)
    passed true false vote s rest rest' n h = refl
    passed false true vote s rest rest' n h = h
    passed false false vote s rest rest' n h = h

-- the votes of known validators
abbrev pub known_votes : List String → List Vote → List Vote
known_votes validators [] = []
known_votes validators (vote ∷ votes) =
    if is_known validators vote.validator
    then vote ∷ known_votes validators votes
    else known_votes validators votes

tally_from-total :
    (validators : List String) (identity : String) (votes : List Vote) (tallies : List Tally)
    → sums_at identity (tally_from validators votes tallies)
      ≡ total_from identity (known_votes validators votes) (sums_at identity tallies)
unfolding tally_from
tally_from-total validators identity [] tallies = refl
tally_from-total validators identity (vote ∷ votes) tallies =
    elim (Bool-cases (is_known validators vote.validator)) [
      | inl h ↦ rw h (
          tally_from-total validators identity votes (count_vote vote tallies)
          ∙ ap (total_from identity (known_votes validators votes))
              (sums_at-count_vote vote identity tallies))
      | inr h ↦ rw h (tally_from-total validators identity votes tallies)
    ]

-- one of the list
abbrev pub IsAmong : String → List String → Type 0
IsAmong identity [] = ⊥
IsAmong identity (validator ∷ validators) = (validator ≡ identity) ⊎ IsAmong identity validators

-- the votes of an identity, and the sum of a figure of votes
abbrev pub votes_of : String → List Vote → List Vote
votes_of identity [] = []
votes_of identity (vote ∷ votes) =
    if str_eq vote.validator identity
    then vote ∷ votes_of identity votes
    else votes_of identity votes

abbrev pub sum_of : (Vote → ℕ) → List Vote → ℕ
sum_of figure [] = 0
sum_of figure (vote ∷ votes) = figure vote + sum_of figure votes

-- the sums of some votes, added to others
abbrev plus_sums : Sums → List Vote → Sums
plus_sums s votes = record {
  for_sum = s.for_sum + sum_of (λ v. v.for_votes_bp) votes;
  against = s.against + sum_of (λ v. v.against_votes_bp) votes;
  abstain = s.abstain + sum_of (λ v. v.abstain_votes_bp) votes;
  count = s.count + sum_of (λ v. 1) votes;
}

plus_sums-nothing : (s : Sums) → plus_sums s [] ≡ s
plus_sums-nothing s = ground arith

plus_sums-add_vote :
    (s : Sums) (vote : Vote) (votes : List Vote)
    → plus_sums (add_vote vote s) votes ≡ plus_sums s (vote ∷ votes)
plus_sums-add_vote s vote votes = ground arith

total_from-known :
    (validators : List String) (identity : String) (votes : List Vote) (s : Sums)
    → is_known validators identity ≡ true
    → total_from identity (known_votes validators votes) s ≡ plus_sums s (votes_of identity votes)
total_from-known validators identity [] s k = sym (plus_sums-nothing s)
total_from-known validators identity (vote ∷ votes) s k =
    elim (Bool-cases (str_eq vote.validator identity)) [
      | inl h ↦
          rw (ap (is_known validators) ((eq_iff vote.validator identity).0 h) ∙ k, h)
            (ap
                (λ b.
                  total_from identity (known_votes validators votes)
                    (if b then add_vote vote s else s))
                h
              ∙ total_from-known validators identity votes (add_vote vote s) k
              ∙ plus_sums-add_vote s vote (votes_of identity votes))
      | inr h ↦ rw h (
          passed (is_known validators vote.validator) h
            (total_from-known validators identity votes s k))
    ]
  where
    passed :
        (b : Bool)
        → str_eq vote.validator identity ≡ false
        → total_from identity (known_votes validators votes) s
          ≡ plus_sums s (votes_of identity votes)
        → total_from identity
            (if b then vote ∷ known_votes validators votes else known_votes validators votes)
            s
          ≡ plus_sums s (votes_of identity votes)
    passed true h e =
        ap
          (λ b.
            total_from identity (known_votes validators votes) (if b then add_vote vote s else s))
          h
        ∙ e
    passed false h e = e

total_from-unknown :
    (validators : List String) (identity : String) (votes : List Vote) (s : Sums)
    → is_known validators identity ≡ false
    → total_from identity (known_votes validators votes) s ≡ s
total_from-unknown validators identity [] s k = refl
total_from-unknown validators identity (vote ∷ votes) s k =
    elim (Bool-cases (str_eq vote.validator identity)) [
      | inl h ↦
          rw (ap (is_known validators) ((eq_iff vote.validator identity).0 h) ∙ k)
            (total_from-unknown validators identity votes s k)
      | inr h ↦
          passed (is_known validators vote.validator) h
            (total_from-unknown validators identity votes s k)
    ]
  where
    passed :
        (b : Bool)
        → str_eq vote.validator identity ≡ false
        → total_from identity (known_votes validators votes) s ≡ s
        → total_from identity
            (if b then vote ∷ known_votes validators votes else known_votes validators votes)
            s
          ≡ s
    passed true h e =
        ap
          (λ b.
            total_from identity (known_votes validators votes) (if b then add_vote vote s else s))
          h
        ∙ e
    passed false h e = e

false_differs : false ≡ true → ⊥
false_differs h = ground arith

IsAmong-known :
    (validators : List String) (identity : String)
    → (IsAmong identity validators → is_known validators identity ≡ true)
      × (is_known validators identity ≡ true → IsAmong identity validators)
IsAmong-known [] identity = (λ m. absurd m, λ k. absurd (false_differs k))
IsAmong-known (v ∷ validators) identity =
    let rest = IsAmong-known validators identity in
    (
      to (str_eq v identity) (is_known validators identity) (eq_iff v identity) rest,
      from (str_eq v identity) (is_known validators identity) (eq_iff v identity) rest,
    )
  where
    to :
        (a b : Bool)
        → ((a ≡ true) ↔ (v ≡ identity))
        → (IsAmong identity validators → b ≡ true) × (b ≡ true → IsAmong identity validators)
        → (v ≡ identity) ⊎ IsAmong identity validators
        → (a || b) ≡ true
    to true b e r m = refl
    to false b e r (inl m) = absurd (false_differs (e.1 m))
    to false b e r (inr m) = r.0 m

    from :
        (a b : Bool)
        → ((a ≡ true) ↔ (v ≡ identity))
        → (IsAmong identity validators → b ≡ true) × (b ≡ true → IsAmong identity validators)
        → (a || b) ≡ true
        → (v ≡ identity) ⊎ IsAmong identity validators
    from true b e r k = inl (e.0 refl)
    from false b e r k = inr (r.1 k)

-- Under the identity of a validator the tallies give, of the votes of that identity, the sum of the
-- basis points for, that of those against, that of those abstained and their number, and under any
-- other identity nothing.
pub tally-total :
    (validators : List String) (identity : String) (votes : List Vote)
    → let sums = sums_at identity (tally_from validators votes []) in
      let own = votes_of identity votes in
      (IsAmong identity validators
        → (sums.for_sum ≡ sum_of (λ v. v.for_votes_bp) own)
          × (sums.against ≡ sum_of (λ v. v.against_votes_bp) own)
          × (sums.abstain ≡ sum_of (λ v. v.abstain_votes_bp) own)
          × (sums.count ≡ sum_of (λ v. 1) own))
      × (¬ IsAmong identity validators
          → (sums.for_sum ≡ 0) × (sums.against ≡ 0) × (sums.abstain ≡ 0) × (sums.count ≡ 0))
tally-total validators identity votes =
    let all = tally_from-total validators identity votes [] in
    (
      λ m. figures _ (votes_of identity votes) (
          all
          ∙ total_from-known validators identity votes no_votes
              ((IsAmong-known validators identity).0 m)),
      λ n. none_of _ (
          all
          ∙ total_from-unknown validators identity votes no_votes (
              not_true (is_known validators identity)
                λ k. n ((IsAmong-known validators identity).1 k))),
    )
  where
    figures :
        (sums : Sums) (own : List Vote)
        → sums ≡ plus_sums no_votes own
        → (sums.for_sum ≡ sum_of (λ v. v.for_votes_bp) own)
          × (sums.against ≡ sum_of (λ v. v.against_votes_bp) own)
          × (sums.abstain ≡ sum_of (λ v. v.abstain_votes_bp) own)
          × (sums.count ≡ sum_of (λ v. 1) own)
    figures sums own e = rw e (omega arith, omega arith, omega arith, omega arith)

    none_of :
        (sums : Sums)
        → sums ≡ no_votes
        → (sums.for_sum ≡ 0) × (sums.against ≡ 0) × (sums.abstain ≡ 0) × (sums.count ≡ 0)
    none_of sums e = rw e (refl, refl, refl, refl)

    not_true : (b : Bool) → (b ≡ true → ⊥) → b ≡ false
    not_true true n = absurd (n refl)
    not_true false n = refl
