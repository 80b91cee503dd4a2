-- ===== src/Modals/Session/Ready.antt =====
-- What the forms of frontend/src/components/modals/ hand to the instructions of
-- frontend/src/chain/instructions/ passes the guards with which these begin, if the split of the form is
-- one of whole percentages.
use solana_governance.Common.{
  ℕ, ◌*◌, ◌≤◌, ◌≡◌, refl, ap, sym, ◌∙◌, true, not, if◌then◌else◌, Option, arith, All, ◌==◌, ==_iff,
}
use solana_governance.Common.Double.{integer}
use solana_governance.Common.Double.Exact.{plus-integers, times-integer, integer-injective, small}
use solana_governance.Chain.Types.{PublicKey, Distribution, BasisPoints, ok, err, bad_total}
use solana_governance.Chain.Helpers.{total_bp, validate_vote_basis_points}
use solana_governance.Chain.Sound.{IsIntegral, total_bn}
use solana_governance.Chain.Vote.{VoteParams}
use solana_governance.Chain.Override.{OverrideParams}
use solana_governance.Lifecycle.{is_set}
use solana_governance.VoteDistribution.{VoteDistribution, total, is_valid_distribution}
use solana_governance.VoteDistribution.Laws.{IsWholeSplit}
use solana_governance.VoteDistribution.Whole.{Percentages, sum, doubles, total-doubles}
use solana_governance.Modals.{Form, Context, basis_points}
use solana_governance.Modals.Cast
use solana_governance.Modals.Override
use solana_governance.Modals.Override.{OverrideContext, OverrideState}
use solana_governance.Modals.Session.{requests_of}

-- the sum of the basis points is right, they are integers, and the wallet and the consensus result are
-- there
abbrev pub Ready : Distribution → (wallet consensus_result : Option PublicKey) → Type 0
Ready d wallet consensus_result =
    (validate_vote_basis_points d ≡ ok tt)
    × IsIntegral d
    × (is_set wallet ≡ true)
    × (is_set consensus_result ≡ true)

abbrev pub VoteReady : VoteParams → Type 0
VoteReady p = Ready p.distribution p.wallet p.consensus_result

abbrev pub OverrideReady : OverrideParams → Type 0
OverrideReady p = Ready p.distribution p.wallet p.consensus_result

abbrev points : Percentages → BasisPoints
points p = record {
  for_votes_bn = p.for_percent * 100;
  against_votes_bn = p.against_percent * 100;
  abstain_votes_bn = p.abstain_percent * 100;
}

abbrev handed : BasisPoints → Distribution
handed b = record {
  for_votes_bp = integer b.for_votes_bn;
  against_votes_bp = integer b.against_votes_bn;
  abstain_votes_bp = integer b.abstain_votes_bn;
}

basis_points-doubles :
    (p : Percentages) → sum p ≤ 100 → basis_points (doubles p) ≡ handed (points p)
basis_points-doubles p h =
    rw
      (
        times-integer p.for_percent 100 (small (p.for_percent * 100) (omega arith)),
        times-integer p.against_percent 100 (small (p.against_percent * 100) (omega arith)),
        times-integer p.abstain_percent 100 (small (p.abstain_percent * 100) (omega arith)),
      )
      refl

basis_points-IsIntegral : (d : VoteDistribution) → IsWholeSplit d → IsIntegral (basis_points d)
basis_points-IsIntegral d (p, same, h) = (
  points p,
  ap (λ d. basis_points d) same ∙ basis_points-doubles p h,
  small (total_bn (points p)) (omega arith),
)

accepted :
    (d : VoteDistribution)
    → IsWholeSplit d
    → is_valid_distribution d ≡ true
    → validate_vote_basis_points (basis_points d) ≡ ok tt
unfolding validate_vote_basis_points is_valid_distribution
accepted d (p, same, h) v =
    let whole = integer-injective (sum p) 100 (
      sym (total-doubles p (small (sum p) (omega arith)))
      ∙ sym (ap (λ d. total d) same)
      ∙ (==_iff (total d) (integer 100)).0 v) in
    let b = points p in
    passes (basis_points d) (
      ap (λ d. total_bp (basis_points d)) same
      ∙ ap (λ d. total_bp d) (basis_points-doubles p h)
      ∙ plus-integers b.for_votes_bn b.against_votes_bn b.abstain_votes_bn
          (small (total_bn b) (omega arith))
      ∙ ap integer (full p whole))
  where
    full : (p : Percentages) → sum p ≡ 100 → total_bn (points p) ≡ 10000
    full p h = omega arith

    checks : (n : ℕ) → (if not (n == n) then err (bad_total n) else ok (tt {0})) ≡ ok (tt {0})
    checks n = ground arith

    passes :
        (d : Distribution) → total_bp d ≡ integer 10000 → validate_vote_basis_points d ≡ ok (tt {0})
    passes d h = rw h (checks (integer 10000))

-- A form of a vote whose split is one of whole percentages calls with basis points that are integers and
-- that `validateVoteBasisPoints` accepts, with a wallet and with a consensus result.
pub cast-VoteReady :
    (c : Context) (f : Form Unit)
    → IsWholeSplit f.distribution
    → All VoteReady (requests_of (Cast.handle_submit c f).effects)
unfolding Cast.handle_submit Cast.handle_vote requests_of is_valid_distribution
cast-VoteReady c f w =
    ground (arith, accepted f.distribution w, basis_points-IsIntegral f.distribution w)

-- So does a form of an override.
pub override-OverrideReady :
    (c : OverrideContext) (f : Form OverrideState)
    → IsWholeSplit f.distribution
    → All OverrideReady (requests_of (Override.handle_submit c f).effects)
unfolding Override.handle_submit Override.handle_vote requests_of is_valid_distribution
override-OverrideReady c f w =
    ground (arith, accepted f.distribution w, basis_points-IsIntegral f.distribution w)
