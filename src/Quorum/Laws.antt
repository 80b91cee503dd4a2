-- ===== src/Quorum/Laws.antt =====
-- Laws of the quorum and the shares of frontend/src/chain/quorum.ts.
use solana_governance.Common.{
  ℕ, ◌*◌, ◌≤◌, ◌<◌, ◌≡◌, ◌≢◌, ◌↔◌, true, Option, none, some, arith, ap, sym, ◌∙◌,
}
use solana_governance.Common.Ratio.{Ratio, add, RatioLe, RatioEq}
use solana_governance.Quorum.{
  QuorumInput, KnownQuorum, VoteShares, SnapshotTotalSource, participating_lamports, quorum_of,
  compute_quorum, resolve_quorum_denominator,
}

known_quorum :
    (input : QuorumInput) (q : KnownQuorum)
    → compute_quorum input ≡ some q
    → (q ≡ quorum_of input q.total_active_stake)
      × (input.total_active_stake ≡ some q.total_active_stake)
      × (0 < q.total_active_stake)
unfolding compute_quorum
known_quorum input q h = ground arith

quorum_known :
    (input : QuorumInput) (total : ℕ)
    → input.total_active_stake ≡ some total
    → 0 < total
    → compute_quorum input ≡ some (quorum_of input total)
unfolding compute_quorum
quorum_known input total h p = ground arith

pub compute_quorum_lem :
    (input : QuorumInput) (q : KnownQuorum)
    → (compute_quorum input ≡ some q) ↔ (
        (0 < q.total_active_stake)
        × (input.total_active_stake ≡ some q.total_active_stake)
        × (q.participation_percent
            ≡ record { num = 100 * participating_lamports input; den = q.total_active_stake })
        × ((q.is_met ≡ true) ↔ (q.total_active_stake ≤ 3 * participating_lamports input)))
unfolding compute_quorum
compute_quorum_lem input q = (
  λ h. ground (arith, known_quorum input q),
  λ h. quorum_known input q.total_active_stake h.1 h.0 ∙ ap some (ground arith),
)

-- more votes
infix 50 ◌≼◌
abbrev pub ◌≼◌ : QuorumInput → QuorumInput → Type 0
a ≼ b =
    (a.for_lamports ≤ b.for_lamports)
    × (a.against_lamports ≤ b.against_lamports)
    × (a.abstain_lamports ≤ b.abstain_lamports)
    × (a.total_active_stake ≡ b.total_active_stake)

percent_mono : (x y t : ℕ) → x ≤ y → 100 * x * t ≤ 100 * y * t
percent_mono x y t h = grind arith

-- A quorum that is met is still met, against the same total, after more votes, at no smaller a
-- participation.
pub compute_quorum_mono :
    (a b : QuorumInput) (q : KnownQuorum)
    → a ≼ b
    → compute_quorum a ≡ some q
    → q.is_met ≡ true
    → (r : KnownQuorum) × (compute_quorum b ≡ some r)
      × (r.is_met ≡ true)
      × RatioLe q.participation_percent r.participation_percent
unfolding compute_quorum
compute_quorum_mono a b q m e h =
    let known = (compute_quorum_lem a q).0 e in
    (
      quorum_of b q.total_active_stake,
      quorum_known b q.total_active_stake (sym m.3 ∙ known.1) known.0,
      ground arith,
      rw known.2 (percent_mono _ _ q.total_active_stake (ground arith)),
    )

-- a statement about what is known
abbrev pub OnSome : {A : Type 0} → (A → Type 0) → Option A → Type 0
OnSome P none = Unit
OnSome P (some a) = P a

abbrev pub SumTo : VoteShares → Ratio → Type 0
SumTo s r = RatioEq (add (add s.for_percent s.against_percent) s.abstain_percent) r

-- A denominator is found exactly when the served snapshot is the one of the proposal, whose slot is
-- set, and it records its total.
pub resolve_quorum_denominator_iff :
    (meta : Option SnapshotTotalSource) (proposal_slot : Option ℕ) (total : ℕ)
    → (resolve_quorum_denominator meta proposal_slot ≡ some total) ↔ (
        (m : SnapshotTotalSource) × (meta ≡ some m)
        × (proposal_slot ≡ some m.slot)
        × (m.slot ≢ 0)
        × (m.total_active_stake ≡ some total))
unfolding resolve_quorum_denominator
resolve_quorum_denominator_iff meta proposal_slot total = ground arith
