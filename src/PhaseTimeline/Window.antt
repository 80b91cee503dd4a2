-- ===== src/PhaseTimeline/Window.antt =====
-- The window of nodes on a small screen, of frontend/src/components/proposals/detail/phase-timeline.
use solana_governance.Common.{
  ℕ, zero, suc, ◌+◌, ◌-◌, ◌≤◌, ◌<◌, ◌≡◌, ◌≢◌, ◌↔◌, ◌⊎◌, refl, true, arith, List, [], ◌∷◌, length,
  get_elem?, All,
}
use solana_governance.Common.Int.{pos, ◌+ℤ◌, ◌-ℤ◌}
use solana_governance.Lifecycle.{ProposalStatus, failed, finalized, is_set}
use solana_governance.PhaseTimeline.{
  current, PhaseDefinition, VisibleNode, created_node, phase_node, is_finalized, is_failed,
  resolve_phase_state, calculate_mobile_visible_nodes, should_show_edge_connectors,
}

is_set-get_elem? {ℓ} :
    {A : Type ℓ} (xs : List A) (i : ℕ) → i < length xs → is_set (get_elem? xs i) ≡ true
is_set-get_elem? [] i h = elim h [ ]
is_set-get_elem? (x ∷ xs) zero h = refl
is_set-get_elem? (x ∷ xs) (suc i) h = is_set-get_elem? xs i (omega arith)

-- a node that shows a phase has one to show
abbrev pub IsDefined : VisibleNode → Type 0
IsDefined (created_node state position) = Unit
IsDefined (phase_node phase state position) = is_set phase ≡ true

abbrev pub shows_current : VisibleNode → ℕ
shows_current (created_node state position) = 0
shows_current (phase_node phase current position) = 1
shows_current (phase_node phase _ position) = 0

abbrev pub count_current : List VisibleNode → ℕ
count_current [] = 0
count_current (n ∷ ns) = shows_current n + count_current ns

calculate_mobile_visible_nodes-IsDefined :
    (phases : List PhaseDefinition) (c : ℕ) (status : ProposalStatus)
    → 3 ≤ length phases
    → c < length phases
    → status ≢ failed
    → All IsDefined (calculate_mobile_visible_nodes phases (pos c) status)
unfolding calculate_mobile_visible_nodes ◌+ℤ◌ ◌-ℤ◌
calculate_mobile_visible_nodes-IsDefined phases zero status h k f =
    ground (arith, is_set-get_elem? phases 0, is_set-get_elem? phases 1)
calculate_mobile_visible_nodes-IsDefined phases (suc c) status h k f = ground (
  arith,
  is_set-get_elem? phases c,
  is_set-get_elem? phases (suc c),
  is_set-get_elem? phases (suc (suc c)),
  is_set-get_elem? phases (c - 1),
)

calculate_mobile_visible_nodes-count :
    (phases : List PhaseDefinition) (c : ℕ) (status : ProposalStatus)
    → 3 ≤ length phases
    → c < length phases
    → status ≢ failed
    → let nodes = calculate_mobile_visible_nodes phases (pos c) status in
      (count_current nodes ≡ 1)
      × ((length nodes ≡ 3) ⊎ ((length nodes ≡ 2) × (suc c ≡ length phases) × (status ≢ finalized)))
unfolding calculate_mobile_visible_nodes ◌+ℤ◌ ◌-ℤ◌ resolve_phase_state
calculate_mobile_visible_nodes-count phases zero status h k f = ground arith
calculate_mobile_visible_nodes-count phases (suc c) status h k f = ground arith

-- On a timeline of at least three phases that has not failed, with its current phase in range: every
-- node of the window has a phase to show, exactly one node is current, and the window has three
-- nodes, or two if the last phase is current before the proposal is finalized.
pub calculate_mobile_visible_nodes-window :
    (phases : List PhaseDefinition) (c : ℕ) (status : ProposalStatus)
    → 3 ≤ length phases
    → c < length phases
    → status ≢ failed
    → let nodes = calculate_mobile_visible_nodes phases (pos c) status in
      All IsDefined nodes
      × (count_current nodes ≡ 1)
      × ((length nodes ≡ 3) ⊎ ((length nodes ≡ 2) × (suc c ≡ length phases) × (status ≢ finalized)))
calculate_mobile_visible_nodes-window phases c status h k f =
    let counted = calculate_mobile_visible_nodes-count phases c status h k f in
    (calculate_mobile_visible_nodes-IsDefined phases c status h k f, counted.0, counted.1)

-- On such a timeline the left edge is shown exactly after the first phase, and the right edge exactly
-- if a phase follows the one after the current.
pub should_show_edge_connectors_lem :
    (phases : List PhaseDefinition) (c : ℕ) (status : ProposalStatus)
    → 3 ≤ length phases
    → c < length phases
    → status ≢ failed
    → let edges =
        should_show_edge_connectors phases
          (pos c)
          (is_failed status)
          (is_finalized status)
          (length (calculate_mobile_visible_nodes phases (pos c) status)) in
      ((edges.left_edge ≡ true) ↔ (0 < c))
      × ((edges.right_edge ≡ true) ↔ (suc (suc c) < length phases))
unfolding should_show_edge_connectors ◌+ℤ◌ ◌-ℤ◌
should_show_edge_connectors_lem phases c status h k f =
    let counted = (calculate_mobile_visible_nodes-count phases c status h k f).1 in
    ((λ e. ground arith, λ e. ground arith), (λ e. ground arith, λ e. ground arith))
