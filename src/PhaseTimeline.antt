-- ===== src/PhaseTimeline.antt =====
-- frontend/src/components/proposals/detail/phase-timeline/utils.ts: the states of the phases on the
-- timeline, its connectors, and the window of nodes on a small screen. An index is an integer, as
-- the current one may be -1; a phase read out of range is `undefined`, here `none`.
use Prim.Native.String.{String}
use solana_governance.Common.{
  Bool, true, false, not, ◌&&◌, Option, none, some, List, [], ◌∷◌, ◌++◌, length, get_elem?, ◌==◌, ℕ,
  if◌then◌else◌,
}
use solana_governance.Common.Int.{ℤ, pos, negsuc, ◌+ℤ◌, ◌-ℤ◌, ltb_ℤ, eqb_ℤ, min_ℤ}
use solana_governance.Lifecycle.{ProposalStatus, supporting, discussion, voting, finalized, failed}
pub mod Connectors
pub mod Window

pub data PhaseState : Type 0 where
  passed current upcoming failed_phase : PhaseState

pub data ConnectorVariant : Type 0 where
  complete flowing not_yet : ConnectorVariant

pub data NodePosition : Type 0 where
  left center right : NodePosition

pub data PhaseIconKey : Type 0 where
  voting_icon clock flame discussion_icon : PhaseIconKey

pub record PhaseDefinition : Type 0 where
  pub key : ProposalStatus
  pub label : String
  pub icon : PhaseIconKey

pub data VisibleNode : Type 0 where
  created_node : PhaseState → NodePosition → VisibleNode
  phase_node : Option PhaseDefinition → PhaseState → NodePosition → VisibleNode

abbrev pub is_failed : ProposalStatus → Bool
is_failed failed = true
is_failed _ = false

abbrev pub is_finalized : ProposalStatus → Bool
is_finalized finalized = true
is_finalized _ = false

abbrev pub minus_one : ℤ
minus_one = negsuc 0

-- `phases[index]`
abbrev pub phase_at : List PhaseDefinition → ℤ → Option PhaseDefinition
phase_at phases (pos n) = get_elem? phases n
phase_at phases (negsuc n) = none

-- `phases.length - 1`
abbrev pub last_phase_index : List PhaseDefinition → ℤ
last_phase_index phases = pos (length phases) -ℤ pos 1

-- the status of the last parameter is always given by the callers
unfoldable pub resolve_phase_state : ℤ → ℤ → ProposalStatus → PhaseState
resolve_phase_state phase_index current_phase_index status =
    if is_failed status
    then if eqb_ℤ phase_index (pos 0) then failed_phase else upcoming
    else if eqb_ℤ current_phase_index minus_one
    then if eqb_ℤ phase_index (pos 0) then current else upcoming
    else if ltb_ℤ phase_index current_phase_index
    then passed
    else if eqb_ℤ phase_index current_phase_index
    then current
    else upcoming

abbrev pub is_passed : PhaseState → Bool
is_passed passed = true
is_passed _ = false

abbrev pub is_current : PhaseState → Bool
is_current current = true
is_current _ = false

abbrev pub is_upcoming : PhaseState → Bool
is_upcoming upcoming = true
is_upcoming _ = false

unfoldable pub resolve_connector_variant : PhaseState → PhaseState → ConnectorVariant
resolve_connector_variant left_state right_state =
    if is_passed left_state && is_passed right_state
    then complete
    else if is_passed left_state && is_current right_state
    then complete
    else if is_current right_state
    then flowing
    else if is_current left_state && is_upcoming right_state
    then not_yet
    else if is_current left_state
    then flowing
    else not_yet

abbrev pub is_not_yet : ConnectorVariant → Bool
is_not_yet not_yet = true
is_not_yet _ = false

unfoldable pub should_animate_connector : ConnectorVariant → ℤ → ProposalStatus → Bool → ℤ → Bool
should_animate_connector variant phase_index current_phase finalized_flag current_phase_index =
    if is_not_yet variant
    then false
    else if is_finalized current_phase
    then not finalized_flag
    else ltb_ℤ phase_index current_phase_index

abbrev pub create_phase_node : Option PhaseDefinition → PhaseState → NodePosition → VisibleNode
create_phase_node phase state position = phase_node phase state position

abbrev pub create_created_node : NodePosition → VisibleNode
create_created_node position = created_node passed position

-- the node of the phase at an index, in its own state
abbrev pub resolved_node :
    List PhaseDefinition → ℤ → ℤ → ProposalStatus → NodePosition → VisibleNode
resolved_node phases index current_phase_index status position =
    create_phase_node (phase_at phases index) (resolve_phase_state index current_phase_index status)
      position

unfoldable pub calculate_mobile_visible_nodes :
    List PhaseDefinition → ℤ → ProposalStatus → List VisibleNode
calculate_mobile_visible_nodes phases current_phase_index status =
    let last = last_phase_index phases in
    if is_finalized status && eqb_ℤ current_phase_index last
    then create_phase_node (phase_at phases (last -ℤ pos 2)) passed left
      ∷ create_phase_node (phase_at phases (last -ℤ pos 1)) passed center
      ∷ create_phase_node (phase_at phases last) current right
      ∷ []
    else if is_failed status
    then create_created_node left
      ∷ create_phase_node (phase_at phases (pos 0)) failed_phase center
      ∷ create_phase_node (phase_at phases (pos 1)) upcoming right
      ∷ []
    else (if eqb_ℤ current_phase_index (pos 0)
        then create_created_node left
        else resolved_node phases (current_phase_index -ℤ pos 1) current_phase_index status left)
      ∷ resolved_node phases current_phase_index current_phase_index status center
      ∷ (if ltb_ℤ current_phase_index last
          then resolved_node phases (current_phase_index +ℤ pos 1) current_phase_index status right
            ∷ []
          else [])

pub record EdgeConnectors : Type 0 where
  pub left_edge : Bool
  pub right_edge : Bool

abbrev pub rightmost_phase_index : List PhaseDefinition → ℤ → Bool → Bool → ℤ
rightmost_phase_index phases current_phase_index failed_flag finalized_flag =
    let last = last_phase_index phases in
    if finalized_flag && eqb_ℤ current_phase_index last
    then last
    else if failed_flag
    then pos 1
    else min_ℤ (current_phase_index +ℤ pos 1) last

unfoldable pub should_show_edge_connectors :
    List PhaseDefinition → ℤ → Bool → Bool → ℕ → EdgeConnectors
should_show_edge_connectors phases current_phase_index failed_flag finalized_flag visible_count =
    record {
      left_edge = ltb_ℤ (pos 0) current_phase_index && not failed_flag;
      right_edge =
          visible_count == 3
          && ltb_ℤ (rightmost_phase_index phases current_phase_index failed_flag finalized_flag)
              (last_phase_index phases);
    }

-- frontend/src/components/proposals/detail/phase-timeline/constants.ts
unfoldable pub phases : List PhaseDefinition
phases =
    record { key = supporting; label = "Support Phase"; icon = flame }
    ∷ record { key = discussion; label = "Discussion Phase"; icon = discussion_icon }
    ∷ record { key = voting; label = "Voting Active"; icon = voting_icon }
    ∷ record { key = finalized; label = "Finalized"; icon = clock }
    ∷ []
