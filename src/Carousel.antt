-- ===== src/Carousel.antt =====
-- frontend/src/components/proposals/detail/support-phase-progress/TimeRemainingCarousel.tsx: the cards of
-- the time that remains, and the one that is shown. A date is in milliseconds, an offset is a whole number
-- of pixels.
use solana_governance.Common.{
  ℕ, ◌+◌, ◌-◌, min, max, Bool, true, false, ◌&&◌, Option, none, some, List, [], ◌∷◌, length,
  get_elem?, leb, ltb, ◌==◌, if◌then◌else◌,
}
use solana_governance.Common.Int.{ℤ, pos, negsuc, ltb_ℤ}
use solana_governance.Lifecycle.{ProposalStatus, supporting, discussion, voting, finalized, failed}
pub mod Shown

pub record CarouselCard : Type 0 where
  pub stage : ProposalStatus
  pub end_date : ℕ

abbrev pub is_supporting : ProposalStatus → Bool
is_supporting supporting = true
is_supporting _ = false

abbrev pub same_stage : ProposalStatus → ProposalStatus → Bool
same_stage supporting supporting = true
same_stage discussion discussion = true
same_stage voting voting = true
same_stage finalized finalized = true
same_stage failed failed = true
same_stage _ _ = false

-- the properties of the component
pub record Props : Type 0 where
  pub lifecycle_stage : ProposalStatus
  pub support_to_discussion_end : ℕ
  pub discussion_to_voting_end : ℕ
  pub has_ended : Bool

unfoldable pub cards : Props → List CarouselCard
cards props =
    let first : CarouselCard = record {
      stage = supporting;
      end_date = props.support_to_discussion_end;
    } in
    if is_supporting props.lifecycle_stage
    then first ∷ []
    else first ∷ record { stage = discussion; end_date = props.discussion_to_voting_end } ∷ []

abbrev pub get_initial_index : ProposalStatus → ℕ
get_initial_index discussion = 1
get_initial_index _ = 0

pub data Direction : Type 0 where
  still forward backward : Direction

pub record Carousel : Type 0 where
  pub props : Props
  pub active_index : ℕ
  pub direction : Direction
  pub prev_stage : ProposalStatus

-- the first render
abbrev pub first_render : Props → Carousel
first_render props = record {
  props = props;
  active_index = get_initial_index props.lifecycle_stage;
  direction = still;
  prev_stage = props.lifecycle_stage;
}

-- a render with new properties
unfoldable pub rendered : Props → Carousel → Carousel
rendered props s =
    if same_stage s.prev_stage props.lifecycle_stage then record s { props = props } else record s {
      props = props;
      prev_stage = props.lifecycle_stage;
      active_index = get_initial_index props.lifecycle_stage;
    }

unfoldable pub go_to : ℕ → Carousel → Carousel
unfolding cards
go_to new_index s =
    let clamped = max 0 (min new_index (length (cards s.props) - 1)) in
    if clamped == s.active_index then s else record s {
      active_index = clamped;
      direction = if ltb s.active_index clamped then forward else backward;
    }

unfoldable pub handle_drag_end : (offset_x : ℤ) → Carousel → Carousel
unfolding go_to cards
handle_drag_end offset_x s =
    if ltb_ℤ offset_x (negsuc 19) && ltb s.active_index (length (cards s.props) - 1)
    then go_to (s.active_index + 1) s
    else if ltb_ℤ (pos 20) offset_x && ltb 0 s.active_index
    then go_to (s.active_index - 1) s
    else s

pub data CarouselEvent : Type 0 where
  props_changed : Props → CarouselEvent
  dragged : ℤ → CarouselEvent
  -- a dot under the cards
  picked : ℕ → CarouselEvent

unfoldable pub carousel_step : Carousel → CarouselEvent → Carousel
unfolding rendered go_to handle_drag_end
carousel_step s (props_changed props) = rendered props s
carousel_step s (dragged offset_x) = handle_drag_end offset_x s
carousel_step s (picked index) = go_to index s

unfoldable pub carousel_run : Carousel → List CarouselEvent → Carousel
unfolding carousel_step
carousel_run s [] = s
carousel_run s (event ∷ events) = carousel_run (carousel_step s event) events

unfoldable pub current_card : Carousel → Option CarouselCard
unfolding cards
current_card s = get_elem? (cards s.props) (max 0 (min s.active_index (length (cards s.props) - 1)))

abbrev pub past_stage : ProposalStatus → ProposalStatus → Bool
past_stage supporting supporting = false
past_stage supporting _ = true
past_stage discussion voting = true
past_stage discussion finalized = true
past_stage _ _ = false

unfoldable pub is_card_ended : Props → (now : ℕ) → CarouselCard → Bool
is_card_ended props now card =
    if props.has_ended
    then true
    else if ltb card.end_date now
    then true
    else past_stage card.stage props.lifecycle_stage
