-- ===== src/Carousel/Shown.antt =====
-- The card that TimeRemainingCarousel.tsx shows is the one it has moved to.
use solana_governance.Common.Int.{ℤ}
use solana_governance.Common.{
  ℕ, zero, suc, ◌+◌, ◌-◌, ◌<◌, ◌≡◌, refl, ap, ◌∙◌, min, max, true, some, List, [], ◌∷◌, length,
  get_elem?, arith,
}
use solana_governance.Lifecycle.{ProposalStatus}
use solana_governance.Carousel.{
  CarouselCard, Props, Carousel, CarouselEvent, props_changed, dragged, picked, cards,
  get_initial_index, same_stage, first_render, rendered, go_to, handle_drag_end, carousel_step,
  carousel_run, current_card,
}

-- the stage is that of the properties, and the index is of a card
abbrev pub IsShown : Carousel → Type 0
IsShown s = (s.prev_stage ≡ s.props.lifecycle_stage) × (s.active_index < length (cards s.props))

initial_lt : (props : Props) → get_initial_index props.lifecycle_stage < length (cards props)
unfolding cards
initial_lt props = ground arith

same_stage-eq : (a b : ProposalStatus) → same_stage a b ≡ true → a ≡ b
same_stage-eq a b h = ground arith

length-cards :
    (p q : Props) → p.lifecycle_stage ≡ q.lifecycle_stage → length (cards p) ≡ length (cards q)
unfolding cards
length-cards p q h = ground arith

length-cards_pos : (props : Props) → 0 < length (cards props)
unfolding cards
length-cards_pos props = ground arith

go_to-IsShown : (n : ℕ) (s : Carousel) → IsShown s → IsShown (go_to n s)
unfolding go_to
go_to-IsShown n s w = ground (arith, length-cards_pos s.props)

handle_drag_end-IsShown : (x : ℤ) (s : Carousel) → IsShown s → IsShown (handle_drag_end x s)
unfolding handle_drag_end
handle_drag_end-IsShown x s w =
    ground (arith, go_to-IsShown (s.active_index + 1) s, go_to-IsShown (s.active_index - 1) s)

rendered-IsShown : (props : Props) (s : Carousel) → IsShown s → IsShown (rendered props s)
unfolding rendered
rendered-IsShown props s w = ground (
  arith,
  initial_lt props,
  same_stage-eq s.prev_stage props.lifecycle_stage,
  length-cards s.props props,
)

carousel_step-IsShown :
    (s : Carousel) (event : CarouselEvent) → IsShown s → IsShown (carousel_step s event)
unfolding carousel_step
carousel_step-IsShown s (props_changed props) w = rendered-IsShown props s w
carousel_step-IsShown s (dragged x) w = handle_drag_end-IsShown x s w
carousel_step-IsShown s (picked n) w = go_to-IsShown n s w

carousel_run-IsShown :
    (s : Carousel) (events : List CarouselEvent) → IsShown s → IsShown (carousel_run s events)
unfolding carousel_run
carousel_run-IsShown s [] w = w
carousel_run-IsShown s (event ∷ events) w =
    carousel_run-IsShown (carousel_step s event) events (carousel_step-IsShown s event w)

get_elem?-some :
    (xs : List CarouselCard) (i : ℕ)
    → i < length xs
    → (x : CarouselCard) × (get_elem? xs i ≡ some x)
get_elem?-some [] i h = absurd (omega (arith, h))
get_elem?-some (x ∷ xs) zero h = (x, refl)
get_elem?-some (x ∷ xs) (suc i) h = get_elem?-some xs i (omega (arith, h))

-- After any renders, swipes and picks from the first render on, there is a card, and the card that is
-- shown is the one at the index that the component has moved to.
pub current_card-shown :
    (props : Props) (events : List CarouselEvent)
    → let s = carousel_run (first_render props) events in
      (card : CarouselCard) × (current_card s ≡ some card)
      × (get_elem? (cards s.props) s.active_index ≡ some card)
unfolding current_card
current_card-shown props events =
    let s = carousel_run (first_render props) events in
    let w = carousel_run-IsShown (first_render props) events (refl, initial_lt props) in
    let found = get_elem?-some (cards s.props) s.active_index w.1 in
    let same : max 0 (min s.active_index (length (cards s.props) - 1)) ≡ s.active_index =
      omega (arith, w.1) in
    (found.0, ap (get_elem? (cards s.props)) same ∙ found.1, found.1)
