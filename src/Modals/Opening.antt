-- ===== src/Modals/Opening.antt =====
-- frontend/src/contexts/ModalContext.tsx: which modal is open.
use solana_governance.Common.{Bool, true, false, ◌≡◌, Option, none, some, List, [], ◌∷◌, arith}

pub data ModalType : Type 0 where
  support_proposal create_proposal cast_vote modify_vote override_vote modify_override_vote
        settings :
      ModalType

abbrev pub same_modal : ModalType → ModalType → Bool
same_modal support_proposal support_proposal = true
same_modal create_proposal create_proposal = true
same_modal cast_vote cast_vote = true
same_modal modify_vote modify_vote = true
same_modal override_vote override_vote = true
same_modal modify_override_vote modify_override_vote = true
same_modal settings settings = true
same_modal _ _ = false

-- the data, which the form takes as its properties, has one type for all the forms
pub record ModalState (ModalData : Type 0) : Type 0 where
  pub type : Option ModalType
  pub data_of_modal : Option ModalData

abbrev pub no_modal : {ModalData : Type 0} → ModalState ModalData
no_modal = record { type = none; data_of_modal = none }

unfoldable pub open_modal :
    {ModalData : Type 0}
    → ModalType
    → Option ModalData
    → ModalState ModalData
    → ModalState ModalData
open_modal type modal_data state = record { type = some type; data_of_modal = modal_data }

unfoldable pub close_modal : {ModalData : Type 0} → ModalState ModalData → ModalState ModalData
close_modal state = no_modal

-- of a type, or of any
unfoldable pub is_modal_open : {ModalData : Type 0} → Option ModalType → ModalState ModalData → Bool
is_modal_open (some type) state = elim state.type [ none ↦ false | some t ↦ same_modal t type ]
is_modal_open none state = elim state.type [ none ↦ false | some t ↦ true ]

pub data ModalEvent (ModalData : Type 0) : Type 0 where
  opens : ModalType → Option ModalData → ModalEvent ModalData
  closes : ModalEvent ModalData

unfoldable pub modal_run :
    {ModalData : Type 0} → ModalState ModalData → List (ModalEvent ModalData) → ModalState ModalData
unfolding open_modal close_modal
modal_run state [] = state
modal_run state (opens type modal_data ∷ events) =
    modal_run (open_modal type modal_data state) events
modal_run state (closes ∷ events) = modal_run (close_modal state) events

-- After any events, no two types are open at once.
pub is_modal_open_one :
    {ModalData : Type 0} (state : ModalState ModalData) (events : List (ModalEvent ModalData))
    (s t : ModalType)
    → is_modal_open (some s) (modal_run state events) ≡ true
    → is_modal_open (some t) (modal_run state events) ≡ true
    → s ≡ t
unfolding is_modal_open
is_modal_open_one state events s t h k = both (modal_run state events).type h k
  where
    same_modal_eq : (a b : ModalType) → same_modal a b ≡ true → a ≡ b
    same_modal_eq a b h = ground arith

    both :
        (o : Option ModalType)
        → (elim o [ none ↦ false | some u ↦ same_modal u s ]) ≡ true
        → (elim o [ none ↦ false | some u ↦ same_modal u t ]) ≡ true
        → s ≡ t
    both none h k = absurd (cc)
    both (some u) h k = ground (arith, same_modal_eq u s h, same_modal_eq u t k)
