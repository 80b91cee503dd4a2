-- ===== src/Modals/Session/Once.antt =====
-- A form of frontend/src/components/modals/ waits for the answer to one call of the mutation at a time.
use Prim.Native.String.{String}
use solana_governance.Common.{
  ℕ, ◌≤◌, ◌≡◌, refl, ◌⊎◌, inl, true, false, Option, List, [], ◌∷◌, arith,
}
use solana_governance.Chain.Vote.{VoteParams}
use solana_governance.Chain.Override.{OverrideParams}
use solana_governance.Modals.{
  Form, Outcome, Context, handle_success, handle_error, handle_proposal_change,
}
use solana_governance.Modals.Cast
use solana_governance.Modals.Override
use solana_governance.Modals.Override.{OverrideContext, OverrideState}
use solana_governance.Modals.Session.{
  Modal, SessionEvent, Session, submitted, succeeded, failed, proposal_changed,
  distribution_changed, extra_changed, requests_of, count, mounted_form, after, session_step,
  session_run,
}

-- the number of calls
abbrev pub calls : {X R : Type 0} → Outcome X R → ℕ
calls outcome = count (requests_of outcome.effects)

-- A submit calls at most once, only when the form is not loading, and is loading then; a form that is loading is left as it is.
abbrev pub IsGuarded : {X C R : Type 0} → (C → Form X → Outcome X R) → Type 0
IsGuarded {X} {C} submit =
    (c : C) (f : Form X)
    → ((f.is_loading ≡ true) × ((submit c f).form.is_loading ≡ true) × (calls (submit c f) ≡ 0))
      ⊎ ((f.is_loading ≡ false)
          × ((calls (submit c f) ≡ 0)
              ⊎ ((calls (submit c f) ≡ 1) × ((submit c f).form.is_loading ≡ true))))

abbrev pub Waits : {X R : Type 0} → Session X R → Type 0
Waits s = (s.in_flight ≡ 0) ⊎ ((s.in_flight ≡ 1) × (s.form.is_loading ≡ true))

cast-IsGuarded : IsGuarded Cast.handle_submit
unfolding Cast.handle_submit Cast.handle_vote requests_of
cast-IsGuarded c f = ground arith

override-IsGuarded : IsGuarded Override.handle_submit
unfolding Override.handle_submit Override.handle_vote requests_of
override-IsGuarded c f = ground arith

modify_override-IsGuarded : IsGuarded Override.handle_modify_submit
unfolding Override.handle_modify_submit Override.handle_modify_vote requests_of
modify_override-IsGuarded c f = ground arith

module _ {X C R : Type 0} (modal : Modal X C R) where
  session_step-Waits :
      (s : Session X R) (event : SessionEvent X C)
      → IsGuarded modal.submit
      → Waits s
      → Waits (session_step modal s event)
  unfolding session_step after handle_success handle_error handle_proposal_change
  session_step-Waits s (submitted c) g w = ground (arith, g c s.form)
  session_step-Waits s succeeded g w = ground arith
  session_step-Waits s (failed err) g w = ground arith
  session_step-Waits s (proposal_changed id cr) g w = w
  session_step-Waits s (distribution_changed event) g w = w
  session_step-Waits s (extra_changed extra) g w = w

  session_run-Waits :
      (s : Session X R) (events : List (SessionEvent X C))
      → IsGuarded modal.submit
      → Waits s
      → Waits (session_run modal s events)
  unfolding session_run
  session_run-Waits s [] g w = w
  session_run-Waits s (event ∷ events) g w =
      session_run-Waits (session_step modal s event) events g (session_step-Waits s event g w)

  session_run-mounted_form-le :
      (events : List (SessionEvent X C))
      → IsGuarded modal.submit
      → (session_run modal (mounted_form modal) events).in_flight ≤ 1
  session_run-mounted_form-le events g =
      bounded (session_run modal (mounted_form modal) events)
        (session_run-Waits (mounted_form modal) events g (inl refl))
    where
      bounded : (s : Session X R) → Waits s → s.in_flight ≤ 1
      bounded s w = ground (arith, w)

-- Whatever is done with a form of a vote, of an override or of a change of an override, and whatever
-- the mutation answers, at most one of its calls waits for an answer.
pub one_call :
    (cast : Modal Unit Context VoteParams)
    (override : Modal OverrideState OverrideContext OverrideParams)
    (modify_override : Modal (Option String) OverrideContext OverrideParams)
    → cast.submit ≡ Cast.handle_submit
    → override.submit ≡ Override.handle_submit
    → modify_override.submit ≡ Override.handle_modify_submit
    → (cast_events : List (SessionEvent Unit Context))
    → (override_events : List (SessionEvent OverrideState OverrideContext))
    → (modify_events : List (SessionEvent (Option String) OverrideContext))
    → ((session_run cast (mounted_form cast) cast_events).in_flight ≤ 1)
      × ((session_run override (mounted_form override) override_events).in_flight ≤ 1)
      × ((session_run modify_override (mounted_form modify_override) modify_events).in_flight ≤ 1)
one_call cast override modify_override h k l cast_events override_events modify_events = (
  session_run-mounted_form-le cast cast_events (rw h cast-IsGuarded),
  session_run-mounted_form-le override override_events (rw k override-IsGuarded),
  session_run-mounted_form-le modify_override modify_events (rw l modify_override-IsGuarded),
)
