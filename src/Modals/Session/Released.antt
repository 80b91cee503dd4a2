-- ===== src/Modals/Session/Released.antt =====
-- OverrideVoteModal.tsx, CastVoteModal.tsx and ModifyVoteModal.tsx of frontend/src/components/modals/: whether a form that calls nothing takes the next submit.
use mathlib.Core.List.{append-nil}
use solana_governance.Common.{
  ◌≡◌, refl, ◌∙◌, ◌↔◌, ◌⊎◌, inl, true, false, ◌&&◌, none, List, [], ◌∷◌, arith,
}
use solana_governance.Chain.Vote.{VoteParams}
use solana_governance.Chain.Override.{OverrideParams}
use solana_governance.Lifecycle.{is_set}
use solana_governance.Networks.{no_role}
use solana_governance.VoteDistribution.{is_valid_distribution}
use solana_governance.Modals.{
  Form, Context, given_text, handle_success, handle_error, handle_proposal_change,
}
use solana_governance.Modals.Cast
use solana_governance.Modals.Override
use solana_governance.Modals.Override.{OverrideContext, OverrideState}
use solana_governance.Modals.Session.{
  Modal, SessionEvent, Session, submitted, succeeded, failed, proposal_changed,
  distribution_changed, extra_changed, requests_of, mounted_form, after, session_step, session_run,
}
use solana_governance.Modals.Session.Once.{calls}

-- a form is loading just when a call waits
abbrev pub IsReleased : {X R : Type 0} → Session X R → Type 0
IsReleased s =
    ((s.in_flight ≡ 0) × (s.form.is_loading ≡ false))
    ⊎ ((s.in_flight ≡ 1) × (s.form.is_loading ≡ true))

-- what a submit of an override does: nothing while loading, and else it is loading just when it calls
submit_cases :
    (c : OverrideContext) (f : Form OverrideState)
    → ((f.is_loading ≡ true)
        × ((Override.handle_submit c f).form.is_loading ≡ true)
        × (calls (Override.handle_submit c f) ≡ 0))
      ⊎ ((f.is_loading ≡ false)
          × (((calls (Override.handle_submit c f) ≡ 0)
                × ((Override.handle_submit c f).form.is_loading ≡ false))
              ⊎ ((calls (Override.handle_submit c f) ≡ 1)
                  × ((Override.handle_submit c f).form.is_loading ≡ true))))
unfolding Override.handle_submit Override.handle_vote requests_of
submit_cases c f = ground arith

module _ (modal : Modal OverrideState OverrideContext OverrideParams) where
  session_step-IsReleased :
      (s : Session OverrideState OverrideParams)
      (event : SessionEvent OverrideState OverrideContext)
      → modal.submit ≡ Override.handle_submit
      → IsReleased s
      → IsReleased (session_step modal s event)
  unfolding session_step after handle_success handle_error handle_proposal_change
  session_step-IsReleased s (submitted c) h w = rw h (ground (arith, submit_cases c s.form))
  session_step-IsReleased s succeeded h w = ground arith
  session_step-IsReleased s (failed err) h w = ground arith
  session_step-IsReleased s (proposal_changed id cr) h w = w
  session_step-IsReleased s (distribution_changed event) h w = w
  session_step-IsReleased s (extra_changed extra) h w = w

  session_run-IsReleased :
      (s : Session OverrideState OverrideParams)
      (events : List (SessionEvent OverrideState OverrideContext))
      → modal.submit ≡ Override.handle_submit
      → IsReleased s
      → IsReleased (session_run modal s events)
  unfolding session_run
  session_run-IsReleased s [] h w = w
  session_run-IsReleased s (event ∷ events) h w =
      session_run-IsReleased (session_step modal s event) events h
        (session_step-IsReleased s event h w)

  -- Whatever is done with the form of an override, and whatever the mutation answers, the form is
  -- loading just when one call waits for its answer, and no call waits otherwise.
  pub override-IsReleased :
      (events : List (SessionEvent OverrideState OverrideContext))
      → modal.submit ≡ Override.handle_submit
      → IsReleased (session_run modal (mounted_form modal) events)
  override-IsReleased events h =
      session_run-IsReleased (mounted_form modal) events h (inl (refl, refl))

-- The submit of a validator's vote leaves a form loading that has called nothing exactly when the form
-- was loading, or the submit passes the first guard and the wallet or the consensus result is missing
-- or the wallet has no role.
pub cast-stuck_iff :
    (c : Context) (f : Form Unit)
    → (((Cast.handle_submit c f).form.is_loading ≡ true) × (calls (Cast.handle_submit c f) ≡ 0)) ↔ (
        (f.is_loading ≡ true)
        ⊎ (((is_set (given_text f.selected_proposal.id) && is_valid_distribution f.distribution)
              ≡ true)
            × ((c.wallet ≡ none)
                ⊎ ((f.selected_proposal.consensus_result ≡ none) ⊎ (c.wallet_role ≡ no_role)))))
unfolding Cast.handle_submit Cast.handle_vote requests_of
cast-stuck_iff c f = ground arith

-- loading, and no call waits
abbrev pub IsStuck : {X R : Type 0} → Session X R → Type 0
IsStuck s = (s.in_flight ≡ 0) × (s.form.is_loading ≡ true)

submit_waits :
    (c : Context) (f : Form Unit)
    → f.is_loading ≡ true
    → ((Cast.handle_submit c f).form.is_loading ≡ true)
      × (requests_of (Cast.handle_submit c f).effects ≡ [])
unfolding Cast.handle_submit requests_of
submit_waits c f h = ground arith

module _ (modal : Modal Unit Context VoteParams) where
  session_step-IsStuck :
      (s : Session Unit VoteParams) (event : SessionEvent Unit Context)
      → modal.submit ≡ Cast.handle_submit
      → IsStuck s
      → IsStuck (session_step modal s event) × ((session_step modal s event).requests ≡ s.requests)
  unfolding session_step after handle_success handle_error handle_proposal_change
  session_step-IsStuck s (submitted c) h w =
      let waits = submit_waits c s.form w.1 in
      rw h (rw waits.1 ((omega (arith, w.0), waits.0), append-nil s.requests))
  session_step-IsStuck s succeeded h w = ground arith
  session_step-IsStuck s (failed err) h w = ground arith
  session_step-IsStuck s (proposal_changed id cr) h w = (w, refl)
  session_step-IsStuck s (distribution_changed event) h w = (w, refl)
  session_step-IsStuck s (extra_changed extra) h w = (w, refl)

  -- A form of a validator's vote that is loading while no call waits stays so whatever is done with it,
  -- and calls the mutation no more.
  pub cast-stays-IsStuck :
      (s : Session Unit VoteParams) (events : List (SessionEvent Unit Context))
      → modal.submit ≡ Cast.handle_submit
      → IsStuck s
      → IsStuck (session_run modal s events) × ((session_run modal s events).requests ≡ s.requests)
  unfolding session_run
  cast-stays-IsStuck s [] h w = (w, refl)
  cast-stays-IsStuck s (event ∷ events) h w =
      let one = session_step-IsStuck s event h w in
      let rest = cast-stays-IsStuck (session_step modal s event) events h one.0 in
      (rest.0, rest.1 ∙ one.1)
