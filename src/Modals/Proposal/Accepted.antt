-- ===== src/Modals/Proposal/Accepted.antt =====
-- What the form of frontend/src/components/modals/CreateProposalModal.tsx hands to createProposal.ts
-- passes its check, and that of the program.
use text.Mathlib.Text.{◌==◌ as str_eq}
use solana_governance.Common.{
  ◌≡◌, refl, sym, Bool, true, false, not, ◌||◌, Option, none, [], ◌∷◌, length, All, if◌then◌else◌,
}
use solana_governance.Common.Text.{trim, split, drop, some_part}
use solana_governance.Github.Platform.{Platform}
use solana_governance.Github.Validate.{
  validate_proposal_url, without_slash, on_chain_prefix, assert_valid_proposal_url,
}
use solana_governance.Github.Validate.Accepts.{
  KeepsPlain, dot, validate_proposal_url-ok_iff, normalized-trim, none-errors,
}
use solana_governance.Github.OnChain.Refines.{validate_proposal_url-refines}
use solana_governance.Github.OnChain.{is_valid_github_link}
use solana_governance.Chain.Types.{PublicKey, ok}
use solana_governance.Chain.Create.{CreateProposalParams, checked_description}
use solana_governance.Modals.Proposal.{CreateForm, Created, create_submit}
use solana_governance.Modals.{mutated}
use solana_governance.Modals.Session.{requests_of}

-- the text that both checks accept
abbrev pub IsAcceptedBy : Platform → CreateProposalParams → Type 0
IsAcceptedBy platform request =
    (checked_description (assert_valid_proposal_url platform request.description)
      ≡ ok (trim request.description))
    × (is_valid_github_link (trim request.description) ≡ true)

accepted :
    (platform : Platform) (request : CreateProposalParams)
    → KeepsPlain platform
    → some_part dot
        (split b'/' (without_slash (drop (length on_chain_prefix) (trim request.description))))
      ≡ false
    → (validate_proposal_url platform request.description).ok ≡ true
    → IsAcceptedBy platform request
unfolding assert_valid_proposal_url checked_description
accepted platform request k no_dot valid =
    let url = request.description in
    let a = (validate_proposal_url-ok_iff platform url).0 valid in
    let trimmed = normalized-trim platform url in
    (
      rw (none-errors platform url valid, trimmed) refl,
      rw (sym trimmed) (validate_proposal_url-refines platform url k valid no_dot),
    )

abbrev submitted :
    (untitled valid : Bool) (form loading : CreateForm) → CreateProposalParams → Created
submitted untitled valid form loading request =
    if untitled || not valid
    then record { form = form; effects = [] }
    else record { form = loading; effects = mutated request ∷ [] }

sent :
    (P : CreateProposalParams → Type 0) (untitled valid : Bool) (form loading : CreateForm)
    (request : CreateProposalParams)
    → (valid ≡ true → P request)
    → All P (requests_of (submitted untitled valid form loading request).effects)
unfolding requests_of
sent P true valid form loading request p = tt
sent P false true form loading request p = (p refl, tt)
sent P false false form loading request p = tt

-- What the form of a new proposal hands over, `createProposal` does not refuse for its description, and
-- the description that it sends on is one that the program accepts, for a browser whose parsing keeps a
-- plain URL, and if no segment of the path is a single dot.
pub create_submit-accepted :
    (platform : Platform) (wallet : Option PublicKey) (form : CreateForm)
    → KeepsPlain platform
    → some_part dot
        (split b'/' (without_slash (drop (length on_chain_prefix) (trim form.description))))
      ≡ false
    → All (IsAcceptedBy platform) (requests_of (create_submit platform wallet form).effects)
unfolding create_submit requests_of
create_submit-accepted platform wallet form k no_dot =
    let request : CreateProposalParams = record {
      title = form.title;
      description = form.description;
      seed = none;
      wallet = wallet;
    } in
    sent (IsAcceptedBy platform) (str_eq form.title "")
      (validate_proposal_url platform form.description).ok _ _ request
      (λ valid. accepted platform request k no_dot valid)
