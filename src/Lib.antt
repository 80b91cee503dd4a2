-- ===== src/Lib.antt =====
-- The governance frontend of Solana (frontend/src): what it computes and what it sends.
--
-- A validator or a delegator connects a wallet, sees the proposals with their phase, support and
-- quorum, and creates, supports or votes on one. The chain is read through the web3 and anchor
-- libraries, the proofs of stake come from the verifier service, and every transaction is built
-- here, signed by the wallet and sent. Modelled are the parts with logic of their own:
--
--   Lifecycle: lib/proposals.ts, the phases of a proposal and its status at an epoch
--     (`getProposalPhaseEpochs`, `getProposalStatus`).
--   Quorum: chain/quorum.ts, participation, vote shares and the choice of the denominator.
--   SupportStats: components/proposals/detail/support-phase-progress/stats.ts, the figures of the
--     support phase.
--   VoteDistribution: hooks/useVoteDistribution.ts, the split of a vote over the three options, as a
--     state with the hook's changes as steps.
--   PhaseTimeline: components/proposals/detail/phase-timeline, the states of the phases, their
--     connectors, and the window on a small screen.
--   Ncn: lib/ncnApi.ts, the failures of the verifier service, one attempt, the retry loop, and (in
--     Lossless) the integers of a response.
--   Dates: helpers/date.ts, slot times, countdowns and ages, and (in Epochs) `epochToDate`.
--   Chain: chain/instructions. Types holds the accounts and instructions, Flow the monad, Helpers the
--     checks, addresses and signing of helpers.ts, Slots the close time of a proof account,
--     ComputeBudget the compute units of a support, Vote `castVote` and `modifyVote`, Override
--     `castVoteOverride` and `modifyVoteOverride`, Support `supportProposal`, Create `createProposal`,
--     and Finalize the finalizing of a proposal and addMerkleRoot.ts. Sound says what a run may do
--     on behalf of a key, with rules for the monad (Rules), the shared steps (Steps) and the functions
--     (Vote, Override, Support, Create, Results); Live is about when a vote returns.
--   Github: lib/github, the documents of proposals. FileName and Url read the URL of a description
--     (proposalUrl.ts), Validate is the check before a proposal is created (validateProposalUrl.ts),
--     and OnChain the one that the program makes (`is_valid_github_link` of
--     svmgov/program/programs/svmgov_program/src/utils.rs); PickFile chooses among the files of a pull
--     request, Frontmatter and Markdown read the number and the summary of a document, Heading puts the
--     number in front of a title, Api reads the answers of GitHub, and Document fetches
--     (pickProposalFile.ts, proposalMarkdown.ts, proposalHeading.ts, fetchProposalDocument.ts).
--   Data: Config, lib/getGovernanceConfig.ts; Proposals, data/getProposals.ts with
--     hooks/useSummaryStats.ts; Splits, hooks/useValidatorsVoterSplits.ts; Votes,
--     data/getVoteProposals.ts and data/getHasUserVoted.ts; Memcmp, the filters of the accounts
--     (data/getVoteOverrideAccounts.ts, data/getSupportAccounts.ts) over the layout of the accounts;
--     TopVoters, hooks/useProposalVotes.ts.
--   Modals: components/modals, the handlers of the forms (Cast, Override, Proposal), in Session a run of
--     them with the calls that wait for an answer, and in Opening which form is open
--     (contexts/ModalContext.tsx).
--   Settings: contexts/EndpointContext.tsx, contexts/NcnApiContext.tsx and the form of the settings;
--     Route, app/api/governance/config/route.ts. Both read lib/getRpcUrls.ts.
--   Validators: hooks/useGetValidators.ts and hooks/useGetValidatorsTable.ts, and Voters:
--     components/TopVoters.tsx, its pages and its file.
--   Tables: which rows the tables of components/ open and show, and Carousel: the cards of
--     TimeRemainingCarousel.tsx.
--   Reports: lib/sentryFilters.ts, the reports of errors that are dropped, and (in Cancelled)
--     lib/walletSigning.ts.
--   Networks: lib/snapshotNetwork.ts and lib/governance/role-detection.ts.
--   Common: Booleans, lists, integers, fractions and texts that the parts share. Tests: runs.
--
-- An asynchronous function is a function of the trace, the events so far with the newest first: each
-- awaited call adds an event, and its answer is a function of the whole trace, so the libraries, the
-- wallet and the services may answer differently each time, fail, or return another transaction than
-- the one they were given. The record Env of Chain.Flow holds these calls; nothing is assumed of
-- them. A thrown error ends the function and leaves the trace.
--
-- The browser's own functions on URLs, percent encoding, letters and numbers are the record Platform
-- of Github.Platform. Where a theorem needs it, KeepsPlain of Github.Validate.Accepts states that
-- parsing keeps a plain URL of github.com. Patterns are written out as functions on text, which is a
-- list of UTF-16 code units. The requests of a document are a log, and an answer is a function of it.
--
-- Numbers: epochs, slots, lamports and milliseconds are natural numbers without a bound; the sources
-- keep them as numbers, which are exact below 2 ^ 53. Quotients are exact fractions, where the sources
-- round to a double; a comparison may differ there for values that are apart by the rounding only. The
-- slot arithmetic of the close time is on integers, with truncation written out. The shares of a vote
-- and the basis points that are handed over are doubles, with the rounding of every operation
-- (Common.Double), and `new BN` truncates them.
--
-- Bounds: the search for a block time makes at most 8 calls, and the retry loop has one round more
-- than the retries allowed, so neither bound is ever what ends it otherwise than the sources do. The
-- loop over the pages of a pull request makes three rounds, as in the source.
--
-- The state of a component is a record, and what happens to it a list of events; the values of the
-- hooks that a handler reads come with the event. JSON, the parser of URLs, the text of numbers and
-- dates and the comparison of bytes by the RPC server are arguments, and where a theorem needs it, a
-- hypothesis states what is documented of them. Lower case is that of ASCII.
--
-- Not modelled: the texts of error messages, the queries of React Query, the markup of the components,
-- the sorting and paging of the table library, the generated program types but for the fields that are
-- filtered, and the programs and services in Rust but for `is_valid_github_link`.
pub mod Common
pub mod Lifecycle
pub mod Carousel
pub mod Chain
pub mod Dates
pub mod Github
pub mod Data
pub mod Reports
pub mod Networks
pub mod Modals
pub mod Ncn
pub mod PhaseTimeline
pub mod Quorum
pub mod Settings
pub mod SupportStats
pub mod Tables
pub mod Tests
pub mod Validators
pub mod VoteDistribution
pub mod Voters
