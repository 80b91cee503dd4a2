-- ===== src/Github/PickFile.antt =====
-- frontend/src/lib/github/pickProposalFile.ts: the one document among the files that a pull request
-- changes.
use solana_governance.Common.{
  Bool, true, false, not, Option, none, some, List, [], ◌∷◌, if◌then◌else◌, map,
}
use solana_governance.Common.Text.{Text, text, text_eq, is_empty, split, includes}
use solana_governance.Common.Sort.{sort, text_le}
use solana_governance.Github.Platform.{Platform, ◌>>=◌}
use solana_governance.Github.FileName.{ProposalRef, ProposalRepoConfig, proposal_ref_from_file_name}
use solana_governance.Github.Url.{last_part}

pub record PullRequestFile : Type 0 where
  pub filename : Text
  pub status : Text
  pub contents_url : Text

pub record PickedProposalFile : Type 0 where
  pub path : Text
  pub head_sha : Text
  pub ref : Option ProposalRef

pub data PickProposalFileResult : Type 0 where
  picked : PickedProposalFile → PickProposalFileResult
  nothing : PickProposalFileResult
  ambiguous : (paths : List Text) → PickProposalFileResult

pub record Candidate : Type 0 where
  pub file : PullRequestFile
  pub path : Text
  pub head_sha : Text
  pub ref : ProposalRef

-- `path.slice(0, path.lastIndexOf("/"))`, and the empty text without a slash
unfoldable pub dirname : Text → Text
unfolding includes
dirname [] = []
dirname (c ∷ s) = let rest = dirname s in if includes s (text "/") then c ∷ rest else []

abbrev pub basename : Text → Text
basename path = last_part (split b'/' path)

-- whether the file lies where the repository keeps its proposals
abbrev pub in_dir : Option Text → Text → Bool
in_dir none path = true
in_dir (some dir) path = text_eq (dirname path) dir

-- `!headSha` holds of a missing one and of the empty text
abbrev pub not_blank : Option Text → Option Text
not_blank none = none
not_blank (some s) = if is_empty s then none else some s

-- `headShaFromContentsUrl`
abbrev pub head_sha_from_contents_url : Platform → Text → Option Text
head_sha_from_contents_url platform contents_url = platform.ref_parameter contents_url

-- `undefined` without the condition
abbrev pub guard : Bool → Option (Unit {0})
guard true = some tt
guard false = none

module _ (platform : Platform) (config : ProposalRepoConfig) where
  -- the body of the `map`, for a file that is not removed
  unfoldable pub candidate : PullRequestFile → Option Candidate
  unfolding text_eq split dirname
  candidate file = do
    _ ← guard (not (text_eq file.status (text "removed")))
    ref ← proposal_ref_from_file_name (basename file.filename) config
    _ ← guard (in_dir config.proposal_dir file.filename)
    head_sha ← not_blank (head_sha_from_contents_url platform file.contents_url)
    some (record { file = file; path = file.filename; head_sha = head_sha; ref = ref })

  abbrev pub push : Option Candidate → List Candidate → List Candidate
  push none rest = rest
  push (some c) rest = c ∷ rest

  unfoldable pub candidates : List PullRequestFile → List Candidate
  unfolding candidate
  candidates [] = []
  candidates (file ∷ files) = push (candidate file) (candidates files)

-- the candidates that the pull request adds
unfoldable pub added : List Candidate → List Candidate
unfolding text_eq
added [] = []
added (c ∷ cs) =
    let rest = added cs in if text_eq c.file.status (text "added") then c ∷ rest else rest

-- the added ones, if there are any
abbrev pub contenders_of : List Candidate → List Candidate → List Candidate
contenders_of found [] = found
contenders_of found (c ∷ cs) = c ∷ cs

abbrev pub contenders : List Candidate → List Candidate
contenders found = contenders_of found (added found)

abbrev pub path_of : Candidate → Text
path_of c = c.path

-- there is no contender only if there is no candidate
abbrev pub pick : List Candidate → PickProposalFileResult
pick [] = nothing
pick (c ∷ []) = picked (record { path = c.path; head_sha = c.head_sha; ref = some c.ref })
pick (c ∷ d ∷ cs) = ambiguous (sort text_le (map path_of (c ∷ d ∷ cs)))

unfoldable pub pick_proposal_file :
    Platform → List PullRequestFile → ProposalRepoConfig → PickProposalFileResult
unfolding candidates added sort
pick_proposal_file platform files config = pick (contenders (candidates platform config files))
