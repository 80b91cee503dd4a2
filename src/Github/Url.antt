-- ===== src/Github/Url.antt =====
-- `parseProposalUrl` of frontend/src/lib/github/proposalUrl.ts. The texts of the reasons are left out.
use solana_governance.Common.{
  ℕ, suc, not, ◌||◌, Option, none, some, List, [], ◌∷◌, ◌++◌, map, if◌then◌else◌,
}
use solana_governance.Common.Int.{ℤ, pos}
use solana_governance.Common.Text.{
  Text, text, trim, text_eq, starts_with, drop, is_empty, join, split, non_empty,
}
use solana_governance.Github.Platform.{Platform, Url, ◌>>=◌}
use solana_governance.Github.FileName.{
  GithubRepoRef, ProposalRef, proposal_ref_from_file_name, resolve_repo_config,
}

pub data UnsupportedUrlCode : Type 0 where
  empty not_a_url not_https not_github tree_or_directory unrecognized : UnsupportedUrlCode

pub data ParsedProposalUrl : Type 0 where
  blob : GithubRepoRef → (git_ref path file_name : Text) → Option ProposalRef → ParsedProposalUrl
  pull : GithubRepoRef → (pull_number : ℕ) → ParsedProposalUrl
  unsupported : UnsupportedUrlCode → ParsedProposalUrl

-- `parts[parts.length - 1] ?? ""`
abbrev pub last_part : List Text → Text
last_part [] = []
last_part (part ∷ []) = part
last_part (part ∷ next ∷ parts) = last_part (next ∷ parts)

-- `host.replace(/^www\./, "")`
abbrev pub without_www : Text → Text
without_www host = if starts_with host (text "www.") then drop 4 host else host

module _ (platform : Platform) where
  abbrev pub decode_segment : Text → Text
  decode_segment segment = elim (platform.decode_uri_component segment) [
    | some decoded ↦ decoded
    | none ↦ segment
  ]

  unfoldable pub segments_of : Url → List Text
  unfolding split non_empty
  segments_of url = map decode_segment (non_empty (split b'/' url.pathname))

  unfoldable pub blob_result : GithubRepoRef → Text → List Text → ParsedProposalUrl
  unfolding join
  blob_result repo git_ref path_parts =
      let file_name = last_part path_parts in
      blob repo git_ref (join (text "/") path_parts) file_name
        (proposal_ref_from_file_name file_name (resolve_repo_config platform repo))

  -- a raw.githubusercontent.com URL
  unfoldable pub raw_result : List Text → ParsedProposalUrl
  raw_result (owner ∷ repo ∷ git_ref ∷ part ∷ parts) =
      blob_result (record { owner = owner; repo = repo }) git_ref (part ∷ parts)
  raw_result _ = unsupported unrecognized

  -- behind `/blob/` or `/raw/`
  unfoldable pub file_result : GithubRepoRef → List Text → ParsedProposalUrl
  file_result repo (git_ref ∷ part ∷ parts) = blob_result repo git_ref (part ∷ parts)
  file_result repo _ = unsupported unrecognized

  -- `Number(text)` that is an integer above 0
  abbrev pub pull_of : GithubRepoRef → Option ℤ → ParsedProposalUrl
  pull_of repo (some (pos (suc n))) = pull repo (suc n)
  pull_of repo _ = unsupported unrecognized

  -- behind `/pull/` or `/pulls/`; a missing number is no integer
  unfoldable pub pull_result : GithubRepoRef → List Text → ParsedProposalUrl
  pull_result repo [] = unsupported unrecognized
  pull_result repo (number ∷ rest) = pull_of repo (platform.integer number)

  -- what stands behind the repository
  unfoldable pub kind_result : GithubRepoRef → List Text → ParsedProposalUrl
  unfolding text_eq file_result pull_result
  kind_result repo [] = unsupported unrecognized
  kind_result repo (kind ∷ rest) =
      if text_eq kind (text "blob") || text_eq kind (text "raw")
      then file_result repo rest
      else if text_eq kind (text "tree")
      then unsupported tree_or_directory
      else if text_eq kind (text "pull") || text_eq kind (text "pulls")
      then pull_result repo rest
      else unsupported unrecognized

  unfoldable pub github_result : List Text → ParsedProposalUrl
  github_result (owner ∷ repo ∷ rest) = kind_result (record { owner = owner; repo = repo }) rest
  github_result _ = unsupported unrecognized

  unfoldable pub url_result : Url → ParsedProposalUrl
  unfolding text_eq starts_with
  url_result url =
      let host = without_www (platform.to_lower_case url.hostname) in
      if not (text_eq url.protocol (text "https:"))
      then unsupported not_https
      else if text_eq host (text "raw.githubusercontent.com")
      then raw_result (segments_of url)
      else if not (text_eq host (text "github.com"))
      then unsupported not_github
      else github_result (segments_of url)

  unfoldable pub parse_proposal_url : Text → ParsedProposalUrl
  unfolding trim
  parse_proposal_url raw_url =
      let trimmed = trim raw_url in
      if is_empty trimmed then unsupported empty else elim (platform.parse_url trimmed) [
        | none ↦ unsupported not_a_url
        | some url ↦ url_result url
      ]

  -- the number that the URL alone tells
  unfoldable pub get_proposal_ref_from_url : Text → Option ProposalRef
  get_proposal_ref_from_url url = elim (parse_proposal_url url) [
    | blob repo git_ref path file_name ref ↦ ref
    | _ ↦ none
  ]

  -- an encoded segment throws if one does
  unfoldable pub encoded : List Text → Option (List Text)
  encoded [] = some []
  encoded (part ∷ parts) = do
    first ← platform.encode_uri_component part
    others ← encoded parts
    some (first ∷ others)

  unfoldable pub raw_content_url : GithubRepoRef → Text → Text → Option Text
  unfolding join split
  raw_content_url repo git_ref path = do
    encoded_path ← encoded (split b'/' path)
    owner ← platform.encode_uri_component repo.owner
    name ← platform.encode_uri_component repo.repo
    ref ← platform.encode_uri_component git_ref
    some (
        text "https://raw.githubusercontent.com/"
        ++ (join (text "/") (owner ∷ name ∷ ref ∷ join (text "/") encoded_path ∷ [])))
