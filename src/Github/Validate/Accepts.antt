-- ===== src/Github/Validate/Accepts.antt =====
-- What `validateProposalUrl` accepts, and how a plain URL is read (frontend/src/lib/github).
use solana_governance.Common.{
  ℕ, ◌≤◌, ◌≡◌, ◌↔◌, refl, sym, ap, ◌∙◌, ◌⊎◌, inl, inr, Bool, true, false, not, ◌||◌, Option, some,
  List, [], ◌∷◌, ◌++◌, map, All, ◌==◌, arith, Bool-cases,
}
use solana_governance.Common.Text.{
  Text, text, text_eq, starts_with, ends_with, split, all, some_part, is_empty, non_empty, trim,
  is_space, lower_text, any,
}
use solana_governance.Common.Text.Laws.{
  text_eq_refl, text_eq_sound, All-split, non_empty-split_end, non_empty_id, split_trailing,
  some_part-append, all-append, trim_id,
}
use solana_governance.Github.Platform.{Platform, Url}
use solana_governance.Github.FileName.{GithubRepoRef, ProposalRef, sgp_repo}
use solana_governance.Github.Url.{
  ParsedProposalUrl, blob, pull, unsupported, decode_segment, segments_of, github_result,
  url_result, parse_proposal_url,
}
use solana_governance.Github.Validate.{
  ProposalUrlErrorCode, is_allowed, without_slash, on_chain_prefix, describe_on_chain_violation,
  repo_path, validate_blob, blob_errors, validate_parsed, validate_proposal_url,
}

abbrev pub dot : Text → Bool
dot part = text_eq part (text ".")

abbrev pub dots : Text → Bool
dots part = text_eq part (text "..")

-- URL parsing keeps a path of unreserved characters that has no dot segments, and percent decoding keeps its parts.
pub record KeepsPlain (platform : Platform) : Type 0 where
  pub keeps :
      (path : Text)
      → all is_allowed path ≡ true
      → some_part dot (split b'/' path) ≡ false
      → some_part dots (split b'/' path) ≡ false
      → platform.parse_url (on_chain_prefix ++ path)
        ≡ some (record {
          protocol = text "https:";
          hostname = text "github.com";
          pathname = b'/' ∷ path;
        })
  pub decodes : (s : Text) → all is_allowed s ≡ true → platform.decode_uri_component s ≡ some s
  pub lowers : platform.to_lower_case (text "github.com") ≡ text "github.com"

without_slash-cases : (s : Text) → (without_slash s ≡ s) ⊎ (s ≡ without_slash s ++ b'/' ∷ [])
unfolding without_slash
without_slash-cases [] = inl refl
without_slash-cases (c ∷ []) = elim (Bool-cases (c == b'/')) [
  | inl h ↦ inr (ground arith)
  | inr h ↦ inl (ground arith)
]
without_slash-cases (c ∷ d ∷ s) = elim (without_slash-cases (d ∷ s)) [
  | inl h ↦ inl (ap (λ t. c ∷ t) h)
  | inr h ↦ inr (ap (λ t. c ∷ t) h)
]

-- without its last slash, a path has the same segments that are not empty
pub non_empty-without_slash :
    (path : Text)
    → some_part is_empty (split b'/' (without_slash path)) ≡ false
    → non_empty (split b'/' path) ≡ split b'/' (without_slash path)
non_empty-without_slash path h = elim (without_slash-cases path) [
  | inl e ↦ ap (λ t. non_empty (split b'/' t)) (sym e) ∙ non_empty_id _ h
  | inr e ↦
      ap (λ t. non_empty (split b'/' t)) e
      ∙ ap non_empty (split_trailing b'/' (without_slash path))
      ∙ non_empty-split_end (split b'/' (without_slash path))
      ∙ non_empty_id _ h
]

-- a test that the empty part fails does not see the last slash
pub some_part-without_slash :
    (p : Text → Bool) (path : Text)
    → p [] ≡ false
    → some_part p (split b'/' (without_slash path)) ≡ false
    → some_part p (split b'/' path) ≡ false
some_part-without_slash p path n h = elim (without_slash-cases path) [
  | inl e ↦ ap (λ t. some_part p (split b'/' t)) (sym e) ∙ h
  | inr e ↦
      ap (λ t. some_part p (split b'/' t)) e
      ∙ ap (some_part p) (split_trailing b'/' (without_slash path))
      ∙ some_part-append p (split b'/' (without_slash path)) ([] ∷ [])
      ∙ ground arith
]

allowed-without_slash :
    (path : Text) → all is_allowed (without_slash path) ≡ true → all is_allowed path ≡ true
allowed-without_slash path h = elim (without_slash-cases path) [
  | inl e ↦ ap (all is_allowed) (sym e) ∙ h
  | inr e ↦
      ap (all is_allowed) e ∙ all-append is_allowed (without_slash path) (b'/' ∷ []) ∙ ground arith
]

decoded :
    (platform : Platform) (parts : List Text)
    → KeepsPlain platform
    → All (λ part. all is_allowed part ≡ true) parts
    → map (decode_segment platform) parts ≡ parts
decoded platform [] k a = refl
decoded platform (part ∷ parts) k a =
    ground (arith, k.decodes part a.0, decoded platform parts k a.1)

allowed_char-no_space : (c : ℕ) → is_allowed c ≡ true → is_space c ≡ false
unfolding is_space
allowed_char-no_space c h = ground arith

allowed-no_space : (s : Text) → all is_allowed s ≡ true → all (λ c. not (is_space c)) s ≡ true
allowed-no_space [] h = refl
allowed-no_space (c ∷ s) h = ground (arith, allowed_char-no_space c, allowed-no_space s)

prefix-no_space : all (λ c. not (is_space c)) on_chain_prefix ≡ true
unfolding is_space
prefix-no_space = refl

-- a plain URL is its own trimming
pub trim-plain :
    (path : Text)
    → all is_allowed path ≡ true
    → trim (on_chain_prefix ++ path) ≡ on_chain_prefix ++ path
trim-plain path h = trim_id _ (
    all-append (λ c. not (is_space c)) on_chain_prefix path
    ∙ ground (arith, prefix-no_space, allowed-no_space path h))

segments_of-plain :
    (platform : Platform) (path : Text)
    → KeepsPlain platform
    → all is_allowed (without_slash path) ≡ true
    → some_part is_empty (split b'/' (without_slash path)) ≡ false
    → segments_of platform
        (record { protocol = text "https:"; hostname = text "github.com"; pathname = b'/' ∷ path })
      ≡ split b'/' (without_slash path)
unfolding segments_of split non_empty
segments_of-plain platform path k a e =
    ap (map (decode_segment platform)) (non_empty-without_slash path e)
    ∙ decoded platform _ k (All-split b'/' is_allowed (without_slash path) a)

url_result-plain :
    (platform : Platform) (url : Url)
    → KeepsPlain platform
    → url.protocol ≡ text "https:"
    → url.hostname ≡ text "github.com"
    → url_result platform url ≡ github_result platform (segments_of platform url)
unfolding url_result text_eq starts_with
url_result-plain platform url k p h = rw (p, h, k.lowers) refl

-- A URL of unreserved characters and without dot segments is read as its segments.
pub parse_proposal_url-plain :
    (platform : Platform) (path : Text)
    → KeepsPlain platform
    → all is_allowed (without_slash path) ≡ true
    → some_part is_empty (split b'/' (without_slash path)) ≡ false
    → some_part dot (split b'/' (without_slash path)) ≡ false
    → some_part dots (split b'/' (without_slash path)) ≡ false
    → parse_proposal_url platform (on_chain_prefix ++ path)
      ≡ github_result platform (split b'/' (without_slash path))
unfolding parse_proposal_url text_eq
parse_proposal_url-plain platform path k a e d dd =
    let allowed = allowed-without_slash path a in
    let url : Url = record {
      protocol = text "https:";
      hostname = text "github.com";
      pathname = b'/' ∷ path;
    } in
    rw
      (
        trim-plain path allowed,
        k.keeps path allowed (some_part-without_slash dot path refl d)
            (some_part-without_slash dots path refl dd),
      )
      (url_result-plain platform url k refl refl
        ∙ ap (github_result platform) (segments_of-plain platform path k a e))

-- what an accepted URL is, read and as it stands
pub record IsAccepted (platform : Platform) (trimmed : Text) (parsed : ParsedProposalUrl)
    : Type 0 where
  pub repo : GithubRepoRef
  pub git_ref : Text
  pub path : Text
  pub file_name : Text
  pub ref : Option ProposalRef
  pub is_blob : parsed ≡ blob repo git_ref path file_name ref
  pub is_sgp : repo_path repo ≡ sgp_repo
  pub is_markdown : ends_with (lower_text file_name) (text ".md") ≡ true
  pub has_prefix : starts_with trimmed on_chain_prefix ≡ true
  pub is_bare : any (λ c. c == b'?' || c == b'#') trimmed ≡ false
  pub fits : platform.byte_length trimmed ≤ 500
  pub is_sound : describe_on_chain_violation trimmed ≡ false

blob-IsAccepted :
    (platform : Platform) (repo : GithubRepoRef) (git_ref path file_name : Text)
    (ref : Option ProposalRef) (parsed : ParsedProposalUrl) (trimmed : Text)
    → parsed ≡ blob repo git_ref path file_name ref
    → (validate_blob platform repo git_ref file_name ref parsed trimmed).ok ≡ true
    → IsAccepted platform trimmed parsed
unfolding validate_blob blob_errors
blob-IsAccepted platform repo git_ref path file_name ref parsed trimmed e h = record {
  repo = repo;
  git_ref = git_ref;
  path = path;
  file_name = file_name;
  ref = ref;
  is_blob = e;
  is_sgp = text_eq_sound _ _ (ground arith);
  is_markdown = ground arith;
  has_prefix = ground arith;
  is_bare = ground arith;
  fits = ground arith;
  is_sound = ground arith;
}

accepted :
    (platform : Platform) (parsed : ParsedProposalUrl) (trimmed : Text)
    → (validate_parsed platform parsed trimmed).ok ≡ true
    → IsAccepted platform trimmed parsed
unfolding validate_parsed
accepted platform (pull repo n) trimmed h = absurd (cc)
accepted platform (unsupported code) trimmed h = absurd (cc)
accepted platform (blob repo git_ref path file_name ref) trimmed h =
    blob-IsAccepted platform repo git_ref path file_name ref (blob repo git_ref path file_name ref)
      trimmed refl h

accepts :
    (platform : Platform) (parsed : ParsedProposalUrl) (trimmed : Text)
    → IsAccepted platform trimmed parsed
    → (validate_parsed platform parsed trimmed).ok ≡ true
unfolding validate_parsed validate_blob blob_errors
accepts platform parsed trimmed a = rw a.is_blob (
    ground (
      arith,
      a.is_sgp,
      text_eq_refl sgp_repo,
      a.is_markdown,
      a.has_prefix,
      a.is_bare,
      a.fits,
      a.is_sound,
    ))

-- A URL is accepted exactly if, trimmed, it is read as a Markdown file of the governance repository, has
-- the prefix that the program wants, no query and no fragment, at most 500 bytes, and a path with
-- nothing that the program is known to refuse.
pub validate_proposal_url-ok_iff :
    (platform : Platform) (url : Text)
    → ((validate_proposal_url platform url).ok ≡ true)
      ↔ IsAccepted platform (trim url) (parse_proposal_url platform (trim url))
unfolding validate_proposal_url
validate_proposal_url-ok_iff platform url = (
  accepted platform (parse_proposal_url platform (trim url)) (trim url),
  accepts platform (parse_proposal_url platform (trim url)) (trim url),
)

normalized-parsed :
    (platform : Platform) (parsed : ParsedProposalUrl) (trimmed : Text)
    → (validate_parsed platform parsed trimmed).normalized ≡ trimmed
unfolding validate_parsed validate_blob
normalized-parsed platform (pull repo n) trimmed = refl
normalized-parsed platform (unsupported code) trimmed = refl
normalized-parsed platform (blob repo git_ref path file_name ref) trimmed = ground arith

pub normalized-trim :
    (platform : Platform) (url : Text) → (validate_proposal_url platform url).normalized ≡ trim url
unfolding validate_proposal_url
normalized-trim platform url =
    normalized-parsed platform (parse_proposal_url platform (trim url)) (trim url)

errors-ok :
    (platform : Platform) (parsed : ParsedProposalUrl) (trimmed : Text)
    → (validate_parsed platform parsed trimmed).ok
      ≡ is_empty (validate_parsed platform parsed trimmed).errors
unfolding validate_parsed validate_blob
errors-ok platform (pull repo n) trimmed = refl
errors-ok platform (unsupported code) trimmed = refl
errors-ok platform (blob repo git_ref path file_name ref) trimmed = ground arith

pub errors-none :
    (platform : Platform) (url : Text)
    → (validate_proposal_url platform url).errors ≡ []
    → (validate_proposal_url platform url).ok ≡ true
unfolding validate_proposal_url
errors-none platform url h =
    errors-ok platform (parse_proposal_url platform (trim url)) (trim url) ∙ ap is_empty h

no_codes : (codes : List ProposalUrlErrorCode) → is_empty codes ≡ true → codes ≡ []
no_codes [] h = refl
no_codes (code ∷ codes) h = absurd (cc)

pub none-errors :
    (platform : Platform) (url : Text)
    → (validate_proposal_url platform url).ok ≡ true
    → (validate_proposal_url platform url).errors ≡ []
unfolding validate_proposal_url
none-errors platform url h =
    no_codes (validate_proposal_url platform url).errors
      (sym (errors-ok platform (parse_proposal_url platform (trim url)) (trim url)) ∙ h)
