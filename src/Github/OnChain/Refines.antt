-- ===== src/Github/OnChain/Refines.antt =====
-- The check of a description by the program (`is_valid_github_link`) follows from the one of the
-- frontend (frontend/src/lib/github/validateProposalUrl.ts).
use solana_governance.Common.{
  ℕ, zero, suc, ◌+◌, ◌≤◌, ◌≡◌, refl, sym, ap, ◌∙◌, inl, inr, Bool, true, false, List, [], ◌∷◌, ◌++◌,
  length, ◌==◌, arith, Bool-cases, Option, none, some,
}
use solana_governance.Common.Int.{ℤ, pos, negsuc}
use solana_governance.Common.Text.{
  Text, text, text_eq, starts_with, ends_with, includes, split, all, some_part, is_empty, join,
  drop, trim,
}
use solana_governance.Common.Text.Laws.{
  split-cons, join-split, starts_with-append, starts_with-drop,
}
use solana_governance.Github.Platform.{Platform}
use solana_governance.Github.FileName.{GithubRepoRef, ProposalRef, sgp_repo}
use solana_governance.Github.Url.{
  ParsedProposalUrl, blob, pull, unsupported, blob_result, file_result, pull_of, pull_result,
  kind_result, github_result, parse_proposal_url,
}
use solana_governance.Github.Validate.{
  is_allowed, without_slash, on_chain_prefix, violates, validate_proposal_url,
}
use solana_governance.Github.Validate.Accepts.{
  KeepsPlain, dot, parse_proposal_url-plain, validate_proposal_url-ok_iff, normalized-trim,
}
use solana_governance.Github.OnChain.{scan, is_valid_path, is_valid_github_link}

-- the parts that are yet to be complete: all of them, or those behind the open one
abbrev pending : Bool → List Text → List Text
pending false parts = parts
pending true [] = []
pending true (part ∷ parts) = parts

abbrev slash : ℕ
slash = b'/'

scan-accepts :
    (s : Text) (count : ℕ) (in_segment : Bool)
    → all is_allowed s ≡ true
    → some_part is_empty (pending in_segment (split b'/' s)) ≡ false
    → 2 ≤ count + length (split b'/' s)
    → count + length (split b'/' s) ≤ 10
    → scan count in_segment s ≡ true
unfolding scan split
scan-accepts [] count true a e lo hi = ground arith
scan-accepts [] count false a e lo hi = cc
scan-accepts (c ∷ s) count true a e lo hi =
    let rest = split-cons b'/' s in
    elim (Bool-cases (c == b'/')) [
      | inl h ↦ ground (arith, scan-accepts s (count + 1) false)
      | inr h ↦ ground (arith, rest.2, scan-accepts s count true)
    ]
scan-accepts (c ∷ s) count false a e lo hi =
    let rest = split-cons b'/' s in
    elim (Bool-cases (c == b'/')) [
      | inl h ↦ ground arith
      | inr h ↦ ground (arith, rest.2, scan-accepts s count true)
    ]

abbrev dots : Text → Bool
dots part = text_eq part (text "..")

-- a text that starts like a parent directory has it as its first part
starts_with-dots :
    (s : Text) → starts_with s (text "../") ≡ true → some_part dots (split b'/' s) ≡ true
unfolding starts_with split text_eq
starts_with-dots [] h = cc
starts_with-dots (a ∷ []) h = ground arith
starts_with-dots (a ∷ b ∷ []) h = ground arith
starts_with-dots (a ∷ b ∷ c ∷ s) h = ground arith

is-dots : (s : Text) → text_eq s (text "..") ≡ true → some_part dots (split b'/' s) ≡ true
unfolding split text_eq
is-dots [] h = cc
is-dots (a ∷ []) h = ground arith
is-dots (a ∷ b ∷ []) h = ground arith
is-dots (a ∷ b ∷ c ∷ s) h = ground arith

-- no part behind the first is a parent directory, so the text has none between slashes or at its end
no_traversal :
    (s : Text)
    → some_part dots (pending true (split b'/' s)) ≡ false
    → (includes s (text "/../") ≡ false) × (ends_with s (text "/..") ≡ false)
unfolding includes ends_with starts_with text_eq split
no_traversal [] h = (refl, refl)
no_traversal (c ∷ s) h =
    let rest = split-cons b'/' s in
    elim (Bool-cases (c == b'/')) [
      | inl e ↦ ground (arith, rest.2, no_traversal s, starts_with-dots s, is-dots s)
      | inr e ↦ ground (arith, rest.2, no_traversal s)
    ]

-- the repository of a file, and otherwise the given one
abbrev repo_or : GithubRepoRef → ParsedProposalUrl → GithubRepoRef
repo_or other (blob repo git_ref path file_name ref) = repo
repo_or other (pull repo pull_number) = other
repo_or other (unsupported code) = other

pull_of-repo :
    (platform : Platform) (repo : GithubRepoRef) (n : Option ℤ)
    → repo_or repo (pull_of platform repo n) ≡ repo
pull_of-repo platform repo none = refl
pull_of-repo platform repo (some (pos zero)) = refl
pull_of-repo platform repo (some (pos (suc n))) = refl
pull_of-repo platform repo (some (negsuc n)) = refl

pull_result-repo :
    (platform : Platform) (repo : GithubRepoRef) (rest : List Text)
    → repo_or repo (pull_result platform repo rest) ≡ repo
unfolding pull_result
pull_result-repo platform repo [] = refl
pull_result-repo platform repo (number ∷ rest) =
    pull_of-repo platform repo (platform.integer number)

file_result-repo :
    (platform : Platform) (repo : GithubRepoRef) (rest : List Text)
    → repo_or repo (file_result platform repo rest) ≡ repo
unfolding file_result blob_result
file_result-repo platform repo [] = refl
file_result-repo platform repo (git_ref ∷ []) = refl
file_result-repo platform repo (git_ref ∷ part ∷ parts) = refl

kind_result-repo :
    (platform : Platform) (repo : GithubRepoRef) (rest : List Text)
    → repo_or repo (kind_result platform repo rest) ≡ repo
unfolding kind_result
kind_result-repo platform repo [] = refl
kind_result-repo platform repo (kind ∷ rest) =
    ground (arith, file_result-repo platform repo rest, pull_result-repo platform repo rest)

-- the segments of a file URL begin with its repository
file_segments :
    (platform : Platform) (segments : List Text) (repo : GithubRepoRef)
    (git_ref path file_name : Text) (ref : Option ProposalRef)
    → github_result platform segments ≡ blob repo git_ref path file_name ref
    → (kind : Text) × (rest : List Text) × (segments ≡ repo.owner ∷ repo.repo ∷ kind ∷ rest)
unfolding github_result kind_result
file_segments platform [] repo git_ref path file_name ref h = absurd (cc)
file_segments platform (owner ∷ []) repo git_ref path file_name ref h = absurd (cc)
file_segments platform (owner ∷ name ∷ []) repo git_ref path file_name ref h = absurd (cc)
file_segments platform (owner ∷ name ∷ kind ∷ rest) repo git_ref path file_name ref h =
    let same =
      sym (kind_result-repo platform (record { owner = owner; repo = name }) (kind ∷ rest))
      ∙ ap (repo_or _) h in
    (kind, rest, ap (λ r. r.owner ∷ r.repo ∷ kind ∷ rest) same)

violates-none :
    (path : Text)
    → violates path ≡ false
    → (some_part is_empty (split b'/' path) ≡ false)
      × (some_part dots (split b'/' path) ≡ false)
      × (2 ≤ length (split b'/' path))
      × (length (split b'/' path) ≤ 10)
      × (all is_allowed path ≡ true)
unfolding violates
violates-none path h = ground arith

regrouped_tail : (repo tail : Text) → repo ++ (b'/' ∷ tail) ≡ (repo ++ text "/") ++ tail
regrouped_tail [] tail = refl
regrouped_tail (c ∷ repo) tail = ap (λ t. c ∷ t) (regrouped_tail repo tail)

regrouped :
    (owner repo tail : Text)
    → owner ++ (b'/' ∷ (repo ++ (b'/' ∷ tail))) ≡ ((owner ++ (b'/' ∷ repo)) ++ text "/") ++ tail
regrouped [] repo tail = ap (λ t. b'/' ∷ t) (regrouped_tail repo tail)
regrouped (c ∷ owner) repo tail = ap (λ t. c ∷ t) (regrouped owner repo tail)

-- a path whose first two segments are the repository starts with it
repository_first :
    (path owner repo kind : Text) (rest : List Text)
    → split b'/' path ≡ owner ∷ repo ∷ kind ∷ rest
    → owner ++ (b'/' ∷ repo) ≡ sgp_repo
    → starts_with path (sgp_repo ++ text "/") ≡ true
unfolding join
repository_first path owner repo kind rest h r =
    let tail = join (text "/") (kind ∷ rest) in
    let whole : path ≡ (sgp_repo ++ text "/") ++ tail =
      sym (join-split b'/' path)
      ∙ ap (join (text "/")) h
      ∙ regrouped owner repo tail
      ∙ ap (λ t. (t ++ text "/") ++ tail) r in
    ap (λ t. starts_with t (sgp_repo ++ text "/")) whole
    ∙ starts_with-append (sgp_repo ++ text "/") tail

without_first :
    (p : Text → Bool) (parts : List Text)
    → some_part p parts ≡ false
    → some_part p (pending true parts) ≡ false
without_first p [] h = refl
without_first p (part ∷ parts) h = ground arith

first_character :
    (path : Text)
    → starts_with path (sgp_repo ++ text "/") ≡ true
    → (is_empty path ≡ false) × (starts_with path (text "/") ≡ false)
unfolding starts_with
first_character [] h = absurd (cc)
first_character (c ∷ s) h = (refl, ground arith)

-- a path of at least three segments that begins with the repository passes the program's check
is_valid_path-accepts :
    (path owner repo kind : Text) (rest : List Text)
    → violates path ≡ false
    → split b'/' path ≡ owner ∷ repo ∷ kind ∷ rest
    → owner ++ (b'/' ∷ repo) ≡ sgp_repo
    → is_valid_path path ≡ true
unfolding is_valid_path
is_valid_path-accepts path owner repo kind rest v h r =
    let good = violates-none path v in
    let first = repository_first path owner repo kind rest h r in
    let start = first_character path first in
    let plain = no_traversal path (without_first dots (split b'/' path) good.1) in
    let scanned =
      scan-accepts path 0 false good.4 good.0 (omega (arith, good.2)) (omega (arith, good.3)) in
    rw (start.0, start.1, first, plain.0, plain.1, scanned) refl

-- What `validateProposalUrl` accepts, the program accepts as well, for a browser whose parsing keeps a
-- plain URL, and if no segment of the path is a single dot.
pub validate_proposal_url-refines :
    (platform : Platform) (url : Text)
    → KeepsPlain platform
    → (validate_proposal_url platform url).ok ≡ true
    → some_part dot (split b'/' (without_slash (drop (length on_chain_prefix) (trim url)))) ≡ false
    → is_valid_github_link (validate_proposal_url platform url).normalized ≡ true
unfolding is_valid_github_link
validate_proposal_url-refines platform url k ok no_dot =
    let a = (validate_proposal_url-ok_iff platform url).0 ok in
    let path = drop (length on_chain_prefix) (trim url) in
    let good = violates-none (without_slash path) a.is_sound in
    let whole : trim url ≡ on_chain_prefix ++ path =
      starts_with-drop (trim url) on_chain_prefix a.has_prefix in
    let read : github_result platform (split b'/' (without_slash path))
        ≡ blob a.repo a.git_ref a.path a.file_name a.ref =
      sym (parse_proposal_url-plain platform path k good.4 good.0 no_dot good.1)
      ∙ ap (parse_proposal_url platform) (sym whole)
      ∙ a.is_blob in
    let parts = file_segments platform _ a.repo a.git_ref a.path a.file_name a.ref read in
    let valid : is_valid_path (without_slash path) ≡ true =
      is_valid_path-accepts (without_slash path) a.repo.owner a.repo.repo parts.0 parts.1 a.is_sound
        parts.2 a.is_sgp in
    rw (normalized-trim platform url, a.has_prefix, valid) refl
