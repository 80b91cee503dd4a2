-- ===== src/Github/Platform.antt =====
-- What the sources of frontend/src/lib/github use of the browser: URLs, percent encoding, letters
-- beyond ASCII, and numbers read from text.
use solana_governance.Common.{ℕ, Option, none, some}
use solana_governance.Common.Int.{ℤ}
use solana_governance.Common.Text.{Text}

-- what is read of a `URL`
pub record Url : Type 0 where
  pub protocol : Text
  pub hostname : Text
  pub pathname : Text

pub record Platform : Type 0 where
  -- `new URL(text)`, which may throw
  pub parse_url : Text → Option Url
  -- `new URL(text).searchParams.get("ref")`: no URL, or no such parameter, is `none`
  pub ref_parameter : Text → Option Text
  -- `decodeURIComponent`, which may throw
  pub decode_uri_component : Text → Option Text
  -- `encodeURIComponent`, which may throw
  pub encode_uri_component : Text → Option Text
  -- `toLowerCase`
  pub to_lower_case : Text → Text
  -- a number in a template
  pub decimal : ℕ → Text
  -- `Number(text)`, if it is an integer
  pub integer : Text → Option ℤ
  -- the length of the UTF-8 encoding
  pub byte_length : Text → ℕ

-- what throws ends the function
infixl 5 ◌>>=◌
abbrev pub ◌>>=◌ : {A B : Type 0} → Option A → (A → Option B) → Option B
none >>= f = none
some a >>= f = f a
