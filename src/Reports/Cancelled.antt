-- ===== src/Reports/Cancelled.antt =====
-- frontend/src/lib/walletSigning.ts: whether an error is the user's refusal to approve.
use solana_governance.Common.{ℕ, Bool, false, ◌&&◌, ◌||◌, Option, none, some, List, [], ◌∷◌, ◌==◌}
use solana_governance.Common.Text.{Text, text, text_eq, lower_text, includes}
use solana_governance.Reports.{is_one_of}

-- the field `code`
pub data Code : Type 0 where
  number : ℕ → Code
  string : Text → Code
  other : Code

-- what is read of an error that is an object; a message or name that is no text is `none`
pub record ErrorObject : Type 0 where
  pub code : Code
  pub message : Option Text
  pub name : Option Text

abbrev pub wallet_signing_error_names : List Text
wallet_signing_error_names =
    text "WalletSignTransactionError"
    ∷ text "WalletSignAllTransactionsError"
    ∷ text "WalletSendTransactionError"
    ∷ []

-- `WALLET_CANCELLATION_MESSAGE`, alternative by alternative
abbrev pub wallet_cancellation_messages : List Text
wallet_cancellation_messages =
    text "approval denied"
    ∷ text "popup closed"
    ∷ text "user rejected"
    ∷ text "user denied"
    ∷ text "request rejected"
    ∷ text "transaction cancelled"
    ∷ text "transaction canceled"
    ∷ text "request cancelled"
    ∷ text "request canceled"
    ∷ []

abbrev pub includes_one : List Text → Text → Bool
includes_one [] s = false
includes_one (t ∷ ts) s = includes s t || includes_one ts s

unfoldable pub is_user_code : Code → Bool
unfolding text_eq
is_user_code (number n) = n == 4001
is_user_code (string s) = text_eq s (text "4001")
is_user_code other = false

-- both fields are texts, and say so
unfoldable pub is_named_cancellation : Option Text → Option Text → Bool
unfolding text_eq includes
is_named_cancellation (some name) (some message) =
    is_one_of wallet_signing_error_names name
    && includes_one wallet_cancellation_messages (lower_text message)
is_named_cancellation _ _ = false

-- what is no object is `none`
unfoldable pub is_wallet_signing_cancellation : Option ErrorObject → Bool
unfolding is_user_code is_named_cancellation
is_wallet_signing_cancellation none = false
is_wallet_signing_cancellation (some error) =
    is_user_code error.code || is_named_cancellation error.name error.message
