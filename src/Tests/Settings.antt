-- ===== src/Tests/Settings.antt =====
-- The settings, the route of the config and the filters of accounts at concrete inputs.
use Prim.Native.String.{String}
use solana_governance.Common.{
  ℕ, zero, suc, Bool, All, ◌==◌, if◌then◌else◌, ◌≡◌, refl, ◌↔◌, true, false, inr, Option, none,
  some, List, [], ◌∷◌,
}
use solana_governance.Common.Text.{Text, text, is_empty, trim, starts_with, drop}
use solana_governance.Networks.{RpcEndpoint, known, mainnet, testnet, devnet, custom}
use solana_governance.Settings.{
  RpcEnvSource, Endpoint, Settings, SettingsEvent, set_endpoint, reset_endpoint, save, Browser,
  normalize_url, set_ncn_api_url_data, reload, settings_run,
}
use solana_governance.Settings.Reload.{
  KeepsJson, StoresSettled, IsSettled, settings_run-reload, set_ncn_api_url_data-reload_iff,
}
use solana_governance.Settings.Route.{Query, target, get_rpc_url_for_endpoint}
use solana_governance.Settings.Route.Cache.{target-keyed}
use solana_governance.Data.Memcmp.{
  OverrideField, SupportField, VoteField, Memcmp, Filter, VoteOverrideBytes, SupportBytes,
  VoteBytes, override_offset, support_offset, vote_offset, override_data, support_data, vote_data,
  filters_to_memcmp,
}
use solana_governance.Data.Memcmp.Layout.{
  passes, matches, override_key, support_key, vote_key, filters_to_memcmp-selects,
}

-- the type of the endpoint in front of its URL
abbrev written : Endpoint → Text
written e = elim e.endpoint_type [
  | known mainnet ↦ 1 ∷ e.endpoint_url
  | known devnet ↦ 2 ∷ e.endpoint_url
  | known testnet ↦ 3 ∷ e.endpoint_url
  | custom ↦ 4 ∷ e.endpoint_url
]

abbrev endpoint : RpcEndpoint → Text → Endpoint
endpoint type url = record { endpoint_type = type; endpoint_url = url }

abbrev read_back : Text → Option Endpoint
read_back [] = none
read_back (type ∷ url) =
    if type == 1
    then some (endpoint (known mainnet) url)
    else if type == 2
    then some (endpoint (known devnet) url)
    else if type == 3
    then some (endpoint (known testnet) url)
    else if type == 4
    then some (endpoint custom url)
    else none

abbrev browser : Browser
browser = record { stringify = written; parse = read_back; is_valid_url = λ s. true }

written_nonempty :
    (type : RpcEndpoint) (url : Text) → is_empty (written (endpoint type url)) ≡ false
written_nonempty (known mainnet) url = refl
written_nonempty (known devnet) url = refl
written_nonempty (known testnet) url = refl
written_nonempty custom url = refl

written_reads :
    (type : RpcEndpoint) (url : Text)
    → read_back (written (endpoint type url)) ≡ some (endpoint type url)
written_reads (known mainnet) url = refl
written_reads (known devnet) url = refl
written_reads (known testnet) url = refl
written_reads custom url = refl

keeps_json : KeepsJson browser
keeps_json = record {
  nonempty = λ e. written_nonempty e.endpoint_type e.endpoint_url;
  reads = λ e. written_reads e.endpoint_type e.endpoint_url;
}

abbrev rpc_env : RpcEnvSource
rpc_env = record {
  solana_rpc_mainnet = none;
  solana_rpc_testnet = none;
  solana_rpc_devnet = some (text "http://dev");
}

abbrev before : Settings
before = record {
  endpoint = endpoint custom [];
  saved_endpoint = none;
  ncn_api_url = [];
  saved_ncn_api_url = some (text "http://ncn/");
}

abbrev events : List SettingsEvent
events =
    set_endpoint (known devnet) none
    ∷ save custom (text "http://rpc") (text "http://verifier/")
    ∷ reset_endpoint
    ∷ save (known devnet) [] (text "http://other")
    ∷ []

changes_stored : All StoresSettled events
unfolding normalize_url
changes_stored = (tt, ((refl, refl), (tt, ((refl, refl), tt))))

settings_run-reload_example :
    reload browser rpc_env (settings_run browser rpc_env (reload browser rpc_env before) events)
    ≡ settings_run browser rpc_env (reload browser rpc_env before) events
settings_run-reload_example =
    settings_run-reload browser rpc_env before events keeps_json changes_stored

-- two slashes are one too many
set_ncn_api_url_data-reload_iff_example :
    ((reload browser rpc_env
        (set_ncn_api_url_data browser rpc_env (text "http://ncn//") before)).ncn_api_url
      ≡ (set_ncn_api_url_data browser rpc_env (text "http://ncn//") before).ncn_api_url)
    ↔ IsSettled (normalize_url (text "http://ncn//"))
set_ncn_api_url_data-reload_iff_example =
    set_ncn_api_url_data-reload_iff browser rpc_env (text "http://ncn//") before

abbrev is_valid_url : Text → Bool
is_valid_url s = starts_with s (text "http")

abbrev query : Text → Query
query url = record { endpoint = custom; rpc_url = some url }

target_spaced :
    target is_valid_url rpc_env (query (text " http://rpc"))
    ≡ inr (text "http://rpc", text "custom:http://rpc")
unfolding target get_rpc_url_for_endpoint trim starts_with
target_spaced = refl

target_plain :
    target is_valid_url rpc_env (query (text "http://rpc"))
    ≡ inr (text "http://rpc", text "custom:http://rpc")
unfolding target get_rpc_url_for_endpoint trim starts_with
target_plain = refl

target-keyed_example : text "http://rpc" ≡ text "http://rpc"
target-keyed_example =
    target-keyed is_valid_url rpc_env (query (text " http://rpc")) (query (text "http://rpc"))
      (text "http://rpc") (text "http://rpc") (text "custom:http://rpc") target_spaced target_plain

abbrev repeated : (c n : ℕ) → Text
repeated c zero = []
repeated c (suc n) = c ∷ repeated c n

abbrev key : ℕ → Text
key c = repeated c 32

abbrev first_unit : Text → ℕ
first_unit [] = 0
first_unit (c ∷ cs) = c

-- a text stands for the key of its first character
abbrev decode : String → Text
decode s = key (first_unit (text s))

abbrev compares : Memcmp → Text → Bool
compares m content = starts_with (drop m.offset content) (decode m.bytes)

abbrev override_bytes : VoteOverrideBytes
override_bytes = record {
  discriminator = 1 ∷ 2 ∷ 3 ∷ 4 ∷ 5 ∷ 6 ∷ 7 ∷ 8 ∷ [];
  delegator_key = key b'd';
  stake_account_key = key b's';
  validator_key = key b'v';
  proposal_key = key b'p';
  behind = 9 ∷ [];
}

abbrev support_bytes : SupportBytes
support_bytes = record {
  discriminator = 1 ∷ 2 ∷ 3 ∷ 4 ∷ 5 ∷ 6 ∷ 7 ∷ 8 ∷ [];
  proposal_key = key b'p';
  validator_key = key b'v';
  behind = [];
}

abbrev vote_bytes : VoteBytes
vote_bytes = record {
  discriminator = 1 ∷ 2 ∷ 3 ∷ 4 ∷ 5 ∷ 6 ∷ 7 ∷ 8 ∷ [];
  validator_key = key b'v';
  proposal_key = key b'p';
  behind = [];
}

abbrev override_filters : List (Filter OverrideField)
override_filters =
    record { name = OverrideField.proposal; value = "p" }
    ∷ record { name = OverrideField.delegator; value = "e" }
    ∷ []

abbrev support_filters : List (Filter SupportField)
support_filters = record { name = SupportField.validator; value = "v" } ∷ []

abbrev vote_filters : List (Filter VoteField)
vote_filters = record { name = VoteField.proposal; value = "p" } ∷ []

filters_to_memcmp-selects_example :
    (passes compares
        (filters_to_memcmp override_offset override_filters)
        (override_data override_bytes)
      ≡ matches override_offset decode (override_key override_bytes) override_filters)
    × (passes compares
          (filters_to_memcmp support_offset support_filters)
          (support_data support_bytes)
        ≡ matches support_offset decode (support_key support_bytes) support_filters)
    × (passes compares (filters_to_memcmp vote_offset vote_filters) (vote_data vote_bytes)
        ≡ matches vote_offset decode (vote_key vote_bytes) vote_filters)
filters_to_memcmp-selects_example =
    filters_to_memcmp-selects compares decode override_filters support_filters vote_filters
      override_bytes support_bytes vote_bytes (λ m content. refl) (refl, (refl, tt)) (refl, tt)
      (refl, tt) (refl, refl, refl, refl, refl) (refl, refl, refl) (refl, refl, refl)
