-- ===== src/Settings.antt =====
-- frontend/src/contexts/EndpointContext.tsx and NcnApiContext.tsx, what the browser keeps of them, and
-- `handleSave` of frontend/src/components/modals/SettingsModal.tsx; frontend/src/lib/getRpcUrls.ts.
-- JSON and the parser of URLs are arguments.
use solana_governance.Common.{
  ℕ, Bool, true, false, not, ◌&&◌, Option, none, some, List, [], ◌∷◌, ◌==◌, if◌then◌else◌,
}
use solana_governance.Common.Text.{Text, text, is_empty}
use solana_governance.Networks.{
  KnownSnapshotNetwork, mainnet, testnet, devnet, RpcEndpoint, known, custom,
}
pub mod Reload
pub mod Route

pub record RpcEnvSource : Type 0 where
  pub solana_rpc_mainnet : Option Text
  pub solana_rpc_testnet : Option Text
  pub solana_rpc_devnet : Option Text

abbrev pub default_rpc_urls : KnownSnapshotNetwork → Text
default_rpc_urls mainnet = text "https://api.mainnet-beta.solana.com"
default_rpc_urls testnet = text "https://api.testnet.solana.com"
default_rpc_urls devnet = text "https://api.devnet.solana.com"

-- `??`
abbrev pub or_url : Option Text → Text → Text
or_url none default = default
or_url (some url) default = url

unfoldable pub get_rpc_urls : RpcEnvSource → KnownSnapshotNetwork → Text
get_rpc_urls env mainnet = or_url env.solana_rpc_mainnet (default_rpc_urls mainnet)
get_rpc_urls env testnet = or_url env.solana_rpc_testnet (default_rpc_urls testnet)
get_rpc_urls env devnet = or_url env.solana_rpc_devnet (default_rpc_urls devnet)

abbrev pub default_ncn_api_url : Text
default_ncn_api_url = text "https://ncn-governance.solana.com"

-- `url.replace(/\/$/, "")`
unfoldable pub normalize_url : Text → Text
normalize_url [] = []
normalize_url (c ∷ []) = if c == b'/' then [] else c ∷ []
normalize_url (c ∷ d ∷ s) = c ∷ normalize_url (d ∷ s)

pub record Endpoint : Type 0 where
  pub endpoint_type : RpcEndpoint
  pub endpoint_url : Text

-- the states of the contexts, and what the browser keeps under their keys
pub record Settings : Type 0 where
  pub endpoint : Endpoint
  pub saved_endpoint : Option Text
  pub ncn_api_url : Text
  pub saved_ncn_api_url : Option Text

pub data SettingsEvent : Type 0 where
  set_endpoint : RpcEndpoint → Option Text → SettingsEvent
  reset_endpoint : SettingsEvent
  set_ncn_api_url : Text → SettingsEvent
  reset_ncn_api_url : SettingsEvent
  -- `handleSave` with the selected endpoint, its URL, and the URL of the service as typed
  save : (selected : RpcEndpoint) (custom_url ncn_api_url_input : Text) → SettingsEvent

-- what the parts outside the repository do; `parse` is `none` where `JSON.parse` throws
pub record Browser : Type 0 where
  pub stringify : Endpoint → Text
  pub parse : Text → Option Endpoint
  pub is_valid_url : Text → Bool

module _ (browser : Browser) (env : RpcEnvSource) where
  abbrev pub default_endpoint : Endpoint
  default_endpoint = record {
    endpoint_type = known mainnet;
    endpoint_url = get_rpc_urls env mainnet;
  }

  abbrev pub parsed_or_default : Option Endpoint → Endpoint
  parsed_or_default none = default_endpoint
  parsed_or_default (some endpoint) = endpoint

  -- an empty text counts as nothing
  unfoldable pub get_stored_values : Option Text → Endpoint
  unfolding get_rpc_urls
  get_stored_values none = default_endpoint
  get_stored_values (some saved) =
      if is_empty saved then default_endpoint else parsed_or_default (browser.parse saved)

  unfoldable pub get_stored_value : Option Text → Text
  unfolding normalize_url
  get_stored_value none = default_ncn_api_url
  get_stored_value (some saved) =
      if is_empty saved then default_ncn_api_url else normalize_url saved

  abbrev pub url_of : RpcEndpoint → Option Text → Text
  url_of (known network) custom_url = get_rpc_urls env network
  url_of custom custom_url = or_url custom_url []

  unfoldable pub set_endpoint_data : RpcEndpoint → Option Text → Settings → Settings
  unfolding get_rpc_urls
  set_endpoint_data type custom_url s =
      let endpoint : Endpoint = record {
        endpoint_type = type;
        endpoint_url = url_of type custom_url;
      } in
      record s { endpoint = endpoint; saved_endpoint = some (browser.stringify endpoint) }

  unfoldable pub reset_endpoint_data : Settings → Settings
  unfolding get_rpc_urls
  reset_endpoint_data s = record s { endpoint = default_endpoint; saved_endpoint = none }

  unfoldable pub set_ncn_api_url_data : Text → Settings → Settings
  unfolding normalize_url
  set_ncn_api_url_data url s = record s {
    ncn_api_url = normalize_url url;
    saved_ncn_api_url = some (normalize_url url);
  }

  unfoldable pub reset_ncn_api_url_data : Settings → Settings
  reset_ncn_api_url_data s = record s {
    ncn_api_url = default_ncn_api_url;
    saved_ncn_api_url = none;
  }

  -- `RPC_URLS[selectedEndpoint]`, or the typed URL
  unfoldable pub handle_save :
      RpcEndpoint → (custom_url ncn_api_url_input : Text) → Settings → Settings
  unfolding set_endpoint_data set_ncn_api_url_data
  handle_save selected custom_url ncn_api_url_input s =
      let saved = set_endpoint_data selected (some (url_of selected (some custom_url))) s in
      if not (is_empty ncn_api_url_input) && browser.is_valid_url ncn_api_url_input
      then set_ncn_api_url_data (normalize_url ncn_api_url_input) saved
      else saved

  unfoldable pub settings_step : Settings → SettingsEvent → Settings
  unfolding set_endpoint_data reset_endpoint_data set_ncn_api_url_data reset_ncn_api_url_data
      handle_save
  settings_step s (set_endpoint type custom_url) = set_endpoint_data type custom_url s
  settings_step s reset_endpoint = reset_endpoint_data s
  settings_step s (set_ncn_api_url url) = set_ncn_api_url_data url s
  settings_step s reset_ncn_api_url = reset_ncn_api_url_data s
  settings_step s (save selected custom_url ncn_api_url_input) =
      handle_save selected custom_url ncn_api_url_input s

  -- the page is loaded, again
  unfoldable pub reload : Settings → Settings
  unfolding get_stored_values get_stored_value
  reload s = record s {
    endpoint = get_stored_values s.saved_endpoint;
    ncn_api_url = get_stored_value s.saved_ncn_api_url;
  }

  unfoldable pub settings_run : Settings → List SettingsEvent → Settings
  unfolding settings_step
  settings_run s [] = s
  settings_run s (event ∷ events) = settings_run (settings_step s event) events
