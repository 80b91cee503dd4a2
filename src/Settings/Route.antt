-- ===== src/Settings/Route.antt =====
-- frontend/src/app/api/governance/config/route.ts, and `getRpcUrlForEndpoint` of
-- frontend/src/lib/getRpcUrls.ts: which RPC server the governance config is asked of, and under which
-- key the answer is cached. The parser of URLs and `fetchGovernanceConfigFromChain` are arguments, and
-- a thrown value is its message. `fetched` is the answer of the chain through the cache.
use Prim.Native.String.{String}
use solana_governance.Common.{
  Bool, true, false, Option, none, some, List, [], ◌∷◌, ◌++◌, find?, if◌then◌else◌, ◌⊎◌, inl, inr,
  ◌≡◌, refl, ap, ◌∙◌, sym, arith, Bool-cases, not,
}
use solana_governance.Common.Text.{Text, text, text_eq, trim, is_empty}
use solana_governance.Networks.{
  KnownSnapshotNetwork, mainnet, testnet, devnet, RpcEndpoint, known, custom,
}
use solana_governance.Settings.{RpcEnvSource, get_rpc_urls}
pub mod Cache

-- what the query's schema rejects
pub data QueryError : Type 0 where
  invalid_endpoint rpc_url_required invalid_rpc_url : QueryError

pub record Query : Type 0 where
  pub endpoint : RpcEndpoint
  pub rpc_url : Option Text

-- the values of the enumeration
abbrev pub read_endpoint : Text → Option RpcEndpoint
read_endpoint s =
    if text_eq s (text "mainnet")
    then some (known mainnet)
    else if text_eq s (text "testnet")
    then some (known testnet)
    else if text_eq s (text "devnet")
    then some (known devnet)
    else if text_eq s (text "custom")
    then some custom
    else none

abbrev pub endpoint_name : RpcEndpoint → Text
endpoint_name (known mainnet) = text "mainnet"
endpoint_name (known testnet) = text "testnet"
endpoint_name (known devnet) = text "devnet"
endpoint_name custom = text "custom"

-- `?? "mainnet"`
abbrev pub or_default_network : Option Text → Text
or_default_network none = text "mainnet"
or_default_network (some s) = s

-- `rpcUrl?.trim()`
abbrev pub trimmed : Option Text → Option Text
trimmed none = none
trimmed (some s) = some (trim s)

pub data ConfigResponse (C : Type 0) : Type 0 where
  -- the errors of the schema and of `getRpcUrlForEndpoint`, with status 400
  bad_query : QueryError → ConfigResponse C
  bad_rpc_url : String → ConfigResponse C
  -- the config
  answer : C → ConfigResponse C
  -- with status 500
  failure : String → ConfigResponse C

module _ (is_valid_url : Text → Bool) where
  abbrev pub refine_custom : Option Text → Query → QueryError ⊎ Query
  refine_custom none query = inl rpc_url_required
  refine_custom (some url) query =
      if is_empty url
      then inl rpc_url_required
      else if is_valid_url url
      then inr query
      else inl invalid_rpc_url

  -- `superRefine`
  unfoldable pub refine : Query → QueryError ⊎ Query
  unfolding trim
  refine query = elim query.endpoint [
    | known network ↦ inr query
    | custom ↦ refine_custom (trimmed query.rpc_url) query
  ]

  abbrev pub refine_read : Option RpcEndpoint → Option Text → QueryError ⊎ Query
  refine_read none rpc_url = inl invalid_endpoint
  refine_read (some endpoint) rpc_url = refine (record { endpoint = endpoint; rpc_url = rpc_url })

  unfoldable pub parse_query : (endpoint rpc_url : Option Text) → QueryError ⊎ Query
  unfolding refine text_eq
  parse_query endpoint rpc_url = refine_read (read_endpoint (or_default_network endpoint)) rpc_url

  unfoldable pub get_rpc_url_for_endpoint : RpcEndpoint → Option Text → RpcEnvSource → String ⊎ Text
  unfolding get_rpc_urls
  get_rpc_url_for_endpoint (known network) custom_rpc_url env = inr (get_rpc_urls env network)
  get_rpc_url_for_endpoint custom none env = inl "rpcUrl is required when endpoint is custom"
  get_rpc_url_for_endpoint custom (some url) env =
      if is_empty url
      then inl "rpcUrl is required when endpoint is custom"
      else if is_valid_url url
      then inr url
      else inl "Invalid rpcUrl for custom endpoint"

  abbrev pub custom_url : Query → Option Text
  custom_url query = elim query.endpoint [ known network ↦ none | custom ↦ trimmed query.rpc_url ]

  abbrev pub cache_key : RpcEndpoint → Text → Text
  cache_key (known network) rpc_url = endpoint_name (known network)
  cache_key custom rpc_url = text "custom:" ++ rpc_url

  abbrev pub keyed : RpcEndpoint → String ⊎ Text → String ⊎ (Text × Text)
  keyed endpoint (inl message) = inl message
  keyed endpoint (inr rpc_url) = inr (rpc_url, cache_key endpoint rpc_url)

  -- the server that is asked, and the key
  unfoldable pub target : RpcEnvSource → Query → String ⊎ (Text × Text)
  unfolding get_rpc_url_for_endpoint trim
  target env query =
      keyed query.endpoint (get_rpc_url_for_endpoint query.endpoint (custom_url query) env)

  module _ {C : Type 0} (fetched : (rpc_url key : Text) → String ⊎ C) where
    abbrev pub config_response : String ⊎ C → ConfigResponse C
    config_response (inl message) = failure message
    config_response (inr config) = answer config

    abbrev pub target_response : String ⊎ (Text × Text) → ConfigResponse C
    target_response (inl message) = bad_rpc_url message
    target_response (inr (rpc_url, key)) = config_response (fetched rpc_url key)

    abbrev pub query_response : RpcEnvSource → QueryError ⊎ Query → ConfigResponse C
    query_response env (inl error) = bad_query error
    query_response env (inr query) = target_response (target env query)

    unfoldable pub get : RpcEnvSource → (endpoint rpc_url : Option Text) → ConfigResponse C
    unfolding parse_query target
    get env endpoint rpc_url = query_response env (parse_query endpoint rpc_url)
