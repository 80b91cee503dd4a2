-- ===== src/Settings/Route/Cache.antt =====
-- The cache of frontend/src/app/api/governance/config/route.ts keeps the networks apart, and an accepted
-- query has a server.
use Prim.Native.String.{String}
use solana_governance.Common.{◌≡◌, ◌≢◌, refl, ◌⊎◌, inl, inr, Bool, Option, none, some, arith}
use solana_governance.Common.Text.{Text}
use solana_governance.Networks.{RpcEndpoint, known, custom}
use solana_governance.Settings.{RpcEnvSource}
use solana_governance.Settings.Route.{
  Query, QueryError, bad_rpc_url, get, target_response, query_response, config_response,
  read_endpoint, parse_query, refine, refine_read, target, get_rpc_url_for_endpoint,
  or_default_network,
}

module _ (is_valid_url : Text → Bool) where
  -- Two queries whose answers are cached under the same key are answered from the same server.
  pub target-keyed :
      (env : RpcEnvSource) (p q : Query) (s t key : Text)
      → target is_valid_url env p ≡ inr (s, key)
      → target is_valid_url env q ≡ inr (t, key)
      → s ≡ t
  unfolding target get_rpc_url_for_endpoint
  target-keyed env p q s t key h k = ground arith

  refine-target :
      (env : RpcEnvSource) (endpoint : RpcEndpoint) (rpc_url : Option Text) (query : Query)
      (message : String)
      → refine is_valid_url (record { endpoint = endpoint; rpc_url = rpc_url }) ≡ inr query
      → target is_valid_url env query ≡ inl message
      → ⊥
  unfolding refine target get_rpc_url_for_endpoint
  refine-target env (known network) rpc_url query message h k = ground arith
  refine-target env custom none query message h k = ground arith
  refine-target env custom (some url) query message h k = ground arith

  -- A query that the schema accepts has a server: `getRpcUrlForEndpoint` throws for none of them.
  pub parse_query-target :
      (env : RpcEnvSource) (endpoint rpc_url : Option Text) (query : Query) (message : String)
      → parse_query is_valid_url endpoint rpc_url ≡ inr query
      → target is_valid_url env query ≢ inl message
  unfolding parse_query
  parse_query-target env endpoint rpc_url query message h k =
      read (read_endpoint (or_default_network endpoint)) h
    where
      read : (e : Option RpcEndpoint) → refine_read is_valid_url e rpc_url ≡ inr query → ⊥
      read none g = ground arith
      read (some e) g = refine-target env e rpc_url query message g k

  -- Whatever the query and the chain, the route never answers with an error of `getRpcUrlForEndpoint`.
  pub get-target :
      {C : Type 0}
      → (fetched : (rpc_url key : Text) → String ⊎ C) (env : RpcEnvSource)
        (endpoint rpc_url : Option Text)
      → (message : String) → get is_valid_url fetched env endpoint rpc_url ≢ bad_rpc_url message
  unfolding get
  get-target {C} fetched env endpoint rpc_url message h =
      by_query (parse_query is_valid_url endpoint rpc_url) refl h
    where
      by_fetched :
          (r : String ⊎ C) → config_response is_valid_url fetched r ≡ bad_rpc_url message → ⊥
      by_fetched (inl m) g = cc
      by_fetched (inr c) g = cc

      by_target :
          (query : Query) (t : String ⊎ (Text × Text))
          → parse_query is_valid_url endpoint rpc_url ≡ inr query
          → target is_valid_url env query ≡ t
          → target_response is_valid_url fetched t ≡ bad_rpc_url message
          → ⊥
      by_target query (inl m) e f g = parse_query-target env endpoint rpc_url query m e f
      by_target query (inr (url, key)) e f g = by_fetched (fetched url key) g

      by_query :
          (r : QueryError ⊎ Query)
          → parse_query is_valid_url endpoint rpc_url ≡ r
          → query_response is_valid_url fetched env r ≡ bad_rpc_url message
          → ⊥
      by_query (inl error) e g = cc
      by_query (inr query) e g = by_target query (target is_valid_url env query) e refl g
