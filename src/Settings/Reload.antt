-- ===== src/Settings/Reload.antt =====
-- What the contexts hold is what a reload of the page gives (frontend/src/contexts/).
use solana_governance.Common.{
  ◌≡◌, refl, ap, ◌↔◌, Bool, true, false, not, ◌&&◌, Option, some, List, [], ◌∷◌, ◌==◌, arith, All,
  if◌then◌else◌,
}
use solana_governance.Common.Text.{Text, is_empty}
use solana_governance.Networks.{RpcEndpoint}
use solana_governance.Settings.{
  RpcEnvSource, Endpoint, Settings, SettingsEvent, set_endpoint, reset_endpoint, set_ncn_api_url,
  reset_ncn_api_url, save, Browser, normalize_url, default_ncn_api_url, get_stored_values,
  get_stored_value, set_endpoint_data, reset_endpoint_data, set_ncn_api_url_data,
  reset_ncn_api_url_data, handle_save, url_of, settings_step, reload, settings_run,
}

-- the text ends in a slash
abbrev pub ends_in_slash : Text → Bool
ends_in_slash [] = false
ends_in_slash (c ∷ []) = c == b'/'
ends_in_slash (c ∷ d ∷ s) = ends_in_slash (d ∷ s)

-- a stored URL that is read as it is
abbrev pub IsSettled : Text → Type 0
IsSettled url = (is_empty url ≡ false) × (ends_in_slash url ≡ false)

normalize_url-settled : (url : Text) → (normalize_url url ≡ url) ↔ (ends_in_slash url ≡ false)
unfolding normalize_url
normalize_url-settled [] = (λ h. refl, λ h. refl)
normalize_url-settled (c ∷ []) = ground arith
normalize_url-settled (c ∷ d ∷ s) =
    let rest = normalize_url-settled (d ∷ s) in
    (λ h. rest.0 (tail_eq h), λ h. ap (λ t. c ∷ t) (rest.1 h))
  where
    tail_eq : c ∷ normalize_url (d ∷ s) ≡ c ∷ d ∷ s → normalize_url (d ∷ s) ≡ d ∷ s
    tail_eq h = cc

-- what the browser documents: a text that is not empty, and is read back
pub record KeepsJson (browser : Browser) : Type 0 where
  pub nonempty : (endpoint : Endpoint) → is_empty (browser.stringify endpoint) ≡ false
  pub reads : (endpoint : Endpoint) → browser.parse (browser.stringify endpoint) ≡ some endpoint

-- the URLs of the service that an event stores are read as they are
abbrev pub StoresSettled : SettingsEvent → Type 0
StoresSettled (set_ncn_api_url url) = IsSettled (normalize_url url)
StoresSettled (save selected custom_url input) = IsSettled (normalize_url (normalize_url input))
StoresSettled event = Unit

module _ (browser : Browser) (env : RpcEnvSource) where
  read_back :
      (endpoint : Endpoint)
      → KeepsJson browser
      → get_stored_values browser env (some (browser.stringify endpoint)) ≡ endpoint
  unfolding get_stored_values
  read_back endpoint k = rw (k.nonempty endpoint, k.reads endpoint) refl

  read_url : (url : Text) → IsSettled url → get_stored_value browser env (some url) ≡ url
  unfolding get_stored_value
  read_url url i = rw i.0 ((normalize_url-settled url).1 i.1)

  -- what is stored reads as what is held
  abbrev pub IsKept : Settings → Type 0
  IsKept s =
      (get_stored_values browser env s.saved_endpoint ≡ s.endpoint)
      × (get_stored_value browser env s.saved_ncn_api_url ≡ s.ncn_api_url)

  set_endpoint_data-IsKept :
      (type : RpcEndpoint) (custom_url : Option Text) (s : Settings)
      → KeepsJson browser
      → IsKept s
      → IsKept (set_endpoint_data browser env type custom_url s)
  unfolding set_endpoint_data
  set_endpoint_data-IsKept type custom_url s k w = (read_back _ k, w.1)

  set_ncn_api_url_data-IsKept :
      (url : Text) (s : Settings)
      → IsSettled (normalize_url url)
      → IsKept s
      → IsKept (set_ncn_api_url_data browser env url s)
  unfolding set_ncn_api_url_data
  set_ncn_api_url_data-IsKept url s i w = (w.0, read_url (normalize_url url) i)

  settings_step-IsKept :
      (s : Settings) (event : SettingsEvent)
      → KeepsJson browser
      → StoresSettled event
      → IsKept s
      → IsKept (settings_step browser env s event)
  unfolding settings_step reset_endpoint_data reset_ncn_api_url_data get_stored_values
      get_stored_value handle_save
  settings_step-IsKept s (set_endpoint type custom_url) k i w =
      set_endpoint_data-IsKept type custom_url s k w
  settings_step-IsKept s reset_endpoint k i w = (refl, w.1)
  settings_step-IsKept s (set_ncn_api_url url) k i w = set_ncn_api_url_data-IsKept url s i w
  settings_step-IsKept s reset_ncn_api_url k i w = (w.0, refl)
  settings_step-IsKept s (save selected custom_url input) k i w =
      let url = some (url_of browser env selected (some custom_url)) in
      let saved = set_endpoint_data browser env selected url s in
      let kept = set_endpoint_data-IsKept selected url s k w in
      either (not (is_empty input) && browser.is_valid_url input)
        (set_ncn_api_url_data browser env (normalize_url input) saved) saved
        (set_ncn_api_url_data-IsKept (normalize_url input) saved i kept) kept
    where
      either : (b : Bool) (s t : Settings) → IsKept s → IsKept t → IsKept (if b then s else t)
      either true s t u v = u
      either false s t u v = v

  settings_run-IsKept :
      (s : Settings) (events : List SettingsEvent)
      → KeepsJson browser
      → All StoresSettled events
      → IsKept s
      → IsKept (settings_run browser env s events)
  unfolding settings_run
  settings_run-IsKept s [] k i w = w
  settings_run-IsKept s (event ∷ events) k i w =
      settings_run-IsKept (settings_step browser env s event) events k i.1
        (settings_step-IsKept s event k i.0 w)

  reload-same : (s : Settings) → IsKept s → reload browser env s ≡ s
  unfolding reload
  reload-same s w = rw (w.0, w.1) refl

-- From any loaded page, after any changes of the settings whose service URLs, as stored, are not empty
-- and do not end in a slash, loading the page again gives the settings that are held, for a browser that
-- reads back the JSON it writes.
pub settings_run-reload :
    (browser : Browser) (env : RpcEnvSource) (before : Settings) (events : List SettingsEvent)
    → KeepsJson browser
    → All StoresSettled events
    → reload browser env (settings_run browser env (reload browser env before) events)
      ≡ settings_run browser env (reload browser env before) events
unfolding reload
settings_run-reload browser env before events k i =
    reload-same browser env _ (settings_run-IsKept browser env _ events k i (refl, refl))

-- After the service's URL is set, loading the page again gives the URL that is held exactly when it is
-- not empty and does not end in a slash.
pub set_ncn_api_url_data-reload_iff :
    (browser : Browser) (env : RpcEnvSource) (url : Text) (s : Settings)
    → ((reload browser env (set_ncn_api_url_data browser env url s)).ncn_api_url
        ≡ (set_ncn_api_url_data browser env url s).ncn_api_url)
      ↔ IsSettled (normalize_url url)
unfolding reload set_ncn_api_url_data get_stored_value
set_ncn_api_url_data-reload_iff browser env url s = settled_iff (normalize_url url)
  where
    settled_iff :
        (url : Text)
        → ((if is_empty url then default_ncn_api_url else normalize_url url) ≡ url) ↔ IsSettled url
    settled_iff [] = (λ h. absurd (cc), λ i. absurd (cc))
    settled_iff (c ∷ url) = (
      λ h. (refl, (normalize_url-settled (c ∷ url)).0 h),
      λ i. (normalize_url-settled (c ∷ url)).1 i.1,
    )
