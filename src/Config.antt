-- ===== src/Config.antt =====
-- config/config.go: the client's settings from the environment.
use auklet_client_c.Prelude.{
  ◌<>◌, ◌≢◌, String, Bool, ◌==◌, string_eq, Bool-cases, inl, inr, eq_iff, if◌then◌else◌,
}

abbrev pub production : String
production = "https://api.auklet.io"

abbrev pub Getenv : Type 0
Getenv = String → String

abbrev pub prefix : String
prefix = "AUKLET_"

-- `envar`; the warning for an empty value is left out.
unfoldable pub envar : Getenv → String → String
envar getenv s = getenv (prefix <> s)

unfoldable pub api_key : Getenv → String
unfolding envar
api_key getenv = envar getenv "API_KEY"

unfoldable pub app_id : Getenv → String
unfolding envar
app_id getenv = envar getenv "APP_ID"

-- `BaseURL`
unfoldable pub base_url : Getenv → String → String
unfolding envar
base_url getenv from_cli =
    if from_cli == ""
    then (let url = envar getenv "BASE_URL" in if url == "" then production else url)
    else from_cli

unfoldable pub log_errors : Getenv → Bool
log_errors getenv = getenv (prefix <> "LOG_ERRORS") == "true"

unfoldable pub log_info : Getenv → Bool
log_info getenv = getenv (prefix <> "LOG_INFO") == "true"

production-ne : production ≢ ""
production-ne e = cc

or_production-ne : (url : String) → (if url == "" then production else url) ≢ ""
or_production-ne url = elim (Bool-cases (url == "")) [
  | inl e ↦ rw e production-ne
  | inr e ↦ rw e (λ h. cc ((eq_iff url "").1 h))
]

-- The base URL is never empty.
pub base_url-nonempty : (getenv : Getenv) (from_cli : String) → base_url getenv from_cli ≢ ""
unfolding base_url
base_url-nonempty getenv from_cli = elim (Bool-cases (from_cli == "")) [
  | inl e ↦ rw e (or_production-ne (getenv "AUKLET_BASE_URL"))
  | inr e ↦ rw e (λ h. cc ((eq_iff from_cli "").1 h))
]
