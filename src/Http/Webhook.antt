-- ===== src/Http/Webhook.antt =====
-- `checkWebhookAuth` of internal/http/handlers.go: who may send alerts. `sha256_hex` is the hash of
-- an API key in hexadecimal; a query of the table of keys may fail (`works`).
use alertory.Prelude.{
  ℕ, Bool, true, false, not, ◌&&◌, ◌||◌, List, [], ◌∷◌, ◌++◌, ltb, if◌then◌else◌,
}
use alertory.Text.{Str, str, ◌==◌}
use alertory.Text.Parts.{has_prefix, trim_prefix}
use alertory.Slack.{is_empty}
use alertory.Db.ApiKeys.{ApiKeys, api_key_exists, count_api_keys}
pub mod Access

abbrev pub bearer : Str
bearer = str "Bearer "

-- Whether the lookup of a key and the count of the keys succeed.
pub record Works : Type 0 where
  pub lookup : Bool
  pub count : Bool

-- A count that fails counts as "there are keys".
unfoldable pub any_api_keys_exist : Works → ApiKeys → Bool
unfolding count_api_keys
any_api_keys_exist works t = if works.count then ltb 0 (count_api_keys t) else true

module _ (sha256_hex : Str → Str) where
  -- `supplied` is the Authorization header, `token` the configured BEARER_TOKEN, "" if unset.
  unfoldable pub check_webhook_auth : Str → Str → Works → ApiKeys → Bool
  unfolding is_empty any_api_keys_exist api_key_exists
  check_webhook_auth supplied token works t =
      let supplied_key = trim_prefix bearer supplied in
      let is_open = is_empty token && not (any_api_keys_exist works t) in
      if not (is_empty token) && supplied == (bearer ++ token)
      then true
      else if not (has_prefix bearer supplied) || is_empty supplied_key
      then is_open
      else if not works.lookup
      then false
      else if api_key_exists (sha256_hex supplied_key) t
      then true
      else is_open
