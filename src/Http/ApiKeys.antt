-- ===== src/Http/ApiKeys.antt =====
-- The handlers for API keys in internal/http/webui.go. `sha256_hex` is the hash of a key in
-- hexadecimal; `by_created` is the order of a listing. A random token is `none` where the source of
-- randomness fails, and a statement may fail (`writes`, `reads`).
use alertory.Prelude.{Bool, not, List, [], Option, none, some, if◌then◌else◌}
use alertory.Text.{Str, str}
use alertory.Text.Parts.{trim_space}
use alertory.Slack.{is_empty}
use alertory.Db.ApiKeys.{ApiKeys, create_api_key, delete_api_key, list_api_keys}
use alertory.Auth.{Session, check_csrf}
use alertory.Http.Reply.{Reply, status, redirect, rendered}
use alertory.Http.Rules.{current_user, csrf_token_of}

-- `keys` holds what is shown of the keys, their ids and names.
pub record ApiKeysPage : Type 0 where
  pub user : Str
  pub csrf_token : Str
  pub keys : List (Str × Str)
  pub new_key : Str

-- What the creation of a key draws and meets: the raw key, its id, and whether the INSERT and the
-- listing run.
pub record Draw : Type 0 where
  pub raw_key : Option Str
  pub id : Option Str
  pub writes : Bool
  pub reads : Bool

unfoldable pub delete_api_key_handler :
    Bool → Option Session → Str → Str → Bool → ApiKeys → Reply ⊥ × ApiKeys
unfolding check_csrf is_empty delete_api_key
delete_api_key_handler parsed session csrf id writes t =
    if not parsed
    then (status 400, t)
    else if not (check_csrf session csrf)
    then (status 403, t)
    else if is_empty id
    then (status 404, t)
    else if writes
    then (redirect (str "/ui/api-keys"), delete_api_key id t)
    else (status 500, t)

module _ (by_created : ApiKeys → ApiKeys) where
  abbrev keys_page : Option Session → Str → ApiKeys → Reply ApiKeysPage
  keys_page session new_key t = rendered (record {
    user = current_user session;
    csrf_token = csrf_token_of session;
    keys = list_api_keys by_created t;
    new_key = new_key;
  })

  unfoldable pub api_keys_list_handler : Option Session → Bool → ApiKeys → Reply ApiKeysPage
  unfolding current_user csrf_token_of list_api_keys
  api_keys_list_handler session reads t = if reads then keys_page session [] t else status 500

  module _ (sha256_hex : Str → Str) where
    -- The key is kept, also where the listing then fails.
    abbrev save_key :
        Option Session → Str → Str → Str → Bool → Bool → ApiKeys → Reply ApiKeysPage × ApiKeys
    save_key session raw id name writes reads t =
        elim (if writes then create_api_key id name (sha256_hex raw) t else none) [
          | none ↦ (status 500, t)
          | some t' ↦ (if reads then keys_page session raw t' else status 500, t')
        ]

    abbrev draw_key : Option Session → Str → Draw → ApiKeys → Reply ApiKeysPage × ApiKeys
    draw_key session name d t = elim d.raw_key [
      | none ↦ (status 500, t)
      | some raw ↦ elim d.id [
        | none ↦ (status 500, t)
        | some id ↦ save_key session raw id name d.writes d.reads t
      ]
    ]

    unfoldable pub create_api_key_handler :
        Bool → Option Session → Str → Str → Draw → ApiKeys → Reply ApiKeysPage × ApiKeys
    unfolding check_csrf trim_space create_api_key current_user csrf_token_of list_api_keys
    create_api_key_handler parsed session csrf name d t =
        if not parsed
        then (status 400, t)
        else if not (check_csrf session csrf)
        then (status 403, t)
        else draw_key session (trim_space name) d t
