-- ===== src/Tests/Auth.antt =====
-- A login and its session on concrete data.
use alertory.Prelude.{◌+◌, ◌≤◌, ◌<◌, true, false, [], ◌∷◌, some, ◌≡◌, refl}
use alertory.Text.{Str, str, ◌==◌}
use alertory.Text.Parts.{has_prefix, contains}
use alertory.Clock.{Time}
use alertory.Slack.{is_empty}
use alertory.Db.Sessions.{Sessions}
use alertory.Auth.{
  session_duration, safe_return_to, Session, to_login, passes, require_auth, Handshake, Query,
  IdToken, Exchanged, verified, return_path, new_session, callback_handler, logout_handler,
}
use alertory.Auth.Access.{Succeeds, safe_return_to_lem, callback_handler_success}
use alertory.Auth.Lifetime.{callback_handler-require_auth}

safe_return_to_lem_example :
    let r = safe_return_to (str "/a?b") in
    (has_prefix (str "/") r ≡ true)
    × (has_prefix (str "//") r ≡ false)
    × (contains r (str "://") ≡ false)
    × (has_prefix (str "/") (str "/a?b") ≡ true
        → has_prefix (str "//") (str "/a?b") ≡ false
        → contains (str "/a?b") (str "://") ≡ false
        → r ≡ str "/a?b")
safe_return_to_lem_example = safe_return_to_lem (str "/a?b")

abbrev handshake : Handshake
handshake = record {
  state = some (str "s");
  nonce = some (str "n");
  verifier = some (str "v");
  return_to = some (str "/ui");
}

abbrev query : Query
query = record { state = str "s"; error = []; code = str "c" }

abbrev id_token : IdToken
id_token = record {
  nonce = str "n";
  subject = str "u1";
  email = [];
  name = [];
  preferred_username = str "ann";
}

abbrev exchange : Str → Str → Exchanged
exchange code v = verified id_token

abbrev after_login : Sessions
after_login = new_session id_token (str "i") (str "t") 5 ∷ []

callback_handler_success_example :
    (str "/ui" ≡ return_path (some (str "/ui")))
    × (is_empty (str "s") ≡ false)
    × Succeeds exchange
        (some (str "s"))
        (some (str "n"))
        (some (str "v"))
        query
        5
        (str "i")
        []
        after_login
unfolding callback_handler safe_return_to str ◌==◌ has_prefix
callback_handler_success_example =
    callback_handler_success exchange handshake query (some (str "i", str "t")) true 5 []
      after_login (str "/ui") (str "i") refl

callback_handler-require_auth_example :
    (session : Session) × ((later : Time)
      → later < 5 + session_duration
      → require_auth (some (str "i")) true later after_login ≡ passes session)
    × ((later : Time)
        → 5 + session_duration ≤ later
        → require_auth (some (str "i")) true later after_login ≡ to_login)
    × ((later : Time)
        → require_auth
            (some (str "i"))
            true
            later
            (logout_handler (some (str "i")) true after_login)
          ≡ to_login)
unfolding callback_handler safe_return_to str ◌==◌ has_prefix is_empty
callback_handler-require_auth_example =
    callback_handler-require_auth exchange handshake query (some (str "i", str "t")) true 5 []
      after_login (str "/ui") (str "i") refl refl
