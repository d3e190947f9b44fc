-- ===== src/Auth.antt =====
-- internal/auth: the login by OpenID Connect, its sessions, and the check of forms. Cookies are an
-- association list; a cookie's attributes are left out. `random_token` failing is a `none`, and the
-- identity provider is what `exchange` answers.
pub mod Access
pub mod Lifetime
pub mod Login
use alertory.Prelude.{
  ℕ, ◌+◌, ◌*◌, Bool, true, false, not, ◌&&◌, ◌||◌, List, [], ◌∷◌, Option, none, some, length, eqb,
  if◌then◌else◌,
}
use alertory.Text.{Str, str, ◌==◌}
use alertory.Text.Parts.{has_prefix, contains}
use alertory.Map.{Map, get}
use alertory.Clock.{Time, Duration, second}
use alertory.Slack.{is_empty}
use alertory.Db.Sessions.{
  WebSession, Sessions, create_web_session, get_web_session, delete_web_session,
}

abbrev pub session_duration : Duration
session_duration = 24 * (60 * (60 * second))

unfoldable pub safe_return_to : Str → Str
unfolding is_empty has_prefix contains
safe_return_to path =
    if is_empty path
      || not (has_prefix (str "/") path)
      || has_prefix (str "//") path
      || contains path (str "://")
    then str "/"
    else path

pub record Session : Type 0 where
  pub subject : Str
  pub email : Str
  pub name : Str
  pub csrf_token : Str

-- What a guarded request meets: the login, or the handler with a session.
pub data Passage : Type 0 where
  to_login : Passage
  passes : Session → Passage

abbrev pub session_of : WebSession → Session
session_of s = record {
  subject = s.subject;
  email = s.email;
  name = s.name;
  csrf_token = s.csrf_token;
}

unfoldable pub passage_of : Option WebSession → Passage
passage_of none = to_login
passage_of (some s) = passes (session_of s)

-- `cookie` is the session cookie; `reads` says whether the query succeeds.
unfoldable pub require_auth : Option Str → Bool → Time → Sessions → Passage
unfolding is_empty get_web_session passage_of
require_auth none reads now t = to_login
require_auth (some cookie) reads now t =
    if is_empty cookie
    then to_login
    else if reads
    then passage_of (get_web_session cookie now t)
    else to_login

-- The lengths in bytes are equal where the strings are, so their comparison adds nothing.
unfoldable pub check_csrf : Option Session → Str → Bool
unfolding is_empty
check_csrf none token = false
check_csrf (some s) token = not (is_empty token) && token == s.csrf_token

-- The handshake's cookies that the browser sends back.
pub record Handshake : Type 0 where
  pub state : Option Str
  pub nonce : Option Str
  pub verifier : Option Str
  pub return_to : Option Str

-- The query of the callback; an absent parameter reads as "".
pub record Query : Type 0 where
  pub state : Str
  pub error : Str
  pub code : Str

-- A verified ID token. Claims that do not decode are empty.
pub record IdToken : Type 0 where
  pub nonce : Str
  pub subject : Str
  pub email : Str
  pub name : Str
  pub preferred_username : Str

-- What comes of the exchange of a code: no token, a token without ID token, an ID token that does
-- not verify, or a verified one.
pub data Exchanged : Type 0 where
  refused : Exchanged
  no_id_token : Exchanged
  unverified : Exchanged
  verified : IdToken → Exchanged

-- The answer: a status with no session, or a redirect with the session's cookie.
pub data Answer : Type 0 where
  error : ℕ → Answer
  redirect : Str → Str → Answer

unfoldable pub return_path : Option Str → Str
unfolding safe_return_to
return_path none = str "/"
return_path (some path) = safe_return_to path

abbrev pub new_session : IdToken → Str → Str → Time → WebSession
new_session token id csrf now = record {
  id = id;
  subject = token.subject;
  email = token.email;
  name = if is_empty token.name then token.preferred_username else token.name;
  csrf_token = csrf;
  expires_at = now + session_duration;
}

-- The session is inserted if the statement runs (`writes`) and the id is free.
unfoldable pub open_session : Str → WebSession → Bool → Sessions → Answer × Sessions
unfolding create_web_session
open_session path s writes t =
    if writes
    then elim (create_web_session s t) [
      | none ↦ (error 500, t)
      | some t' ↦ (redirect path s.id, t')
    ]
    else (error 500, t)

-- The random ids of a session, `none` where the source of randomness fails.
abbrev pub Tokens : Type 0
Tokens = Option (Str × Str)

unfoldable pub finish_login :
    Str → Str → Exchanged → Tokens → Bool → Time → Sessions → Answer × Sessions
unfolding open_session is_empty
finish_login path nonce refused tokens writes now t = (error 401, t)
finish_login path nonce no_id_token tokens writes now t = (error 401, t)
finish_login path nonce unverified tokens writes now t = (error 401, t)
finish_login path nonce (verified token) none writes now t =
    if token.nonce == nonce then (error 500, t) else (error 401, t)
finish_login path nonce (verified token) (some (id, csrf)) writes now t =
    if token.nonce == nonce
    then open_session path (new_session token id csrf now) writes t
    else (error 401, t)

module _ (exchange : Str → Str → Exchanged) where
  -- The checks of a callback that came with its three cookies.
  unfoldable pub callback_with :
      Str → Str → Str → Str → Query → Tokens → Bool → Time → Sessions → Answer × Sessions
  unfolding is_empty finish_login
  callback_with path state nonce verifier q tokens writes now t =
      if is_empty state || not (q.state == state)
      then (error 400, t)
      else if not (is_empty q.error)
      then (error 401, t)
      else if is_empty q.code
      then (error 400, t)
      else finish_login path nonce (exchange q.code verifier) tokens writes now t

  -- The state, the nonce and the verifier of the cookies.
  unfoldable pub callback_cookies :
      Str
      → Option Str
      → Option Str
      → Option Str
      → Query
      → Tokens
      → Bool
      → Time
      → Sessions
      → Answer × Sessions
  unfolding callback_with
  callback_cookies path none nonce_cookie verifier q tokens writes now t = (error 400, t)
  callback_cookies path (some state) none verifier q tokens writes now t = (error 400, t)
  callback_cookies path (some state) (some nonce) none q tokens writes now t = (error 400, t)
  callback_cookies path (some state) (some nonce) (some verifier) q tokens writes now t =
      callback_with path state nonce verifier q tokens writes now t

  unfoldable pub callback_handler :
      Handshake → Query → Tokens → Bool → Time → Sessions → Answer × Sessions
  unfolding callback_cookies return_path
  callback_handler h q tokens writes now t =
      callback_cookies (return_path h.return_to) h.state h.nonce h.verifier q tokens writes now t

-- The table after a logout; a statement that fails is logged.
unfoldable pub logout_handler : Option Str → Bool → Sessions → Sessions
unfolding delete_web_session is_empty
logout_handler none writes t = t
logout_handler (some cookie) writes t =
    if is_empty cookie then t else if writes then delete_web_session cookie t else t
