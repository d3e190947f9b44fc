-- ===== src/Auth/Access.antt =====
-- What a login that succeeds came with, and where it leads.
use alertory.Prelude.{
  Bool, true, false, not, ◌||◌, [], ◌∷◌, ◌≡◌, refl, ◌∙◌, ap, sym, arith, Option, none, some,
  Bool-cases, inl, inr,
}
use alertory.Text.{Str, str, ◌==◌, eq_iff}
use alertory.Text.Parts.{has_prefix, contains}
use alertory.Clock.{Time}
use alertory.Slack.{is_empty}
use alertory.Db.Sessions.{WebSession, Sessions, create_web_session}
use alertory.Auth.{
  safe_return_to, Handshake, Query, IdToken, Exchanged, refused, no_id_token, unverified, verified,
  redirect, return_path, new_session, open_session, Tokens, finish_login, callback_with,
  callback_cookies, callback_handler,
}

root_lem :
    (has_prefix (str "/") (str "/") ≡ true)
    × (has_prefix (str "//") (str "/") ≡ false)
    × (contains (str "/") (str "://") ≡ false)
unfolding has_prefix contains str
root_lem = (refl, refl, refl)

empty_lem : has_prefix (str "/") [] ≡ false
unfolding has_prefix str
empty_lem = refl

-- The path of a login's redirect is a local one: it begins with one slash and names no scheme. A
-- path of that kind is kept.
pub safe_return_to_lem :
    (path : Str)
    → let r = safe_return_to path in
      (has_prefix (str "/") r ≡ true)
      × (has_prefix (str "//") r ≡ false)
      × (contains r (str "://") ≡ false)
      × (has_prefix (str "/") path ≡ true
          → has_prefix (str "//") path ≡ false
          → contains path (str "://") ≡ false
          → r ≡ path)
unfolding safe_return_to
safe_return_to_lem [] = ground (arith, root_lem, empty_lem)
safe_return_to_lem (c ∷ path) =
    elim (Bool-cases (
      not (has_prefix (str "/") (c ∷ path))
      || has_prefix (str "//") (c ∷ path)
      || contains (c ∷ path) (str "://"))) [
        | inl foreign ↦
            rw (foreign, safe_return_to) (root_lem.0, root_lem.1, root_lem.2, λ a b d. ground arith)
        | inr local ↦
            rw (local, safe_return_to) (ground arith, ground arith, ground arith, λ a b d. refl)
      ]

open_session_success :
    (path p id : Str) (s : WebSession) (writes : Bool) (t t' : Sessions)
    → open_session path s writes t ≡ (redirect p id, t')
    → (p ≡ path) × (id ≡ s.id) × (create_web_session s t ≡ some t')
unfolding open_session
open_session_success path p id s writes t t' h = ground arith

-- The login that a redirect stands for.
abbrev Opens : Str → Exchanged → Tokens → Time → Str → Sessions → Sessions → Type 0
Opens nonce x tokens now id t t' =
    (token : IdToken) × (csrf : Str) × (x ≡ verified token)
    × (token.nonce ≡ nonce)
    × (tokens ≡ some (id, csrf))
    × (create_web_session (new_session token id csrf now) t ≡ some t')

finish_login_success :
    (path nonce p id : Str) (x : Exchanged) (tokens : Tokens) (writes : Bool) (now : Time)
    (t t' : Sessions)
    → finish_login path nonce x tokens writes now t ≡ (redirect p id, t')
    → (p ≡ path) × Opens nonce x tokens now id t t'
unfolding finish_login
finish_login_success path nonce p id refused tokens writes now t t' h = ground arith
finish_login_success path nonce p id no_id_token tokens writes now t t' h = ground arith
finish_login_success path nonce p id unverified tokens writes now t t' h = ground arith
finish_login_success path nonce p id (verified token) none writes now t t' h = ground arith
finish_login_success path nonce p id (verified token) (some (i, csrf)) writes now t t' h =
    elim (Bool-cases (token.nonce == nonce)) [
      | inl same ↦
          let (to_path, own, made) =
            open_session_success path p id (new_session token i csrf now) writes t t'
              (sym (rw same refl) ∙ h) in
          (
            to_path,
            (
              token,
              csrf,
              refl,
              (eq_iff token.nonce nonce).0 same,
              ap (λ x. some (x, csrf)) (sym own),
              ap (λ x. create_web_session (new_session token x csrf now) t) own ∙ made,
            ),
          )
      | inr differs ↦ ground arith
    ]

callback_with_success :
    (exchange : Str → Str → Exchanged) (path state nonce verifier p id : Str) (q : Query)
    (tokens : Tokens) (writes : Bool) (now : Time) (t t' : Sessions)
    → callback_with exchange path state nonce verifier q tokens writes now t ≡ (redirect p id, t')
    → (is_empty state ≡ false)
      × (q.state ≡ state)
      × (finish_login path nonce (exchange q.code verifier) tokens writes now t
          ≡ (redirect p id, t'))
unfolding callback_with
callback_with_success exchange path state nonce verifier p id q tokens writes now t t' h =
    ground (arith, eq_iff q.state state)

-- The cookies, the exchange and the session of a login that succeeded.
abbrev pub Succeeds :
    (Str → Str → Exchanged)
    → Option Str
    → Option Str
    → Option Str
    → Query
    → Time
    → Str
    → Sessions
    → Sessions
    → Type 0
Succeeds exchange state nonce verifier q now id t t' =
    (n v : Str) × (token : IdToken) × (csrf : Str) × (state ≡ some q.state)
    × (nonce ≡ some n)
    × (verifier ≡ some v)
    × (exchange q.code v ≡ verified token)
    × (token.nonce ≡ n)
    × (create_web_session (new_session token id csrf now) t ≡ some t')

callback_cookies_success :
    (exchange : Str → Str → Exchanged) (path : Str) (state nonce verifier : Option Str) (q : Query)
    (tokens : Tokens) (writes : Bool) (now : Time) (t t' : Sessions) (p id : Str)
    → callback_cookies exchange path state nonce verifier q tokens writes now t
      ≡ (redirect p id, t')
    → (p ≡ path) × (is_empty q.state ≡ false) × Succeeds exchange state nonce verifier q now id t t'
unfolding callback_cookies
callback_cookies_success exchange path none nonce_cookie verifier q tokens writes now t t' p id h =
    ground arith
callback_cookies_success exchange path (some state) none verifier q tokens writes now t t' p id h =
    ground arith
callback_cookies_success exchange path (some state) (some nonce) none q tokens writes now t t' p id
      h =
    ground arith
callback_cookies_success exchange path (some state) (some nonce) (some v) q tokens writes now t t' p
      id h =
    let (some_state, same, done) =
      callback_with_success exchange path state nonce v p id q tokens writes now t t' h in
    let (to_path, (token, csrf, exchanged, own, random, made)) =
      finish_login_success path nonce p id (exchange q.code v) tokens writes now t t' done in
    (
      to_path,
      ap is_empty same ∙ some_state,
      (nonce, v, token, csrf, ap some (sym same), refl, refl, exchanged, own, made),
    )

-- A login that succeeds came with the state and the nonce of its own handshake, and the provider
-- vouched for it: the state of the query is not empty and is that of the cookie, and the ID token
-- that the code was exchanged for has the nonce of the cookie. It leads to the local path of the
-- handshake, and the table is the one before with the new session.
pub callback_handler_success :
    (exchange : Str → Str → Exchanged) (h : Handshake) (q : Query) (tokens : Tokens) (writes : Bool)
    (now : Time) (t t' : Sessions) (p id : Str)
    → callback_handler exchange h q tokens writes now t ≡ (redirect p id, t')
    → (p ≡ return_path h.return_to)
      × (is_empty q.state ≡ false)
      × Succeeds exchange h.state h.nonce h.verifier q now id t t'
unfolding callback_handler
callback_handler_success exchange h q tokens writes now t t' p id done =
    callback_cookies_success exchange (return_path h.return_to) h.state h.nonce h.verifier q tokens
      writes now t t' p id done
