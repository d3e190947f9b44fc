-- ===== src/Auth/Login.antt =====
-- internal/auth: the start of a login, the session without authentication; cmd/app/main.go: whether
-- there is a login at all. `auth_code_url` is the identity provider's address for a state, a nonce
-- and a verifier.
use alertory.Prelude.{
  ℕ, Bool, true, ◌||◌, [], ◌∷◌, Option, none, some, if◌then◌else◌, ◌≡◌, ◌≢◌, refl, ap, ◌∙◌,
}
use alertory.Text.{Str, str, ◌==◌, eq_refl}
use alertory.Slack.{is_empty}
use alertory.Clock.{Time}
use alertory.Db.Sessions.{Sessions, create_web_session}
use alertory.Auth.Access.{safe_return_to_lem}
use alertory.Auth.{
  Session, Handshake, IdToken, Exchanged, verified, redirect, new_session, safe_return_to,
  open_session, finish_login, callback_with, callback_handler,
}

-- DevBypass
abbrev pub dev_session : Session
dev_session = record {
  subject = str "dev";
  email = str "dev@localhost";
  name = str "Dev (auth disabled)";
  csrf_token = str "dev-auth-disabled";
}

-- The cookies that are set and the address of the redirect, or a status.
pub data Started : Type 0 where
  refused : ℕ → Started
  started : Handshake → Str → Started

module _ (auth_code_url : Str → Str → Str → Str) where
  -- `state` and `nonce` are random tokens, `verifier` the one of PKCE.
  unfoldable pub login_handler : Option Str → Option Str → Str → Str → Started
  unfolding safe_return_to
  login_handler state_token nonce_token verifier return_to = elim state_token [
    | none ↦ refused 500
    | some state ↦ elim nonce_token [
      | none ↦ refused 500
      | some nonce ↦
          started
            (record {
              state = some state;
              nonce = some nonce;
              verifier = some verifier;
              return_to = some (safe_return_to return_to);
            })
            (auth_code_url state nonce verifier)
    ]
  ]

-- The variables that the start-up reads; one that is not set is "".
pub record AuthEnv : Type 0 where
  pub disable_auth : Str
  pub issuer_url : Str
  pub client_id : Str
  pub client_secret : Str
  pub app_url : Str

-- The process ends, or runs without or with a login.
pub data Built : Type 0 where
  exits no_service service : Built

-- `discovers` says whether the discovery of the identity provider succeeds.
unfoldable pub must_build_auth_service : AuthEnv → Bool → Built
unfolding is_empty
must_build_auth_service env discovers =
    if env.disable_auth == str "true"
    then no_service
    else if is_empty env.issuer_url || is_empty env.client_id || is_empty env.client_secret
    then no_service
    else if is_empty env.app_url
    then exits
    else if discovers
    then service
    else exits

safe_return_to_idem : (path : Str) → safe_return_to (safe_return_to path) ≡ safe_return_to path
safe_return_to_idem path =
    let local = safe_return_to_lem path in
    (safe_return_to_lem (safe_return_to path)).3 local.0 local.1 local.2

finish_login_opens :
    (path token_nonce id csrf : Str) (token : IdToken) (now : Time) (t t' : Sessions)
    → token.nonce ≡ token_nonce
    → create_web_session (new_session token id csrf now) t ≡ some t'
    → finish_login path token_nonce (verified token) (some (id, csrf)) true now t
      ≡ (redirect path id, t')
unfolding finish_login open_session
finish_login_opens path token_nonce id csrf token now t t' same opens =
    rw (same, eq_refl token_nonce, opens, finish_login) refl

-- A login whose cookies come back with the state that was given out and a code which the identity
-- provider exchanges for a token of the nonce opens a session of that token for a day, and leads to
-- the page that was asked for, if that is a local one; where the random tokens and the statement do
-- not fail and the session's id is free.
pub callback-login :
    (auth_code_url : Str → Str → Str → Str) (exchange : Str → Str → Exchanged)
    (state token_nonce verifier return_to code id csrf : Str) (token : IdToken) (now : Time)
    (t t' : Sessions)
    → state ≢ []
    → code ≢ []
    → exchange code verifier ≡ verified token
    → token.nonce ≡ token_nonce
    → create_web_session (new_session token id csrf now) t ≡ some t'
    → (h : Handshake) × (login_handler auth_code_url
          (some state)
          (some token_nonce)
          verifier
          return_to
        ≡ started h (auth_code_url state token_nonce verifier))
      × (callback_handler exchange h
            (record { state = state; error = []; code = code })
            (some (id, csrf))
            true
            now
            t
          ≡ (redirect (safe_return_to return_to) id, t'))
unfolding login_handler callback_handler
callback-login auth_code_url exchange [] token_nonce verifier return_to code id csrf token now t t'
      some_state some_code verifies same opens =
    absurd (some_state refl)
callback-login auth_code_url exchange state token_nonce verifier return_to [] id csrf token now t t'
      some_state some_code verifies same opens =
    absurd (some_code refl)
callback-login auth_code_url exchange (s ∷ state) token_nonce verifier return_to (c ∷ code) id csrf
      token now t t' some_state some_code verifies same opens =
    (
      record {
        state = some (s ∷ state);
        nonce = some token_nonce;
        verifier = some verifier;
        return_to = some (safe_return_to return_to);
      },
      refl,
      ap
            (λ path.
              callback_with exchange path (s ∷ state) token_nonce verifier
                (record { state = s ∷ state; error = []; code = c ∷ code }) (some (id, csrf)) true
                now t)
            (safe_return_to_idem return_to)
          ∙ (rw (eq_refl (s ∷ state), callback_with)
              (ap
                  (λ e.
                    finish_login (safe_return_to return_to) token_nonce e (some (id, csrf)) true now
                      t)
                  verifies
                ∙ finish_login_opens (safe_return_to return_to) token_nonce id csrf token now t t'
                    same opens)),
    )
