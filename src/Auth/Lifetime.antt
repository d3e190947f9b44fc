-- ===== src/Auth/Lifetime.antt =====
-- How long the session of a login opens the UI.
use alertory.Prelude.{
  ℕ, ◌+◌, ◌≤◌, ◌<◌, Bool, true, false, [], ◌∷◌, ◌≡◌, refl, arith, none, some, any, if◌then◌else◌,
  ltb, lt→ltb,
}
use alertory.Text.{Str, ◌==◌, eq_refl}
use alertory.Clock.{Time}
use alertory.Slack.{is_empty}
use alertory.Db.Sessions.{
  WebSession, Sessions, create_web_session, get_web_session, delete_web_session,
}
use alertory.Auth.{
  session_duration, Session, to_login, passes, session_of, passage_of, require_auth, Handshake,
  Query, Exchanged, redirect, new_session, Tokens, callback_handler, logout_handler,
}
use alertory.Auth.Access.{callback_handler_success}

create_web_session_first :
    (s : WebSession) (t t' : Sessions)
    → create_web_session s t ≡ some t'
    → (t' ≡ s ∷ t) × (any (λ r. r.id == s.id) t ≡ false)
unfolding create_web_session
create_web_session_first s t t' h = ground arith

get_web_session_free :
    (id : Str) (now : Time) (t : Sessions)
    → any (λ r. r.id == id) t ≡ false
    → get_web_session id now t ≡ none
unfolding get_web_session
get_web_session_free id now [] h = refl
get_web_session_free id now (s ∷ t) h = ground (arith, get_web_session_free id now t)

get_web_session_deleted :
    (id : Str) (now : Time) (t : Sessions) → get_web_session id now (delete_web_session id t) ≡ none
unfolding get_web_session delete_web_session
get_web_session_deleted id now [] = refl
get_web_session_deleted id now (s ∷ t) = ground (arith, get_web_session_deleted id now t)

get_web_session_first :
    (s : WebSession) (now : Time) (t : Sessions)
    → any (λ r. r.id == s.id) t ≡ false
    → get_web_session s.id now (s ∷ t) ≡ (if ltb now s.expires_at then some s else none)
unfolding get_web_session
get_web_session_first s now t h = ground (arith, eq_refl s.id, get_web_session_free s.id now t)

create_web_session_lasts :
    (s : WebSession) (t t' : Sessions)
    → create_web_session s t ≡ some t'
    → is_empty s.id ≡ false
    → ((later : Time)
        → later < s.expires_at
        → require_auth (some s.id) true later t' ≡ passes (session_of s))
      × ((later : Time) → s.expires_at ≤ later → require_auth (some s.id) true later t' ≡ to_login)
      × ((later : Time)
          → require_auth (some s.id) true later (logout_handler (some s.id) true t') ≡ to_login)
unfolding require_auth passage_of logout_handler
create_web_session_lasts s t t' made some_id =
    let (first, free) = create_web_session_first s t t' made in
    (
      λ later soon.
          rw (some_id, first, get_web_session_first s later t free, lt→ltb later s.expires_at soon)
            refl,
      λ later late.
          rw (some_id, first, get_web_session_first s later t free, ge→ltb later s.expires_at late)
            refl,
      λ later. rw (some_id, get_web_session_deleted s.id later t') refl,
    )
  where
    ge→ltb : (a b : ℕ) → b ≤ a → ltb a b ≡ false
    ge→ltb a b h = ground arith

-- The cookie of a login that succeeds opens the UI, with one and the same session, for 24 hours and
-- no longer, and never after a logout with it; while the queries succeed.
pub callback_handler-require_auth :
    (exchange : Str → Str → Exchanged) (h : Handshake) (q : Query) (tokens : Tokens) (writes : Bool)
    (now : Time) (t t' : Sessions) (p id : Str)
    → callback_handler exchange h q tokens writes now t ≡ (redirect p id, t')
    → is_empty id ≡ false
    → (session : Session) × ((later : Time)
        → later < now + session_duration
        → require_auth (some id) true later t' ≡ passes session)
      × ((later : Time)
          → now + session_duration ≤ later
          → require_auth (some id) true later t' ≡ to_login)
      × ((later : Time)
          → require_auth (some id) true later (logout_handler (some id) true t') ≡ to_login)
callback_handler-require_auth exchange h q tokens writes now t t' p id done some_id =
    let (to_path, some_state, (n, v, token, csrf, state, nonce, verifier, exchanged, own, made)) =
      callback_handler_success exchange h q tokens writes now t t' p id done in
    let s = new_session token id csrf now in
    let (during, closed, left) = create_web_session_lasts s t t' made some_id in
    (session_of s, during, closed, left)
