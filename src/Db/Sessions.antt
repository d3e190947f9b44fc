-- ===== src/Db/Sessions.antt =====
-- internal/db/sessions.go: the table `web_sessions`.
use alertory.Prelude.{
  ℕ, List, [], ◌∷◌, any, keep, length, not, ltb, ◌&&◌, Option, none, some, if◌then◌else◌,
}
use alertory.Text.{Str, ◌==◌}
use alertory.Clock.{Time}

pub record WebSession : Type 0 where
  pub id : Str
  pub subject : Str
  pub email : Str
  pub name : Str
  pub csrf_token : Str
  pub expires_at : Time

abbrev pub Sessions : Type 0
Sessions = List WebSession

-- `none` where the id is taken.
unfoldable pub create_web_session : WebSession → Sessions → Option Sessions
create_web_session s t = if any (λ r. r.id == s.id) t then none else some (s ∷ t)

-- WHERE id = $1 AND expires_at > now()
unfoldable pub get_web_session : Str → Time → Sessions → Option WebSession
get_web_session id now [] = none
get_web_session id now (s ∷ t) =
    if s.id == id && ltb now s.expires_at then some s else get_web_session id now t

unfoldable pub delete_web_session : Str → Sessions → Sessions
delete_web_session id t = keep (λ s. not (s.id == id)) t

-- The number of sessions that were deleted, and the table.
unfoldable pub cleanup_expired_sessions : Time → Sessions → ℕ × Sessions
cleanup_expired_sessions now t =
    (length (keep (λ s. ltb s.expires_at now) t), keep (λ s. not (ltb s.expires_at now)) t)
