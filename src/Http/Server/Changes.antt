-- ===== src/Http/Server/Changes.antt =====
-- What a request must carry to change a table of the web UI, through the routes and their guards.
use alertory.Prelude.{
  Bool, true, false, not, ◌&&◌, ◌||◌, List, [], ◌∷◌, Option, none, some, all, ◌≡◌, ◌≢◌, ◌⊎◌, refl,
  ap, ◌∙◌, arith, Bool-cases, inl, inr,
}
use alertory.Text.{Str}
use alertory.Auth.{Session, Passage, to_login, passes, check_csrf}
use alertory.Http.Settings.{invalid_state}
use alertory.Http.Server.{
  Method, get, post, other, home, Route, Mode, disabled, sso, bypass, routes, match_route,
  same_method, segments,
}
use alertory.Http.Server.Serve.{
  World, Request, Ui, handle, passage, serve_route, serve_found, serve,
}
use alertory.Http.Server.Guards.{changes, connects, KeepsTables, handle_tables, handle_providers}

abbrev is_post : Option Method → Bool
is_post (some post) = true
is_post m = false

-- A route whose handler writes is behind the guard, and takes only POST if it writes rules or keys.
abbrev sound : Route → Bool
sound r =
    (not (changes r.endpoint) || (is_post r.method && r.guarded))
    && (not (connects r.endpoint) || r.guarded)

routes-sound : (mode : Mode) → all sound (routes mode) ≡ true
unfolding routes
routes-sound disabled = refl
routes-sound sso = refl
routes-sound bypass = refl

match_route-all :
    (p : Route → Bool) (m : Method) (path : List Str) (rs : List Route) (r : Route) (i : Str)
    → all p rs ≡ true
    → match_route m path rs ≡ some (r, i)
    → (p r ≡ true) × (same_method r.method m ≡ true)
unfolding match_route
match_route-all p m path [] r i h e = absurd (ground arith)
match_route-all p m path (q ∷ rs) r i h e = ground (arith, match_route-all p m path rs r i)

post_only : (o : Option Method) (m : Method) → is_post o ≡ true → same_method o m ≡ true → m ≡ post
unfolding same_method
post_only none m h e = cc
post_only (some get) m h e = cc
post_only (some other) m h e = cc
post_only (some post) post h e = refl
post_only (some post) get h e = cc
post_only (some post) other h e = cc

-- The request comes in by the session.
abbrev pub Enters : Mode → Request → Ui → Session → Type 0
Enters mode r u s = (mode ≢ disabled) × (passage mode r u ≡ passes s)

-- A POST of a session with its token.
abbrev pub MaySave : Mode → Request → Ui → Type 0
MaySave mode r u =
    (s : Session) × Enters mode r u s
    × (r.method ≡ post)
    × (check_csrf (some s) r.form.csrf_token ≡ true)

-- A request of a session that comes back with the state which its browser was given.
abbrev pub MayConnect : Mode → Request → Ui → Type 0
MayConnect mode r u =
    (s : Session) × Enters mode r u s × (invalid_state r.slack_cookie r.query.state ≡ false)

Passage-cases : (p : Passage) → (p ≡ to_login) ⊎ ((s : Session) × (p ≡ passes s))
Passage-cases to_login = inl refl
Passage-cases (passes s) = inr (s, refl)

-- What is left by a handler that is not guarded, by one whose guard lets the session through, or
-- by the redirect to the login.
abbrev Outcome : World → Mode → Route → Str → Request → Ui → Type 0
Outcome w mode route i r u =
    ((route.guarded ≡ false)
      × ((serve_route w mode route i r u).1 ≡ (handle w mode route.endpoint i none r u).1))
    ⊎ (((s : Session) × (passage mode r u ≡ passes s)
          × ((serve_route w mode route i r u).1 ≡ (handle w mode route.endpoint i (some s) r u).1))
        ⊎ ((serve_route w mode route i r u).1 ≡ u))

serve_route-Outcome :
    (w : World) (mode : Mode) (route : Route) (i : Str) (r : Request) (u : Ui)
    → Outcome w mode route i r u
unfolding serve_route
serve_route-Outcome w mode route i r u = elim (Bool-cases route.guarded) [
  | inr unguarded ↦ inl (unguarded, rw unguarded refl)
  | inl guarded ↦ elim (Passage-cases (passage mode r u)) [
    | inl away ↦ inr (inr (rw (guarded, away) refl))
    | inr (s, through) ↦ inr (inl (s, through, rw (guarded, through) refl))
  ]
]

keeps_along : (u : Ui) {a b : Ui} → a ≡ b → KeepsTables u b → KeepsTables u a
keeps_along u e k = (ap (λ x. x.rules) e ∙ k.0, ap (λ x. x.keys) e ∙ k.1)

serve_route_tables :
    (w : World) (mode : Mode) (route : Route) (i : Str) (r : Request) (u : Ui)
    → mode ≢ disabled
    → sound route ≡ true
    → same_method route.method r.method ≡ true
    → MaySave mode r u ⊎ KeepsTables u (serve_route w mode route i r u).1
serve_route_tables w mode route i r u on ok same = elim (serve_route-Outcome w mode route i r u) [
  | inl (unguarded, e) ↦ elim (handle_tables w mode route.endpoint i none r u) [
    | inl (writes, checked) ↦ absurd (ground arith)
    | inr kept ↦ inr (keeps_along u e kept)
  ]
  | inr (inl (s, through, e)) ↦ elim (handle_tables w mode route.endpoint i (some s) r u) [
    | inl (writes, checked) ↦
        let only_post = post_only route.method r.method (ground arith) same in
        inl (s, (on, through), only_post, checked)
    | inr kept ↦ inr (keeps_along u e kept)
  ]
  | inr (inr e) ↦ inr (keeps_along u e (refl, refl))
]

serve_route_providers :
    (w : World) (mode : Mode) (route : Route) (i : Str) (r : Request) (u : Ui)
    → mode ≢ disabled
    → sound route ≡ true
    → MayConnect mode r u ⊎ ((serve_route w mode route i r u).1.providers ≡ u.providers)
serve_route_providers w mode route i r u on ok = elim (serve_route-Outcome w mode route i r u) [
  | inl (unguarded, e) ↦ elim (handle_providers w mode route.endpoint i none r u) [
    | inl (writes, valid) ↦ absurd (ground arith)
    | inr kept ↦ inr (ap (λ x. x.providers) e ∙ kept)
  ]
  | inr (inl (s, through, e)) ↦ elim (handle_providers w mode route.endpoint i (some s) r u) [
    | inl (writes, valid) ↦ inl (s, (on, through), valid)
    | inr kept ↦ inr (ap (λ x. x.providers) e ∙ kept)
  ]
  | inr (inr e) ↦ inr (ap (λ x. x.providers) e)
]

abbrev pub IsGuarded : Mode → Request → Ui → Ui → Type 0
IsGuarded mode r u u' =
    (MaySave mode r u ⊎ KeepsTables u u') × (MayConnect mode r u ⊎ (u'.providers ≡ u.providers))

home-IsGuarded :
    (w : World) (mode : Mode) (r : Request) (u : Ui)
    → IsGuarded mode r u (handle w mode home [] none r u).1
unfolding handle
home-IsGuarded w mode r u = (inr (refl, refl), inr refl)

enabled-IsGuarded :
    (w : World) (mode : Mode) (r : Request) (u : Ui) (found : Option (Route × Str))
    → match_route r.method (segments r.path) (routes mode) ≡ found
    → mode ≢ disabled
    → IsGuarded mode r u (serve_found w mode found r u).1
unfolding serve_found
enabled-IsGuarded w mode r u none e on = home-IsGuarded w mode r u
enabled-IsGuarded w mode r u (some (route, i)) e on =
    let (ok, same) =
      match_route-all sound r.method (segments r.path) (routes mode) route i (routes-sound mode)
        e in
    (
      serve_route_tables w mode route i r u on ok same,
      serve_route_providers w mode route i r u on ok,
    )

-- A rule or an API key changes only by a POST with the token of the session which the guard found,
-- and a setting only where such a session brings the state that its browser was given. A web UI
-- that is disabled changes neither.
pub serve-IsGuarded :
    (w : World) (mode : Mode) (r : Request) (u : Ui) → IsGuarded mode r u (serve w mode r u).1
unfolding serve
serve-IsGuarded w disabled r u = (inr (refl, refl), inr refl)
serve-IsGuarded w sso r u =
    enabled-IsGuarded w sso r u (match_route r.method (segments r.path) (routes sso)) refl (λ e. cc)
serve-IsGuarded w bypass r u =
    enabled-IsGuarded w bypass r u (match_route r.method (segments r.path) (routes bypass)) refl
      (λ e. cc)
