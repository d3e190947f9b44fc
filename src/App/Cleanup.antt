-- ===== src/App/Cleanup.antt =====
-- What a pass of the cleanup leaves.
use alertory.Prelude.{
  ◌+◌, ◌-◌, ◌≤◌, false, not, [], ◌∷◌, some, keep, length, ltb, ◌≡◌, ◌⊎◌, refl, arith, Bool-cases,
  inl, inr,
}
use alertory.Text.{Str}
use alertory.Clock.{Time, Duration}
use alertory.Db.Alerts.Retention.{Trimmed, kept_alerts, Retains, delete_old_alerts_lem}
use alertory.Db.Groups.{Table}
use alertory.Db.Groups.Cleanup.{keep_counts, open_groups, cleanup_resolved_groups_counts}
use alertory.Db.Sessions.{Sessions, get_web_session, cleanup_expired_sessions}
use alertory.App.{
  Tables, Pass, Cleaned, groups_cutoff, clean_groups, clean_sessions, clean_rest, run_cleanup,
}

-- Expired sessions are not found before their deletion either.
get_web_session-kept :
    (id : Str) (now later : Time) (t : Sessions)
    → now ≤ later
    → get_web_session id later (keep (λ s. not (ltb s.expires_at now)) t)
      ≡ get_web_session id later t
unfolding get_web_session
get_web_session-kept id now later [] h = refl
get_web_session-kept id now later (s ∷ t) h = ground (arith, get_web_session-kept id now later t h)

clean_sessions_lem :
    (p : Pass) (id : Str) (later : Time) (t : Sessions)
    → p.sessions_at ≤ later
    → get_web_session id later (clean_sessions p t).1 ≡ get_web_session id later t
unfolding clean_sessions cleanup_expired_sessions
clean_sessions_lem p id later t h = elim (Bool-cases p.sessions_run) [
  | inl runs ↦ rw runs (get_web_session-kept id p.sessions_at later t h)
  | inr fails ↦ rw fails refl
]

clean_sessions_counts :
    (p : Pass) (t : Sessions) → (clean_sessions p t).0 + length (clean_sessions p t).1 ≡ length t
unfolding clean_sessions cleanup_expired_sessions
clean_sessions_counts p t = elim (Bool-cases p.sessions_run) [
  | inl runs ↦ rw runs (keep_counts (λ s. ltb s.expires_at p.sessions_at) t)
  | inr fails ↦ rw fails (omega arith)
]

clean_groups_lem :
    (p : Pass) (t : Table)
    → (open_groups (clean_groups p t).1 ≡ open_groups t)
      × ((clean_groups p t).0 + length (clean_groups p t).1 ≡ length t)
unfolding clean_groups
clean_groups_lem p t = elim (Bool-cases p.groups_run) [
  | inl runs ↦
      let (counts, opens) = cleanup_resolved_groups_counts (groups_cutoff p) t in
      rw runs (opens, counts)
  | inr fails ↦ rw fails (refl, omega arith)
]

-- What is left of the tables: alerts and events of the retention, open groups and live sessions as
-- they were, and the counts of the rows that are gone from each.
abbrev pub Cleans : Time → Pass → Tables → Cleaned → Type 0
Cleans cutoff p t r =
    (kept_alerts cutoff r.tables.alerts ≡ kept_alerts cutoff t.alerts)
    × (r.active + length r.tables.alerts.active ≡ length t.alerts.active)
    × (r.events + length r.tables.alerts.events ≡ length t.alerts.events)
    × (r.groups + length r.tables.groups ≡ length t.groups)
    × (r.sessions + length r.tables.sessions ≡ length t.sessions)
    × (open_groups r.tables.groups ≡ open_groups t.groups)
    × ((id : Str) (later : Time)
        → p.sessions_at ≤ later
        → get_web_session id later r.tables.sessions ≡ get_web_session id later t.sessions)

-- The deletion of alerts failed and groups and sessions are as they were, or just the alerts of
-- the retention are left and each of the other two deletions ran or failed by itself.
abbrev pub Reaches : Time → Pass → Tables → Cleaned → Type 0
Reaches cutoff p t r =
    ((r.tables.groups ≡ t.groups) × (r.tables.sessions ≡ t.sessions) × (r.vacuums ≡ false))
    ⊎ ((r.tables.alerts ≡ kept_alerts cutoff t.alerts)
        × (r.tables.groups ≡ (clean_groups p t.groups).1)
        × (r.tables.sessions ≡ (clean_sessions p t.sessions).1))

clean_rest_lem :
    (cutoff : Time) (p : Pass) (t : Tables) (r : Trimmed)
    → Retains cutoff t.alerts r
    → Cleans cutoff p t (clean_rest p t r) × Reaches cutoff p t (clean_rest p t r)
unfolding clean_rest
clean_rest_lem cutoff p t r (keeps, active, events, trims) = elim (Bool-cases r.failed) [
  | inl broke ↦ rw broke (
    (keeps, active, events, omega arith, omega arith, refl, λ id later h. refl),
    inl (refl, refl, refl),
  )
  | inr ran ↦
      let (opens, counts) = clean_groups_lem p t.groups in
      rw ran (
        (
          keeps,
          active,
          events,
          counts,
          clean_sessions_counts p t.sessions,
          opens,
          λ id later h. clean_sessions_lem p id later t.sessions h,
        ),
        inr (ground arith, refl, refl),
      )
]

pub run_cleanup_lem :
    (retention : Duration) (p : Pass) (t : Tables)
    → (r : Cleaned) × (run_cleanup retention p t ≡ some r)
      × Cleans (p.start - retention) p t r
      × Reaches (p.start - retention) p t r
unfolding run_cleanup
run_cleanup_lem retention p t =
    let cutoff = p.start - retention in
    let (r, ends, retains) = delete_old_alerts_lem p.active_fails p.events_fail cutoff t.alerts in
    let (cleans, reaches) = clean_rest_lem cutoff p t r retains in
    (clean_rest p t r, rw (ends, run_cleanup) refl, cleans, reaches)
