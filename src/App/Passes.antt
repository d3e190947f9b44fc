-- ===== src/App/Passes.antt =====
-- The loop of the cleanup: it goes on to the end of the context, unless its interval is 0.
use alertory.Prelude.{Bool-cases, inl, inr, if◌then◌else◌, List, [], ◌∷◌, some, ltb, ◌≡◌, refl}
use alertory.Clock.{Duration}
use alertory.App.{Tables, Pass, Cleaned, ended, panicked, run_cleanup, run_passes, run_cleanup_loop}
use alertory.App.Cleanup.{run_cleanup_lem}

run_passes_ends :
    (retention : Duration) (passes : List Pass) (t : Tables)
    → (t' : Tables) × (run_passes retention passes t ≡ some t')
unfolding run_passes
run_passes_ends retention [] t = (t, refl)
run_passes_ends retention (p ∷ passes) t =
    let (r, ran, cleans, reaches) = run_cleanup_lem retention p t in
    let (t', ends) = run_passes_ends retention passes r.tables in (t', rw (ran, run_passes) ends)

-- The loop runs all its passes and ends with the context, if its interval is above 0; with the
-- interval 0 it panics after the first pass.
run_cleanup_loop_lem :
    (retention interval : Duration) (p : Pass) (passes : List Pass) (t : Tables)
    → (r : Cleaned) × (t' : Tables) × (run_cleanup retention p t ≡ some r)
      × (run_passes retention passes r.tables ≡ some t')
      × (run_cleanup_loop retention interval p passes t
          ≡ some (if ltb 0 interval then ended t' else panicked r.tables))
unfolding run_cleanup_loop
run_cleanup_loop_lem retention interval p passes t =
    let (r, ran, cleans, reaches) = run_cleanup_lem retention p t in
    let (t', ends) = run_passes_ends retention passes r.tables in
    (
      r,
      t',
      ran,
      ends,
      elim (Bool-cases (ltb 0 interval)) [
        | inl goes_on ↦ rw (ran, ends, goes_on, run_cleanup_loop) refl
        | inr stops ↦ rw (ran, stops, run_cleanup_loop) refl
      ],
    )
