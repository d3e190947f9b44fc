-- ===== src/Workflows/Posted.antt =====
-- From an alert to Slack: `ProcessAlert`, and a tick of the flush worker after the debounce.
use alertory.Prelude.{Bool, List, Option}
use alertory.Text.{Str}
use alertory.Map.{Map}
use alertory.Clock.{Duration}
use alertory.Db.Rules.{WorkflowRule, AlertUpsert}
use alertory.Workflows.Rules.{Call, Fetched}
use alertory.Workflows.Ingest.{Saving, Ingest}
use alertory.Workflows.Ingest.Groups.{run, Misses}

module _ (equal_fold : Str → Str → Bool) (sha1_hex : Str → Str)
    (render : Str → Map Str → Option (Map Str) → Option Str) (debounce max_window : Duration)
    {Json : Type 0} (show : Json → Str) (nil_json : Json) (object : Map Json → Json)
    (fetch : List Call → Call → Fetched Json) where
  abbrev pub ingest : List WorkflowRule → Bool → (Str → Saving) → Ingest → Ingest
  ingest = run equal_fold sha1_hex render debounce max_window show nil_json object fetch

  -- No rule of the list that matches the alert has the group.
  abbrev pub AreOthers : Str → List WorkflowRule → AlertUpsert → Type 0
  AreOthers = Misses equal_fold sha1_hex render debounce max_window show nil_json object fetch
