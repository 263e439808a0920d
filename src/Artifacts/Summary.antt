-- ===== src/Artifacts/Summary.antt =====
-- control-plane/src/control_plane/services/artifact_summary.py: the sentence that a submission is posted
-- with. `dumps` is `json.dumps`, `complete` the model's answer to a prompt.
use moomacha.Base.{String, ◌<>◌, Option, none, some, str_eq, ltb, if◌then◌else◌, or_else}
use moomacha.Base.Text.{slice_to, strip, chars}
use moomacha.Base.Results.{Result, ok, raised}
use moomacha.Base.Json.{Json}

pub deterministic_preview : (Json → String) → Json → String
deterministic_preview dumps payload =
    let compact = dumps payload in
    if ltb 280 (chars compact) then slice_to 279 compact <> "…" else compact

module _ (dumps : Json → String) (complete : String → String → Result String (Option String)) where
  -- What the model's answer is worth: nothing when it is empty.
  generated : Result String (Option String) → Option String
  generated (raised e) = none
  generated (ok content) =
      let text = strip (or_else content "") in if str_eq text "" then none else some text

  -- The summary, the model that wrote it, and `generated` or `fallback`.
  pub summarize_payload : String → String → Json → String × Option String × String
  unfolding generated
  summarize_payload model title payload =
      let user =
        "Artifact title: \""
        <> (title <> ("\". Submission payload JSON:\n" <> deterministic_preview dumps payload)) in
      elim (generated (complete model user)) [
        | some text ↦ (text, some model, "generated")
        | none ↦ (deterministic_preview dumps payload, none, "fallback")
      ]
