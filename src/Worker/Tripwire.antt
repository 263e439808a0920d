-- ===== src/Worker/Tripwire.antt =====
-- control-plane/src/control_plane/services/tripwire.py: the containment of an agent that holds a tool
-- beyond its baseline.
pub mod Verdict
use moomacha.Worker.{
  Step, return, ◌>>=◌, ◌>>◌, try_except, perform, Place, say, edit, tripwire_event, disable,
  JobDeps,
}
use moomacha.Base.{ℕ, String, Bool, true, false, some, List, [], ◌∷◌, str_eq, if◌then◌else◌}
use moomacha.Base.Text.{text_lt}
use moomacha.Base.Results.{ok}
use moomacha.Base.Json.{get_field, Json, bool, obj}
use moomacha.ToolAccess.{contains}
use moomacha.Agents.{set_enabled, ResolvedAgent}

abbrev pub darkclaw_baseline_tools : List String
darkclaw_baseline_tools =
    "read_topic" ∷ "read_channel" ∷ "search_long_term_memory" ∷ "remember" ∷ "set_working_memory"
    ∷ "get_working_memory" ∷ "create_interactive_response" ∷ "generate_image"
    ∷ "gcal_list_calendars" ∷ "gcal_list_events" ∷ "gcal_search_events" ∷ "gcal_get_event"
    ∷ "gcal_create_event" ∷ "gtasks_list_task_lists" ∷ "gtasks_list_tasks" ∷ "gtasks_create_task"
    ∷ "gtasks_complete_task" ∷ "gtasks_update_task" ∷ "gtasks_delete_task" ∷ []

-- Into a sorted list, unless it is there.
unfoldable pub insert_name : String → List String → List String
insert_name x [] = x ∷ []
insert_name x (y ∷ ys) =
    let rest = insert_name x ys in
    if str_eq y x then y ∷ ys else if text_lt x y then x ∷ y ∷ ys else y ∷ rest

-- `sorted(set(allowed_tools) - baseline)`
unfoldable pub offending : List String → List String → List String
offending [] baseline = []
offending (tool ∷ allowed) baseline =
    let rest = offending allowed baseline in
    if contains tool baseline then rest else insert_name tool rest

-- `bool(extra)`
unfoldable pub tripped : List String → List String → Bool
tripped allowed baseline = elim (offending allowed baseline) [ [] ↦ false | _ ∷ _ ↦ true ]

-- `runtime_config["codex"]["tripwire"] is True`, of whatever the configuration is.
unfoldable pub tripwire_enabled : Json → Bool
tripwire_enabled (obj config) = elim (get_field "codex" config) [
  | some (obj codex) ↦ elim (get_field "tripwire" codex) [ some (bool b) ↦ b | _ ↦ false ]
  | _ ↦ false
]
tripwire_enabled _ = false

module _ {Parsed Tools : Type 0} (deps : JobDeps Parsed Tools) where
  -- `except Exception: logger.exception(...)`
  unfoldable pub attempt : Step ℕ → Step ℕ
  attempt m = try_except m (λ e. return 0)

  -- `registry.set_enabled(agent.id, False)`
  unfoldable pub disable_agent : ℕ → Step ℕ
  unfolding perform
  disable_agent id = perform deps (disable id) >>= λ a w.
      (ok a, record w { agents = (set_enabled id false w.agents).1 })

  unfoldable pub fire_tripwire : Place → ResolvedAgent → ℕ → Step ℕ
  unfolding attempt disable_agent
  fire_tripwire place agent progress_id =
      attempt (perform deps (say place "Fuck"))
      >> (if deps.has_registry then attempt (disable_agent agent.id) else return 0)
      >> attempt (
          perform deps
            (tripwire_event (offending agent.allowed_tools darkclaw_baseline_tools) agent.id))
      >> attempt (perform deps (edit progress_id "—"))
