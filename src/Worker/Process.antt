-- ===== src/Worker/Process.antt =====
-- control-plane/src/control_plane/services/job_queue.py: `process_job` and `worker_loop`.
-- The type and the text of an exception; that of a budget error is not used.
use moomacha.Worker.{
  Step, return, ◌>>=◌, ◌>>◌, try_except, try_finally, perform, Failure, budget_exceeded, timed_out,
  failed, say, open_llm, close_llm, turn_start, turn_end, run, HistoryMessage, RunnerInput, JobDeps,
}
use moomacha.Worker.Tripwire.{darkclaw_baseline_tools, tripped, tripwire_enabled, fire_tripwire}
use moomacha.Worker.Turn.{
  resolve_agent, place_of, read_history, memory_ns_of, runner_input, kind_of, give_up, answer_turn,
}
use moomacha.Base.{ℕ, String, ◌<>◌, Bool, ◌&&◌, none, some, List, [], ◌∷◌, if◌then◌else◌, count}
use moomacha.Base.Results.{ok, raised}
use moomacha.Base.Text.{show}
use moomacha.Jobs.{Job}
use moomacha.ToolAccess.{contains}
use moomacha.Agents.{ResolvedAgent}

type_name : Failure → String
type_name (budget_exceeded _) = "BudgetExceeded"
type_name timed_out = "TimeoutError"
type_name (failed name _) = name

text_of : Failure → String
text_of (budget_exceeded _) = ""
text_of timed_out = ""
text_of (failed _ message) = message

abbrev pub is_tripped : ResolvedAgent → Bool
is_tripped agent =
    tripwire_enabled agent.runtime_config && tripped agent.allowed_tools darkclaw_baseline_tools

module _ {Parsed Tools : Type 0} (deps : JobDeps Parsed Tools) where
  -- The runner's exceptions pass through, but for a timeout.
  unfoldable pub run_selected : Job → ResolvedAgent → ℕ → RunnerInput → Step ℕ
  run_selected job agent progress_id input w =
      let (r, w') = deps.run input (record w { trace = run agent.id ∷ w.trace }) in
      elim r [
        | ok text ↦ answer_turn deps job agent progress_id text w'
        | raised timed_out ↦
            give_up deps agent progress_id
              ("⏱\u{fe0f} This turn timed out after " <> (deps.turn_timeout_seconds <> "s."))
              "turn_timeout" ("timed out after " <> (deps.turn_timeout_seconds <> "s")) "timeout" w'
        | raised e ↦ (raised e, w')
      ]

  -- `router.select`, and the run.
  unfoldable pub select_and_run : Job → ResolvedAgent → ℕ → List HistoryMessage → String → Step ℕ
  select_and_run job agent progress_id history memory_ns =
      if contains (kind_of deps agent) deps.runner_kinds
      then run_selected job agent progress_id (runner_input deps job agent history memory_ns)
      else give_up deps agent progress_id
          "⚠\u{fe0f} I'm not configured with a valid runtime; an admin needs to fix this."
          "unknown_runtime_kind" ("runtime_kind=" <> kind_of deps agent) "failed"

  -- From the history on.
  unfoldable pub converse : Job → ResolvedAgent → ℕ → Step ℕ
  converse job agent progress_id = read_history deps job agent >>= λ history.
      memory_ns_of deps job agent >>= λ memory_ns.
      select_and_run job agent progress_id history memory_ns

  -- The `try` block.
  unfoldable pub turn_body : Job → ResolvedAgent → ℕ → Step ℕ
  turn_body job agent progress_id =
      perform deps (turn_start agent.id agent.runtime_kind agent.model_id)
      >> (if is_tripped agent
          then fire_tripwire deps (place_of deps job) agent progress_id
            >> perform deps (turn_end "tripwire" none agent.id)
          else converse job agent progress_id)

  -- The two `except` clauses.
  unfoldable pub report : ResolvedAgent → ℕ → Failure → Step ℕ
  unfolding type_name text_of
  report agent progress_id (budget_exceeded count) =
      give_up deps agent progress_id "⚠\u{fe0f} I hit the tool-call limit for this turn."
        "tool_budget_exceeded" ("calls=" <> show count) "failed"
  report agent progress_id e =
      give_up deps agent progress_id ("⚠\u{fe0f} I hit an error: " <> text_of e) (type_name e)
        (text_of e) "failed"

  unfoldable pub turn : Job → ResolvedAgent → ℕ → Step ℕ
  turn job agent progress_id =
      try_finally (try_except (turn_body job agent progress_id) (report agent progress_id))
        (perform deps close_llm)

  unfoldable pub process_job : Job → Step ℕ
  process_job job w = elim (resolve_agent deps job w) [
    | raised e ↦ (raised e, w)
    | ok none ↦ (ok 0, w)
    | ok (some agent) ↦
        (perform deps (say (place_of deps job) "🤔 Working on it…") >>= λ progress_id.
        perform deps open_llm >> turn job agent progress_id)
          w
  ]

  -- An exception of a job ends the task.
  pub worker_loop : List Job → Step ℕ
  worker_loop [] = return 0
  worker_loop (job ∷ queue) = process_job job >> worker_loop queue
