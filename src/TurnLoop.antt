-- ===== src/TurnLoop.antt =====
-- control-plane/src/control_plane/runtime/loop.py: the loop between the model and the tools. The
-- model is a parameter that reads the messages and may change the world (its `llm_call` event
-- too); `run_tool` is `ToolRuntime.execute` at the turn's context.
pub mod Budget
use moomacha.Base.{
  ℕ, zero, suc, String, Bool, Option, none, some, List, [], ◌∷◌, ◌++◌, ltb, if◌then◌else◌,
}
use moomacha.Base.Results.{Result, ok, raised}
use moomacha.ToolAccess.{ToolResult}

pub record ToolCall : Type 0 where
  pub id : String
  pub name : String
  pub arguments : String

pub record Completion : Type 0 where
  pub content : Option String
  pub tool_calls : List ToolCall

pub data Message : Type 0 where
  given : String → String → Message
  assistant : Option String → List ToolCall → Message
  tool_result : String → String → Message

pub data TurnError : Type 0 where
  budget_exceeded : ℕ → TurnError
  no_text : TurnError
  llm_failed : String → TurnError

pub record LoopDeps (World : Type 0) : Type 0 where
  pub create : List Message → World → Result String Completion × World
  pub run_tool : String → String → World → ToolResult × World
  pub max_tool_calls : ℕ
  pub on_tool_call : Option (String → Bool → World → World)

module _ {World : Type 0} (deps : LoopDeps World) where
  notify : Option (String → Bool → World → World) → String → Bool → World → World
  notify none name success w = w
  notify (some call) name success w = call name success w

  -- One execution, with the callback.
  unfoldable pub execute_call : ToolCall → World → ToolResult × World
  unfolding notify
  execute_call tc w =
      let (result, w1) = deps.run_tool tc.name tc.arguments w in
      (result, notify deps.on_tool_call tc.name result.success w1)

  -- The `for tc in tool_calls` loop, with the counter and the messages.
  unfoldable pub run_calls :
      ℕ → List Message → List ToolCall → World → Result TurnError (ℕ × List Message) × World
  run_calls made messages [] w = (ok (made, messages), w)
  run_calls made messages (tc ∷ rest) w =
      let made' = suc made in
      let (result, w') = execute_call tc w in
      let after = run_calls made' (messages ++ (tool_result tc.id result.content ∷ [])) rest w' in
      if ltb deps.max_tool_calls made' then (raised (budget_exceeded made'), w) else after

  finish : Option String → Result TurnError String
  finish none = raised no_text
  finish (some text) = ok text

  -- What follows the tool calls of a round: an exception, or the next round.
  after_calls :
      (ℕ → List Message → World → Option (Result TurnError String × World))
      → Result TurnError (ℕ × List Message) × World
      → Option (Result TurnError String × World)
  after_calls next (raised e, w) = some (raised e, w)
  after_calls next (ok (made, messages), w) = next made messages w

  -- An answer with no tool calls ends the turn.
  answered :
      (ℕ → List Message → World → Option (Result TurnError String × World))
      → ℕ
      → List Message
      → Option String
      → List ToolCall
      → World
      → Option (Result TurnError String × World)
  unfolding finish after_calls
  answered next made messages content [] w = some (finish content, w)
  answered next made messages content (tc ∷ rest) w =
      after_calls next
        (run_calls made (messages ++ (assistant content (tc ∷ rest) ∷ [])) (tc ∷ rest) w)

  after_create :
      (ℕ → List Message → World → Option (Result TurnError String × World))
      → ℕ
      → List Message
      → Result String Completion × World
      → Option (Result TurnError String × World)
  unfolding answered
  after_create next made messages (raised e, w) = some (raised (llm_failed e), w)
  after_create next made messages (ok c, w) = answered next made messages c.content c.tool_calls w

  -- `while True`, with fuel; `none` means that the fuel ran out.
  pub rounds : ℕ → ℕ → List Message → World → Option (Result TurnError String × World)
  unfolding after_create
  rounds zero made messages w = none
  rounds (suc fuel) made messages w =
      after_create (rounds fuel) made messages (deps.create messages w)

  -- Each round with tools makes a call, so one round more than the budget is enough.
  unfoldable pub run_turn : List Message → World → Option (Result TurnError String × World)
  unfolding rounds
  run_turn messages w = rounds (suc deps.max_tool_calls) 0 messages w
