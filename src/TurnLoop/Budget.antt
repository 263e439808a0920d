-- ===== src/TurnLoop/Budget.antt =====
-- The budget of runtime/loop.py, and the end of a turn.
use moomacha.Base.{
  ℕ, zero, suc, ◌+◌, ◌≤◌, ◌<◌, String, ◌≡◌, refl, subst, inl, inr, Option, none, some, List, [],
  ◌∷◌, ◌++◌, arith, ltb, Bool-cases, length,
}
use moomacha.Base.Results.{Result, ok, raised}
use moomacha.TurnLoop.{
  execute_call, run_calls, after_calls, answered, after_create, rounds, run_turn, ToolCall,
  Completion, Message, tool_result, TurnError, budget_exceeded, no_text, llm_failed, LoopDeps,
}

-- `P made w`: what is known of the world after `made` executions. The model keeps it, and an
-- execution within the budget takes it one further.
module _ {World : Type 0} (deps : LoopDeps World) (P : ℕ → World → Type 0)
    (by_model : (made : ℕ) (messages : List Message) (w : World)
      → P made w
      → P made (deps.create messages w).1)
    (by_tool : (made : ℕ) (tc : ToolCall) (w : World)
      → made < deps.max_tool_calls
      → P made w
      → P (suc made) (execute_call deps tc w).1) where
  -- The calls of one round: all made within the budget, or the budget used up.
  abbrev RunsTo : ℕ → ℕ → Result TurnError (ℕ × List Message) × World → Type 0
  RunsTo made n (ok (made', messages), w) =
      (made' ≡ made + n) × (made' ≤ deps.max_tool_calls) × P made' w
  RunsTo made n (raised e, w) =
      (e ≡ budget_exceeded (suc deps.max_tool_calls)) × P deps.max_tool_calls w

  RunsTo-suc :
      (made n : ℕ) (r : Result TurnError (ℕ × List Message) × World)
      → RunsTo (suc made) n r
      → RunsTo made (suc n) r
  RunsTo-suc made n (ok (made', messages), w) h = (omega arith, h.1, h.2)
  RunsTo-suc made n (raised e, w) h = h

  run_calls-RunsTo :
      (made : ℕ) (messages : List Message) (calls : List ToolCall) (w : World)
      → made ≤ deps.max_tool_calls
      → P made w
      → RunsTo made (length calls) (run_calls deps made messages calls w)
  unfolding run_calls
  run_calls-RunsTo made messages [] w h p = (omega arith, h, p)
  run_calls-RunsTo made messages (tc ∷ rest) w h p =
      elim (Bool-cases (ltb deps.max_tool_calls (suc made))) [
        | inl over ↦
            let last : made ≡ deps.max_tool_calls = ground arith in
            rw over (cc last, subst (λ m. P m w) last p)
        | inr fits ↦ rw fits (
            RunsTo-suc made (length rest) _ (
              run_calls-RunsTo (suc made)
                (messages ++ (tool_result tc.id (execute_call deps tc w).0.content ∷ [])) rest
                (execute_call deps tc w).1 (ground arith) (by_tool made tc w (ground arith) p)))
      ]

  -- How a turn ends: a budget error names the first call over the budget.
  abbrev pub EndsWithin : Result TurnError String × World → Type 0
  EndsWithin (r, w) =
      ((made : ℕ) × (made ≤ deps.max_tool_calls) × P made w)
      × ((n : ℕ) → r ≡ raised (budget_exceeded n) → n ≡ suc deps.max_tool_calls)

  abbrev Ends : Option (Result TurnError String × World) → Type 0
  Ends o = (r : Result TurnError String × World) × (o ≡ some r) × EndsWithin r

  module _ (next : ℕ → List Message → World → Option (Result TurnError String × World)) (made : ℕ)
      (within : made ≤ deps.max_tool_calls)
      (ends : (made' : ℕ) (messages : List Message) (w : World)
        → made < made'
        → made' ≤ deps.max_tool_calls
        → P made' w
        → Ends (next made' messages w)) where
    after_calls-Ends :
        (n : ℕ) (r : Result TurnError (ℕ × List Message) × World)
        → RunsTo made (suc n) r
        → Ends (after_calls deps next r)
    unfolding after_calls
    after_calls-Ends n (ok (made', messages), w) h = ends made' messages w (omega arith) h.1 h.2
    after_calls-Ends n (raised e, w) h = (
      (raised e, w),
      refl,
      ((deps.max_tool_calls, omega arith, h.1), λ m same. ground (arith, h.0)),
    )

    answered-Ends :
        (messages : List Message) (content : Option String) (calls : List ToolCall) (w : World)
        → P made w
        → Ends (answered deps next made messages content calls w)
    unfolding answered
    answered-Ends messages none [] w p =
        ((raised no_text, w), refl, ((made, within, p), λ m same. cc))
    answered-Ends messages (some text) [] w p =
        ((ok text, w), refl, ((made, within, p), λ m same. cc))
    answered-Ends messages content (tc ∷ rest) w p =
        after_calls-Ends (length rest) _ (run_calls-RunsTo made _ (tc ∷ rest) w within p)

    after_create-Ends :
        (messages : List Message) (answer : Result String Completion × World)
        → P made answer.1
        → Ends (after_create deps next made messages answer)
    unfolding after_create
    after_create-Ends messages (raised e, w) p =
        ((raised (llm_failed e), w), refl, ((made, within, p), λ m same. cc))
    after_create-Ends messages (ok c, w) p = answered-Ends messages c.content c.tool_calls w p

  rounds-Ends :
      (fuel made : ℕ) (messages : List Message) (w : World)
      → made ≤ deps.max_tool_calls
      → deps.max_tool_calls < made + fuel
      → P made w
      → Ends (rounds deps fuel made messages w)
  unfolding rounds
  rounds-Ends zero made messages w h enough p = absurd (omega arith)
  rounds-Ends (suc fuel) made messages w h enough p =
      after_create-Ends (rounds deps fuel) made h
        (λ made' messages' w' more within p'.
          rounds-Ends fuel made' messages' w' within (omega arith) p')
        messages (deps.create messages w) (by_model made messages w p)

  -- Every turn ends, after at most `max_tool_calls` executions of tools.
  pub run_turn-Ends :
      (messages : List Message) (w : World)
      → P 0 w
      → (r : Result TurnError String × World) × (run_turn deps messages w ≡ some r) × EndsWithin r
  unfolding run_turn
  run_turn-Ends messages w p =
      rounds-Ends (suc deps.max_tool_calls) 0 messages w (omega arith) (omega arith) p

-- An error for the budget names the first call over it.
pub NamesLimit : ℕ → Result TurnError String → Type 0
NamesLimit limit (raised (budget_exceeded n)) = n ≡ suc limit
NamesLimit limit _ = Unit

budget_exceeded-NamesLimit :
    (limit : ℕ) (r : Result TurnError String)
    → ((n : ℕ) → r ≡ raised (budget_exceeded n) → n ≡ suc limit)
    → NamesLimit limit r
unfolding NamesLimit
budget_exceeded-NamesLimit limit (raised (budget_exceeded n)) h = h n refl
budget_exceeded-NamesLimit limit _ h = tt

-- Every turn ends; any count of executions that only tool calls raise, by at most one each, grows
-- by at most max_tool_calls; a budget error names the call after those.
pub run_turn-budget :
    {World : Type 0} (deps : LoopDeps World) (executions : World → ℕ)
    → ((messages : List Message) (w : World) → executions (deps.create messages w).1 ≡ executions w)
    → ((tc : ToolCall) (w : World) → executions (execute_call deps tc w).1 ≤ suc (executions w))
    → (messages : List Message) (w : World)
    → (r : Result TurnError String) × (w' : World) × (run_turn deps messages w ≡ some (r, w'))
      × (executions w' ≤ executions w + deps.max_tool_calls)
      × NamesLimit deps.max_tool_calls r
run_turn-budget deps executions quiet counted messages w =
    let ((r, w'), ran, ((made, within, spent), named)) =
      run_turn-Ends deps (λ made u. executions u ≤ executions w + made)
        (λ made ms u h. rw (quiet ms u) h) (λ made tc u _ h. omega (arith, counted tc u)) messages w
        (omega arith) in
    (r, w', ran, omega arith, budget_exceeded-NamesLimit deps.max_tool_calls r named)
