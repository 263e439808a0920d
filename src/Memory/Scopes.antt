-- ===== src/Memory/Scopes.antt =====
-- agent_memory.py: which namespaces an agent writes to, which memories it reads, and the names sent.
pub mod Wire
use moomacha.Memory.{
  Answer, wire_ns, topic_ns, self_ns, resolve_scope, is_librarian_tier, gated, gate_write, write,
  remember, record_episode, search, set_working, get_working, Kind, semantic, episodic, Request,
  create_memory, Service, Tier, channel, workspace,
}
use moomacha.Base.{
  ℕ, String, ◌≡◌, refl, ap, ◌⊎◌, inl, inr, true, false, not, ◌&&◌, Option, none, some, List, [],
  ◌∷◌, arith, str_eq, if_ind, All,
}
use moomacha.Base.Results.{Result, ok, raised}
use moomacha.ToolAccess.{ToolContext}

-- A use of the memory tools.
pub data Use : Type 0 where
  remembers : (text scope : String) → Use
  records : (text : String) → Option String → (scope : String) → Use
  searches : (query : String) → (limit : ℕ) → Use
  sets : String → Use
  gets : Use

module _ (show_uuid : ℕ → String) (service : Service) where
  -- A memory of the agent itself or of its topic.
  abbrev pub IsOwn : ToolContext → Request → Type 0
  IsOwn ctx (create_memory m) =
      (m.namespace ≡ wire_ns (self_ns show_uuid ctx))
      ⊎ (m.namespace ≡ wire_ns (topic_ns ctx.channel ctx.topic))
  IsOwn ctx _ = Unit

  -- What a refused scope, or one that is let through, may name.
  abbrev Gated : ToolContext → Result String String → Type 0
  Gated ctx (raised err) = Unit
  Gated ctx (ok ns) = (ns ≡ self_ns show_uuid ctx) ⊎ (ns ≡ topic_ns ctx.channel ctx.topic)

  refused :
      (scope : String) (ctx : ToolContext) (ns : String) (tier : Tier)
      → ctx.agent.is_librarian ≡ false
      → is_librarian_tier tier ≡ true
      → Gated ctx (gated scope ctx (some (ns, tier)))
  unfolding gated
  refused scope ctx ns tier plain high =
      if_ind (Gated ctx) (is_librarian_tier tier && not ctx.agent.is_librarian) (λ stopped. tt)
        (λ through. absurd (ground (arith, plain, high, through)))

  gate_write-Gated :
      (scope : String) (ctx : ToolContext)
      → ctx.agent.is_librarian ≡ false
      → Gated ctx (gate_write show_uuid scope ctx)
  unfolding gate_write resolve_scope gated
  gate_write-Gated scope ctx plain =
      if_ind (λ (x : Option (String × Tier)). Gated ctx (gated scope ctx x)) (str_eq scope "self")
        (λ is. inl refl)
        (λ isnt.
          if_ind (λ (x : Option (String × Tier)). Gated ctx (gated scope ctx x))
            (str_eq scope "topic") (λ is. inr refl)
            (λ isnt.
              if_ind (λ (x : Option (String × Tier)). Gated ctx (gated scope ctx x))
                (str_eq scope "channel") (λ is. refused scope ctx _ channel plain refl)
                (λ isnt.
                  if_ind (λ (x : Option (String × Tier)). Gated ctx (gated scope ctx x))
                    (str_eq scope "workspace") (λ is. refused scope ctx _ workspace plain refl)
                    (λ isnt. tt))))

  write-Own :
      (kind : Kind) (date : Option String) (otherwise : String) (r : Result String String)
      (text : String) (ctx : ToolContext) (sent : List Request)
      → Gated ctx r
      → All (IsOwn ctx) sent
      → All (IsOwn ctx) (write show_uuid service kind date otherwise r text sent).1
  unfolding write
  write-Own kind date otherwise (raised err) text ctx sent fine own = own
  write-Own kind date otherwise (ok ns) text ctx sent (inl e) own = (inl (ap wire_ns e), own)
  write-Own kind date otherwise (ok ns) text ctx sent (inr e) own = (inr (ap wire_ns e), own)

  pub use_memory : ToolContext → Use → List Request → Answer
  use_memory ctx (remembers text scope) sent = remember show_uuid service text scope ctx sent
  use_memory ctx (records text date scope) sent =
      record_episode show_uuid service text date scope ctx sent
  use_memory ctx (searches query limit) sent = search show_uuid service query limit ctx sent
  use_memory ctx (sets text) sent = set_working show_uuid service text ctx sent
  use_memory ctx gets sent = get_working show_uuid service ctx sent

  pub uses : ToolContext → List Use → List Request → List Request
  uses ctx [] sent = sent
  uses ctx (u ∷ rest) sent = uses ctx rest (use_memory ctx u sent).1

  use-Own :
      (ctx : ToolContext) (u : Use) (sent : List Request)
      → ctx.agent.is_librarian ≡ false
      → All (IsOwn ctx) sent
      → All (IsOwn ctx) (use_memory ctx u sent).1
  unfolding use_memory remember record_episode search set_working get_working
  use-Own ctx (remembers text scope) sent plain own =
      write-Own semantic none "Stored." _ text ctx sent (gate_write-Gated scope ctx plain) own
  use-Own ctx (records text date scope) sent plain own =
      write-Own episodic _ "Recorded." _ text ctx sent (gate_write-Gated scope ctx plain) own
  use-Own ctx (searches query limit) sent plain own = (tt, own)
  use-Own ctx (sets text) sent plain own = (tt, own)
  use-Own ctx gets sent plain own = (tt, own)

  -- Any uses of the memory tools, with any scopes, by an agent that is no librarian ask the service
  -- to create memories in the agent's own namespace and its topic's only, if the requests before
  -- did.
  pub uses-Own :
      (ctx : ToolContext) (us : List Use) (sent : List Request)
      → ctx.agent.is_librarian ≡ false
      → All (IsOwn ctx) sent
      → All (IsOwn ctx) (uses ctx us sent)
  unfolding uses
  uses-Own ctx [] sent plain own = own
  uses-Own ctx (u ∷ us) sent plain own =
      uses-Own ctx us (use_memory ctx u sent).1 plain (use-Own ctx u sent plain own)
