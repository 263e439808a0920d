-- ===== src/Memory/Scopes/Wire.antt =====
-- agent_memory.py: the service takes namespaces and ids of letters, digits and hyphens only.
use moomacha.Memory.{
  session_id_for, wire_ns, write, remember, record_episode, search, set_working, get_working, Kind,
  semantic, episodic, Request, create_memory, search_memories, add_session_event, get_session,
  Service,
}
use moomacha.Memory.Names.{is_word, IsName, slug-IsName}
use moomacha.Memory.Scopes.{use_memory, uses, Use, remembers, records, searches, sets, gets}
use moomacha.Base.{
  ℕ, ◌≤◌, String, ◌≡◌, refl, subst, ◌≢◌, ◌⊎◌, true, false, Option, none, List, [], ◌∷◌, arith,
  str_eq, All, All-impl,
}
use moomacha.Base.Text.{codes}
use moomacha.Base.Results.{Result, ok, raised}
use moomacha.ToolAccess.{ToolContext}

-- The characters that the service takes, by their code points.
pub IsWireChar : ℕ → Type 0
IsWireChar c = ((48 ≤ c) × (c ≤ 57)) ⊎ ((65 ≤ c) × (c ≤ 90)) ⊎ ((97 ≤ c) × (c ≤ 122)) ⊎ (c ≡ 45)

abbrev pub IsWireName : String → Type 0
IsWireName s = All IsWireChar (codes s) × (s ≢ "")

-- The namespaces and the session of a request are such names.
abbrev pub IsSendable : Request → Type 0
IsSendable (create_memory m) = IsWireName m.namespace
IsSendable (search_memories query limit namespaces) = All IsWireName namespaces
IsSendable (add_session_event session_id text role) = IsWireName session_id
IsSendable (get_session session_id) = IsWireName session_id

is_word_wire : (c : ℕ) → is_word c ≡ true → IsWireChar c
unfolding IsWireChar
is_word_wire c h = ground arith

sendable_of_name : (s : String) → IsName s × (str_eq s "" ≡ false) → IsWireName s
sendable_of_name s (fine, filled) = (
  All-impl (λ c. is_word c ≡ true) IsWireChar (codes s) is_word_wire fine,
  λ empty. absurd (cc (subst (λ t. str_eq t "" ≡ false) empty filled)),
)

wire_ns-IsWireName : (ns : String) → IsWireName (wire_ns ns)
unfolding wire_ns
wire_ns-IsWireName ns = sendable_of_name _ (slug-IsName "ns" ns (refl, (refl, tt)) refl)

session_id_for-IsWireName : (room thread : String) → IsWireName (session_id_for room thread)
unfolding session_id_for
session_id_for-IsWireName room thread =
    sendable_of_name _
      (slug-IsName "unknown" _ (refl, (refl, (refl, (refl, (refl, (refl, (refl, tt))))))) refl)

module _ (show_uuid : ℕ → String) (service : Service) where
  write-IsSendable :
      (kind : Kind) (date : Option String) (otherwise : String) (r : Result String String)
      (text : String) (sent : List Request)
      → All IsSendable sent
      → All IsSendable (write show_uuid service kind date otherwise r text sent).1
  unfolding write
  write-IsSendable kind date otherwise (raised err) text sent fine = fine
  write-IsSendable kind date otherwise (ok ns) text sent fine = (wire_ns-IsWireName ns, fine)

  use-IsSendable :
      (ctx : ToolContext) (u : Use) (sent : List Request)
      → All IsSendable sent
      → All IsSendable (use_memory show_uuid service ctx u sent).1
  unfolding use_memory remember record_episode search set_working get_working
  use-IsSendable ctx (remembers text scope) sent fine =
      write-IsSendable semantic none "Stored." _ text sent fine
  use-IsSendable ctx (records text date scope) sent fine =
      write-IsSendable episodic _ "Recorded." _ text sent fine
  use-IsSendable ctx (searches query limit) sent fine =
      ((wire_ns-IsWireName _, (wire_ns-IsWireName _, tt)), fine)
  use-IsSendable ctx (sets text) sent fine = (session_id_for-IsWireName ctx.channel ctx.topic, fine)
  use-IsSendable ctx gets sent fine = (session_id_for-IsWireName ctx.channel ctx.topic, fine)

  -- Any uses of the memory tools, with any scopes and any names of channels and topics, send
  -- namespaces and session ids only that are not empty and have ASCII letters, digits and hyphens,
  -- if the requests before did.
  pub uses-IsSendable :
      (ctx : ToolContext) (us : List Use) (sent : List Request)
      → All IsSendable sent
      → All IsSendable (uses show_uuid service ctx us sent)
  unfolding uses
  uses-IsSendable ctx [] sent fine = fine
  uses-IsSendable ctx (u ∷ us) sent fine =
      uses-IsSendable ctx us (use_memory show_uuid service ctx u sent).1
        (use-IsSendable ctx u sent fine)
