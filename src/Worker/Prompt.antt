-- ===== src/Worker/Prompt.antt =====
-- control-plane/src/control_plane/services/context_assembly.py: the system prompt of a turn.
-- `content[:KEEP_CHARS]` of a content over the limit.
use moomacha.Worker.{HistoryMessage}
use moomacha.Base.{String, ◌<>◌, List, [], ◌∷◌, map, str_eq, leb, if◌then◌else◌, or_else}
use moomacha.Base.Text.{slice_to, show, join, chars}

pub truncate : String → String
truncate content =
    if leb (chars content) 1000
    then content
    else slice_to 200 content <> ("…[truncated, " <> (show (chars content) <> " chars]"))

line_of : HistoryMessage → String
line_of m = or_else m.sender_full_name "unknown" <> (": " <> truncate (or_else m.content ""))

pub history_of : List HistoryMessage → String
unfolding line_of
history_of [] = "(no recent messages)"
history_of (m ∷ messages) = join "\n" (map line_of (m ∷ messages))

tools_section : List (String × String) → String
tools_section [] = ""
tools_section (t ∷ tools) =
    "## Your tools\n"
    <> (join "\n" (map (λ d. "- " <> (d.0 <> (" — " <> d.1))) (t ∷ tools)) <> "\n\n")

pub build_context_prompt :
    String → List HistoryMessage → String → String → List (String × String) → String
unfolding history_of tools_section
build_context_prompt persona messages channel topic tools =
    let location =
      if str_eq channel "direct"
      then "direct message conversation"
      else "#" <> (channel <> (" > " <> topic)) in
    join "" (
      persona
      ∷ "\n\n"
      ∷ tools_section tools
      ∷ "## Recent conversation in "
      ∷ location
      ∷ "\n"
      ∷ history_of messages
      ∷ "\n\n## Your task\nReply to the most recent message addressed to you. Be concise and helpful."
      ∷ [])
