-- ===== src/Tests/Memory.antt =====
-- The memory tools in the turn of the submissions' tests, and names that fall together.
use moomacha.Memory.{session_id_for, wire_ns, channel_ns, listed, search, Item, Service}
use moomacha.Memory.Names.{squash, drop_first, drop_last, slug}
use moomacha.Memory.Scopes.{IsOwn, uses, uses-Own, remembers, searches, sets}
use moomacha.Memory.Scopes.Wire.{IsSendable, uses-IsSendable}
use moomacha.Memory.Searching.{IsReadable, search_lem}
use moomacha.Base.{ℕ, ◌≤◌, String, ◌≡◌, refl, ◌⊎◌, true, some, List, [], ◌∷◌, length, All, In}
use moomacha.Base.Results.{ok}
use moomacha.Tests.Submissions.{context}

abbrev show_uuid : ℕ → String
show_uuid id = "1"

abbrev service : Service
service = record {
  reply = λ sent request. ok "stored";
  items = λ sent query limit namespaces. ok [];
}

uses-Own_example : All (IsOwn show_uuid service context) (
    uses show_uuid service context
      (remembers "fact" "topic" ∷ remembers "secret" "workspace" ∷ searches "fact" 5 ∷ [])
      [])
uses-Own_example =
    uses-Own show_uuid service context
      (remembers "fact" "topic" ∷ remembers "secret" "workspace" ∷ searches "fact" 5 ∷ []) [] refl
      tt

abbrev items : List Item
items =
    record { text = some "mine"; namespace = some "agent-1" }
    ∷ record { text = some "theirs"; namespace = some "agent-2" }
    ∷ []

abbrev finding : Service
finding = record service { items = λ sent query limit namespaces. ok items }

search_lem_example :
    (shown : List Item) × ((search show_uuid finding "fact" 1 context []).0
      ≡ ok (record { success = true; content = listed show_uuid finding shown }))
    × (length shown ≤ 1)
    × All (λ i. In i items × IsReadable show_uuid finding context i) shown
    × ((length shown ≡ 1) ⊎ All (λ i. IsReadable show_uuid finding context i → In i shown) items)
search_lem_example = search_lem show_uuid finding "fact" 1 context [] items refl

uses-IsSendable_example : All (IsSendable) (
    uses show_uuid service context
      (remembers "fact" "topic" ∷ sets "note" ∷ searches "fact" 5 ∷ [])
      [])
uses-IsSendable_example =
    uses-IsSendable show_uuid service context
      (remembers "fact" "topic" ∷ sets "note" ∷ searches "fact" 5 ∷ []) [] tt

wire_ns_test : wire_ns "topic:lab/Project X" ≡ "topic-lab-Project-X"
unfolding wire_ns slug drop_last drop_first squash
wire_ns_test = refl

-- Two topics with one session, and two channels with one namespace.
session_id_for_test : session_id_for "a-b" "c" ≡ session_id_for "a" "b-c"
unfolding session_id_for slug drop_last drop_first squash
session_id_for_test = refl

channel_ns_test : wire_ns (channel_ns "lab") ≡ wire_ns (channel_ns "lab!")
unfolding wire_ns slug drop_last drop_first squash
channel_ns_test = refl
