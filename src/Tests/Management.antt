-- ===== src/Tests/Management.antt =====
-- The bastion's tools on a registry with one agent, whose name the message does not confirm.
use moomacha.Management.{confirmation_satisfied, ManagementContext}
use moomacha.Management.Tools.{call, calls, enable_agent, disable_agent, delete_agent, Office}
use moomacha.Management.Consent.{Kept}
use moomacha.Management.Unconfirmed.{unconfirmed_stays}
use moomacha.Management.Privileges.{is_privileged, calls-privileged-le}
use moomacha.Base.{◌≤◌, String, ◌≡◌, refl, true, false, [], ◌∷◌, count, get, NodupKeys}
use moomacha.Base.Text.{behind, has_text}
use moomacha.Base.Results.{ok, raised}
use moomacha.Agents.{agent_id}
use moomacha.Tests.Fixtures.{plain_box}
use moomacha.Tests.Worker.{darkclaw}

abbrev context : ManagementContext String
context = record {
  provision = λ name short url channels. raised "no bots";
  upload_avatar = λ agent url. ok url;
  show_error = λ e. e;
  box = plain_box;
  payload_url = "https://example.com";
  default_model = "small";
  invoking_message_text = "please confirm eve";
  lower = λ s. s;
  has_confirm_word = λ s. true;
  has_events = true;
}

abbrev office : Office
office = record { agents = darkclaw ∷ []; events = [] }

there : Kept context 1 "DarkClaw" office.agents
unfolding get
there = (darkclaw, refl, refl, refl)

one_row : NodupKeys agent_id office.agents
unfolding get
one_row = (refl, tt)

not_confirmed : confirmation_satisfied context "DarkClaw" ≡ false
unfolding confirmation_satisfied has_text behind
not_confirmed = refl

unconfirmed_stays_example :
    Kept context 1 "DarkClaw" (call context (delete_agent "Dark") office).1.agents
unconfirmed_stays_example =
    unconfirmed_stays context 1 "DarkClaw" office there (delete_agent "Dark") one_row not_confirmed

calls-privileged-le_example :
    count
      (is_privileged 1)
      (calls context (disable_agent "DarkClaw" ∷ enable_agent "Dark" ∷ []) office).agents
    ≤ 0
calls-privileged-le_example =
    calls-privileged-le context 1 (disable_agent "DarkClaw" ∷ enable_agent "Dark" ∷ []) office
