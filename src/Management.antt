-- ===== src/Management.antt =====
-- control-plane/src/control_plane/tools/management/context.py and confirm.py: what the bastion's tools
-- share. `lower` is `str.lower`, `has_confirm_word` the search for the word `confirm`, `provision` the
-- administration client, and `upload_avatar` the fetch and the upload of an image.
pub mod Tools
pub mod Consent
pub mod Survival
pub mod Unconfirmed
pub mod Privileges
use moomacha.Base.{ℕ, String, ◌<>◌, Bool, not, ◌&&◌, Option, List, [], ◌∷◌, map, str_eq, filter}
use moomacha.Base.Text.{join, has_text}
use moomacha.Base.Results.{Result, ok, raised}
use moomacha.Agents.{Agents, AgentRead, ResolvedAgent}
use moomacha.Pool.{SecretBox}
use moomacha.Agents

pub record Provisioned : Type 0 where
  pub bot_id : ℕ
  pub bot_email : String
  pub api_key : String
  pub outgoing_token : Option String

pub record ManagementContext (E : Type 0) : Type 0 where
  pub provision :
      (full_name short_name payload_url : String)
      → (channels : List String) → Result String Provisioned
  pub upload_avatar : ResolvedAgent → (image_url : String) → Result String String
  pub show_error : E → String
  pub box : SecretBox E
  pub payload_url : String
  pub default_model : String
  pub invoking_message_text : String
  pub lower : String → String
  pub has_confirm_word : String → Bool
  pub has_events : Bool

module _ {E : Type 0} (ctx : ManagementContext E) where
  confirmation_of : String → Bool
  confirmation_of target_name =
      ctx.has_confirm_word ctx.invoking_message_text
      && has_text (ctx.lower target_name) (ctx.lower ctx.invoking_message_text)

  unfoldable pub confirmation_satisfied : String → Bool
  unfolding confirmation_of
  confirmation_satisfied target_name =
      not (str_eq ctx.invoking_message_text "")
      && not (str_eq target_name "")
      && confirmation_of target_name

  -- The agent of the partial matches, if there is one.
  pub no_single : String → List AgentRead → Result String AgentRead
  no_single name [] = raised ("No agent named '" <> (name <> "'."))
  no_single name (a ∷ []) = ok a
  no_single name (a ∷ b ∷ rest) = raised (
      join "" (
        "Multiple agents match '"
        ∷ name
        ∷ "': "
        ∷ join ", " (map (λ r. r.name) (a ∷ b ∷ rest))
        ∷ ". Be more specific."
        ∷ []))

  -- The exact match, if there is one.
  pub exact_or_partial : String → List AgentRead → List AgentRead → Result String AgentRead
  exact_or_partial name (a ∷ []) partial = ok a
  exact_or_partial name [] partial = no_single name partial
  exact_or_partial name (a ∷ b ∷ rest) partial = no_single name partial

  pub resolve_one : String → Agents → Result String AgentRead
  resolve_one name rows =
      exact_or_partial name
        (filter (λ a. str_eq (ctx.lower a.name) (ctx.lower name)) (Agents.list rows))
        (filter (λ a. has_text (ctx.lower name) (ctx.lower a.name)) (Agents.list rows))
