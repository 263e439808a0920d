-- ===== src/Pool.antt =====
-- control-plane/src/control_plane/services/pool_store.py. Each method is a function on the table
-- of pool bots; `now` is what `_now()` reads. SQL ties under ORDER BY keep the table's order.
pub mod Laws
use moomacha.Base.{
  ℕ, suc, String, Bool, false, Option, none, some, List, [], ◌∷◌, str_eq, ◌==◌, if◌then◌else◌,
  filter, count, get, update, first_by,
}
use moomacha.Base.Results.{◌>>=◌, Result, ok}
use moomacha.Rows.{status_eq, free, leased, PoolBotRow}

abbrev pub Bots : Type 0
Bots = List PoolBotRow

abbrev pub bot_id : PoolBotRow → ℕ
bot_id r = r.id

abbrev pub is_free : PoolBotRow → Bool
is_free r = status_eq r.status free

abbrev pub is_leased : PoolBotRow → Bool
is_leased r = status_eq r.status leased

-- What `crypto.SecretBox` promises: Fernet may reject a token.
pub record SecretBox (E : Type 0) : Type 0 where
  pub encrypt : String → String
  pub decrypt : String → Result E String

pub record PoolBotCreds : Type 0 where
  pub bot_email : String
  pub api_key : String
  pub outgoing_token : String

-- `uuid` is the default of the primary key column.
pub seed : {E : Type 0} → SecretBox E → ℕ → ℕ → ℕ → String → String → String → Bots → Bots
seed box uuid now zulip_bot_id email api_key outgoing_token bots =
    record {
      id = uuid;
      zulip_bot_id = zulip_bot_id;
      zulip_bot_email = email;
      zulip_api_key_encrypted = box.encrypt api_key;
      zulip_outgoing_token_encrypted = box.encrypt outgoing_token;
      status = free;
      current_name = none;
      current_session_id = none;
      last_active_at = now;
    }
    ∷ bots

abbrev pub as_leased : ℕ → String → ℕ → PoolBotRow → PoolBotRow
as_leased session_id display_name now row = record row {
  status = leased;
  current_name = some display_name;
  current_session_id = some session_id;
  last_active_at = now;
}

abbrev pub as_free : ℕ → PoolBotRow → PoolBotRow
as_free now row = record row {
  status = free;
  current_name = none;
  current_session_id = none;
  last_active_at = now;
}

-- The free bot that has been idle for longest.
unfoldable pub next_free : Bots → Option PoolBotRow
next_free bots = first_by (λ r. r.last_active_at) (filter is_free bots)

unfoldable pub lease : ℕ → String → ℕ → Bots → Option PoolBotRow × Bots
lease session_id display_name now bots = elim (next_free bots) [
  | none ↦ (none, bots)
  | some row ↦ (
    some (as_leased session_id display_name now row),
    update bot_id row.id (as_leased session_id display_name now) bots,
  )
]

-- A missing row is left alone: there is nothing to update.
unfoldable pub release : ℕ → ℕ → Bots → Bots
release pool_bot_id now bots = update bot_id pool_bot_id (as_free now) bots

unfoldable pub find : ℕ → Bots → Option PoolBotRow
find pool_bot_id bots = get bot_id pool_bot_id bots

pub count_free : Bots → ℕ
count_free bots = count is_free bots

unfoldable pub find_leased : Bots → Bots
find_leased bots = filter is_leased bots

abbrev pub serves : ℕ → PoolBotRow → Bool
serves session_id row = elim row.current_session_id [ none ↦ false | some k ↦ k == session_id ]

-- `clock j` is what `_now()` reads at the j-th row of the table.
unfoldable pub release_for_session : ℕ → (ℕ → ℕ) → Bots → Bots
release_for_session session_id clock [] = []
release_for_session session_id clock (row ∷ bots) =
    (if serves session_id row then as_free (clock 0) row else row)
    ∷ release_for_session session_id (λ j. clock (suc j)) bots

-- The column is unique, so at most one row fits.
unfoldable pub find_by_email : String → Bots → Option PoolBotRow
find_by_email email [] = none
find_by_email email (row ∷ bots) =
    if str_eq row.zulip_bot_email email then some row else find_by_email email bots

pub decrypt_creds : {E : Type 0} → SecretBox E → PoolBotRow → Result E PoolBotCreds
decrypt_creds box row = do
  api_key ← box.decrypt row.zulip_api_key_encrypted
  outgoing_token ← box.decrypt row.zulip_outgoing_token_encrypted
  ok (record {
    bot_email = row.zulip_bot_email;
    api_key = api_key;
    outgoing_token = outgoing_token;
  })

unfoldable pub resolve_creds :
    {E : Type 0} → SecretBox E → ℕ → Bots → Result E (Option PoolBotCreds)
unfolding decrypt_creds find
resolve_creds box pool_bot_id bots = elim (find pool_bot_id bots) [
  | none ↦ ok none
  | some row ↦ decrypt_creds box row >>= λ creds. ok (some creds)
]
