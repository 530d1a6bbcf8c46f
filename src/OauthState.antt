-- ===== src/OauthState.antt =====
-- src/auth/oauth-state.ts: the state of a sign-in that is under way, which is used once. The random
-- texts are arguments; expired rows are deleted by step 1 of sweepAll in src/sweeper/index.ts.
pub mod Once
use mcp_coordinator.Prelude.{
  ℕ, ◌+◌, ◌-◌, String, Bool, true, false, ◌&&◌, ◌||◌, Option, none, some, List, ◌==◌, any, ltb, leb,
  if◌then◌else◌,
}
use mcp_coordinator.Table.{find_row, update_where, insert_row}
use mcp_coordinator.Auth.Purge.{delete_limit, batch_size}

pub record OauthStateRow : Type 0 where
  pub state : String
  pub code_verifier : String
  pub redirect_uri : String
  pub provider : String
  pub created_at : ℕ
  pub expires_at : ℕ
  pub consumed_at : Option ℕ
  pub nonce : Option String

pub record ConsumedOauthState : Type 0 where
  pub code_verifier : String
  pub redirect_uri : String
  pub provider : String
  pub nonce : Option String

abbrev pub ttl_s : ℕ
ttl_s = 600

abbrev pub is_state : String → OauthStateRow → Bool
is_state state r = r.state == state

abbrev pub is_unconsumed : OauthStateRow → Bool
is_unconsumed r = elim r.consumed_at [ none ↦ true | some t ↦ false ]

abbrev pub new_state : ℕ → String → String → String → String → Option String → OauthStateRow
new_state now state verifier provider redirect nonce = record {
  state = state;
  code_verifier = verifier;
  redirect_uri = redirect;
  provider = provider;
  created_at = now;
  expires_at = now + ttl_s;
  consumed_at = none;
  nonce = nonce;
}

-- INSERT INTO oauth_state, where state is the primary key; none where it throws.
unfoldable pub create_oauth_state_with_verifier :
    ℕ
    → String
    → String
    → String
    → String
    → Option String
    → List OauthStateRow
    → Option (List OauthStateRow)
create_oauth_state_with_verifier now state provider redirect verifier nonce rows =
    if any (is_state state) rows
    then none
    else some (insert_row (new_state now state verifier provider redirect nonce) rows)

unfoldable pub create_oauth_state :
    ℕ → String → String → String → String → List OauthStateRow → Option (List OauthStateRow)
unfolding create_oauth_state_with_verifier
create_oauth_state now state verifier provider redirect rows =
    create_oauth_state_with_verifier now state provider redirect verifier none rows

-- WHERE state = ? AND consumed_at IS NULL AND expires_at > ?
abbrev pub is_usable : ℕ → String → OauthStateRow → Bool
is_usable now state r = is_state state r && is_unconsumed r && ltb now r.expires_at

abbrev pub returned : OauthStateRow → ConsumedOauthState
returned r = record {
  code_verifier = r.code_verifier;
  redirect_uri = r.redirect_uri;
  provider = r.provider;
  nonce = r.nonce;
}

abbrev pub consume_row : ℕ → OauthStateRow → OauthStateRow
consume_row now r = record r { consumed_at = some now }

-- UPDATE … RETURNING
unfoldable pub consume_oauth_state :
    ℕ → String → List OauthStateRow → Option ConsumedOauthState × List OauthStateRow
consume_oauth_state now state rows = (
  elim (find_row (is_usable now state) rows) [ none ↦ none | some r ↦ some (returned r) ],
  update_where (is_usable now state) (consume_row now) rows,
)

pub data OauthStateStatus : Type 0 where
  unknown : OauthStateStatus
  expired : OauthStateStatus
  consumed : OauthStateStatus

-- none where it throws: the row is live.
abbrev pub status_of : ℕ → Option OauthStateRow → Option OauthStateStatus
status_of now none = some unknown
status_of now (some r) =
    if is_unconsumed r then (if leb r.expires_at now then some expired else none) else some consumed

unfoldable pub inspect_oauth_state : ℕ → String → List OauthStateRow → Option OauthStateStatus
inspect_oauth_state now state rows = status_of now (find_row (is_state state) rows)

abbrev pub stale_buffer_s : ℕ
stale_buffer_s = 60

unfoldable pub purge_oauth_states : ℕ → List OauthStateRow → List OauthStateRow
unfolding delete_limit
purge_oauth_states now rows =
    delete_limit batch_size (λ r. ltb r.expires_at (now - stale_buffer_s)) rows
