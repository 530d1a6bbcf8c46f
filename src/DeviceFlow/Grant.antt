-- ===== src/DeviceFlow/Grant.antt =====
-- handleDeviceCodeGrant of src/auth/oauth-token.ts: the poll, and what follows an approval.
use mcp_coordinator.Prelude.{String, not, Option, none, some, or_null, select}
use mcp_coordinator.Table.{find_row}
use mcp_coordinator.Auth.State.{AuthDb, Context, User}
use mcp_coordinator.Auth.Steps.{Answer, done, reply, thrown}
use mcp_coordinator.Auth.Epoch.{has_id}
use mcp_coordinator.Auth.Mint.{MintOptions, MintedPair, mint_token_pair, given_or}
use mcp_coordinator.DeviceFlow.{
  DeviceRequest, DeviceDb, Poll, ready, has_device_code, poll, tell, device_login,
}

pub data GrantReply : Type 0 where
  missing_device_code : GrantReply
  -- any verdict but an approval
  pending : Poll → GrantReply
  unknown_user : GrantReply
  token_response : String → String → GrantReply
  -- the exception of the minting
  failed : GrantReply

-- The role is never null.
abbrev pub device_options : User → MintOptions
device_options u = record {
  user_id = u.id;
  primary_org_id = u.primary_org_id;
  role = given_or u.role "member";
  family_id = none;
  fingerprint = none;
}

-- What follows the minting, which the handler awaits: DELETE … WHERE device_code = ?, and the audit.
unfoldable pub finish_device_grant : String → User → MintedPair → DeviceDb → DeviceDb
finish_device_grant code u pair db = tell (device_login u.id pair.family_id) (record db {
  requests = select (λ (r : DeviceRequest). not (has_device_code code r)) db.requests;
})

unfoldable pub grant_minted : String → User → Answer MintedPair → DeviceDb → GrantReply × DeviceDb
unfolding finish_device_grant
grant_minted code u (done pair) db =
    (token_response pair.access_jwt pair.refresh_jwt, finish_device_grant code u pair db)
grant_minted code u (reply r) db = (failed, db)
grant_minted code u thrown db = (failed, db)

unfoldable pub grant_approved :
    Context → String → Option User → AuthDb → DeviceDb → GrantReply × AuthDb × DeviceDb
unfolding grant_minted
grant_approved ctx code none auth db = (unknown_user, auth, db)
grant_approved ctx code (some u) auth db =
    let (answer, auth') = mint_token_pair ctx (device_options u) auth in
    let (response, db') = grant_minted code u answer db in (response, auth', db')

unfoldable pub grant_polled :
    Context → String → Poll → AuthDb → DeviceDb → GrantReply × AuthDb × DeviceDb
unfolding grant_approved
grant_polled ctx code verdict auth db = elim verdict [
  | ready user ↦ grant_approved ctx code (find_row (has_id user) auth.users) auth db
  | other ↦ (pending other, auth, db)
]

unfoldable pub handle_device_code_grant :
    Context → Option String → AuthDb → DeviceDb → GrantReply × AuthDb × DeviceDb
unfolding grant_polled
handle_device_code_grant ctx device auth db = elim (or_null device) [
  | none ↦ (missing_device_code, auth, db)
  | some code ↦
      let (verdict, rows) = poll ctx.now code db.requests in
      grant_polled ctx code verdict auth (record db { requests = rows })
]
