-- ===== src/Auth/Membership/Case.antt =====
-- The case of the names that resolveOrgFromMemberships of src/auth/allowlist.ts is given.
use mcp_coordinator.Prelude.{
  String, ◌≡◌, ◌≢◌, refl, sym, ap, ◌∙◌, inl, inr, false, none, List, [], ◌∷◌, ◌==◌, eq_iff,
  includes, Bool-cases, Option-cases,
}
use mcp_coordinator.Auth.State.{AuthDb, Context, Org}
use mcp_coordinator.Auth.Membership.{logins, first_of, resolve_org_from_memberships}

module _ (ctx : Context)
    (idempotent : (s : String) → ctx.sql_lower (ctx.sql_lower s) ≡ ctx.sql_lower s) (login : String)
    (mixed : ctx.sql_lower login ≢ login) where
  unlisted : (allowed : String) → includes (login ∷ []) (ctx.sql_lower allowed) ≡ false
  unlisted allowed = elim (Bool-cases (login == ctx.sql_lower allowed)) [
    | inr e ↦ rw e refl
    | inl e ↦
        let same : login ≡ ctx.sql_lower allowed = (eq_iff login (ctx.sql_lower allowed)).0 e in
        absurd (mixed (ap ctx.sql_lower same ∙ idempotent allowed ∙ sym same))
  ]

  no_logins : (orgs : List Org) → logins ctx (login ∷ []) orgs ≡ []
  no_logins [] = refl
  no_logins (o ∷ orgs) = elim (Option-cases o.allowlist_github_org) [
    | inl e ↦ rw (e, logins) (no_logins orgs)
    | inr (allowed, e) ↦ rw (e, unlisted allowed, logins) (no_logins orgs)
  ]

  -- A membership whose name is not in lower case is in no allowlisted organisation, whatever the
  -- allowlists say: the names have to be lowered before they are looked up. (Where LOWER of a
  -- lowered text is the same text.)
  pub mixed_case_denied : (db : AuthDb) → resolve_org_from_memberships ctx (login ∷ []) db ≡ none
  unfolding resolve_org_from_memberships first_of
  mixed_case_denied db = ap (first_of ctx) (no_logins db.orgs)
