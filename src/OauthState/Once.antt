-- ===== src/OauthState/Once.antt =====
-- A sign-in's state is used once: src/auth/oauth-state.ts.
use mcp_coordinator.Prelude.{
  ℕ, ◌-◌, ◌≤◌, String, ◌≡◌, ◌≢◌, refl, inl, inr, Bool, true, false, Option, none, some, List, [],
  ◌∷◌, ◌==◌, any, All, All-append, All-Mem, if◌then◌else◌, ltb, ltb→ge, leb, arith, Bool-cases,
  Option-cases,
}
use mcp_coordinator.Table.{find_row, find_row-Mem, update_where}
use mcp_coordinator.Auth.Purge.{All-delete_limit, batch_size}
use mcp_coordinator.OauthState.{
  OauthStateRow, is_state, is_unconsumed, is_usable, new_state, consume_row,
  create_oauth_state_with_verifier, consume_oauth_state, inspect_oauth_state, purge_oauth_states,
  stale_buffer_s,
}

pub data Event : Type 0 where
  create : ℕ → String → String → String → String → Option String → Event
  consume : ℕ → String → Event
  purge : ℕ → Event

-- The table after the operation; an INSERT that throws leaves it.
unfoldable pub step : Event → List OauthStateRow → List OauthStateRow
step (create now state provider redirect verifier secret) rows =
    elim (create_oauth_state_with_verifier now state provider redirect verifier secret rows) [
      | none ↦ rows
      | some more ↦ more
    ]
step (consume now state) rows = (consume_oauth_state now state rows).1
step (purge now) rows = purge_oauth_states now rows

abbrev pub run : List Event → List OauthStateRow → List OauthStateRow
run [] rows = rows
run (e ∷ es) rows = run es (step e rows)

-- The event does not hand the text out as a new state.
abbrev pub Differs : String → Event → Type 0
Differs state (create now other provider redirect verifier secret) = (other == state) ≡ false
Differs state e = Unit

module _ (state : String) (now : ℕ) where
  -- Every row of the state has been consumed or has expired by then.
  abbrev IsSpent : OauthStateRow → Type 0
  IsSpent r = is_state state r ≡ true → is_unconsumed r ≡ true → r.expires_at ≤ now

  abbrev Used : List OauthStateRow → Type 0
  Used rows = All IsSpent rows

  Used-consume :
      (other : String) (later : ℕ) (rows : List OauthStateRow)
      → Used rows
      → Used (update_where (is_usable later other) (consume_row later) rows)
  Used-consume other later [] d = tt
  Used-consume other later (x ∷ xs) d =
      (row (is_usable later other x), Used-consume other later xs d.1)
    where
      row : (b : Bool) → IsSpent (if b then consume_row later x else x)
      row true e f = absurd (cc f)
      row false e f = d.0 e f

  consume-Used : (rows : List OauthStateRow) → Used (consume_oauth_state now state rows).1
  unfolding consume_oauth_state
  consume-Used [] = tt
  consume-Used (x ∷ xs) = (row (is_usable now state x) refl, consume-Used xs)
    where
      row : (b : Bool) → is_usable now state x ≡ b → IsSpent (if b then consume_row now x else x)
      row true hit e f = absurd (cc f)
      row false miss e f = ltb→ge now x.expires_at (ground (arith, miss, e, f))

  Used-step :
      (e : Event) (rows : List OauthStateRow) → Differs state e → Used rows → Used (step e rows)
  unfolding step create_oauth_state_with_verifier consume_oauth_state purge_oauth_states
  Used-step (create time other provider redirect verifier secret) rows new d =
      elim (Bool-cases (any (is_state other) rows)) [
        | inl e ↦ rw (e, step) d
        | inr e ↦
            rw (e, step)
              (All-append IsSpent rows (new_state time other verifier provider redirect secret ∷ [])
                d ((λ h. absurd (cc)), tt))
      ]
  Used-step (consume time other) rows new d = Used-consume other time rows d
  Used-step (purge time) rows new d =
      All-delete_limit IsSpent batch_size (λ r. ltb r.expires_at (time - stale_buffer_s)) rows d

  Used-run :
      (es : List Event) (rows : List OauthStateRow)
      → All (Differs state) es
      → Used rows
      → Used (run es rows)
  Used-run [] rows new d = d
  Used-run (e ∷ es) rows new d = Used-run es (step e rows) new.1 (Used-step e rows new.0 d)

  -- The state of a sign-in is used at most once: after it has been presented, whatever is created,
  -- consumed or deleted since, it is not accepted again while the clock does not go back, and
  -- asking why gives a reason: it does not throw. (While the same state is not created anew.)
  pub consume_once :
      (rows : List OauthStateRow) (es : List Event) (later : ℕ)
      → All (Differs state) es
      → now ≤ later
      → let after = run es (consume_oauth_state now state rows).1 in
        ((consume_oauth_state later state after).0 ≡ none)
        × (inspect_oauth_state later state after ≢ none)
  unfolding consume_oauth_state inspect_oauth_state
  consume_once rows es later new le =
      let after = run es (consume_oauth_state now state rows).1 in
      let used = Used-run es (consume_oauth_state now state rows).1 new (consume-Used rows) in
      (
        elim (Option-cases (find_row (is_usable later state) after)) [
          | inl e ↦ rw (e, consume_oauth_state) refl
          | inr (r, e) ↦
              let (m, hit) = find_row-Mem (is_usable later state) after e in
              let old : r.expires_at ≤ now =
                All-Mem IsSpent used m (ground (arith, hit)) (ground (arith, hit)) in
              absurd (ground (arith, hit, old, le))
        ],
        elim (Option-cases (find_row (is_state state) after)) [
          | inl e ↦ λ p. cc (rw (e, inspect_oauth_state) at p)
          | inr (r, e) ↦
              let (m, hit) = find_row-Mem (is_state state) after e in
              elim (Bool-cases (is_unconsumed r)) [
                | inr f ↦ λ p. cc (rw (e, f, inspect_oauth_state) at p)
                | inl f ↦
                    let old : r.expires_at ≤ later =
                      omega (arith, All-Mem IsSpent used m hit f, le) in
                    let yes : leb r.expires_at later ≡ true = ground (arith, old) in
                    λ p. cc (rw (e, f, yes, inspect_oauth_state) at p)
              ]
        ],
      )
