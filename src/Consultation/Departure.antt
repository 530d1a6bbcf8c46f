-- ===== src/Consultation/Departure.antt =====
-- handleAgentDeparture: what the departed agent still holds.
use mcp_coordinator.Prelude.{
  ◌≡◌, refl, ap, ◌∙◌, inl, inr, String, Bool, true, false, ◌&&◌, List, [], ◌∷◌, none, some, ◌==◌,
  any, is_empty, equals, select, arith, Bool-cases, Option-cases,
}
use mcp_coordinator.Clock.{to_iso}
use mcp_coordinator.Table.{find_row, update_where}
use mcp_coordinator.Store.{
  Env, Db, Thread, agent_departure, resolved, is_opened, is_resolving, is_active, keyed,
  update_thread,
}
use mcp_coordinator.Consultation.Resolution.{all_respondents_approved}
use mcp_coordinator.Consultation.Sweeps.{
  unclaim_all, without, resolve_departed, settle_departed, depart_thread, depart_threads,
  handle_agent_departure,
}
use mcp_coordinator.Lifecycle.Resolution.{threads-emit_resolution}

-- An open thread of the organisation that the agent holds.
abbrev pub is_held_by : String → String → Thread → Bool
is_held_by org agent t = equals t.claimed_by agent && is_opened t && t.org_id == org

module _ (env : Env) (org agent : String) where
  HeldNone : Db → Type 0
  HeldNone db = any (is_held_by org agent) db.threads ≡ false

  update-HeldNone :
      (q : Thread → Bool) (f : Thread → Thread) (ts : List Thread)
      → ((x : Thread) → is_held_by org agent (f x) ≡ true → is_held_by org agent x ≡ true)
      → any (is_held_by org agent) ts ≡ false
      → any (is_held_by org agent) (update_where q f ts) ≡ false
  update-HeldNone q f [] keep h = refl
  update-HeldNone q f (t ∷ ts) keep h =
      let rest = update-HeldNone q f ts keep (ground arith) in
      elim (Bool-cases (is_held_by org agent (f t))) [
        | inl held ↦ absurd (ground (arith, keep t held))
        | inr gone ↦ elim (Bool-cases (q t)) [
          | inl hit ↦ rw (hit, gone) rest
          | inr miss ↦ rw (miss, rest) (ground arith)
        ]
      ]

  resolve-HeldNone : (row : Thread) (db : Db) → HeldNone db → HeldNone (resolve_departed env row db)
  unfolding resolve_departed HeldNone
  resolve-HeldNone row db h =
      ap (any (is_held_by org agent))
        (threads-emit_resolution env row.id agent_departure none none _)
      ∙ update-HeldNone (keyed row.org_id row.id)
          (λ t. record t { status = resolved; resolved_at = some (to_iso env.now) }) db.threads
          (λ x e. ground arith) h

  settle-HeldNone :
      (row : Thread) (updated : List String) (db : Db)
      → HeldNone db
      → HeldNone (settle_departed env row updated db)
  unfolding settle_departed
  settle-HeldNone row updated db h =
      elim (Option-cases (find_row (λ (t : Thread). t.id == row.id) db.threads)) [
        | inl e ↦ rw (e, settle_departed) h
        | inr (t, e) ↦ elim (Bool-cases (is_resolving t && all_respondents_approved row.id t db)) [
          | inl a ↦ rw (e, a, settle_departed) (resolve-HeldNone row db h)
          | inr a ↦ elim (Bool-cases (is_opened t && is_empty updated)) [
            | inl b ↦ rw (e, a, b, settle_departed) (resolve-HeldNone row db h)
            | inr b ↦ rw (e, a, b, settle_departed) h
          ]
        ]
      ]

  loop-HeldNone :
      (rows : List Thread) (db : Db) → HeldNone db → HeldNone (depart_threads env agent rows db)
  unfolding depart_threads depart_thread HeldNone
  loop-HeldNone [] db h = h
  loop-HeldNone (row ∷ rows) db h =
      let updated = without agent row.expected_respondents in
      loop-HeldNone rows (depart_thread env agent row db) (
        settle-HeldNone row updated
          (update_thread row.org_id row.id (λ t. record t { expected_respondents = updated }) db)
          (update-HeldNone (keyed row.org_id row.id)
            (λ t. record t { expected_respondents = updated }) db.threads (λ x e. e) h))

  unclaim-HeldNone :
      (ts : List Thread)
      → any (is_held_by org agent) (
          update_where
            (is_held_by org agent)
            (λ t. record t { claimed_by = none; claimed_at = none })
            ts)
        ≡ false
  unclaim-HeldNone [] = refl
  unclaim-HeldNone (t ∷ ts) = ground (arith, unclaim-HeldNone ts)

-- After the departure of an agent it holds no open thread of its organisation.
pub departure_releases :
    (env : Env) (org agent : String) (db : Db)
    → any (is_held_by org agent) (handle_agent_departure env org agent db).threads ≡ false
unfolding handle_agent_departure HeldNone
departure_releases env org agent db =
    loop-HeldNone env org agent
      (select (λ t. is_active t && t.org_id == org) (unclaim_all org agent db).threads)
      (unclaim_all org agent db) (unclaim-HeldNone env org agent db.threads)
