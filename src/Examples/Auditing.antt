-- ===== src/Examples/Auditing.antt =====
-- The theorems on the audit log, applied to a short history.
use Prim.Native.String.{◌++◌}
use Prim.Native.String.append.{cons}
use Prim.Native.Char.{code}
use mathlib.Core.Option as Option
use text.Mathlib.TextEquality.{starts_with_iff}
use text.Mathlib.TextLemmas.{append_cancel_left}
use mcp_coordinator.Prelude.{
  arith, ℕ, String, Bool, true, false, ◌≡◌, refl, sym, ap, ◌∙◌, eq_ℕ, inl, inr, none, some, List,
  [], ◌∷◌, map, Bool-cases,
}
use mcp_coordinator.Audit.{
  Crypto, AuditChainFields, AuditRow, AuditLog, Connection, opened, failing, Process, Act, said,
  ticked, AuditQueue, compute_row_hash, canonical_row_fields, drained, purged, is_hmac, hmac_prefix,
  new_queue, acts,
}
use mcp_coordinator.Audit.Verify.{is_ok, check_link, check_content}
use mcp_coordinator.Audit.Intact.{no_false_alarm}
use mcp_coordinator.Audit.Backfill.{IsLegacy, backfill_audit_chain}
use mcp_coordinator.Audit.Queue.{IsShort, never_drops}
use mcp_coordinator.Audit.Tampering.{rewrite, rewriting_found}

-- Digests that lose nothing.
abbrev clear_text : Crypto
clear_text = record {
  sha256 = λ s. String.◌∷◌ "0" s;
  hmac_sha256 = λ k s. k ++ s;
  stringify = λ members. elim members [ [] ↦ "{}" | m ∷ rest ↦ m.0 ];
  dropped_count = λ n. "{}";
}

starts_high : String → Bool
starts_high String.[] = false
starts_high (String.◌∷◌ c s) = eq_ℕ (code c) b'h'

plain : (s : String) → is_hmac (String.◌∷◌ "0" s) ≡ false
unfolding starts_high
plain s = elim (Bool-cases (is_hmac (String.◌∷◌ "0" s))) [
  | inr e ↦ e
  | inl e ↦
      let (u, p) = (starts_with_iff (String.◌∷◌ "0" s) hmac_prefix).0 e in
      let high : true ≡ false = ap starts_high (sym (cons "h" "mac-sha256-v1:" u) ∙ p) in cc high
]

abbrev login : AuditChainFields
login = record {
  action = "auth.login";
  actor_org_id = some "acme";
  actor_ip = none;
  actor_user_agent = none;
  actor_user_id = some "ann";
  metadata_json = none;
  outcome = some "success";
  request_id = none;
  target = none;
}

abbrev before : List (Connection × (ℕ × Act))
before =
    (opened, (10, said true login))
    ∷ (opened, (11, said false login))
    ∷ (failing, (12, ticked))
    ∷ []

abbrev after : List (Connection × (ℕ × Act))
after =
    (opened, (20, said true login))
    ∷ (opened, (100000000, purged 90 ("auth.login" ∷ [])))
    ∷ (opened, (100000001, said false login))
    ∷ (opened, (100000002, drained))
    ∷ []

-- A table from before the chain.
abbrev legacy : AuditLog
legacy = record {
  rows =
      record { id = 1; created_at = 5; fields = login; prev_hash = none; row_hash = none }
      ∷ record { id = 3; created_at = 6; fields = login; prev_hash = none; row_hash = none }
      ∷ [];
  next_id = 4;
}

legacy-IsLegacy : IsLegacy legacy
legacy-IsLegacy = record {
  bare = (refl, (refl, tt));
  ascending = ((omega arith, tt), (tt, tt));
  below = (omega arith, (omega arith, tt));
}

no_false_alarm_example :
    is_ok clear_text
      (some "key")
      (acts clear_text (some "key") after record {
        queue = some new_queue;
        log =
            (acts clear_text none before
              record { queue = some new_queue; log = backfill_audit_chain clear_text legacy }).log;
      }).log.rows
    ≡ true
no_false_alarm_example =
    no_false_alarm clear_text "key" legacy before after (some new_queue) (some new_queue) plain
      legacy-IsLegacy

abbrev empty_log : AuditLog
empty_log = record { rows = []; next_id = 1 }

abbrev written : List AuditRow
written =
    (acts clear_text (some "key")
      ((opened, (20, said true login)) ∷ (opened, (21, said true login)) ∷ [])
      record { queue = none; log = empty_log }).log.rows

unchanged : is_ok clear_text (some "key") written ≡ true
unfolding is_ok acts check_link check_content compute_row_hash canonical_row_fields
unchanged = refl

rewriting_found_example : map (rewrite (λ r. login)) written ≡ written
unfolding acts
rewriting_found_example =
    rewriting_found clear_text (some "key") (λ x y e. cc e) (λ k x y e. append_cancel_left k x y e)
      (λ r. login) written ((λ e. refl), ((λ e. refl), tt)) unchanged unchanged

abbrev left : Process
left = acts clear_text none before record { queue = some new_queue; log = empty_log }

-- The second login is lost in the flush that fails; nothing counts it.
lost_in_flush :
    (left.log.next_id ≡ 2) × (Option.map (λ (q : AuditQueue). q.dropped) left.queue ≡ some 0)
unfolding acts
lost_in_flush = (refl, refl)

never_drops_example : (q : AuditQueue) × (left.queue ≡ some q) × IsShort q
never_drops_example = never_drops clear_text none before empty_log
