-- ===== src/Audit/Verify.antt =====
-- scripts/verify-audit-chain.ts: verify() and the verdict of main().
use mcp_coordinator.Prelude.{
  ℕ, suc, ◌-◌, String, Bool, true, false, ◌||◌, not, Option, none, some, List, [], ◌∷◌, ◌++◌, ◌==◌,
  any, eq_ℕ, if◌then◌else◌,
}
use mcp_coordinator.Audit.{Crypto, AuditRow, is_hmac, compute_row_hash}

pub data RowFinding : Type 0 where
  missing_hash : ℕ → RowFinding
  -- expected and actual
  wrong_row_hash : ℕ → String → String → RowFinding
  wrong_prev_hash : ℕ → String → String → RowFinding
  id_gap_before : ℕ → ℕ → RowFinding
  no_key_for_hmac : ℕ → RowFinding
  downgraded_alg : ℕ → RowFinding

-- f.reason !== "id_gap_before"
abbrev pub is_failure : RowFinding → Bool
is_failure (id_gap_before id size) = false
is_failure (missing_hash id) = true
is_failure (wrong_row_hash id expected actual) = true
is_failure (wrong_prev_hash id expected actual) = true
is_failure (no_key_for_hmac id) = true
is_failure (downgraded_alg id) = true

-- The variables that the loop carries.
pub record Walk : Type 0 where
  pub prev_hash : Option String
  pub prev_id : Option ℕ
  pub saw_hmac : Bool

abbrev pub start_walk : Walk
start_walk = record { prev_hash = none; prev_id = none; saw_hmac = false }

abbrev pub has_gap : Walk → ℕ → Bool
has_gap w id = elim w.prev_id [ none ↦ false | some i ↦ not (eq_ℕ id (suc i)) ]

abbrev pub gap_findings : Walk → ℕ → List RowFinding
gap_findings w id = elim w.prev_id [
  | none ↦ []
  | some i ↦ if eq_ℕ id (suc i) then [] else id_gap_before id (id - i - 1) ∷ []
]

-- prevHash after the test for a gap.
abbrev pub expected_prev : Walk → ℕ → Option String
expected_prev w id = if has_gap w id then none else w.prev_hash

unfoldable pub check_link : ℕ → Option String → String → List RowFinding
check_link id none prev = []
check_link id (some expected) prev =
    if prev == expected then [] else wrong_prev_hash id expected prev ∷ []

unfoldable pub check_hash : Crypto → Option String → AuditRow → String → String → List RowFinding
check_hash crypto key r prev hash =
    let recomputed = compute_row_hash crypto prev r.fields key in
    if recomputed == hash then [] else wrong_row_hash r.id recomputed hash ∷ []

-- From the algorithm on.
unfoldable pub check_content :
    Crypto → Option String → Bool → AuditRow → String → String → List RowFinding
unfolding check_hash
check_content crypto key saw_hmac r prev hash =
    if is_hmac hash
    then elim key [
      | none ↦ no_key_for_hmac r.id ∷ []
      | some k ↦ check_hash crypto (some k) r prev hash
    ]
    else (if saw_hmac then downgraded_alg r.id ∷ [] else []) ++ check_hash crypto none r prev hash

abbrev pub check_hashed :
    Crypto → Option String → Walk → AuditRow → String → String → List RowFinding × Walk
check_hashed crypto key w r prev hash = (
  gap_findings w r.id
      ++ (check_link r.id (expected_prev w r.id) prev
          ++ check_content crypto key w.saw_hmac r prev hash),
  record { prev_hash = some hash; prev_id = some r.id; saw_hmac = w.saw_hmac || is_hmac hash },
)

abbrev pub pass_over : Walk → AuditRow → List RowFinding × Walk
pass_over w r = (
  gap_findings w r.id ++ missing_hash r.id ∷ [],
  record w { prev_hash = expected_prev w r.id; prev_id = some r.id },
)

unfoldable pub check_row : Crypto → Option String → Walk → AuditRow → List RowFinding × Walk
check_row crypto key w r = elim r.row_hash [
  | none ↦ pass_over w r
  | some hash ↦ elim r.prev_hash [
    | none ↦ pass_over w r
    | some prev ↦ check_hashed crypto key w r prev hash
  ]
]

unfoldable pub verify_from : Crypto → Option String → Walk → List AuditRow → List RowFinding
unfolding check_row
verify_from crypto key w [] = []
verify_from crypto key w (r ∷ rs) =
    let (found, w') = check_row crypto key w r in found ++ verify_from crypto key w' rs

unfoldable pub verify : Crypto → Option String → List AuditRow → List RowFinding
unfolding verify_from
verify crypto key rows = verify_from crypto key start_walk rows

-- report.ok
unfoldable pub is_ok : Crypto → Option String → List AuditRow → Bool
unfolding verify
is_ok crypto key rows = not (any is_failure (verify crypto key rows))
