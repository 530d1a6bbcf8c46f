-- ===== src/Files/Working.antt =====
-- src/working-files-tracker.ts: the files that agents are editing right now, with an expiry. The
-- columns hold texts of one shape, "YYYY-MM-DDTHH:MM:SSZ", which compare like seconds.
pub mod InFlight
use mcp_coordinator.Prelude.{
  ℕ, ◌+◌, ◌*◌, ◌/◌, String, ◌≡◌, Bool, true, false, not, ◌&&◌, List, [], ◌∷◌, map, ◌==◌, any,
  includes, select, is_empty, ltb, if◌then◌else◌,
}
use mcp_coordinator.Table.{count_where, insert_row, update_where}
use mcp_coordinator.Files.{AgentIndex, index_rows}

pub record WorkingFile : Type 0 where
  pub org_id : String
  pub agent_id : String
  pub file_path : String
  pub started_at : ℕ
  pub last_activity_at : ℕ
  pub claim_until : ℕ

-- org_id = ? AND agent_id = ? AND file_path = ?
abbrev pub is_claim : String → String → String → WorkingFile → Bool
is_claim org agent file row = row.org_id == org && row.agent_id == agent && row.file_path == file

-- `now` is in seconds. INSERT … ON CONFLICT(org_id, agent_id, file_path) DO UPDATE SET …
unfoldable pub start : ℕ → String → String → String → ℕ → List WorkingFile → List WorkingFile
start now org agent file ttl_minutes rows =
    if any (is_claim org agent file) rows
    then update_where (is_claim org agent file)
        (λ row. record row { last_activity_at = now; claim_until = now + ttl_minutes * 60 }) rows
    else insert_row
        (record {
          org_id = org;
          agent_id = agent;
          file_path = file;
          started_at = now;
          last_activity_at = now;
          claim_until = now + ttl_minutes * 60;
        })
        rows

unfoldable pub stop : String → String → String → List WorkingFile → List WorkingFile
stop org agent file rows = select (λ row. not (is_claim org agent file row)) rows

abbrev pub is_expired : ℕ → WorkingFile → Bool
is_expired now row = ltb row.claim_until now

-- The rows evicted are counted.
unfoldable pub sweep_expired : ℕ → List WorkingFile → ℕ × List WorkingFile
sweep_expired now rows =
    (count_where (is_expired now) rows, select (λ row. not (is_expired now row)) rows)

abbrev pub is_of_agent : String → String → WorkingFile → Bool
is_of_agent org agent row = row.org_id == org && row.agent_id == agent

unfoldable pub clear_for_agent : String → String → List WorkingFile → ℕ × List WorkingFile
clear_for_agent org agent rows =
    (count_where (is_of_agent org agent) rows, select (λ row. not (is_of_agent org agent row)) rows)

abbrev pub is_in_flight : ℕ → String → List String → String → WorkingFile → Bool
is_in_flight now org files agent row =
    row.org_id == org
    && includes files row.file_path
    && not (row.agent_id == agent)
    && ltb now row.claim_until

abbrev pub held_file : WorkingFile → String × String
held_file row = (row.file_path, row.agent_id)

unfoldable pub get_index : ℕ → String → List String → String → List WorkingFile → AgentIndex
unfolding index_rows
get_index now org files agent rows =
    if is_empty files
    then []
    else index_rows (map held_file (select (is_in_flight now org files agent) rows)) []
