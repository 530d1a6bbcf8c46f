-- ===== src/Files.antt =====
-- src/file-tracker.ts: who edited which file lately; src/working-files-tracker.ts is in Working.
pub mod Index
pub mod Working
use mcp_coordinator.Prelude.{
  ℕ, String, ◌≡◌, Bool, true, false, not, ◌&&◌, List, [], ◌∷◌, ◌++◌, Option, none, some, ◌==◌,
  includes, map, select, is_empty, or_null, if◌then◌else◌,
}
use mcp_coordinator.Clock.{Timestamp, current_timestamp, minutes_ago, text_lt}
use mcp_coordinator.Store.{Env}

-- Rows of file_activity.
pub record FileActivity : Type 0 where
  pub org_id : String
  pub session_id : String
  pub agent_id : String
  pub agent_name : Option String
  pub tool_name : String
  pub file_path : String
  pub in_module : String
  pub content_hash : Option String
  pub symbols_touched : Option (List String)
  pub created_at : Timestamp

pub record Edit : Type 0 where
  pub org_id : String
  pub session_id : String
  pub agent_id : String
  pub agent_name : Option String
  pub tool_name : String
  pub file_path : String
  pub content_hash : Option String
  pub symbols_touched : Option (List String)

-- `module` is fileToModule(params.file_path).
unfoldable pub log_edit : Env → String → Edit → List FileActivity → List FileActivity
log_edit env module_name p rows =
    rows
    ++ (record {
      org_id = p.org_id;
      session_id = p.session_id;
      agent_id = p.agent_id;
      agent_name = or_null p.agent_name;
      tool_name = p.tool_name;
      file_path = p.file_path;
      in_module = module_name;
      content_hash = or_null p.content_hash;
      symbols_touched = p.symbols_touched;
      created_at = current_timestamp env.now;
    })
      ∷ []

-- Map<string, Set<string>>, from a file to agents
abbrev pub AgentIndex : Type 0
AgentIndex = List (String × List String)

-- index.get(file) ?? []
abbrev pub agents_at : String → AgentIndex → List String
agents_at file [] = []
agents_at file ((f, agents) ∷ index) =
    let rest = agents_at file index in if f == file then agents else rest

-- set.add(agent), in a set that is made where the file has none
abbrev pub add_agent : String → String → AgentIndex → AgentIndex
add_agent file agent [] = (file, agent ∷ []) ∷ []
add_agent file agent ((f, agents) ∷ index) =
    let rest = add_agent file agent index in
    if f == file
    then (f, if includes agents agent then agents else agents ++ agent ∷ []) ∷ index
    else (f, agents) ∷ rest

-- for (const r of rows) …
unfoldable pub index_rows : List (String × String) → AgentIndex → AgentIndex
index_rows [] index = index
index_rows ((file, agent) ∷ rows) index = index_rows rows (add_agent file agent index)

-- org_id = ? AND file_path IN (…) AND agent_id != ? AND created_at > datetime('now', …)
abbrev pub is_recent_edit : ℕ → String → List String → String → ℕ → FileActivity → Bool
is_recent_edit now org files agent minutes row =
    row.org_id == org
    && includes files row.file_path
    && not (row.agent_id == agent)
    && text_lt (minutes_ago now minutes) row.created_at

abbrev pub edited : FileActivity → String × String
edited row = (row.file_path, row.agent_id)

-- DISTINCT changes nothing of what the sets hold.
unfoldable pub get_file_to_agents_index :
    ℕ → String → List String → String → ℕ → List FileActivity → AgentIndex
unfolding index_rows
get_file_to_agents_index now org files agent minutes rows =
    if is_empty files
    then []
    else index_rows (map edited (select (is_recent_edit now org files agent minutes) rows)) []

-- Distinct texts, in the order of their first occurrence.
abbrev pub distinct : List String → List String → List String
distinct seen [] = []
distinct seen (x ∷ xs) =
    let later = distinct (x ∷ seen) xs in
    let rest = distinct seen xs in if includes seen x then rest else x ∷ later

unfoldable pub check_file_conflict :
    ℕ → String → String → String → ℕ → List FileActivity → List String
check_file_conflict now org file agent minutes rows = distinct [] (
    map (λ (row : FileActivity). row.agent_id)
      (select
        (λ row.
          row.org_id == org
          && row.file_path == file
          && not (row.agent_id == agent)
          && text_lt (minutes_ago now minutes) row.created_at)
        rows))
