-- ===== src/Dependencies.antt =====
-- src/dependency-map.ts: the class DependencyMapper. The table holds the modules of all
-- organisations; its primary key is (org_id, module_id).
pub mod Fresh
pub mod Radius
pub mod Upkeep
use mcp_coordinator.Prelude.{
  ℕ, suc, zero, ◌+◌, ◌≡◌, String, Bool, true, false, not, ◌&&◌, List, [], ◌∷◌, ◌++◌, map, Option,
  none, some, ◌==◌, any, includes, select, length, if◌then◌else◌,
}
use mcp_coordinator.Table.{find_row, insert_row, update_where}

pub record ModuleInfo : Type 0 where
  pub org_id : String
  pub module_id : String
  pub depends_on : List String
  pub exports : List String
  pub owners : List String

pub record Dependencies : Type 0 where
  pub depends_on : List String
  pub exports : List String
  pub owners : List String

abbrev pub is_module : String → String → ModuleInfo → Bool
is_module org id row = row.org_id == org && row.module_id == id

-- INSERT … ON CONFLICT(org_id, module_id) DO UPDATE SET …
unfoldable pub set_dependencies : String → String → Dependencies → List ModuleInfo → List ModuleInfo
set_dependencies org id p rows =
    if any (is_module org id) rows
    then update_where (is_module org id)
        (λ row. record row { depends_on = p.depends_on; exports = p.exports; owners = p.owners })
        rows
    else insert_row
        (record {
          org_id = org;
          module_id = id;
          depends_on = p.depends_on;
          exports = p.exports;
          owners = p.owners;
        })
        rows

abbrev pub get_module_info : String → String → List ModuleInfo → Option ModuleInfo
get_module_info org id rows = find_row (is_module org id) rows

unfoldable pub get_dependencies : String → String → List ModuleInfo → Option Dependencies
get_dependencies org id rows = elim (get_module_info org id rows) [
  | none ↦ none
  | some row ↦
      some (record { depends_on = row.depends_on; exports = row.exports; owners = row.owners })
]

-- The statements of the transaction, one for each entry of the map.
unfoldable pub set_map : String → List (String × Dependencies) → List ModuleInfo → List ModuleInfo
unfolding set_dependencies
set_map org [] rows = rows
set_map org ((id, p) ∷ entries) rows = set_map org entries (set_dependencies org id p rows)

-- The entries of the map, which has one for each row of the organisation.
abbrev pub get_map : String → List ModuleInfo → List ModuleInfo
get_map org rows = select (λ row. row.org_id == org) rows

-- The push loop for one module: its id, once for each declaration.
abbrev pub declared : String → ModuleInfo → List String
declared id row = map (λ _. row.module_id) (select (λ d. d == id) row.depends_on)

-- dependents.get(id) ?? []
abbrev pub dependents_of : String → List ModuleInfo → List String
dependents_of id [] = []
dependents_of id (row ∷ rows) = declared id row ++ dependents_of id rows

-- `queue` is the part of the queue from `head` on.
pub record Search : Type 0 where
  pub queue : List String
  pub visited : List String
  pub indirect : List String

abbrev pub visit_one : String → Search → Search
visit_one id s = record s {
  queue = s.queue ++ id ∷ [];
  visited = s.visited ++ id ∷ [];
  indirect = s.indirect ++ id ∷ [];
}

-- for (const id of dependents.get(current) ?? []) …
unfoldable pub visit : List String → Search → Search
visit [] s = s
visit (id ∷ ids) s = visit ids (if includes s.visited id then s else visit_one id s)

-- The loop over the queue, at most `fuel` times.
unfoldable pub search : ℕ → List ModuleInfo → Search → Search
unfolding visit
search zero modules s = s
search (suc fuel) modules s = elim s.queue [
  | [] ↦ s
  | current ∷ queue ↦
      search fuel modules (visit (dependents_of current modules) (record s { queue = queue }))
]

pub record BlastRadius : Type 0 where
  pub module_id : String
  pub direct_dependents : List String
  pub indirect_dependents : List String
  pub affected_exports : List String

abbrev pub started : String → List ModuleInfo → Search
started id modules =
    let direct = dependents_of id modules in
    record { queue = direct; visited = id ∷ direct; indirect = [] }

-- Every module enters the queue at most once after the direct dependents.
abbrev pub enough_fuel : String → List ModuleInfo → ℕ
enough_fuel id modules = length (dependents_of id modules) + length modules

-- active_threads_in_radius is always empty.
unfoldable pub get_blast_radius : String → String → List ModuleInfo → BlastRadius
unfolding search
get_blast_radius org id rows =
    let modules = get_map org rows in
    record {
      module_id = id;
      direct_dependents = dependents_of id modules;
      indirect_dependents = (search (enough_fuel id modules) modules (started id modules)).indirect;
      affected_exports = elim (find_row (λ (row : ModuleInfo). row.module_id == id) modules) [
        | none ↦ []
        | some row ↦ row.exports
      ];
    }
