-- ===== src/Dependencies/Upkeep.antt =====
-- setDependencies and getDependencies together.
use mcp_coordinator.Prelude.{
  ◌≡◌, refl, ap, ◌∙◌, inl, inr, String, false, ◌&&◌, List, Option, none, some, ◌==◌, eq_iff,
  eq_refl, any, any_witness, arith, Bool-cases, Option-cases,
}
use mcp_coordinator.Table.{
  find_row, find_row-Mem, find_row_total, find_row-none, find_row-update_where, find_row-insert_row,
}
use mcp_coordinator.Dependencies.{
  ModuleInfo, Dependencies, is_module, set_dependencies, get_module_info, get_dependencies,
}

abbrev stored : Dependencies → ModuleInfo → ModuleInfo
stored p row = record row { depends_on = p.depends_on; exports = p.exports; owners = p.owners }

abbrev added : String → String → Dependencies → ModuleInfo
added org id p = record {
  org_id = org;
  module_id = id;
  depends_on = p.depends_on;
  exports = p.exports;
  owners = p.owners;
}

info-set :
    (org id : String) (p : Dependencies) (rows : List ModuleInfo)
    → (row : ModuleInfo) × (get_module_info org id (set_dependencies org id p rows)
        ≡ some (stored p row))
unfolding set_dependencies
info-set org id p rows = elim (Bool-cases (any (is_module org id) rows)) [
  | inl known ↦
      let (row, m, key) = any_witness (is_module org id) rows known in
      let (t, found) = find_row_total (is_module org id) m key in
      let (_, hit) = find_row-Mem (is_module org id) rows found in
      let read =
        find_row-update_where (is_module org id) (is_module org id) (stored p) rows (λ x. refl) in
      (t, rw known (read ∙ rw (found, hit)))
  | inr new ↦
      let read = find_row-insert_row (is_module org id) (added org id p) rows in
      (
        added org id p,
        rw new (read ∙ rw (find_row-none (is_module org id) rows new, eq_refl org, eq_refl id)),
      )
]

-- What setDependencies stores for a module is what getDependencies returns for it next.
pub set-get :
    (org id : String) (p : Dependencies) (rows : List ModuleInfo)
    → get_dependencies org id (set_dependencies org id p rows) ≡ some p
unfolding get_dependencies
set-get org id p rows = let (row, e) = info-set org id p rows in rw (e, get_dependencies)

info-set_other :
    (org id org' id' : String) (p : Dependencies) (rows : List ModuleInfo)
    → (org == org' && id == id') ≡ false
    → get_module_info org' id' (set_dependencies org id p rows) ≡ get_module_info org' id' rows
unfolding set_dependencies
info-set_other org id org' id' p rows apart = elim (Bool-cases (any (is_module org id) rows)) [
  | inl known ↦
      let read =
        find_row-update_where (is_module org' id') (is_module org id) (stored p) rows (λ x. refl) in
      rw known (
        read ∙ elim (Option-cases (find_row (is_module org' id') rows)) [
          | inl gone ↦ rw gone
          | inr (t, found) ↦
              let (_, hit) = find_row-Mem (is_module org' id') rows found in
              let miss : is_module org id t ≡ false = ground (
                arith,
                eq_iff t.org_id org',
                eq_iff t.module_id id',
                eq_iff t.org_id org,
                eq_iff t.module_id id,
                eq_iff org org',
                eq_iff id id',
                hit,
                apart,
              ) in
              rw (found, miss)
        ])
  | inr new ↦
      let read = find_row-insert_row (is_module org' id') (added org id p) rows in
      rw new (
        read ∙ elim (Option-cases (find_row (is_module org' id') rows)) [
          | inl gone ↦ rw (gone, apart)
          | inr (t, found) ↦ rw found
        ])
]

-- The dependencies of every other module, or of the same module in another organisation, are as
-- they were.
pub set-get_other :
    (org id org' id' : String) (p : Dependencies) (rows : List ModuleInfo)
    → (org == org' && id == id') ≡ false
    → get_dependencies org' id' (set_dependencies org id p rows) ≡ get_dependencies org' id' rows
unfolding get_dependencies
set-get_other org id org' id' p rows apart =
    ap
      (λ (o : Option ModuleInfo). elim o [
        | none ↦ none
        | some row ↦
            some
              (record { depends_on = row.depends_on; exports = row.exports; owners = row.owners })
      ])
      (info-set_other org id org' id' p rows apart)
