-- ===== src/Files/Index.antt =====
-- What the index of getFileToAgentsIndex and getIndex holds.
use mcp_coordinator.Prelude.{
  ℕ, ◌≡◌, sym, ap, ◌∙◌, inl, inr, String, Bool, true, not, ◌&&◌, ◌||◌, List, [], ◌∷◌, map, ◌==◌,
  eq_iff, any, any-append, any-select, any_same, any_none, any-map, includes, select, arith,
  Bool-cases,
}
use mcp_coordinator.Clock.{minutes_ago, text_lt}
use mcp_coordinator.Files.{
  FileActivity, AgentIndex, agents_at, add_agent, index_rows, is_recent_edit, edited,
  get_file_to_agents_index, check_file_conflict, distinct,
}

pub add_agent_lem :
    (file agent f x : String) (index : AgentIndex)
    → includes (agents_at f (add_agent file agent index)) x
      ≡ includes (agents_at f index) x || (file == f && agent == x)
add_agent_lem file agent f x [] = ground arith
add_agent_lem file agent f x ((g, agents) ∷ index) = ground (
  arith,
  eq_iff g file,
  eq_iff file f,
  eq_iff g f,
  eq_iff agent x,
  add_agent_lem file agent f x index,
  any-append (λ y. y == x) agents (agent ∷ []),
  eq_iff x agent,
)

pub index_rows_lem :
    (f x : String) (rows : List (String × String)) (index : AgentIndex)
    → includes (agents_at f (index_rows rows index)) x
      ≡ includes (agents_at f index) x || any (λ r. r.0 == f && r.1 == x) rows
unfolding index_rows
index_rows_lem f x [] index = ground arith
index_rows_lem f x ((file, agent) ∷ rows) index = ground (
  arith,
  index_rows_lem f x rows (add_agent file agent index),
  add_agent_lem file agent f x index,
)

pub index-select {ℓ} :
    {A : Type ℓ} (key : A → String × String) (p : A → Bool) (rows : List A) (f x : String)
    → includes (agents_at f (index_rows (map key (select p rows)) [])) x
      ≡ any (λ r. p r && ((key r).0 == f && (key r).1 == x)) rows
index-select key p rows f x =
    index_rows_lem f x (map key (select p rows)) []
    ∙ any-map (λ r. r.0 == f && r.1 == x) key (select p rows)
    ∙ any-select (λ r. (key r).0 == f && (key r).1 == x) p rows

-- An agent stands in the index at a file exactly where the organisation has a recent edit of that
-- file by that agent, which is among the files asked for and not by the excluded agent.
pub index_exact :
    (now : ℕ) (org : String) (files : List String) (agent : String) (minutes : ℕ)
    (rows : List FileActivity) (f x : String)
    → includes (agents_at f (get_file_to_agents_index now org files agent minutes rows)) x
      ≡ any
          (λ row.
            is_recent_edit now org files agent minutes row
            && (row.file_path == f && row.agent_id == x))
          rows
unfolding get_file_to_agents_index
index_exact now org [] agent minutes rows f x = sym (
    any_none
      (λ row.
        is_recent_edit now org [] agent minutes row && (row.file_path == f && row.agent_id == x))
      rows (λ row. ground arith))
index_exact now org (file ∷ files) agent minutes rows f x =
    let recent = is_recent_edit now org (file ∷ files) agent minutes in
    index-select edited recent rows f x

includes-distinct :
    (x : String) (xs seen : List String)
    → includes (distinct seen xs) x ≡ not (includes seen x) && includes xs x
includes-distinct x [] seen = ground arith
includes-distinct x (y ∷ xs) seen = ground (
  arith,
  eq_iff y x,
  includes-distinct x xs (y ∷ seen),
  includes-distinct x xs seen,
  ap (includes seen),
)

-- For each of the files asked for, the index has the agents that checkFileConflict returns.
pub index_agrees :
    (now : ℕ) (org : String) (files : List String) (agent : String) (minutes : ℕ)
    (rows : List FileActivity) (f x : String)
    → includes files f ≡ true
    → includes (agents_at f (get_file_to_agents_index now org files agent minutes rows)) x
      ≡ includes (check_file_conflict now org f agent minutes rows) x
unfolding check_file_conflict
index_agrees now org files agent minutes rows f x asked =
    let old : FileActivity → Bool = λ row.
      row.org_id == org
      && row.file_path == f
      && not (row.agent_id == agent)
      && text_lt (minutes_ago now minutes) row.created_at in
    let agent_of : FileActivity → String = λ row. row.agent_id in
    index_exact now org files agent minutes rows f x
    ∙ any_same _ (λ row. old row && row.agent_id == x) rows (λ row. same row)
    ∙ sym (any-select (λ (row : FileActivity). row.agent_id == x) old rows)
    ∙ sym (any-map (λ y. y == x) agent_of (select old rows))
    ∙ sym (includes-distinct x (map agent_of (select old rows)) [])
  where
    same :
        (row : FileActivity)
        → (is_recent_edit now org files agent minutes row
            && (row.file_path == f && row.agent_id == x))
          ≡ ((row.org_id == org
                && row.file_path == f
                && not (row.agent_id == agent)
                && text_lt (minutes_ago now minutes) row.created_at)
              && row.agent_id == x)
    same row = elim (Bool-cases (row.file_path == f)) [
      | inl e ↦
          let h : includes files row.file_path ≡ true =
            ap (includes files) ((eq_iff row.file_path f).0 e) ∙ asked in
          ground (arith, h, e)
      | inr e ↦ ground (arith, e)
    ]
