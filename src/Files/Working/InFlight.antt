-- ===== src/Files/Working/InFlight.antt =====
-- What getIndex shows of the files in flight, after each operation of the tracker.
use mcp_coordinator.Prelude.{
  ℕ, ◌+◌, ◌*◌, ◌≤◌, ◌≡◌, refl, sym, ap, ◌∙◌, inl, inr, String, Bool, true, false, not, ◌&&◌, List,
  [], ◌∷◌, ◌==◌, eq_iff, eq_refl, any, any-select, any_same, any_none, any_excluding, any_of_Mem,
  any_witness, Mem-append_right, head, includes, select, arith, Bool-cases, ltb,
}
use mcp_coordinator.Table.{Mem-update_where}
use mcp_coordinator.Files.{agents_at}
use mcp_coordinator.Files.Index.{index-select}
use mcp_coordinator.Files.Working.{
  WorkingFile, is_claim, start, stop, is_expired, sweep_expired, is_in_flight, held_file, get_index,
}

-- getIndex lists the agent at the file.
abbrev pub shows : ℕ → String → List String → String → List WorkingFile → String → String → Bool
shows now org files excluded rows f x =
    includes (agents_at f (get_index now org files excluded rows)) x

shows_lem :
    (now : ℕ) (org : String) (files : List String) (excluded : String) (rows : List WorkingFile)
    (f x : String)
    → shows now org files excluded rows f x
      ≡ any
          (λ r. is_in_flight now org files excluded r && (r.file_path == f && r.agent_id == x))
          rows
unfolding get_index
shows_lem now org [] excluded rows f x = sym (
    any_none (λ r. is_in_flight now org [] excluded r && (r.file_path == f && r.agent_id == x)) rows
      (λ r. ground arith))
shows_lem now org (file ∷ files) excluded rows f x =
    index-select held_file (is_in_flight now org (file ∷ files) excluded) rows f x

-- Sweeping the expired claims changes nothing of what is shown then or later.
pub shows-sweep_expired :
    (swept now : ℕ) (org : String) (files : List String) (excluded : String)
    (rows : List WorkingFile) (f x : String)
    → swept ≤ now
    → shows now org files excluded (sweep_expired swept rows).1 f x
      ≡ shows now org files excluded rows f x
unfolding sweep_expired
shows-sweep_expired swept now org files excluded rows f x order =
    shows_lem now org files excluded (select (λ row. not (is_expired swept row)) rows) f x
    ∙ any-select _ (λ row. not (is_expired swept row)) rows
    ∙ any_same _ _ rows (λ r. ground arith)
    ∙ sym (shows_lem now org files excluded rows f x)

-- After a stop everything is shown as before, but for that agent at that file in that organisation.
pub shows-stop :
    (now : ℕ) (org org' agent file : String) (files : List String) (excluded : String)
    (rows : List WorkingFile) (f x : String)
    → shows now org' files excluded (stop org agent file rows) f x
      ≡ shows now org' files excluded rows f x && not (org' == org && (f == file && x == agent))
unfolding stop
shows-stop now org org' agent file files excluded rows f x =
    shows_lem now org' files excluded (select (λ row. not (is_claim org agent file row)) rows) f x
    ∙ any-select _ (λ row. not (is_claim org agent file row)) rows
    ∙ any_excluding
        (λ (r : WorkingFile).
          is_in_flight now org' files excluded r && (r.file_path == f && r.agent_id == x))
        (is_claim org agent file) (org' == org && (f == file && x == agent)) rows
        (λ r h. same r (ground arith) (ground arith) (ground arith))
    ∙ ap (λ b. b && not (org' == org && (f == file && x == agent)))
        (sym (shows_lem now org' files excluded rows f x))
  where
    same :
        (r : WorkingFile)
        → (r.org_id == org') ≡ true
        → (r.file_path == f) ≡ true
        → (r.agent_id == x) ≡ true
        → is_claim org agent file r ≡ (org' == org && (f == file && x == agent))
    same r o p a =
        rw ((eq_iff r.org_id org').0 o, (eq_iff r.file_path f).0 p, (eq_iff r.agent_id x).0 a)
          (ground arith)

visible :
    (now : ℕ) (org agent file : String) (files : List String) (excluded : String) (r : WorkingFile)
    → is_claim org agent file r ≡ true
    → ltb now r.claim_until ≡ true
    → includes files file ≡ true
    → (agent == excluded) ≡ false
    → (is_in_flight now org files excluded r && (r.file_path == file && r.agent_id == agent)) ≡ true
visible now org agent file files excluded r claim fresh asked other =
    let o : r.org_id ≡ org = (eq_iff r.org_id org).0 (ground arith) in
    let p : r.file_path ≡ file = (eq_iff r.file_path file).0 (ground arith) in
    let a : r.agent_id ≡ agent = (eq_iff r.agent_id agent).0 (ground arith) in
    let asked' : includes files r.file_path ≡ true = ap (includes files) p ∙ asked in
    let other' : (r.agent_id == excluded) ≡ false = ap (λ y. y == excluded) a ∙ other in
    ground (arith, claim, fresh, asked', other')

-- A file that an agent starts on, for at least a minute, is shown to every other agent that asks
-- about it at that moment.
pub shows-start :
    (now : ℕ) (org agent file : String) (ttl_minutes : ℕ) (files : List String) (excluded : String)
    (rows : List WorkingFile)
    → 1 ≤ ttl_minutes
    → includes files file ≡ true
    → (agent == excluded) ≡ false
    → shows now org files excluded (start now org agent file ttl_minutes rows) file agent ≡ true
unfolding start
shows-start now org agent file ttl_minutes files excluded rows long asked other =
    shows_lem now org files excluded (start now org agent file ttl_minutes rows) file agent
    ∙ elim (Bool-cases (any (is_claim org agent file) rows)) [
      | inl known ↦
          let (r, m, e) = any_witness (is_claim org agent file) rows known in
          let later : WorkingFile = record r {
            last_activity_at = now;
            claim_until = now + ttl_minutes * 60;
          } in
          let n =
            Mem-update_where (is_claim org agent file)
              (λ row. record row { last_activity_at = now; claim_until = now + ttl_minutes * 60 })
              m in
          rw known (
            any_of_Mem _ (rw e at n)
              (visible now org agent file files excluded later e (ground arith) asked other))
      | inr new ↦
          let row : WorkingFile = record {
            org_id = org;
            agent_id = agent;
            file_path = file;
            started_at = now;
            last_activity_at = now;
            claim_until = now + ttl_minutes * 60;
          } in
          let claim : is_claim org agent file row ≡ true =
            rw (eq_refl org, eq_refl agent, eq_refl file) in
          let v = visible now org agent file files excluded row claim (ground arith) asked other in
          rw new (any_of_Mem _ (Mem-append_right rows (head refl)) v)
    ]
