-- ===== src/Claims/Exclusion.antt =====
-- File exclusion between the holders of open threads of one organisation, which the NOT EXISTS of
-- handleClaimTask is for.
use mathlib.Core.Path.{subst₂}
use mcp_coordinator.Prelude.{
  ◌≡◌, refl, sym, ◌∙◌, inl, inr, String, Bool, true, false, ◌&&◌, List, some, ◌==◌, eq_iff, any,
  any_of_Mem, any_witness, includes, arith, Memᴰ, Bool-cases, Option-cases, leb, if◌then◌else◌,
}
use mcp_coordinator.Clock.{to_iso}
use mcp_coordinator.Table.{update_where, Mem_of_update_where}
use mcp_coordinator.Store.{Env, Db, Thread, is_opened, keyed, get_thread}
use mcp_coordinator.Claims.{
  shares_file, blocks, claimable, handle_claim_task, handle_unclaim_task, unclaimable, unclaimed,
  poison_worn_out,
}

-- `a` and `b` are open, of one organisation, held by different agents, and share a file.
pub record Contend (a b : Thread) : Type 0 where
  pub same_org : a.org_id ≡ b.org_id
  pub apart : (a.id == b.id) ≡ false
  pub open_a : is_opened a ≡ true
  pub open_b : is_opened b ≡ true
  pub agent_a : String
  pub agent_b : String
  pub held_a : a.claimed_by ≡ some agent_a
  pub held_b : b.claimed_by ≡ some agent_b
  pub rivals : (agent_a == agent_b) ≡ false
  pub shared : shares_file a b ≡ true

abbrev pub IsExclusive : Db → Type 0
IsExclusive db = (a b : Thread) → Memᴰ a db.threads → Memᴰ b db.threads → ¬ Contend a b

shares_file_comm : (a b : Thread) → shares_file a b ≡ true → shares_file b a ≡ true
shares_file_comm a b h =
    let (f, m, e) = any_witness (includes b.target_files) a.target_files h in
    let (g, n, e') = any_witness (λ x. x == f) b.target_files e in
    any_of_Mem (includes a.target_files) n
      (any_of_Mem (λ x. x == g) m (ground (arith, eq_iff g f, eq_iff f g)))

Contend-sym : {a b : Thread} → Contend a b → Contend b a
Contend-sym {a} {b} c = record {
  same_org = sym c.same_org;
  apart = ground (arith, eq_iff a.id b.id, eq_iff b.id a.id, c.apart);
  open_a = c.open_b;
  open_b = c.open_a;
  agent_a = c.agent_b;
  agent_b = c.agent_a;
  held_a = c.held_b;
  held_b = c.held_a;
  rivals = ground (arith, eq_iff c.agent_a c.agent_b, eq_iff c.agent_b c.agent_a, c.rivals);
  shared = shares_file_comm a b c.shared;
}

-- A row that the UPDATE grants does not contend with any row of the table.
granted-free :
    (env : Env) (org id agent : String) (threads : List Thread) (t b : Thread)
    → claimable org id agent threads t ≡ true
    → Memᴰ b threads
    → ¬ Contend (record t { claimed_by = some agent; claimed_at = some (to_iso env.now) }) b
unfolding claimable
granted-free env org id agent threads t b granted m c =
    let blocked : blocks agent t b ≡ true = ground (
      arith,
      c.same_org,
      c.apart,
      c.open_b,
      c.held_a,
      c.held_b,
      c.rivals,
      c.shared,
      eq_iff b.org_id t.org_id,
      eq_iff b.id t.id,
      eq_iff t.id b.id,
      eq_iff c.agent_a c.agent_b,
      eq_iff c.agent_b agent,
    ) in
    ground (arith, any_of_Mem (blocks agent t) m blocked)

granted : Env → String → Thread → Thread
granted env agent t = record t { claimed_by = some agent; claimed_at = some (to_iso env.now) }

claimable-keyed :
    (org id agent : String) (threads : List Thread) (t : Thread)
    → claimable org id agent threads t ≡ true
    → t.id ≡ id
unfolding claimable
claimable-keyed org id agent threads t h = (eq_iff t.id id).0 (ground arith)

-- Two rows after the UPDATE, each granted or as it was.
update-exclusive :
    (env : Env) (org id agent : String) (db : Db)
    → IsExclusive db
    → (a b : Thread) → Memᴰ a db.threads
    → Memᴰ b db.threads
    → ¬ Contend
        (if claimable org id agent db.threads a then granted env agent a else a)
        (if claimable org id agent db.threads b then granted env agent b else b)
unfolding granted
update-exclusive env org id agent db ex a b m n =
    elim (Bool-cases (claimable org id agent db.threads a)) [
      | inl ga ↦ elim (Bool-cases (claimable org id agent db.threads b)) [
        | inl gb ↦
            rw (ga, gb)
              λ c.
                let same =
                  claimable-keyed org id agent db.threads a ga
                  ∙ sym (claimable-keyed org id agent db.threads b gb) in
                absurd (ground (arith, (eq_iff a.id b.id).1 same, c.apart))
        | inr nb ↦ rw (ga, nb) λ c. granted-free env org id agent db.threads a b ga n c
      ]
      | inr na ↦ elim (Bool-cases (claimable org id agent db.threads b)) [
        | inl gb ↦
            rw (na, gb) λ c. granted-free env org id agent db.threads b a gb m (Contend-sym c)
        | inr nb ↦ rw (na, nb) (ex a b m n)
      ]
    ]

-- A claim keeps the table free of contention: where no two open threads held by different agents
-- share a file, none do after the claim, whatever its reply.
pub claim-IsExclusive :
    (env : Env) (org id agent : String) (db : Db)
    → IsExclusive db
    → IsExclusive (handle_claim_task env org id agent db).1
unfolding handle_claim_task granted
claim-IsExclusive env org id agent db ex =
    elim (Bool-cases (any (claimable org id agent db.threads) db.threads)) [
      | inr h ↦ rw h ex
      | inl h ↦ rw h λ a' b' m' n' c.
          let p = claimable org id agent db.threads in
          let (a, m, e) = Mem_of_update_where p (granted env agent) db.threads m' in
          let (b, n, f) = Mem_of_update_where p (granted env agent) db.threads n' in
          update-exclusive env org id agent db ex a b m n (subst₂ Contend e f c)
    ]

-- An update that only lets claims go, or takes rows out of the open ones, cannot add contention.
abbrev Loosens : Thread → Thread → Type 0
Loosens x y =
    (y.id ≡ x.id)
    × (y.org_id ≡ x.org_id)
    × (y.target_files ≡ x.target_files)
    × (is_opened y ≡ true → is_opened x ≡ true)
    × ((agent : String) → y.claimed_by ≡ some agent → x.claimed_by ≡ some agent)

Contend-Loosens : {a b a' b' : Thread} → Loosens a a' → Loosens b b' → Contend a' b' → Contend a b
Contend-Loosens {a} {b} {a'} {b'} l m c = record {
  same_org = sym l.1 ∙ c.same_org ∙ m.1;
  apart = rw (← l.0, ← m.0) c.apart;
  open_a = l.3 c.open_a;
  open_b = m.3 c.open_b;
  agent_a = c.agent_a;
  agent_b = c.agent_b;
  held_a = l.4 c.agent_a c.held_a;
  held_b = m.4 c.agent_b c.held_b;
  rivals = c.rivals;
  shared = rw (← l.2, ← m.2) c.shared;
}

if-Loosens : (b : Bool) (x y : Thread) → Loosens x y → Loosens x (if b then y else x)
if-Loosens true x y l = l
if-Loosens false x y l = (refl, refl, refl, λ e. e, λ agent e. e)

update-Loosens :
    (p : Thread → Bool) (f : Thread → Thread) (db : Db)
    → ((x : Thread) → Loosens x (f x))
    → IsExclusive db
    → IsExclusive (record db { threads = update_where p f db.threads })
update-Loosens p f db loosens ex a' b' m' n' c =
    let (a, m, e) = Mem_of_update_where p f db.threads m' in
    let (b, n, g) = Mem_of_update_where p f db.threads n' in
    ex a b m n (
      Contend-Loosens (if-Loosens (p a) a (f a) (loosens a)) (if-Loosens (p b) b (f b) (loosens b))
        (subst₂ Contend e g c))

poison_worn_out-IsExclusive :
    (org id : String) (db : Db) → IsExclusive db → IsExclusive (poison_worn_out org id db).1
unfolding poison_worn_out
poison_worn_out-IsExclusive org id db ex = elim (Option-cases (get_thread org id db)) [
  | inl e ↦ rw (e, poison_worn_out) ex
  | inr (row, e) ↦ elim (Bool-cases (leb 2 row.unclaim_count)) [
    | inl h ↦
        rw (e, h, poison_worn_out)
          (update-Loosens (λ t. keyed org id t && is_opened t) _ db
            (λ x. (refl, refl, refl, λ e. absurd (cc e), λ agent e. e)) ex)
    | inr h ↦ rw (e, h, poison_worn_out) ex
  ]
]

-- Giving a claim up keeps the table free of contention too.
pub unclaim-IsExclusive :
    (org id agent : String) (db : Db)
    → IsExclusive db
    → IsExclusive (handle_unclaim_task org id agent db).1
unfolding handle_unclaim_task
unclaim-IsExclusive org id agent db ex =
    elim (Bool-cases (any (unclaimable org id agent) db.threads)) [
      | inr h ↦ rw h ex
      | inl h ↦ rw h (
          poison_worn_out-IsExclusive org id _ (
            update-Loosens (unclaimable org id agent) unclaimed db
              (λ x. (refl, refl, refl, λ e. e, λ agent e. absurd (cc e))) ex))
    ]
