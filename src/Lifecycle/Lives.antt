-- ===== src/Lifecycle/Lives.antt =====
-- What a call does to the threads table, as a relation on databases with its rules.
use mcp_coordinator.Prelude.{
  ◌≡◌, refl, sym, ap, ◌∙◌, subst, String, Bool, true, false, some, ◌==◌, any, arith, Memᴰ,
}
use mcp_coordinator.Table.{find_row, update_where, insert_row}
use mcp_coordinator.Table.Evolves.{
  Evolves, Evolves-refl, Evolves-insert, Evolves-update, Evolves-trans, Evolves-mono,
}
use mcp_coordinator.Store.{Db, Thread, ThreadMessage, get_thread, keyed, update_thread}
use mcp_coordinator.Consultation.Exec.{Exec, Outcome, ok, err, ◌>>=◌, insert_message, transaction}
use mcp_coordinator.Lifecycle.{Transition, Life, stay, once, Life-trans, Born, Born-Life, IsNew}
use mcp_coordinator.Lifecycle.Facts.{Life-SameWork}
use mcp_coordinator.Lifecycle.Keys.{
  IsKeyed-insert, Distinct, IsKeyed, ids-update_where, keyed_unique,
}

-- A row moves by transitions, and only where `scope` holds of its organisation.
pub record Moved (scope : String → Bool) (x y : Thread) : Type 0 where
  pub life : Life x y
  pub elsewhere : scope x.org_id ≡ false → y ≡ x

pub record Added (scope : String → Bool) (t : Thread) : Type 0 where
  pub born : Born t
  pub here : scope t.org_id ≡ true

-- The threads of `b` are those of `a`, moved, and new ones; and ids stay distinct.
pub record Lives (scope : String → Bool) (a b : Db) : Type 0 where
  pub at :
      IsKeyed a.threads
      → IsKeyed b.threads × Evolves (Moved scope) (Added scope) a.threads b.threads

-- The calls of one organisation.
abbrev pub within : String → String → Bool
within org o = o == org

module _ {scope : String → Bool} where
  Moved-refl : (x : Thread) → Moved scope x x
  Moved-refl x = record { life = stay; elsewhere = λ _. refl }

  Moved-trans : (x y z : Thread) → Moved scope x y → Moved scope y z → Moved scope x z
  Moved-trans x y z m n = record {
    life = Life-trans m.life n.life;
    elsewhere =
        λ h. let e = m.elsewhere h in n.elsewhere (ap (λ (t : Thread). scope t.org_id) e ∙ h) ∙ e;
  }

  Added-Moved : (y z : Thread) → Added scope y → Moved scope y z → Added scope z
  Added-Moved y z a m = record {
    born = Born-Life y z a.born m.life;
    here = ap scope (Life-SameWork m.life).org_id ∙ a.here;
  }

  pub Lives-same : {a b : Db} → b.threads ≡ a.threads → Lives scope a b
  Lives-same {a} {b} e = record {
    at = λ k. (
      subst IsKeyed (sym e) k,
      subst (Evolves (Moved scope) (Added scope) a.threads) (sym e)
          (Evolves-refl (Moved scope) (Added scope) Moved-refl a.threads),
    );
  }

  pub Lives-refl : {a : Db} → Lives scope a a
  Lives-refl = Lives-same refl

  pub Lives-trans : {a b c : Db} → Lives scope a b → Lives scope b c → Lives scope a c
  Lives-trans {a} {b} {c} h g = record {
    at = λ k.
        let (kb, eb) = h.at k in
        let (kc, ec) = g.at kb in
        (
          kc,
          Evolves-trans (Moved scope) (Added scope) a.threads b.threads c.threads Moved-trans
              Added-Moved eb ec,
        );
  }

  pub Lives-insert :
      (t : Thread) (db : Db)
      → IsNew t
      → scope t.org_id ≡ true
      → any (λ (u : Thread). u.id == t.id) db.threads ≡ false
      → Lives scope db (record db { threads = insert_row t db.threads })
  Lives-insert t db new here fresh = record {
    at = λ k. (
      IsKeyed-insert t db.threads fresh k,
      Evolves-insert (Moved scope) (Added scope) Moved-refl t db.threads
          (record { born = record { first = t; new = new; life = stay }; here = here }),
    );
  }

  pub Lives-update :
      (db : Db) (p : Thread → Bool) (f : Thread → Thread)
      → ((x : Thread) → (f x).id ≡ x.id)
      → ((x : Thread) → p x ≡ true → scope x.org_id ≡ true)
      → (IsKeyed db.threads → (x : Thread) → Memᴰ x db.threads → p x ≡ true → Transition x (f x))
      → Lives scope db (record db { threads = update_where p f db.threads })
  Lives-update db p f same here step = record {
    at = λ k. (
      subst (λ is. Distinct is) (sym (ids-update_where p f db.threads same)) k,
      Evolves-update (Moved scope) (Added scope) Moved-refl p f db.threads (λ x m h. record {
        life = once (step k x m h);
        elsewhere = λ away. absurd (cc (here x h, away));
      }),
    );
  }

-- The row that a method looked up is the row that its UPDATE writes.
pub Lives-update_thread :
    (org id : String) (db : Db) (f : Thread → Thread) (t : Thread)
    → ((x : Thread) → (f x).id ≡ x.id)
    → get_thread org id db ≡ some t
    → Transition t (f t)
    → Lives (within org) db (update_thread org id f db)
Lives-update_thread org id db f t same found step =
    Lives-update db (keyed org id) f same (λ x h. ground arith)
      λ k x m here.
        subst (λ y. Transition y (f y)) (sym (keyed_unique org id db.threads k found m here)) step

pub threads-insert_message :
    (m : ThreadMessage) (db : Db) → (insert_message m db).1.threads ≡ db.threads
unfolding insert_message
threads-insert_message m db = ground arith

pub bind-Lives :
    {scope : String → Bool} {A B : Type 0} (m : Exec A) (f : A → Exec B) (db : Db)
    → Lives scope db (m db).1
    → ((a : A) → Lives scope (m db).1 (f a (m db).1).1)
    → Lives scope db ((m >>= f) db).1
bind-Lives {scope} {A} {B} m f db l h = go (m db).0
  where
    go :
        (r : Outcome A)
        → Lives scope db
            (elim r as (λ _. Outcome B × Db) [ ok a ↦ f a (m db).1 | err x ↦ (err x, (m db).1) ]).1
    go (ok a) = Lives-trans l (h a)
    go (err x) = l

pub get_thread-same :
    (org id : String) (a b : Db) {t : Thread}
    → b.threads ≡ a.threads
    → get_thread org id a ≡ some t
    → get_thread org id b ≡ some t
get_thread-same org id a b e found = ap (find_row (keyed org id)) e ∙ found

pub transaction-Lives :
    {scope : String → Bool} {A : Type 0} (m : Exec A) (db : Db)
    → Lives scope db (m db).1
    → Lives scope db (transaction m db).1
transaction-Lives {scope} {A} m db l = go (m db).0
  where
    go :
        (r : Outcome A)
        → Lives scope db
            (elim r as (λ _. Outcome A × Db) [ ok a ↦ (ok a, (m db).1) | err e ↦ (err e, db) ]).1
    go (ok a) = l
    go (err e) = Lives-refl

pub Lives-weaken : {scope : String → Bool} {a b : Db} → Lives scope a b → Lives (λ _. true) a b
Lives-weaken {scope} {a} {b} l = record {
  at = λ k.
      let (k', e) = l.at k in
      (
        k',
        Evolves-mono (Moved scope) (Added scope) (Moved (λ _. true)) (Added (λ _. true)) a.threads
            b.threads (λ x y m. record { life = m.life; elsewhere = λ h. absurd (cc h) })
            (λ y n. record { born = n.born; here = refl }) e,
      );
}
