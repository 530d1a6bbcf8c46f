-- ===== src/Auth/Outcomes.antt =====
-- What the outcome of a sequence of steps says of the first of them.
use mcp_coordinator.Prelude.{String, ◌≡◌, refl, ap}
use mcp_coordinator.Auth.State.{AuthDb}
use mcp_coordinator.Auth.Steps.{Step, Answer, done, reply, thrown, token_pair, ◌>>=◌}

-- A step that gives out no tokens.
abbrev pub Mute : {A : Type 0} → Step A → Type 0
Mute m = (db : AuthDb) (x y : String) → ¬ ((m db).0 ≡ reply (token_pair x y))

module _ {A B : Type 0} where
  abbrev next : (A → Step B) → Answer A × AuthDb → Answer B × AuthDb
  next f r = elim r.0 [ done a ↦ f a r.1 | reply w ↦ (reply w, r.1) | thrown ↦ (thrown, r.1) ]

  -- A sequence that is done has done its first step.
  pub done_inv :
      (m : Step A) (f : A → Step B) (db : AuthDb) {b : B} {out : AuthDb}
      → (m >>= f) db ≡ (done b, out)
      → (a : A) × (mid : AuthDb) × (m db ≡ (done a, mid)) × (f a mid ≡ (done b, out))
  done_inv m f db {b} {out} h = first (m db) h
    where
      first :
          (r : Answer A × AuthDb)
          → next f r ≡ (done b, out)
          → (a : A) × (mid : AuthDb) × (r ≡ (done a, mid)) × (f a mid ≡ (done b, out))
      first (done a, mid) e = (a, mid, refl, e)
      first (reply w, mid) e = absurd (cc (ap (λ r. r.0) e))
      first (thrown, mid) e = absurd (cc (ap (λ r. r.0) e))

  -- Tokens that come out of a sequence come out of what follows its first step, if that gives none.
  pub tokens_inv :
      (m : Step A) (f : A → Step B) (db : AuthDb) {x y : String} {out : AuthDb}
      → Mute m
      → (m >>= f) db ≡ (reply (token_pair x y), out)
      → (a : A) × (mid : AuthDb) × (m db ≡ (done a, mid))
        × (f a mid ≡ (reply (token_pair x y), out))
  tokens_inv m f db {x} {y} {out} mute h = first (m db) (λ e. mute db x y e) h
    where
      first :
          (r : Answer A × AuthDb)
          → ¬ (r.0 ≡ reply (token_pair x y))
          → next f r ≡ (reply (token_pair x y), out)
          → (a : A) × (mid : AuthDb) × (r ≡ (done a, mid))
            × (f a mid ≡ (reply (token_pair x y), out))
      first (done a, mid) n e = (a, mid, refl, e)
      first (reply w, mid) n e = absurd (n (cc (ap (λ r. r.0) e)))
      first (thrown, mid) n e = absurd (cc (ap (λ r. r.0) e))

  pub Mute-bind : (m : Step A) (f : A → Step B) → Mute m → ((a : A) → Mute (f a)) → Mute (m >>= f)
  Mute-bind m f hm hf db x y e = rest (m db) (λ k. hm db x y k) e
    where
      rest :
          (r : Answer A × AuthDb)
          → ¬ (r.0 ≡ reply (token_pair x y))
          → ¬ ((next f r).0 ≡ reply (token_pair x y))
      rest (done a, mid) n k = hf a mid x y k
      rest (reply w, mid) n k = n (cc k)
      rest (thrown, mid) n k = cc k
