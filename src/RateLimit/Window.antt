-- ===== src/RateLimit/Window.antt =====
-- The calls under one key over a whole history of calls and sweeps of src/auth/rate-limit.ts.
use native.Mathlib.Nat.{add-mul}
use mcp_coordinator.Prelude.{
  ℕ, ◌+◌, ◌-◌, ◌*◌, ◌≤◌, String, ◌≡◌, ◌≢◌, refl, sym, ap, subst, ◌∙◌, inl, inr, Bool, true, false,
  not, ◌&&◌, none, some, List, [], ◌∷◌, ◌==◌, eq_iff, eq_refl, select, leb, ltb→lt, leb→le,
  if◌then◌else◌, arith, Bool-cases, Option-cases, any, any_of_Mem, any_witness, Memᴰ, head, tail,
  Mem_of_select, Mem-select,
}
use mcp_coordinator.Table.{find_row, find_row-Mem, find_row_total}
use mcp_coordinator.RateLimit.{
  Config, Bucket, is_allowed, capacity, has_key, is_lapsed, take, put, check, sweep,
}
use mcp_coordinator.RateLimit.Budget.{
  IsKept, Kept, potential, elapse, potential_later, expired_full, level, level_le, level-Kept,
  Keyed, level_key,
}

-- What reaches the limiter: a call under a key, or a sweep, each at its second.
pub data Event : Type 0 where
  visit : String → ℕ → Event
  tick : ℕ → Event

abbrev pub time : Event → ℕ
time (visit key now) = now
time (tick now) = now

-- The clock does not go back.
abbrev pub Ordered : ℕ → List Event → Type 0
Ordered start [] = Unit
Ordered start (e ∷ es) = (start ≤ time e) × Ordered (time e) es

abbrev pub end_of : ℕ → List Event → ℕ
end_of start [] = start
end_of start (e ∷ es) = end_of (time e) es

abbrev one_if : Bool → ℕ
one_if b = if b then 1 else 0

-- The calls under the key that are let through, where each key has its configuration.
unfoldable pub admitted : (String → Config) → String → List Event → List Bucket → ℕ
unfolding check sweep
admitted config key [] bs = 0
admitted config key (visit other now ∷ es) bs =
    let (answer, bs') = check other (config other) now bs in
    one_if (other == key && is_allowed answer) + admitted config key es bs'
admitted config key (tick now ∷ es) bs = admitted config key es (sweep now bs).0

end_of_le : (start : ℕ) (es : List Event) → Ordered start es → start ≤ end_of start es
end_of_le start [] h = omega arith
end_of_le start (e ∷ es) h = omega (arith, h.0, end_of_le (time e) es h.1)

module _ (key : String) (cfg : Config) where
  -- The buckets under the key hold at most `v` by now, and if there is none, a new one holds no more.
  record Holds (now v : ℕ) (bs : List Bucket) : Type 0 where
    each :
        (b : Bucket)
        → Memᴰ b bs
        → has_key key b ≡ true
        → IsKept cfg now b × (potential cfg now (some b) ≤ v)
    fresh : any (has_key key) bs ≡ false → capacity cfg ≤ v

  Holds_later :
      (now later v : ℕ) (bs : List Bucket)
      → now ≤ later
      → Holds now v bs
      → Holds later (v + (later - now) * cfg.per) bs
  Holds_later now later v bs le h = record {
    each = λ b m e.
        let (k, p) = h.each b m e in
        (
          record { past = omega (arith, k.past); lifetime = k.lifetime },
          omega (arith, p, potential_later cfg now later (some b) le k),
        );
    fresh = λ e. omega (arith, h.fresh e);
  }

  Holds-sweep : (now v : ℕ) (bs : List Bucket) → Holds now v bs → Holds now v (sweep now bs).0
  unfolding sweep
  Holds-sweep now v bs h = record {
    each = λ b m e. h.each b (Mem_of_select (λ (c : Bucket). not (is_lapsed now c)) bs m).0 e;
    fresh = λ e. elim (Bool-cases (any (has_key key) bs)) [
      | inr none_left ↦ h.fresh none_left
      | inl there ↦
          let (b, m, hit) = any_witness (has_key key) bs there in
          elim (Bool-cases (is_lapsed now b)) [
            | inl old ↦
                let (k, p) = h.each b m hit in
                omega (arith, p, expired_full cfg now b k (ltb→lt b.expires_at now old))
            | inr young ↦ absurd (
                cc (
                  e,
                  any_of_Mem (has_key key)
                      (Mem-select (λ (c : Bucket). not (is_lapsed now c)) m (ap not young)) hit,
                ))
          ]
    ];
  }

  none_there : (bs : List Bucket) → find_row (has_key key) bs ≡ none → any (has_key key) bs ≡ false
  none_there bs missing = elim (Bool-cases (any (has_key key) bs)) [
    | inr e ↦ e
    | inl there ↦
        let (b, m, hit) = any_witness (has_key key) bs there in
        let (t, e) = find_row_total (has_key key) m hit in absurd (cc (missing, e))
  ]

  found_holds :
      (now v : ℕ) (bs : List Bucket)
      → Holds now v bs
      → let o = find_row (has_key key) bs in
        Kept cfg now o × Keyed cfg key o × (potential cfg now o ≤ v)
  found_holds now v bs h = elim (Option-cases (find_row (has_key key) bs)) [
    | inl missing ↦ rw missing (tt, tt, h.fresh (none_there bs missing))
    | inr (b, e) ↦
        let (m, hit) = find_row-Mem (has_key key) bs e in
        let (k, p) = h.each b m hit in rw e (k, (eq_iff b.key key).0 hit, p)
  ]

  unkeyed : (c b : Bucket) → c.key ≢ key → has_key key b ≡ true → not (has_key c.key b) ≡ true
  unkeyed c b apart e = elim (Bool-cases (has_key c.key b)) [
    | inl same ↦ absurd (apart (sym ((eq_iff b.key c.key).0 same) ∙ (eq_iff b.key key).0 e))
    | inr other ↦ ap not other
  ]

  Holds-put_mine :
      (now : ℕ) (bs : List Bucket) (c : Bucket)
      → c.key ≡ key
      → c.last_refill ≡ now
      → c.expires_at ≡ now + cfg.window_seconds
      → Holds now c.tokens (put c bs)
  Holds-put_mine now bs c mine last lifetime = record {
    each = λ b m e. kept b e m;
    fresh =
        λ e. absurd (cc (e, any_of_Mem (has_key key) (head {x = c} {xs = others} refl) is_mine));
  }
    where
      is_mine : has_key key c ≡ true
      is_mine = (eq_iff c.key key).1 mine

      others : List Bucket
      others = select (λ (b : Bucket). not (has_key c.key b)) bs

      kept :
          (b : Bucket)
          → has_key key b ≡ true
          → Memᴰ b (put c bs)
          → IsKept cfg now b × (potential cfg now (some b) ≤ c.tokens)
      kept b e (head same) =
          let none_since : now - c.last_refill ≡ 0 = omega (arith, last) in
          subst (λ d. IsKept cfg now d × (potential cfg now (some d) ≤ c.tokens)) (sym same)
            (
              record { past = omega (arith, last); lifetime = omega (arith, lifetime, last) },
              omega (arith, ap (λ n. n * cfg.per) none_since),
            )
      kept b e (tail n) =
          let (m, other) = Mem_of_select (λ (d : Bucket). not (has_key c.key d)) bs n in
          absurd (cc (other, e, mine))

  Holds-put_other :
      (now v : ℕ) (bs : List Bucket) (c : Bucket)
      → c.key ≢ key
      → Holds now v bs
      → Holds now v (put c bs)
  Holds-put_other now v bs c apart h = record {
    each = λ b m e. kept b e m;
    fresh = λ e. elim (Bool-cases (any (has_key key) bs)) [
      | inr none_left ↦ h.fresh none_left
      | inl there ↦
          let (b, m, hit) = any_witness (has_key key) bs there in
          absurd (
            cc (
              e,
              any_of_Mem (has_key key) {a = b} {xs = put c bs}
                  (tail
                    (Mem-select (λ (d : Bucket). not (has_key c.key d)) m (unkeyed c b apart hit)))
                  hit,
            ))
    ];
  }
    where
      kept :
          (b : Bucket)
          → has_key key b ≡ true
          → Memᴰ b (put c bs)
          → IsKept cfg now b × (potential cfg now (some b) ≤ v)
      kept b e (head same) =
          absurd (apart (ap (λ (d : Bucket). d.key) (sym same) ∙ (eq_iff b.key key).0 e))
      kept b e (tail n) = h.each b (Mem_of_select (λ (d : Bucket). not (has_key c.key d)) bs n).0 e

  -- A call that is let through takes one token's worth, and any other takes nothing.
  spend :
      (now v : ℕ) (bs : List Bucket)
      → Holds now v bs
      → (w : ℕ) × Holds now w (check key cfg now bs).1
        × (w + one_if (is_allowed (check key cfg now bs).0) * cfg.window_seconds ≤ v)
  unfolding check
  spend now v bs h =
      let (k, name, p) = found_holds now v bs h in
      let b = level cfg key now (find_row (has_key key) bs) in
      let few : b.tokens ≤ v =
        omega (arith, p, level_le cfg key now (find_row (has_key key) bs) k) in
      let (last, lifetime) = level-Kept cfg key now (find_row (has_key key) bs) k in
      let mine = level_key cfg key now (find_row (has_key key) bs) name in
      taken b few last lifetime mine
    where
      taken :
          (b : Bucket)
          → b.tokens ≤ v
          → b.last_refill ≡ now
          → b.expires_at ≡ now + cfg.window_seconds
          → b.key ≡ key
          → (w : ℕ) × Holds now w (put (take cfg now b).1 bs)
            × (w + one_if (is_allowed (take cfg now b).0) * cfg.window_seconds ≤ v)
      taken b few last lifetime mine = elim (Bool-cases (leb cfg.window_seconds b.tokens)) [
        | inl e ↦
            let c : Bucket = record b { tokens = b.tokens - cfg.window_seconds } in
            let le : cfg.window_seconds ≤ b.tokens = leb→le cfg.window_seconds b.tokens e in
            rw (e, take)
              (c.tokens, Holds-put_mine now bs c mine last lifetime, omega (arith, le, few))
        | inr e ↦
            rw (e, take) (b.tokens, Holds-put_mine now bs b mine last lifetime, omega (arith, few))
      ]

  key-take : (c : Config) (now : ℕ) (b : Bucket) → (take c now b).1.key ≡ b.key
  unfolding take
  key-take c now b = ground arith

  found-Keyed : (other : String) (bs : List Bucket) → Keyed cfg other (find_row (has_key other) bs)
  found-Keyed other bs = elim (Option-cases (find_row (has_key other) bs)) [
    | inl e ↦ rw e tt
    | inr (b, e) ↦ rw e ((eq_iff b.key other).0 (find_row-Mem (has_key other) bs e).1)
  ]

  -- A call under another key leaves this key's buckets alone.
  pass :
      (other : String) (c : Config) (now v : ℕ) (bs : List Bucket)
      → other ≢ key
      → Holds now v bs
      → Holds now v (check other c now bs).1
  unfolding check
  pass other c now v bs apart h =
      let b = level c other now (find_row (has_key other) bs) in
      Holds-put_other now v bs (take c now b).1
        (λ e. apart (
          sym (
            key-take c now b
            ∙ level_key c other now (find_row (has_key other) bs) (found-Keyed other bs))
          ∙ e))
        h

module _ (config : String → Config) (key : String) where
  abbrev Visited : String → ℕ → ℕ → List Bucket → Type 0
  Visited other now v bs =
      (w : ℕ) × Holds key (config key) now w (check other (config other) now bs).1
      × (w
            + one_if (other == key && is_allowed (check other (config other) now bs).0)
              * (config key).window_seconds
          ≤ v)

  visited :
      (other : String) (now v : ℕ) (bs : List Bucket)
      → Holds key (config key) now v bs
      → Visited other now v bs
  visited other now v bs h = elim (Bool-cases (other == key)) [
    | inl e ↦
        let (w, held, le) = spend key (config key) now v bs h in
        subst (λ k. Visited k now v bs) (sym ((eq_iff other key).0 e))
          (w, held, rw (eq_refl key) le)
    | inr e ↦ (
      v,
      pass key (config key) other (config other) now v bs
          (λ same. absurd (cc (e, (eq_iff other key).1 same))) h,
      rw e (omega arith),
    )
  ]

  admitted_le :
      (start v : ℕ) (es : List Event) (bs : List Bucket)
      → Holds key (config key) start v bs
      → Ordered start es
      → admitted config key es bs * (config key).window_seconds
        ≤ v + (end_of start es - start) * (config key).per
  unfolding admitted
  admitted_le start v [] bs h o = omega arith
  admitted_le start v (visit other now ∷ es) bs h o =
      let cfg = config key in
      let v' = v + (now - start) * cfg.per in
      let (w, held, le) = visited other now v' bs (Holds_later key cfg start now v bs o.0 h) in
      let bs' = (check other (config other) now bs).1 in
      let n = one_if (other == key && is_allowed (check other (config other) now bs).0) in
      let ih = admitted_le now w es bs' held o.1 in
      omega (
        arith,
        ih,
        le,
        add-mul n (admitted config key es bs') cfg.window_seconds,
        elapse cfg start now (end_of now es) o.0 (end_of_le now es o.1),
      )
  admitted_le start v (tick now ∷ es) bs h o =
      let cfg = config key in
      let later = Holds_later key cfg start now v bs o.0 h in
      let ih =
        admitted_le now (v + (now - start) * cfg.per) es (sweep now bs).0
          (Holds-sweep key cfg now (v + (now - start) * cfg.per) bs later) o.1 in
      omega (arith, ih, elapse cfg start now (end_of now es) o.0 (end_of_le now es o.1))

  -- Over any history of calls under all keys and of sweeps, while the clock does not go back, the
  -- calls let through under one key are at most a full bucket's and the refill of the time elapsed.
  pub admitted_bound :
      (start : ℕ) (es : List Event)
      → Ordered start es
      → admitted config key es [] * (config key).window_seconds
        ≤ (config key).per * (config key).window_seconds
          + (end_of start es - start) * (config key).per
  admitted_bound start es o =
      admitted_le start (capacity (config key)) es []
        record { each = λ b m e. elim m [ ]; fresh = λ e. omega arith } o
