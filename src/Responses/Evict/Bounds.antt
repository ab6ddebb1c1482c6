-- ===== src/Responses/Evict/Bounds.antt =====
-- The totals after an eviction, and the limits after a trim.
use mathlib.Core.Option.{some-injective}
use mathlib.Core.Path.{subst}
use metafusion.Prelude.{
  if◌then◌else◌, ◌+◌, ◌-◌, ◌≡◌, ◌&&◌, ◌∷◌, refl, [], Dict, Option, lookup, ℕ, Unique, total, String,
  none, some, arith, if_rule, Bool, leb, ltb, true, false, ◌∙◌, eq_refl, sym, ap, suc, str_eq,
  remove, eq_iff, remove-Unique, not, total-remove, part, zero, ◌≤◌, ◌<◌, is_some, ◌==◌, ◌||◌,
}
use metafusion.Responses.{Cache, Row, Connection, rows, with_table, bytes, table_of, is_open}
use metafusion.Responses.Evict.{
  delete_expired, oldest, unexpired, expired, older, take_oldest, delete_batch, trim_loop,
  trim_database, batch_size, over_limit, is_nil,
}

-- The totals are those of the table.
pub record Matches (t : Dict Row) (n b : ℕ) : Type 0 where
  pub unique : Unique t
  pub count : n ≡ rows t
  pub size : b ≡ bytes t

abbrev pub CountedAs : Option Connection → ℕ → ℕ → Type 0
CountedAs none n b = Unit
CountedAs (some k) n b =
    Matches k.table n b × Matches k.committed.table k.committed.entry_count k.committed.stored_bytes

-- The totals that the cache keeps are those of its table, and the committed ones are those of the
-- committed table.
abbrev pub Counted : Cache → Type 0
Counted c = CountedAs c.connection c.entry_count c.stored_bytes

total-expired :
    (f : Row → ℕ) (now : ℕ) (t : Dict Row)
    → total f (unexpired now t) + total f (expired now t) ≡ total f t
total-expired f now [] = omega arith
total-expired f now ((k, r) ∷ t) = split (leb r.expires_at now) (total-expired f now t)
  where
    split :
        (b : Bool)
        → total f (unexpired now t) + total f (expired now t) ≡ total f t
        → total f (if b then unexpired now t else (k, r) ∷ unexpired now t)
            + total f (if b then (k, r) ∷ expired now t else expired now t)
          ≡ f r + total f t
    split true ih = omega (arith, ih)
    split false ih = omega (arith, ih)

lookup-unexpired :
    (k : String) (now : ℕ) (t : Dict Row) → lookup k t ≡ none → lookup k (unexpired now t) ≡ none
unfolding lookup
lookup-unexpired k now [] h = refl
lookup-unexpired k now ((j, r) ∷ t) h = ground (arith, h, lookup-unexpired k now t)

pub unexpired-Unique : (now : ℕ) (t : Dict Row) → Unique t → Unique (unexpired now t)
unexpired-Unique now [] u = tt
unexpired-Unique now ((k, r) ∷ t) (fresh, u) =
    let rest = unexpired-Unique now t u in
    if_rule Unique (leb r.expires_at now) (λ _. rest) (λ _. (lookup-unexpired k now t fresh, rest))

pub delete_expired-Counted : (now : ℕ) (c : Cache) → Counted c → Counted (delete_expired now c)
unfolding delete_expired
delete_expired-Counted now c h =
    if_rule Counted (is_open c && c.writable && ltb 0 (rows (expired now (table_of c.connection))))
      (λ _. less c.connection h) (λ _. h)
  where
    less :
        (o : Option Connection)
        → CountedAs o c.entry_count c.stored_bytes
        → CountedAs
            (with_table (unexpired now (table_of o)) o)
            (c.entry_count - rows (expired now (table_of o)))
            (c.stored_bytes - bytes (expired now (table_of o)))
    less none h = tt
    less (some k) (m, saved) = (
      record {
        unique = unexpired-Unique now k.table m.unique;
        count = omega (arith, m.count, total-expired (λ r. 1) now k.table);
        size = omega (arith, m.size, total-expired (λ r. r.stored_bytes) now k.table);
      },
      saved,
    )

lookup_head : (d e : String × Row) (t : Dict Row) → d ≡ e → lookup e.0 (d ∷ t) ≡ some e.1
unfolding lookup
lookup_head d e t same = rw (← same) (rw (eq_refl d.0) refl)

lookup_tail :
    (d f : String × Row) (t : Dict Row)
    → lookup d.0 t ≡ none
    → lookup f.0 t ≡ some f.1
    → lookup f.0 (d ∷ t) ≡ some f.1
unfolding lookup
lookup_tail d f t fresh found =
    if_rule (λ (o : Option Row). o ≡ some f.1) (str_eq d.0 f.0)
      (λ same. absurd (clash ((eq_iff d.0 f.0).0 same))) (λ _. found)
  where
    clash : d.0 ≡ f.0 → ⊥
    clash p = ground (arith, sym fresh ∙ ap (λ k. lookup k t) p ∙ found)

-- The oldest row is the row of its key.
oldest-lookup :
    (tie : String → String → Bool) (t : Dict Row) (e : String × Row)
    → Unique t
    → oldest tie t ≡ some e
    → lookup e.0 t ≡ some e.1
unfolding oldest lookup
oldest-lookup tie [] e u h = ground (arith, h)
oldest-lookup tie (d ∷ t) e (fresh, u) h =
    among (oldest tie t) refl (oldest-lookup tie t) (some-injective _ _ h)
  where
    among :
        (o : Option (String × Row))
        → oldest tie t ≡ o
        → ((f : String × Row) → Unique t → oldest tie t ≡ some f → lookup f.0 t ≡ some f.1)
        → older tie d o ≡ e
        → lookup e.0 (d ∷ t) ≡ some e.1
    among none q ih same = lookup_head d e t same
    among (some f) q ih same =
        choose
          (ltb d.1.touched_at f.1.touched_at || (d.1.touched_at == f.1.touched_at && tie d.0 f.0))
          same (lookup_tail d f t fresh (ih f u q))
      where
        choose :
            (b : Bool)
            → (if b then d else f) ≡ e
            → lookup f.0 (d ∷ t) ≡ some f.1
            → lookup e.0 (d ∷ t) ≡ some e.1
        choose true same found = lookup_head d e t same
        choose false same found =
            subst (λ (x : String × Row). lookup x.0 (d ∷ t) ≡ some x.1) same found

pub take_oldest-facts :
    (tie : String → String → Bool) (n : ℕ) (t : Dict Row)
    → Unique t
    → let (taken, rest) = take_oldest tie n t in
      Unique rest × ((f : Row → ℕ) → total f taken + total f rest ≡ total f t)
unfolding take_oldest
take_oldest-facts tie zero t u = (u, λ f. omega arith)
take_oldest-facts tie (suc n) t u = split (oldest tie t) refl (take_oldest-facts tie n)
  where
    split :
        (o : Option (String × Row))
        → oldest tie t ≡ o
        → ((t' : Dict Row)
            → Unique t'
            → let (taken, rest) = take_oldest tie n t' in
              Unique rest × ((f : Row → ℕ) → total f taken + total f rest ≡ total f t'))
        → let (taken, rest) : Dict Row × Dict Row = elim o [
          | none ↦ ([], t)
          | some e ↦ let (taken, rest) = take_oldest tie n (remove e.0 t) in (e ∷ taken, rest)
        ] in
          Unique rest × ((f : Row → ℕ) → total f taken + total f rest ≡ total f t)
    split none q ih = (u, λ f. omega arith)
    split (some e) q ih =
        let (u', sums) = ih (remove e.0 t) (remove-Unique e.0 t u) in
        (
          u',
          λ f.
              let gone = total-remove f e.0 t u in
              let there = ap (part f) (oldest-lookup tie t e u q) in
              omega (arith, sums f, gone, there),
        )

delete_batch-Counted :
    (batch : Dict Row × Dict Row) (c : Cache)
    → Unique batch.1
    → ((f : Row → ℕ) → total f batch.0 + total f batch.1 ≡ total f (table_of c.connection))
    → Counted c
    → Counted (delete_batch batch c)
delete_batch-Counted (taken, rest) c u sums h = less c.connection sums h
  where
    less :
        (o : Option Connection)
        → ((f : Row → ℕ) → total f taken + total f rest ≡ total f (table_of o))
        → CountedAs o c.entry_count c.stored_bytes
        → CountedAs (with_table rest o) (c.entry_count - rows taken) (c.stored_bytes - bytes taken)
    less none s h = tt
    less (some k) s (m, saved) = (
      record {
        unique = u;
        count = omega (arith, m.count, s (λ r. 1));
        size = omega (arith, m.size, s (λ r. r.stored_bytes));
      },
      saved,
    )

pub Counted-Unique : (o : Option Connection) (n b : ℕ) → CountedAs o n b → Unique (table_of o)
Counted-Unique none n b h = tt
Counted-Unique (some k) n b (m, saved) = m.unique

trim_loop-Counted : (n : ℕ) (c : Cache) → Counted c → Counted (trim_loop n c)
unfolding trim_loop
trim_loop-Counted zero c h = h
trim_loop-Counted (suc n) c h =
    let (u, sums) =
      take_oldest-facts c.tie (batch_size c) (table_of c.connection)
        (Counted-Unique c.connection c.entry_count c.stored_bytes h) in
    if_rule Counted (not (over_limit c)) (λ _. h)
      (λ _.
        if_rule Counted (is_nil (take_oldest c.tie (batch_size c) (table_of c.connection)).0)
          (λ _. h)
          (λ _. trim_loop-Counted n _ (
            delete_batch-Counted (take_oldest c.tie (batch_size c) (table_of c.connection)) c u sums
              h)))

pub trim_database-Counted : (c : Cache) → Counted c → Counted (trim_database c)
unfolding trim_database
trim_database-Counted c h =
    if_rule Counted (is_open c && c.writable) (λ _. trim_loop-Counted _ c h) (λ _. h)

taken_some :
    (tie : String → String → Bool) (n : ℕ) (t : Dict Row)
    → 1 ≤ n
    → is_nil (take_oldest tie n t).0 ≡ true
    → t ≡ []
taken_some tie zero t h e = absurd (omega (arith, h))
taken_some tie (suc n) [] h e = refl
taken_some tie (suc n) (d ∷ t) h e = absurd (some_row (unfold take_oldest oldest in e))
  where
    some_row : ◌≡◌ {A = Bool} false true → ⊥
    some_row x = ground (arith, x)

taken_positive : (t : Dict Row) → is_nil t ≡ false → 1 ≤ rows t
taken_positive [] h = ground (arith, h)
taken_positive (e ∷ t) h = omega arith

batch_positive : (c : Cache) → 1 ≤ batch_size c
batch_positive c = omega arith

pub Counted-open :
    (o : Option Connection) (n b : ℕ)
    → is_some o ≡ true
    → CountedAs o n b
    → (n ≡ rows (table_of o)) × (b ≡ bytes (table_of o))
Counted-open none n b open' h = ground (arith, open')
Counted-open (some k) n b open' (m, saved) = (m.count, m.size)

pub table_of-with_table :
    (t : Dict Row) (o : Option Connection) → is_some o ≡ true → table_of (with_table t o) ≡ t
table_of-with_table t none h = ground (arith, h)
table_of-with_table t (some k) h = refl

pub is_some-with_table :
    (t : Dict Row) (o : Option Connection) → is_some (with_table t o) ≡ is_some o
is_some-with_table t none = refl
is_some-with_table t (some k) = refl

no_excess : (c : Cache) → c.entry_count ≡ 0 → c.stored_bytes ≡ 0 → over_limit c ≡ false
no_excess c n b = ground (arith, n, b)

Counted-empty :
    (c : Cache) → is_open c ≡ true → Counted c → table_of c.connection ≡ [] → over_limit c ≡ false
Counted-empty c o h empty =
    let (n, b) = Counted-open c.connection c.entry_count c.stored_bytes o h in
    no_excess c (n ∙ ap rows empty) (b ∙ ap bytes empty)

not-true : (b : Bool) → not b ≡ true → b ≡ false
not-true b h = ground (arith, h)

trim_loop-limits :
    (n : ℕ) (c : Cache)
    → is_open c ≡ true
    → rows (table_of c.connection) < n
    → Counted c
    → over_limit (trim_loop n c) ≡ false
unfolding trim_loop
trim_loop-limits zero c o h k = absurd (omega (arith, h))
trim_loop-limits (suc n) c o h k =
    let t = table_of c.connection in
    let batch = take_oldest c.tie (batch_size c) t in
    let (u, sums) =
      take_oldest-facts c.tie (batch_size c) t
        (Counted-Unique c.connection c.entry_count c.stored_bytes k) in
    if_rule (λ (c' : Cache). over_limit c' ≡ false) (not (over_limit c))
      (λ fits. not-true (over_limit c) fits)
      (λ _.
        if_rule (λ (c' : Cache). over_limit c' ≡ false) (is_nil batch.0)
          (λ empty.
            Counted-empty c o k (taken_some c.tie (batch_size c) t (batch_positive c) empty))
          (λ full.
            trim_loop-limits n (delete_batch batch c) (is_some-with_table batch.1 c.connection ∙ o)
              (fewer batch o full sums) (delete_batch-Counted batch c u sums k)))
  where
    fewer :
        (batch : Dict Row × Dict Row)
        → is_open c ≡ true
        → is_nil batch.0 ≡ false
        → ((f : Row → ℕ) → total f batch.0 + total f batch.1 ≡ total f (table_of c.connection))
        → rows (table_of (delete_batch batch c).connection) < n
    fewer (taken, rest) o full sums =
        let left = ap rows (table_of-with_table rest c.connection o) in
        omega (arith, left, taken_positive taken full, sums (λ r. 1), h)

pub trim_database-limits :
    (c : Cache)
    → is_open c ≡ true
    → c.writable ≡ true
    → Counted c
    → over_limit (trim_database c) ≡ false
unfolding trim_database
trim_database-limits c o w k =
    if_rule (λ (c' : Cache). over_limit c' ≡ false) (is_open c && c.writable)
      (λ _. trim_loop-limits (suc (rows (table_of c.connection))) c o (omega arith) k)
      (λ off. absurd (both_off (is_open c) c.writable o w off))
  where
    both_off : (a b : Bool) → a ≡ true → b ≡ true → (a && b) ≡ false → ⊥
    both_off a b p q r = ground (arith, p, q, r)
