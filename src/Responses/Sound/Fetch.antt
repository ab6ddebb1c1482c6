-- ===== src/Responses/Sound/Fetch.antt =====
-- What a fetch answers, and what it leaves.
use mathlib.Core.Path.{subst}
use metafusion.Prelude.{
  ◌+◌, ◌<◌, ◌≡◌, ◌&&◌, ◌||◌, refl, String, ℕ, Option, Bool, leb, some, false, none, arith, lookup,
  remove, if_rule, true, remove-Entries, not, insert-Entries, str_eq,
}
use metafusion.Responses.{
  Codec, Cache, Connection, Fault, Row, Held, with_table, table_of, corrupt, broken, fine, is_open,
}
use metafusion.Responses.Methods.{
  delete_fetched_row, fetch, count_miss, count_hit, reject_row, use_value, select_row,
  fetch_database, fetch_held, touch_interval, fetch_row, touch_held, without_held,
}
use metafusion.Responses.Sound.{
  Sound, Stored, handle_database_error-Sound, RowIs, table-Entries, HeldIs,
}

-- There is a predicate's value that has not expired.
abbrev pub Live : (String → String → ℕ → Type 0) → String → ℕ → String → Type 0
Live Q key now v = (e : ℕ) × Q key v e × (now < e)

-- The answer of a fetch: nothing, or a value that is held and has not expired.
abbrev pub Given : (String → String → ℕ → Type 0) → String → ℕ → Option String → Type 0
Given Q key now none = Unit
Given Q key now (some v) = Live Q key now v

module _ (codec : Codec) (Q R : String → String → ℕ → Type 0) (ttl : ℕ) (w : Bool × Bool) where
  abbrev pub Answer : String → ℕ → Cache × Option String → Type 0
  Answer key now x = Sound codec Q R ttl w x.0 × Given Q key now x.1

  count_miss-Sound :
      (stats : Bool) (c : Cache)
      → Sound codec Q R ttl w c
      → Sound codec Q R ttl w (count_miss stats c)
  count_miss-Sound true c s = s
  count_miss-Sound false c s = s

  count_hit-Sound :
      (stats : Bool) (c : Cache)
      → Sound codec Q R ttl w c
      → Sound codec Q R ttl w (count_hit stats c)
  count_hit-Sound true c s = s
  count_hit-Sound false c s = s

  pub remove-Stored :
      (key : String) (o : Option Connection)
      → Stored codec Q R o
      → Stored codec Q R (with_table (remove key (table_of o)) o)
  remove-Stored key none s = tt
  remove-Stored key (some k) s =
      (remove-Entries (RowIs codec Q) (RowIs codec Q) key k.table (λ j x other p. p) s.0, s.1)

  delete_fetched_row-Sound :
      (fault : Fault) (key : String) (size : ℕ) (c : Cache)
      → Sound codec Q R ttl w c
      → Sound codec Q R ttl w (delete_fetched_row fault key size c)
  unfolding delete_fetched_row
  delete_fetched_row-Sound fine key size c (f, m, s) = (f, m, remove-Stored key c.connection s)
  delete_fetched_row-Sound broken key size c s =
      handle_database_error-Sound codec Q R ttl w broken c s
  delete_fetched_row-Sound (corrupt x) key size c s =
      handle_database_error-Sound codec Q R ttl w (corrupt x) c s

  reject_row-Answer :
      (fault : Fault) (stats : Bool) (key : String) (now : ℕ) (r : Row) (c : Cache)
      → Sound codec Q R ttl w c
      → Answer key now (reject_row fault stats key r c)
  reject_row-Answer fault stats key now r c s = (
    count_miss-Sound stats _ (
        if_rule (Sound codec Q R ttl w) c.writable
          (λ _. delete_fetched_row-Sound fault key r.stored_bytes c s) (λ _. s)),
    tt,
  )

  use_value-Answer :
      (fault : Fault) (stats : Bool) (key : String) (now : ℕ) (r : Row) (o : Option String)
      (c : Cache)
      → ((v : String) → o ≡ some v → Q key v r.expires_at)
      → now < r.expires_at
      → Sound codec Q R ttl w c
      → Answer key now (use_value fault stats key now r o c)
  use_value-Answer fault stats key now r none c held lives s =
      reject_row-Answer fault stats key now r c s
  use_value-Answer fault stats key now r (some v) c held lives s =
      let hit = count_hit-Sound stats c s in
      (
        if_rule (Sound codec Q R ttl w)
            ((count_hit stats c).writable
              && leb (r.touched_at + touch_interval (count_hit stats c)) now)
            (λ _. hit) (λ _. hit),
        (r.expires_at, held v refl, lives),
      )

  alive : (e now : ℕ) → leb e now ≡ false → now < e
  alive e now h = ground (arith, h)

  fetch_row-Answer :
      (fault : Fault) (stats : Bool) (key : String) (now : ℕ) (o : Option Row) (c : Cache)
      → lookup key (table_of c.connection) ≡ o
      → Sound codec Q R ttl w c
      → Answer key now (fetch_row codec fault stats key now o c)
  fetch_row-Answer fault stats key now none c found s = (count_miss-Sound stats c s, tt)
  fetch_row-Answer fault stats key now (some r) c found s =
      if_rule (Answer key now) (leb r.expires_at now)
        (λ _. reject_row-Answer fault stats key now r c s)
        (λ live.
          use_value-Answer fault stats key now r (codec.decode r.response) c
            (table-Entries codec Q R ttl w c.connection s.2 key r found)
            (alive r.expires_at now live) s)

  select_row-Answer :
      (error fault : Fault) (stats : Bool) (key : String) (now : ℕ) (c : Cache)
      → Sound codec Q R ttl w c
      → Answer key now (select_row codec error fault stats key now c)
  select_row-Answer fine fault stats key now c s =
      fetch_row-Answer fault stats key now (lookup key (table_of c.connection)) c refl s
  select_row-Answer broken fault stats key now c s =
      (count_miss-Sound stats _ (handle_database_error-Sound codec Q R ttl w broken c s), tt)
  select_row-Answer (corrupt x) fault stats key now c s =
      (count_miss-Sound stats _ (handle_database_error-Sound codec Q R ttl w (corrupt x) c s), tt)

  fetch_database-Answer :
      (error fault : Fault) (stats : Bool) (key : String) (now : ℕ) (c : Cache)
      → Sound codec Q R ttl w c
      → Answer key now (fetch_database codec error fault stats key now c)
  fetch_database-Answer error fault stats key now c s =
      if_rule (Answer key now) (not (is_open c) || c.ignore_database)
        (λ _. (count_miss-Sound stats c s, tt))
        (λ _. select_row-Answer error fault stats key now c s)

  fetch_held-Answer :
      (error fault : Fault) (stats : Bool) (key : String) (now : ℕ) (o : Option Held) (c : Cache)
      → lookup key c.memory ≡ o
      → Sound codec Q R ttl w c
      → Answer key now (fetch_held codec error fault stats key now o c)
  fetch_held-Answer error fault stats key now none c found s =
      fetch_database-Answer error fault stats key now c s
  fetch_held-Answer error fault stats key now (some h) c found (f, m, s) =
      let same =
        λ (j : String) (x : Held) (other : str_eq key j ≡ false) (p : HeldIs codec Q j x). p in
      if_rule (Answer key now) (leb h.expires_at now)
        (λ _.
          fetch_database-Answer error fault stats key now (without_held key c)
            (f, remove-Entries (HeldIs codec Q) (HeldIs codec Q) key c.memory same m, s))
        (λ live. (
          (touched (count_hit stats c) (count_hit-Sound stats c (f, m, s))),
          (h.expires_at, m key h found, alive h.expires_at now live),
        ))
    where
      touched :
          (d : Cache) → Sound codec Q R ttl w d → Sound codec Q R ttl w (touch_held key h now d)
      touched d (f', m', s') = (
        f',
        insert-Entries (HeldIs codec Q) (HeldIs codec Q) key (record h { touched_at = now })
            d.memory (λ j x other p. p) (m key h found) m',
        s',
      )

  pub fetch-Answer :
      (error fault : Fault) (stats : Bool) (key : String) (now : ℕ) (c : Cache)
      → Sound codec Q R ttl w c
      → Answer key now (fetch codec error fault stats key now c)
  unfolding fetch
  fetch-Answer error fault stats key now c s =
      fetch_held-Answer error fault stats key now (lookup key c.memory) c refl s

pub Given-some :
    (Q : String → String → ℕ → Type 0) (key : String) (now : ℕ) (o : Option String) (v : String)
    → Given Q key now o
    → o ≡ some v
    → Live Q key now v
Given-some Q key now o v g found = subst (Given Q key now) found g
