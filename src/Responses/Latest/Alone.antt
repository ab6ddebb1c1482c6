-- ===== src/Responses/Latest/Alone.antt =====
-- While its database is open, the cache holds nothing in memory.
use metafusion.Prelude.{
  if◌then◌else◌, ◌+◌, ◌≡◌, ◌∙◌, ◌&&◌, ◌||◌, refl, [], Bool, String, ℕ, if_rule, Dict, true, ltb,
  Option, suc, not, lookup, false, arith, some, sym, leb, ap, remove, none, zero,
}
use metafusion.Responses.{
  Cache, handle_database_error, Fault, Codec, is_open, recover, Row, drop_database, Held,
  empty_connection, rows, corrupt, table_of, fine, broken, Fine,
}
use metafusion.Responses.Evict.{
  delete_expired, trim_loop, trim_database, take_oldest, expired, batch_size, over_limit, is_nil,
  delete_batch,
}
use metafusion.Responses.Latest.{Calm}
use metafusion.Responses.Methods.{
  fetch, count_miss, reject_row, fetch_database, delete_fetched_row, fetch_row, fetch_held,
  use_value, select_row, touch_held, count_hit, touch_interval, without_held,
}

abbrev pub Alone : Cache → Type 0
Alone c = is_open c ≡ true → c.memory ≡ []

pub handle_database_error-memory :
    (fault : Fault) (c : Cache) → (handle_database_error fault c).memory ≡ c.memory
unfolding handle_database_error recover drop_database empty_connection
handle_database_error-memory fine c = refl
handle_database_error-memory broken c = refl
handle_database_error-memory (corrupt reopened) c = by_mode c.writable reopened
  where
    c' : Cache
    c' = record c { has_error = true; pending_touches = []; dirty = false }

    by_mode : (b r : Bool) → (if b then recover r c' else drop_database c').memory ≡ c.memory
    by_mode true true = refl
    by_mode true false = refl
    by_mode false r = refl

-- After an error that opens no new database there is none.
pub closed-handle_database_error :
    (fault : Fault) (c : Cache)
    → Calm fault
    → (Fine fault → ⊥)
    → is_open (handle_database_error fault c) ≡ false
unfolding handle_database_error recover drop_database
closed-handle_database_error fine c calm bad = absurd (bad tt)
closed-handle_database_error broken c calm bad = refl
closed-handle_database_error (corrupt true) c calm bad = absurd calm
closed-handle_database_error (corrupt false) c calm bad = by_mode c.writable
  where
    c' : Cache
    c' = record c { has_error = true; pending_touches = []; dirty = false }

    by_mode : (b : Bool) → is_open (if b then recover false c' else drop_database c') ≡ false
    by_mode true = refl
    by_mode false = refl

pub delete_expired-memory : (now : ℕ) (c : Cache) → (delete_expired now c).memory ≡ c.memory
unfolding delete_expired
delete_expired-memory now c =
    if_rule (λ (d : Cache). d.memory ≡ c.memory)
      (is_open c && c.writable && ltb 0 (rows (expired now (table_of c.connection)))) (λ _. refl)
      (λ _. refl)

trim_loop-memory : (n : ℕ) (c : Cache) → (trim_loop n c).memory ≡ c.memory
unfolding trim_loop
trim_loop-memory zero c = refl
trim_loop-memory (suc n) c =
    let batch = take_oldest c.tie (batch_size c) (table_of c.connection) in
    if_rule (λ (d : Cache). d.memory ≡ c.memory) (not (over_limit c)) (λ _. refl)
      (λ _.
        if_rule (λ (d : Cache). d.memory ≡ c.memory) (is_nil batch.0) (λ _. refl)
          (λ _. trim_loop-memory n (delete_batch batch c)))

pub trim_database-memory : (c : Cache) → (trim_database c).memory ≡ c.memory
unfolding trim_database
trim_database-memory c =
    if_rule (λ (d : Cache). d.memory ≡ c.memory) (is_open c && c.writable)
      (λ _. trim_loop-memory _ c) (λ _. refl)

count_miss-memory : (stats : Bool) (c : Cache) → (count_miss stats c).memory ≡ c.memory
count_miss-memory true c = refl
count_miss-memory false c = refl

reject_row-memory :
    (fault : Fault) (stats : Bool) (key : String) (r : Row) (c : Cache)
    → (reject_row fault stats key r c).0.memory ≡ c.memory
reject_row-memory fault stats key r c =
    count_miss-memory stats _
    ∙ if_rule (λ (d : Cache). d.memory ≡ c.memory) c.writable (λ _. deleted fault) (λ _. refl)
  where
    deleted : (g : Fault) → (delete_fetched_row g key r.stored_bytes c).memory ≡ c.memory
    deleted fine = unfold delete_fetched_row in refl
    deleted broken = unfold delete_fetched_row in handle_database_error-memory broken c
    deleted (corrupt x) = unfold delete_fetched_row in handle_database_error-memory (corrupt x) c

fetch_row-memory :
    (codec : Codec) (fault : Fault) (stats : Bool) (key : String) (now : ℕ) (o : Option Row)
    (c : Cache)
    → (fetch_row codec fault stats key now o c).0.memory ≡ c.memory
fetch_row-memory codec fault stats key now none c = count_miss-memory stats c
fetch_row-memory codec fault stats key now (some r) c =
    if_rule (λ (x : Cache × Option String). x.0.memory ≡ c.memory) (leb r.expires_at now)
      (λ _. reject_row-memory fault stats key r c) (λ _. used (codec.decode r.response) stats)
  where
    used : (v : Option String) (b : Bool) → (use_value fault b key now r v c).0.memory ≡ c.memory
    used none b = reject_row-memory fault b key r c
    used (some v) true =
        if_rule (λ (d : Cache). d.memory ≡ c.memory)
          (c.writable && leb (r.touched_at + touch_interval c) now) (λ _. refl) (λ _. refl)
    used (some v) false =
        if_rule (λ (d : Cache). d.memory ≡ c.memory)
          (c.writable && leb (r.touched_at + touch_interval c) now) (λ _. refl) (λ _. refl)

fetch_database-Alone :
    (codec : Codec) (error fault : Fault) (stats : Bool) (key : String) (now : ℕ) (c : Cache)
    → Alone c
    → Alone (fetch_database codec error fault stats key now c).0
fetch_database-Alone codec error fault stats key now c a =
    if_rule (λ (x : Cache × Option String). Alone x.0) (not (is_open c) || c.ignore_database)
      (λ _. missed stats)
      (λ opened _. selected error ∙ a (was_open (is_open c) c.ignore_database opened))
  where
    missed : (b : Bool) → Alone (count_miss b c)
    missed true = a
    missed false = a

    was_open : (b i : Bool) → (not b || i) ≡ false → b ≡ true
    was_open b i h = ground (arith, h)

    selected : (g : Fault) → (select_row codec g fault stats key now c).0.memory ≡ c.memory
    selected fine =
        fetch_row-memory codec fault stats key now (lookup key (table_of c.connection)) c
    selected broken = count_miss-memory stats _ ∙ handle_database_error-memory broken c
    selected (corrupt x) = count_miss-memory stats _ ∙ handle_database_error-memory (corrupt x) c

pub no_entry : (key : String) (m : Dict Held) (h : Held) → m ≡ [] → lookup key m ≡ some h → ⊥
no_entry key m h empty found = unreachable (sym (ap (lookup key) empty) ∙ found)
  where
    unreachable : lookup key [] ≡ some h → ⊥
    unreachable e = unfold lookup in ground (arith, e)

pub fetch-Alone :
    (codec : Codec) (error fault : Fault) (stats : Bool) (key : String) (now : ℕ) (c : Cache)
    → Alone c
    → Alone (fetch codec error fault stats key now c).0
unfolding fetch
fetch-Alone codec error fault stats key now c a = by_memory (lookup key c.memory) refl
  where
    by_memory :
        (o : Option Held)
        → lookup key c.memory ≡ o
        → Alone (fetch_held codec error fault stats key now o c).0
    by_memory none found = fetch_database-Alone codec error fault stats key now c a
    by_memory (some h) found =
        if_rule (λ (x : Cache × Option String). Alone x.0) (leb h.expires_at now)
          (λ _.
            fetch_database-Alone codec error fault stats key now (without_held key c)
              (λ opened. ap (remove key) (a opened) ∙ unfold remove in refl))
          (λ _. touched stats)
      where
        touched : (b : Bool) → Alone (touch_held key h now (count_hit b c))
        touched true opened = absurd (no_entry key c.memory h (a opened) found)
        touched false opened = absurd (no_entry key c.memory h (a opened) found)
