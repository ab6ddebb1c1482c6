-- ===== src/Responses/History/Keep.antt =====
-- Every call keeps it that each held value was stored before.
use mathlib.Core.Option.{some-injective}
use mathlib.Core.Path.{subst}
use metafusion.Prelude.{
  ◌+◌, ◌≤◌, ◌≡◌, ◌∙◌, ◌||◌, refl, [], String, ℕ, Bool, some, Option, max, if_rule, arith, insert,
  not, Entries-nil, none, is_some, insert-Entries, lookup, remove-Entries, ltb, sym, ap, ◌==◌, true,
  false,
}
use metafusion.Responses.{
  Codec, Cache, Fault, Connection, second, Row, with_table, table_of, is_open, corrupt, fine,
  broken,
}
use metafusion.Responses.Evict.{store_memory}
use metafusion.Responses.History.{life}
use metafusion.Responses.Keyed.{Keyed}
use metafusion.Responses.Methods.{
  set, delete, clear, flush, after_write, set_database, set_encoded, clear_database, effective_ttl,
  delete_row, write_row, has_work, delete_database, uncommitted, refresh_totals, Flushing, Deleted,
  flush_work, fails, stays_open, vacuum_fails, flush_all, goes_well, rolls_back, reached,
}
use metafusion.Responses.Sound.{
  Sound, Stored, store_memory-Sound, trim_database-Sound, handle_database_error-Sound, RowIs,
  HeldIs,
}
use metafusion.Responses.Sound.Fetch.{remove-Stored}
use metafusion.Responses.Sound.Flush.{flush_all-Sound, reached-Sound}

module _ (codec : Codec) (Q : String → String → ℕ → Type 0) (ttl : ℕ) (w : Bool × Bool)
    (round_trip : (v p : String) → codec.encode v ≡ some p → codec.decode p ≡ some v) where
  -- A value that may be held up to the end of its life.
  abbrev pub Storable : String → String → ℕ → Option ℕ → Type 0
  Storable key value now t = (e : ℕ) → e ≤ now + life ttl t → Q key value e

  life-effective :
      (c : Cache) (t : Option ℕ) → c.ttl ≡ ttl → max second (effective_ttl t c) ≡ life ttl t
  life-effective c none f = omega (arith, f)
  life-effective c (some t) f = omega (arith, f)

  remembered :
      (key value : String) (now : ℕ) (t : Option ℕ) (c d : Cache)
      → Storable key value now t
      → c.ttl ≡ ttl
      → Sound codec Q Q ttl w d
      → Sound codec Q Q ttl w (store_memory codec key value now (effective_ttl t c) d)
  remembered key value now t c d new same (f, m, s) =
      store_memory-Sound codec Q Q ttl w Q key value now (effective_ttl t c) d (λ k v e other q. q)
        (new (now + max second (effective_ttl t c)) (omega (arith, life-effective c t same))) m f s

  written :
      (key value payload : String) (now : ℕ) (t : Option ℕ) (c : Cache) (o : Option Connection)
      (r : Row)
      → codec.encode value ≡ some payload
      → Storable key value now t
      → r.response ≡ payload
      → r.expires_at ≤ now + life ttl t
      → Stored codec Q Q o
      → Stored codec Q Q (with_table (insert key r (table_of o)) o)
  written key value payload now t c none r encoded new same ends s = tt
  written key value payload now t c (some k) r encoded new same ends (table, saved) = (
    insert-Entries (RowIs codec Q) (RowIs codec Q) key r k.table (λ j x other p. p)
        (λ v decoded.
          subst (λ (x : String). Q key x r.expires_at)
            (some-injective _ _
              (sym (round_trip value payload encoded) ∙ sym (ap codec.decode same) ∙ decoded))
            (new r.expires_at ends))
        table,
    saved,
  )

  after_write-Sound :
      (fault : Fault) (key value : String) (now : ℕ) (t : Option ℕ) (c d : Cache)
      → Storable key value now t
      → c.ttl ≡ ttl
      → Sound codec Q Q ttl w d
      → Sound codec Q Q ttl w (after_write codec fault key value now (effective_ttl t c) d)
  after_write-Sound fine key value now t c d new same s = trim_database-Sound codec Q Q ttl w d s
  after_write-Sound broken key value now t c d new same s =
      remembered key value now t c _ new same
        (handle_database_error-Sound codec Q Q ttl w broken d s)
  after_write-Sound (corrupt x) key value now t c d new same s =
      remembered key value now t c _ new same
        (handle_database_error-Sound codec Q Q ttl w (corrupt x) d s)

  set_database-Sound :
      (error fault : Fault) (key value payload : String) (now : ℕ) (t : Option ℕ) (c : Cache)
      → codec.encode value ≡ some payload
      → Storable key value now t
      → Sound codec Q Q ttl w c
      → Sound codec Q Q ttl w
          (set_database codec error fault key value payload now (effective_ttl t c) c)
  set_database-Sound fine fault key value payload now t c encoded new (f, m, s) =
      let row : Row = record {
        response = payload;
        expires_at = now + effective_ttl t c;
        touched_at = now;
        stored_bytes = codec.size payload;
      } in
      after_write-Sound fault key value now t c
        (write_row codec key payload now (effective_ttl t c) c) new f.0
        (
          f,
          m,
          written key value payload now t c c.connection row encoded new refl
              (omega (arith, life-effective c t f.0)) s,
        )
  set_database-Sound broken fault key value payload now t c encoded new s =
      remembered key value now t c _ new s.0.0
        (handle_database_error-Sound codec Q Q ttl w broken c s)
  set_database-Sound (corrupt x) fault key value payload now t c encoded new s =
      remembered key value now t c _ new s.0.0
        (handle_database_error-Sound codec Q Q ttl w (corrupt x) c s)

  pub set-Sound :
      (error fault : Fault) (key value : String) (t : Option ℕ) (now : ℕ) (c : Cache)
      → Storable key value now t
      → Sound codec Q Q ttl w c
      → Sound codec Q Q ttl w (set codec error fault key value t now c)
  unfolding set
  set-Sound error fault key value t now c new s =
      if_rule (Sound codec Q Q ttl w) (not c.enabled) (λ _. s)
        (λ _. by_payload (codec.encode value) refl)
    where
      by_payload :
          (o : Option String)
          → codec.encode value ≡ o
          → Sound codec Q Q ttl w
              (set_encoded codec error fault key value o now (effective_ttl t c) c)
      by_payload none encoded = s
      by_payload (some payload) encoded =
          if_rule (Sound codec Q Q ttl w) (not (is_open c) || not c.writable)
            (λ _. remembered key value now t c c new s.0.0 s)
            (λ _. set_database-Sound error fault key value payload now t c encoded new s)

  pub delete-Sound :
      (error : Fault) (key : String) (c : Cache)
      → Sound codec Q Q ttl w c
      → Sound codec Q Q ttl w (delete codec error key c).0
  unfolding delete
  delete-Sound error key c (f, m, s) =
      if_rule (λ (x : Cache × Deleted). Sound codec Q Q ttl w x.0) (is_some (lookup key c.memory))
        (λ _. (
          f,
          remove-Entries (HeldIs codec Q) (HeldIs codec Q) key c.memory (λ j x other p. p) m,
          s,
        ))
        (λ _.
          if_rule (λ (x : Cache × Deleted). Sound codec Q Q ttl w x.0)
            (not (is_open c) || not c.writable) (λ _. (f, m, s)) (λ _. deleted_in error))
    where
      deleted_in : (g : Fault) → Sound codec Q Q ttl w (delete_database codec g key c).0
      deleted_in fine = by_row (lookup key (table_of c.connection))
        where
          by_row : (o : Option Row) → Sound codec Q Q ttl w (delete_row codec key o c).0
          by_row none = (f, m, s)
          by_row (some r) = (f, m, remove-Stored codec Q Q ttl w key c.connection s)
      deleted_in broken = (f, m, s)
      deleted_in (corrupt x) = (f, m, s)

  pub clear-Sound :
      (fault : Fault) (c : Cache)
      → Sound codec Q Q ttl w c
      → Sound codec Q Q ttl w (clear codec fault c)
  unfolding clear
  clear-Sound fault c (f, m, s) =
      let none_held = Entries-nil (HeldIs codec Q) in
      if_rule (Sound codec Q Q ttl w) (not (is_open c)) (λ _. (f, none_held, s))
        (λ _.
          if_rule (Sound codec Q Q ttl w) (not c.writable) (λ _. (f, none_held, s))
            (λ _.
              if_rule (Sound codec Q Q ttl w) (ltb 0 c.entry_count)
                (λ _.
                  cleared fault (record c { memory = []; pending_touches = [] }) (f, none_held, s))
                (λ _. (f, none_held, s))))
    where
      cleared :
          (g : Fault) (d : Cache)
          → Sound codec Q Q ttl w d
          → Sound codec Q Q ttl w (clear_database codec g d)
      cleared fine d (f', m', s') = (f', m', emptied d.connection s')
        where
          emptied :
              (o : Option Connection) → Stored codec Q Q o → Stored codec Q Q (with_table [] o)
          emptied none z = tt
          emptied (some k) z = (Entries-nil (RowIs codec Q), z.1)
      cleared broken d h = handle_database_error-Sound codec Q Q ttl w broken d h
      cleared (corrupt x) d h = handle_database_error-Sound codec Q Q ttl w (corrupt x) d h

  uncommitted-Stored :
      (o : Option Connection) → Stored codec Q Q o → Stored codec Q Q (uncommitted codec o)
  uncommitted-Stored none z = tt
  uncommitted-Stored (some k) z = (z.1, z.1)

  refresh_totals-Sound :
      (fault : Fault) (totals : ℕ × ℕ) (c : Cache)
      → Sound codec Q Q ttl w c
      → Sound codec Q Q ttl w (refresh_totals codec fault totals c)
  refresh_totals-Sound fine totals c s = s
  refresh_totals-Sound broken totals c s = handle_database_error-Sound codec Q Q ttl w broken c s
  refresh_totals-Sound (corrupt x) totals c s =
      handle_database_error-Sound codec Q Q ttl w (corrupt x) c s

  flush_work-Sound :
      (way : Flushing) (now : ℕ) (c : Cache)
      → Keyed c
      → Sound codec Q Q ttl w c
      → Sound codec Q Q ttl w (flush_work codec way now c).0
  flush_work-Sound goes_well now c keyed s =
      flush_all-Sound codec Q Q ttl w now c (λ k v e q. q) keyed s
  flush_work-Sound (fails stage rolls_back fault) now c keyed (f, m, s) =
      refresh_totals-Sound fault _ _ (f, m, uncommitted-Stored c.connection s)
  flush_work-Sound (fails stage (stays_open n b) fault) now c keyed s =
      refresh_totals-Sound fault (n, b)
        (record (reached codec stage now c) {
          has_error = true;
          pending_touches = [];
          dirty = false;
        })
        (reached-Sound codec Q Q ttl w stage now c keyed s)
  flush_work-Sound (vacuum_fails fault) now c keyed s =
      let done = flush_all codec now c in
      let after = flush_all-Sound codec Q Q ttl w now c (λ k v e q. q) keyed s in
      if_rule (λ (x : Cache × Bool). Sound codec Q Q ttl w x.0) (done.evictions == 0) (λ _. after)
        (λ _.
          refresh_totals-Sound fault (done.entry_count, done.stored_bytes)
            (record done { has_error = true; pending_touches = [] }) after)

  pub flush-Sound :
      (way : Flushing) (now : ℕ) (c : Cache)
      → Keyed c
      → Sound codec Q Q ttl w c
      → Sound codec Q Q ttl w (flush codec way now c).0
  unfolding flush
  flush-Sound way now c keyed s =
      if_rule (λ (x : Cache × Bool). Sound codec Q Q ttl w x.0)
        (not c.enabled || not c.writable || not (is_open c) || not (has_work codec c)) (λ _. s)
        (λ _. flush_work-Sound way now c keyed s)
