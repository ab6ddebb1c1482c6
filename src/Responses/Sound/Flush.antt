-- ===== src/Responses/Sound/Flush.antt =====
-- What a flush leaves in the database.
use metafusion.Prelude.{◌||◌, String, ℕ, Bool, Dict, Option, false, some, if_rule, none, not, min}
use metafusion.Responses.{Codec, Cache, Connection, with_table, table_of, is_open}
use metafusion.Responses.Evict.{
  trim_database, delete_expired, trim_loop, over_limit, take_oldest, batch_size,
}
use metafusion.Responses.Keyed.{Keyed, KeyedAs-Unique, touched-Keyed}
use metafusion.Responses.Methods.{
  flush, commit, touch_all, has_work, flush_all, goes_well, with_touches, Stage, reached, at_commit,
  at_touches, first_touches, at_trim, at_expiry,
}
use metafusion.Responses.Sound.{
  Sound, Stored, touched-Sound, trim_database-Sound, delete_expired-Sound, trim_loop-Sound,
  Stored-table, table-Entries, lookup-take_oldest,
}

module _ (codec : Codec) (Q R : String → String → ℕ → Type 0) (ttl : ℕ) (w : Bool × Bool) where
  flushed-Stored :
      (c : Cache) (o : Option Connection)
      → ((k v : String) (e : ℕ) → Q k v e → R k v e)
      → Stored codec Q R o
      → Stored codec Q R (commit codec c o)
  flushed-Stored c none weaker s = tt
  flushed-Stored c (some k) weaker (t, saved) =
      (t, λ j r found v decoded. weaker j v r.expires_at (t j r found v decoded))

  touches-Stored :
      (touches : Dict ℕ) (o : Option Connection)
      → Stored codec Q R o
      → Stored codec Q R (with_table (touch_all codec touches (table_of o)) o)
  touches-Stored touches none s = tt
  touches-Stored touches (some k) (t, saved) =
      (touched-Sound codec Q R ttl w touches k.table t, saved)

  touched-Sound_of :
      (touches : Dict ℕ) (c : Cache)
      → Sound codec Q R ttl w c
      → Sound codec Q R ttl w (with_touches codec touches c)
  touched-Sound_of touches c (f, m, s) = (f, m, touches-Stored touches c.connection s)

  expired-Sound :
      (now : ℕ) (c : Cache)
      → Keyed c
      → Sound codec Q R ttl w c
      → Sound codec Q R ttl w (delete_expired now (with_touches codec c.pending_touches c))
  expired-Sound now c keyed s =
      delete_expired-Sound codec Q R ttl w now (with_touches codec c.pending_touches c)
        (KeyedAs-Unique (with_touches codec c.pending_touches c).connection
          (touched-Keyed codec c.pending_touches c keyed))
        (touched-Sound_of c.pending_touches c s)

  -- A flush is sound at each stage.
  pub reached-Sound :
      (stage : Stage) (now : ℕ) (c : Cache)
      → Keyed c
      → Sound codec Q R ttl w c
      → Sound codec Q R ttl w (reached codec stage now c)
  reached-Sound (at_touches n) now c keyed s =
      touched-Sound_of (first_touches n c.pending_touches) c s
  reached-Sound at_expiry now c keyed s = touched-Sound_of c.pending_touches c s
  reached-Sound (at_trim n m) now c keyed s =
      let r = trim_loop n (delete_expired now (with_touches codec c.pending_touches c)) in
      let (f, h, t) : Sound codec Q R ttl w r =
        trim_loop-Sound codec Q R ttl w n
          (delete_expired now (with_touches codec c.pending_touches c))
          (expired-Sound now c keyed s) in
      if_rule (Sound codec Q R ttl w) (over_limit r)
        (λ _. (
          f,
          h,
          Stored-table codec Q R ttl w
              (take_oldest r.tie (min m (batch_size r)) (table_of r.connection)).1 r.connection
              (λ k x found.
                table-Entries codec Q R ttl w r.connection t k x (
                  lookup-take_oldest r.tie (min m (batch_size r)) k x (table_of r.connection)
                    found))
              t,
        ))
        (λ _. (f, h, t))
  reached-Sound at_commit now c keyed s =
      trim_database-Sound codec Q R ttl w
        (delete_expired now (with_touches codec c.pending_touches c)) (expired-Sound now c keyed s)

  committed-Sound :
      (d : Cache)
      → ((k v : String) (e : ℕ) → Q k v e → R k v e)
      → Sound codec Q R ttl w d
      → Sound codec Q R ttl w (record d { connection = commit codec d d.connection; dirty = false })
  committed-Sound d weaker (f, m, s) = (f, m, flushed-Stored d d.connection weaker s)

  pub flush_all-Sound :
      (now : ℕ) (c : Cache)
      → ((k v : String) (e : ℕ) → Q k v e → R k v e)
      → Keyed c
      → Sound codec Q R ttl w c
      → Sound codec Q R ttl w (flush_all codec now c)
  flush_all-Sound now c weaker keyed s =
      committed-Sound (trim_database (delete_expired now (with_touches codec c.pending_touches c)))
        weaker (reached-Sound at_commit now c keyed s)

  -- The flush goes well.
  pub flush_well-Sound :
      (now : ℕ) (c : Cache)
      → ((k v : String) (e : ℕ) → Q k v e → R k v e)
      → Keyed c
      → Sound codec Q R ttl w c
      → Sound codec Q R ttl w (flush codec goes_well now c).0
  unfolding flush
  flush_well-Sound now c weaker keyed s =
      if_rule (λ (x : Cache × Bool). Sound codec Q R ttl w x.0)
        (not c.enabled || not c.writable || not (is_open c) || not (has_work codec c)) (λ _. s)
        (λ _. flush_all-Sound now c weaker keyed s)
