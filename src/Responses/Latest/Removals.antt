-- ===== src/Responses/Latest/Removals.antt =====
-- Deletions keep the promise.
use mathlib.Core.Path.{subst}
use metafusion.Prelude.{
  ◌≤◌, ◌≡◌, ◌∙◌, ◌||◌, ◌∷◌, refl, [], if◌then◌else◌, ℕ, Dict, String, some, arith, true, remove,
  Entries, Bool, false, Entries-nil, is_some, not, lookup, sym, ap, Option, ltb, str_eq,
  remove-Entries, if_rule, none, not_negated,
}
use metafusion.Responses.{
  Codec, Cache, second, handle_database_error, Row, recover, rows, Fault, drop_database,
  empty_connection, corrupt, is_open, fine, Held, broken, Connection, table_of, with_table, Fine,
}
use metafusion.Responses.Evict.Bounds.{Counted, CountedAs}
use metafusion.Responses.Latest.{Entry, Promised, promise}
use metafusion.Responses.Latest.Alone.{Alone}
use metafusion.Responses.Latest.Changes.{closed_of}
use metafusion.Responses.Latest.Keep.{Anything, Mode, absent-Entries, keep-remove}
use metafusion.Responses.Latest.Stores.{shut-Stored, writes}
use metafusion.Responses.Methods.{
  delete, clear, delete_row, clear_database, Deleted, delete_database,
}
use metafusion.Responses.Run.{deletes}
use metafusion.Responses.Sound.{Sound, HeldIs, RowIs, Stored}

module _ (codec : Codec) (ttl : ℕ)
    (round_trip : (v p : String) → codec.encode v ≡ some p → codec.decode p ≡ some v)
    (long_enough : second ≤ ttl) where
  pub delete_well-Sound :
      (key : String) (spec : Dict Entry) (c : Cache)
      → Alone c
      → Sound codec (Promised spec) Anything ttl (true, true) c
      → Sound codec
          (Promised (remove key spec))
          Anything
          ttl
          (true, true)
          (delete codec fine key c).0
  unfolding delete
  delete_well-Sound key spec c alone (f, m, s) =
      if_rule (λ (x : Cache × Deleted). After x.0) (is_some (lookup key c.memory))
        (λ held. (
          f,
          remove-Entries (HeldIs codec (Promised spec)) (HeldIs codec (Promised (remove key spec)))
              key c.memory (λ j x other p. keep-remove key spec j x.value x.expires_at other p) m,
          shut-Stored codec ttl round_trip long_enough (Promised (remove key spec)) c.connection
              (shut (is_open c) (some_held held)),
        ))
        (λ unheld.
          if_rule (λ (x : Cache × Deleted). After x.0) (not (is_open c) || not c.writable)
            (λ closed. (
              f,
              other_held unheld,
              shut-Stored codec ttl round_trip long_enough (Promised (remove key spec)) c.connection
                  (closed_of (is_open c) c.writable (writes codec ttl round_trip long_enough c f.1)
                    closed),
            ))
            (λ _. by_row (lookup key (table_of c.connection)) refl (other_held unheld)))
    where
      After : Cache → Type 0
      After d = Sound codec (Promised (remove key spec)) Anything ttl (true, true) d

      shut : (b : Bool) → (b ≡ true → ⊥) → b ≡ false
      shut true h = absurd (h refl)
      shut false h = refl

      some_held : is_some (lookup key c.memory) ≡ true → is_open c ≡ true → ⊥
      some_held held opened =
          nothing (sym (ap (λ (t : Dict Held). is_some (lookup key t)) (alone opened)) ∙ held)
        where
          nothing : is_some (lookup {V = Held} key []) ≡ true → ⊥
          nothing h = unfold lookup in ground (arith, h)

      other_held :
          is_some (lookup key c.memory) ≡ false
          → Entries (HeldIs codec (Promised (remove key spec))) c.memory
      other_held unheld =
          absent-Entries (HeldIs codec (Promised spec)) (HeldIs codec (Promised (remove key spec)))
            key c.memory unheld (λ j x other p. keep-remove key spec j x.value x.expires_at other p)
            m

      kept_row :
          (j : String) (x : Row)
          → str_eq key j ≡ false
          → RowIs codec (Promised spec) j x
          → RowIs codec (Promised (remove key spec)) j x
      kept_row j x other p v decoded = keep-remove key spec j v x.expires_at other (p v decoded)

      by_row :
          (o : Option Row)
          → lookup key (table_of c.connection) ≡ o
          → Entries (HeldIs codec (Promised (remove key spec))) c.memory
          → After (delete_row codec key o c).0
      by_row none found m' = (f, m', unchanged c.connection found s)
        where
          unchanged :
              (o : Option Connection)
              → lookup key (table_of o) ≡ none
              → Stored codec (Promised spec) Anything o
              → Stored codec (Promised (remove key spec)) Anything o
          unchanged none e z = tt
          unchanged (some k) e (t, saved) = (
            absent-Entries (RowIs codec (Promised spec)) (RowIs codec (Promised (remove key spec)))
                key k.table (ap is_some e) kept_row t,
            saved,
          )
      by_row (some r) found m' = (f, m', removed c.connection s)
        where
          removed :
              (o : Option Connection)
              → Stored codec (Promised spec) Anything o
              → Stored codec
                  (Promised (remove key spec))
                  Anything
                  (with_table (remove key (table_of o)) o)
          removed none z = tt
          removed (some k) (t, saved) = (
            remove-Entries (RowIs codec (Promised spec)) (RowIs codec (Promised (remove key spec)))
                key k.table kept_row t,
            saved,
          )

  -- A deletion that meets an error of the database takes a value from memory or changes nothing.
  delete_failing-Sound :
      (error : Fault) (key : String) (spec : Dict Entry) (c : Cache)
      → (Fine error → ⊥)
      → Sound codec (Promised spec) Anything ttl (true, true) c
      → Sound codec (Promised spec) Anything ttl (true, true) (delete codec error key c).0
  unfolding delete
  delete_failing-Sound error key spec c bad (f, m, s) =
      if_rule (λ (x : Cache × Deleted). Sound codec (Promised spec) Anything ttl (true, true) x.0)
        (is_some (lookup key c.memory))
        (λ _. (
          f,
          remove-Entries (HeldIs codec (Promised spec)) (HeldIs codec (Promised spec)) key c.memory
              (λ j x other p. p) m,
          s,
        ))
        (λ _.
          if_rule
            (λ (x : Cache × Deleted). Sound codec (Promised spec) Anything ttl (true, true) x.0)
            (not (is_open c) || not c.writable) (λ _. (f, m, s)) (λ _. unchanged error bad))
    where
      unchanged :
          (g : Fault)
          → (Fine g → ⊥)
          → Sound codec (Promised spec) Anything ttl (true, true) (delete_database codec g key c).0
      unchanged fine fails_not = absurd (fails_not tt)
      unchanged broken fails_not = (f, m, s)
      unchanged (corrupt x) fails_not = (f, m, s)

  pub delete-Sound :
      (error : Fault) (key : String) (spec : Dict Entry) (c : Cache)
      → Alone c
      → Sound codec (Promised spec) Anything ttl (true, true) c
      → Sound codec
          (Promised (promise codec ttl (deletes error key) spec))
          Anything
          ttl
          (true, true)
          (delete codec error key c).0
  delete-Sound fine key spec c alone s = delete_well-Sound key spec c alone s
  delete-Sound broken key spec c alone s = delete_failing-Sound broken key spec c (λ h. h) s
  delete-Sound (corrupt x) key spec c alone s =
      delete_failing-Sound (corrupt x) key spec c (λ h. h) s

  -- With nothing in memory an error of the database leaves nothing at all.
  failed :
      (fault : Fault) (c : Cache)
      → (Fine fault → ⊥)
      → (c.ttl ≡ ttl) × (◌≡◌ {A = Mode} (c.writable, c.enabled) (true, true))
      → Entries (HeldIs codec (Promised [])) c.memory
      → Sound codec (Promised []) Anything ttl (true, true) (handle_database_error fault c)
  unfolding handle_database_error recover drop_database empty_connection
  failed fine c bad f m = absurd (bad tt)
  failed broken c bad f m = (f, m, tt)
  failed (corrupt reopened) c bad f m = by_mode c.writable reopened
    where
      c' : Cache
      c' = record c { has_error = true; pending_touches = []; dirty = false }

      by_mode :
          (b r : Bool)
          → Sound codec
              (Promised [])
              Anything
              ttl
              (true, true)
              (if b then recover r c' else drop_database c')
      by_mode true true =
          (f, m, (Entries-nil (RowIs codec (Promised [])), Entries-nil (RowIs codec Anything)))
      by_mode true false = (f, m, tt)
      by_mode false r = (f, m, tt)

  no_rows : (t : Dict Row) → rows t ≡ 0 → t ≡ []
  no_rows [] h = refl
  no_rows (e ∷ t) h = absurd (omega (arith, h))

  pub clear-Sound :
      (fault : Fault) (spec : Dict Entry) (c : Cache)
      → Counted c
      → Sound codec (Promised spec) Anything ttl (true, true) c
      → Sound codec (Promised []) Anything ttl (true, true) (clear codec fault c)
  unfolding clear
  clear-Sound fault spec c counts (f, m, s) =
      if_rule After (not (is_open c)) (λ closed. (f, none_held, shut_down (not-true closed)))
        (λ opened.
          if_rule After (not c.writable)
            (λ off.
              absurd (not_negated c.writable (writes codec ttl round_trip long_enough c f.1) off))
            (λ _.
              if_rule After (ltb 0 c.entry_count) (λ _. cleared fault)
                (λ zero_rows. (
                  f,
                  none_held,
                  emptied c.connection c.entry_count c.stored_bytes zero_rows counts s,
                ))))
    where
      After : Cache → Type 0
      After d = Sound codec (Promised []) Anything ttl (true, true) d

      c' : Cache
      c' = record c { memory = []; pending_touches = [] }

      none_held : Entries (HeldIs codec (Promised [])) []
      none_held = Entries-nil (HeldIs codec (Promised []))

      not-true : {b : Bool} → not b ≡ true → b ≡ false
      not-true {b} h = ground (arith, h)

      shut_down : is_open c ≡ false → Stored codec (Promised []) Anything c.connection
      shut_down h = shut-Stored codec ttl round_trip long_enough (Promised []) c.connection h

      emptied :
          (o : Option Connection) (n b : ℕ)
          → ltb 0 n ≡ false
          → CountedAs o n b
          → Stored codec (Promised spec) Anything o
          → Stored codec (Promised []) Anything o
      emptied none n b z k h = tt
      emptied (some k) n b z (matches, x) (t, saved) = (
        subst (Entries (RowIs codec (Promised [])))
            (sym (no_rows k.table (none_of (rows k.table) n z matches.count)))
            (Entries-nil (RowIs codec (Promised []))),
        saved,
      )
        where
          none_of : (r j : ℕ) → ltb 0 j ≡ false → j ≡ r → r ≡ 0
          none_of r j q e = ground (arith, q, e)

      cleared : (g : Fault) → After (clear_database codec g c')
      cleared fine = (f, none_held, wiped c.connection s)
        where
          wiped :
              (o : Option Connection)
              → Stored codec (Promised spec) Anything o
              → Stored codec (Promised []) Anything (with_table [] o)
          wiped none z = tt
          wiped (some k) (t, saved) = (Entries-nil (RowIs codec (Promised [])), saved)
      cleared broken = failed broken c' (λ h. h) f none_held
      cleared (corrupt x) = failed (corrupt x) c' (λ h. h) f none_held
