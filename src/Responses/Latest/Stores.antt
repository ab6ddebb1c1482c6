-- ===== src/Responses/Latest/Stores.antt =====
-- A call of `set` keeps the promise.
use mathlib.Core.Option.{some-injective}
use mathlib.Core.Path.{subst}
use metafusion.Prelude.{
  ◌+◌, ◌≤◌, ◌≡◌, ◌∙◌, ◌||◌, refl, [], ℕ, String, some, Dict, Option, max, true, is_some, insert,
  str_eq, ap, false, arith, Entries, none, insert-Entries, not, sym, Entries-nil, if_rule,
  not_negated,
}
use metafusion.Responses.{
  Codec, second, Cache, Fault, Connection, Row, with_table, is_open, table_of,
  handle_database_error, corrupt, fine, broken, Fine,
}
use metafusion.Responses.Evict.{store_memory}
use metafusion.Responses.History.{life}
use metafusion.Responses.Latest.{Entry, Calm, Promised, promise_encoded}
use metafusion.Responses.Latest.Alone.{Alone, closed-handle_database_error}
use metafusion.Responses.Latest.Changes.{closed_of, open_of}
use metafusion.Responses.Latest.Keep.{Mode, Anything, keep-insert, new_promise}
use metafusion.Responses.Methods.{
  set, effective_ttl, after_write, set_database, write_row, set_encoded,
}
use metafusion.Responses.Sound.{
  Sound, Stored, HeldIs, trim_database-Sound, store_memory-Sound, handle_database_error-Sound,
  RowIs,
}

module _ (codec : Codec) (ttl : ℕ)
    (round_trip : (v p : String) → codec.encode v ≡ some p → codec.decode p ≡ some v)
    (long_enough : second ≤ ttl) where
  pub writes : (c : Cache) → ◌≡◌ {A = Mode} (c.writable, c.enabled) (true, true) → c.writable ≡ true
  writes c f = ap (λ (p : Mode). p.0) f

  pub shut-Stored :
      (Q : String → String → ℕ → Type 0) (o : Option Connection)
      → is_some o ≡ false
      → Stored codec Q Anything o
  shut-Stored Q none h = tt
  shut-Stored Q (some k) h = ground (arith, h)

  life-exact : (c : Cache) (t : Option ℕ) → c.ttl ≡ ttl → effective_ttl t c ≡ life ttl t
  life-exact c none f = omega (arith, f, long_enough)
  life-exact c (some t) f = omega (arith, f, long_enough)

  life-stored : (t : Option ℕ) → max second (life ttl t) ≡ life ttl t
  life-stored none = omega arith
  life-stored (some t) = omega arith

  -- The promise after a call of `set` that stores the value.
  abbrev pub next : String → String → Option ℕ → ℕ → Dict Entry → Dict Entry
  next key value t now spec =
      insert key (record { value = value; expires_at = now + life ttl t }) spec

  keep-next :
      (key value : String) (t : Option ℕ) (now : ℕ) (spec : Dict Entry) (k v : String) (e : ℕ)
      → str_eq key k ≡ false
      → Promised spec k v e
      → Promised (next key value t now spec) k v e
  keep-next key value t now spec k v e other held =
      keep-insert key (record { value = value; expires_at = now + life ttl t }) spec k v e other
        held

  remembered :
      (P : String → String → ℕ → Type 0) (key value : String) (t : Option ℕ) (now : ℕ)
      (spec : Dict Entry) (c d : Cache)
      → ((k v : String) (e : ℕ)
          → str_eq key k ≡ false
          → P k v e
          → Promised (next key value t now spec) k v e)
      → c.ttl ≡ ttl
      → (d.ttl ≡ ttl) × (◌≡◌ {A = Mode} (d.writable, d.enabled) (true, true))
      → Entries (HeldIs codec P) d.memory
      → is_open d ≡ false
      → Sound codec
          (Promised (next key value t now spec))
          Anything
          ttl
          (true, true)
          (store_memory codec key value now (effective_ttl t c) d)
  remembered P key value t now spec c d keep same f m shut =
      store_memory-Sound codec (Promised (next key value t now spec)) Anything ttl (true, true) P
        key value now (effective_ttl t c) d keep
        (subst (λ (n : ℕ). Promised (next key value t now spec) key value (now + n))
          (sym (life-stored t) ∙ ap (max second) (sym (life-exact c t same)))
          (new_promise key value (now + life ttl t) spec))
        m f (shut-Stored (Promised (next key value t now spec)) d.connection shut)

  written :
      (key value payload : String) (t : Option ℕ) (now : ℕ) (spec : Dict Entry)
      (o : Option Connection) (r : Row)
      → codec.encode value ≡ some payload
      → r.response ≡ payload
      → r.expires_at ≡ now + life ttl t
      → Stored codec (Promised spec) Anything o
      → Stored codec
          (Promised (next key value t now spec))
          Anything
          (with_table (insert key r (table_of o)) o)
  written key value payload t now spec none r encoded same ends s = tt
  written key value payload t now spec (some k) r encoded same ends (table, saved) = (
    insert-Entries (RowIs codec (Promised spec))
        (RowIs codec (Promised (next key value t now spec))) key r k.table
        (λ j x other p v decoded.
          keep-next key value t now spec j v x.expires_at other (p v decoded))
        (λ v decoded.
          subst (λ (x : String). Promised (next key value t now spec) key x r.expires_at)
            (some-injective _ _
              (sym (round_trip value payload encoded) ∙ sym (ap codec.decode same) ∙ decoded))
            (subst (λ (e : ℕ). Promised (next key value t now spec) key value e) (sym ends)
              (new_promise key value (now + life ttl t) spec)))
        table,
    saved,
  )

  -- After an error of the database the value is in memory, and there is no database.
  failed :
      (P : String → String → ℕ → Type 0) (fault : Fault) (key value : String) (t : Option ℕ)
      (now : ℕ) (spec : Dict Entry) (c d : Cache)
      → ((k v : String) (e : ℕ)
          → str_eq key k ≡ false
          → P k v e
          → Promised (next key value t now spec) k v e)
      → Calm fault
      → (Fine fault → ⊥)
      → c.ttl ≡ ttl
      → Sound codec P Anything ttl (true, true) d
      → Sound codec
          (Promised (next key value t now spec))
          Anything
          ttl
          (true, true)
          (store_memory codec key value now (effective_ttl t c) (handle_database_error fault d))
  failed P fault key value t now spec c d keep calm bad same s =
      let after = handle_database_error-Sound codec P Anything ttl (true, true) fault d s in
      remembered P key value t now spec c (handle_database_error fault d) keep same after.0 after.1
        (closed-handle_database_error fault d calm bad)

  after_write-Sound :
      (fault : Fault) (key value : String) (t : Option ℕ) (now : ℕ) (spec : Dict Entry)
      (c d : Cache)
      → Calm fault
      → c.ttl ≡ ttl
      → Sound codec (Promised (next key value t now spec)) Anything ttl (true, true) d
      → Sound codec
          (Promised (next key value t now spec))
          Anything
          ttl
          (true, true)
          (after_write codec fault key value now (effective_ttl t c) d)
  after_write-Sound fine key value t now spec c d calm same s =
      trim_database-Sound codec (Promised (next key value t now spec)) Anything ttl (true, true) d s
  after_write-Sound broken key value t now spec c d calm same s =
      failed (Promised (next key value t now spec)) broken key value t now spec c d
        (λ k v e other p. p) tt (λ f. f) same s
  after_write-Sound (corrupt x) key value t now spec c d calm same s =
      failed (Promised (next key value t now spec)) (corrupt x) key value t now spec c d
        (λ k v e other p. p) calm (λ f. f) same s

  set_database-Sound :
      (error fault : Fault) (key value payload : String) (t : Option ℕ) (now : ℕ)
      (spec : Dict Entry) (c : Cache)
      → codec.encode value ≡ some payload
      → Calm error
      → Calm fault
      → c.memory ≡ []
      → Sound codec (Promised spec) Anything ttl (true, true) c
      → Sound codec
          (Promised (next key value t now spec))
          Anything
          ttl
          (true, true)
          (set_database codec error fault key value payload now (effective_ttl t c) c)
  set_database-Sound fine fault key value payload t now spec c encoded calm calm' empty (f, m, s) =
      let row : Row = record {
        response = payload;
        expires_at = now + effective_ttl t c;
        touched_at = now;
        stored_bytes = codec.size payload;
      } in
      after_write-Sound fault key value t now spec c
        (write_row codec key payload now (effective_ttl t c) c) calm' f.0
        (
          f,
          subst (Entries (HeldIs codec (Promised (next key value t now spec)))) (sym empty)
              (Entries-nil (HeldIs codec (Promised (next key value t now spec)))),
          written key value payload t now spec c.connection row encoded refl
              (ap (λ (n : ℕ). now + n) (life-exact c t f.0)) s,
        )
  set_database-Sound broken fault key value payload t now spec c encoded calm calm' empty s =
      failed (Promised spec) broken key value t now spec c c (keep-next key value t now spec) tt
        (λ f. f) s.0.0 s
  set_database-Sound (corrupt x) fault key value payload t now spec c encoded calm calm' empty s =
      failed (Promised spec) (corrupt x) key value t now spec c c (keep-next key value t now spec)
        calm (λ f. f) s.0.0 s

  pub set-Sound :
      (error fault : Fault) (key value : String) (t : Option ℕ) (now : ℕ) (spec : Dict Entry)
      (c : Cache)
      → Calm error
      → Calm fault
      → Alone c
      → Sound codec (Promised spec) Anything ttl (true, true) c
      → Sound codec
          (Promised (promise_encoded codec (codec.encode value) key value (now + life ttl t) spec))
          Anything
          ttl
          (true, true)
          (set codec error fault key value t now c)
  unfolding set
  set-Sound error fault key value t now spec c calm calm' alone s =
      if_rule
        (Sound codec
          (Promised (promise_encoded codec (codec.encode value) key value (now + life ttl t) spec))
          Anything ttl (true, true))
        (not c.enabled) (λ off. absurd (not_negated c.enabled (ap (λ (p : Mode). p.1) s.0.1) off))
        (λ _. by_payload (codec.encode value) refl)
    where
      by_payload :
          (o : Option String)
          → codec.encode value ≡ o
          → Sound codec
              (Promised (promise_encoded codec o key value (now + life ttl t) spec))
              Anything
              ttl
              (true, true)
              (set_encoded codec error fault key value o now (effective_ttl t c) c)
      by_payload none encoded = s
      by_payload (some payload) encoded =
          if_rule (Sound codec (Promised (next key value t now spec)) Anything ttl (true, true))
            (not (is_open c) || not c.writable)
            (λ shut.
              remembered (Promised spec) key value t now spec c c (keep-next key value t now spec)
                s.0.0 s.0 s.1 (closed_of (is_open c) c.writable (writes c s.0.1) shut))
            (λ opened.
              set_database-Sound error fault key value payload t now spec c encoded calm calm'
                (alone (open_of (is_open c) c.writable opened)) s)
