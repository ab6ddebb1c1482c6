-- ===== src/Responses/Latest/Changes.antt =====
-- The calls that change the cache keep its memory empty while its database is open.
use metafusion.Prelude.{
  ◌≡◌, ◌∙◌, ◌||◌, refl, [], Bool, String, not, true, ℕ, Option, false, arith, ap, sym, is_some,
  if_rule, ltb, some, lookup, none, remove, suc, zero,
}
use metafusion.Responses.{Cache, Codec, is_open, Fault, Held, Row, fine, corrupt, broken, table_of}
use metafusion.Responses.Evict.{
  store_memory, trim_memory, evict_held, trim_memory_loop, over_memory, oldest_held,
}
use metafusion.Responses.Latest.{Calm}
use metafusion.Responses.Latest.Alone.{
  Alone, handle_database_error-memory, trim_database-memory, closed-handle_database_error,
  delete_expired-memory,
}
use metafusion.Responses.Methods.{
  set, delete, clear, flush, clear_database, after_write, set_database, set_encoded, write_row,
  effective_ttl, delete_row, has_work, delete_database, goes_well, Deleted,
}

evict_held-connection :
    (codec : Codec) (o : Option (String × Held)) (c : Cache)
    → (evict_held codec o c).connection ≡ c.connection
evict_held-connection codec none c = refl
evict_held-connection codec (some e) c = refl

trim_memory_loop-connection :
    (codec : Codec) (n : ℕ) (c : Cache) → (trim_memory_loop codec n c).connection ≡ c.connection
unfolding trim_memory_loop
trim_memory_loop-connection codec zero c = refl
trim_memory_loop-connection codec (suc n) c =
    let o = oldest_held codec c.memory in
    if_rule (λ (d : Cache). d.connection ≡ c.connection) (over_memory codec c)
      (λ _.
        trim_memory_loop-connection codec n (evict_held codec o c)
        ∙ evict_held-connection codec o c)
      (λ _. refl)

pub store_memory-connection :
    (codec : Codec) (key value : String) (now ttl : ℕ) (c : Cache)
    → (store_memory codec key value now ttl c).connection ≡ c.connection
unfolding store_memory trim_memory
store_memory-connection codec key value now ttl c = trim_memory_loop-connection codec _ _

closed-Alone : (c : Cache) → is_open c ≡ false → Alone c
closed-Alone c shut opened = ground (arith, sym shut ∙ opened)

remembered-Alone :
    (codec : Codec) (key value : String) (now ttl : ℕ) (c : Cache)
    → is_open c ≡ false
    → Alone (store_memory codec key value now ttl c)
remembered-Alone codec key value now ttl c shut =
    closed-Alone (store_memory codec key value now ttl c)
      (ap is_some (store_memory-connection codec key value now ttl c) ∙ shut)

after_write-Alone :
    (codec : Codec) (fault : Fault) (key value : String) (now ttl : ℕ) (c : Cache)
    → Calm fault
    → c.memory ≡ []
    → Alone (after_write codec fault key value now ttl c)
after_write-Alone codec fine key value now ttl c calm empty = λ _. trim_database-memory c ∙ empty
after_write-Alone codec broken key value now ttl c calm empty =
    remembered-Alone codec key value now ttl _ (closed-handle_database_error broken c tt (λ f. f))
after_write-Alone codec (corrupt x) key value now ttl c calm empty =
    remembered-Alone codec key value now ttl _
      (closed-handle_database_error (corrupt x) c calm (λ f. f))

set_database-Alone :
    (codec : Codec) (error fault : Fault) (key value payload : String) (now ttl : ℕ) (c : Cache)
    → Calm error
    → Calm fault
    → c.memory ≡ []
    → Alone (set_database codec error fault key value payload now ttl c)
set_database-Alone codec fine fault key value payload now ttl c calm calm' empty =
    after_write-Alone codec fault key value now ttl (write_row codec key payload now ttl c) calm'
      empty
set_database-Alone codec broken fault key value payload now ttl c calm calm' empty =
    remembered-Alone codec key value now ttl _ (closed-handle_database_error broken c tt (λ f. f))
set_database-Alone codec (corrupt x) fault key value payload now ttl c calm calm' empty =
    remembered-Alone codec key value now ttl _
      (closed-handle_database_error (corrupt x) c calm (λ f. f))

pub open_of : (o w : Bool) → (not o || not w) ≡ false → o ≡ true
open_of o w h = ground (arith, h)

pub closed_of : (o w : Bool) → w ≡ true → (not o || not w) ≡ true → o ≡ false
closed_of o w writes h = ground (arith, h, writes)

pub set-Alone :
    (codec : Codec) (error fault : Fault) (key value : String) (t : Option ℕ) (now : ℕ) (c : Cache)
    → Calm error
    → Calm fault
    → c.writable ≡ true
    → Alone c
    → Alone (set codec error fault key value t now c)
unfolding set
set-Alone codec error fault key value t now c calm calm' writes a =
    if_rule Alone (not c.enabled) (λ _. a) (λ _. by_payload (codec.encode value))
  where
    by_payload :
        (o : Option String)
        → Alone (set_encoded codec error fault key value o now (effective_ttl t c) c)
    by_payload none = a
    by_payload (some payload) =
        if_rule Alone (not (is_open c) || not c.writable)
          (λ shut.
            remembered-Alone codec key value now (effective_ttl t c) c
              (closed_of (is_open c) c.writable writes shut))
          (λ opened.
            set_database-Alone codec error fault key value payload now (effective_ttl t c) c calm
              calm' (a (open_of (is_open c) c.writable opened)))

pub delete-Alone :
    (codec : Codec) (error : Fault) (key : String) (c : Cache)
    → Alone c
    → Alone (delete codec error key c).0
unfolding delete
delete-Alone codec error key c a =
    if_rule (λ (x : Cache × Deleted). Alone x.0) (is_some (lookup key c.memory))
      (λ _ opened. ap (remove key) (a opened) ∙ unfold remove in refl)
      (λ _.
        if_rule (λ (x : Cache × Deleted). Alone x.0) (not (is_open c) || not c.writable) (λ _. a)
          (λ opened. deleted_in error (open_of (is_open c) c.writable opened)))
  where
    by_row : (o : Option Row) → is_open c ≡ true → Alone (delete_row codec key o c).0
    by_row none opened = a
    by_row (some r) opened = λ _. a opened

    deleted_in : (g : Fault) → is_open c ≡ true → Alone (delete_database codec g key c).0
    deleted_in fine opened = by_row (lookup key (table_of c.connection)) opened
    deleted_in broken opened = a
    deleted_in (corrupt x) opened = a

pub clear-memory : (codec : Codec) (fault : Fault) (c : Cache) → (clear codec fault c).memory ≡ []
unfolding clear
clear-memory codec fault c =
    if_rule (λ (d : Cache). d.memory ≡ []) (not (is_open c)) (λ _. refl)
      (λ _.
        if_rule (λ (d : Cache). d.memory ≡ []) (not c.writable) (λ _. refl)
          (λ _.
            if_rule (λ (d : Cache). d.memory ≡ []) (ltb 0 c.entry_count) (λ _. cleared fault)
              (λ _. refl)))
  where
    c' : Cache
    c' = record c { memory = []; pending_touches = [] }

    cleared : (g : Fault) → (clear_database codec g c').memory ≡ []
    cleared fine = refl
    cleared broken = handle_database_error-memory broken c'
    cleared (corrupt x) = handle_database_error-memory (corrupt x) c'

pub flush-Alone :
    (codec : Codec) (now : ℕ) (c : Cache) → Alone c → Alone (flush codec goes_well now c).0
unfolding flush
flush-Alone codec now c a =
    if_rule (λ (x : Cache × Bool). Alone x.0)
      (not c.enabled || not c.writable || not (is_open c) || not (has_work codec c)) (λ _. a)
      (λ opened _.
        trim_database-memory _
        ∙ delete_expired-memory now _
        ∙ a (was_open c.enabled c.writable (is_open c) (has_work codec c) opened))
  where
    was_open : (e w o h : Bool) → (not e || not w || not o || not h) ≡ false → o ≡ true
    was_open e w o h q = ground (arith, q)
