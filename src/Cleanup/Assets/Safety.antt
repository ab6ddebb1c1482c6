-- ===== src/Cleanup/Assets/Safety.antt =====
-- Whatever fails on the way, artwork is not lost between its place and the quarantine.
use metafusion.Cleanup.Assets.{
  World, Run, Outcome, way_back, clean_up, settle_move, move_file, quarantine_asset, after_copy,
  may_quarantine, done, refused, raised, restore_row, restore_asset, restored_db, load_active,
  may_restore, may_read, unread,
}
use metafusion.Cleanup.Disk.{
  write, Disk, copy_verified, File, CopyRun, copy_result, exists, regular_file, has_checksum,
}
use metafusion.Cleanup.Quarantine.{QuarantineDb, Request, record_quarantine, QuarantineRow}
use metafusion.Prelude.{
  ◌≡◌, ◌⊎◌, String, Option, Bool, eq_refl, str_eq, some, false, true, if◌then◌else◌, ◌∙◌, ◌&&◌,
  refl, arith, if_rule, inl, not, eq_iff, Bool-cases, none, ℕ, inr, ◌∷◌, [],
}

pub write_self : (p : String) (f : Option File) (d : Disk) → write p f d p ≡ f
unfolding write
write_self p f d = rw (eq_refl p)

pub write_ne :
    (p q : String) (f : Option File) (d : Disk) → str_eq p q ≡ false → write p f d q ≡ d q
unfolding write
write_ne p q f d h = rw h

and_left : (a b : Bool) → (a && b) ≡ true → a ≡ true
and_left a b h = ground arith

last_two : (a b c : Bool) → (a && b && c) ≡ true → (b && c) ≡ true
last_two a b c h = ground arith

last_of_five : (a b c d e : Bool) → (a && b && c && d && e) ≡ true → (d && e) ≡ true
last_of_five a b c d e h = ground arith

and_right : (a b : Bool) → (a && b) ≡ true → b ≡ true
and_right a b h = ground arith

eq_sym_false : (a b : String) → str_eq a b ≡ false → str_eq b a ≡ false
eq_sym_false a b h = ground (arith, eq_iff a b, eq_iff b a)

module _ (sha256 : String → String) where
  -- A file with the checksum is at the path.
  pub record Holds (d : Disk) (p checksum : String) : Type 0 where
    pub file : File
    pub at : d p ≡ some file
    pub sum : str_eq (sha256 file.content) checksum ≡ true

  copy_result_facts :
      (copied : Option String) (replaced : Bool) (p checksum : String) (d : Disk)
      → ((copy_result sha256 copied replaced p checksum d ≡ (d, false)))
        ⊎ ((f : File) × (copy_result sha256 copied replaced p checksum d
              ≡ (write p (some f) d, true))
            × (str_eq (sha256 f.content) checksum ≡ true))
  unfolding copy_result
  copy_result_facts none replaced p checksum d = inl refl
  copy_result_facts (some c) replaced p checksum d =
      elim (Bool-cases (str_eq (sha256 c) checksum && replaced)) [
        | inl e ↦ inr (record { content = c; regular = true }, rw e, and_left _ _ e)
        | inr e ↦ inl (rw e)
      ]

  copied_facts :
      (run : CopyRun) (p checksum : String) (d : Disk)
      → ((copy_verified sha256 run p checksum d ≡ (d, false)))
        ⊎ ((f : File) × (copy_verified sha256 run p checksum d ≡ (write p (some f) d, true))
            × (str_eq (sha256 f.content) checksum ≡ true))
  unfolding copy_verified
  copied_facts run p checksum d = copy_result_facts run.copied run.replaced p checksum d

  abbrev pub Kept : String → String → String → Disk → Type 0
  Kept from to checksum d = Holds d from checksum ⊎ Holds d to checksum

  clean_up-Kept :
      (cleaned : Bool) (from to checksum : String) (f : File) (d : Disk)
      → str_eq to from ≡ false
      → str_eq (sha256 f.content) checksum ≡ true
      → Kept from to checksum (clean_up sha256 cleaned to (write from (some f) d, true))
  unfolding clean_up
  clean_up-Kept true from to checksum f d ne sum = inl (record {
    file = f;
    at = write_ne to from none (write from (some f) d) ne ∙ write_self from (some f) d;
    sum = sum;
  })
  clean_up-Kept false from to checksum f d ne sum =
      inl (record { file = f; at = write_self from (some f) d; sum = sum })

  way_back-Kept :
      (run : Run) (from to checksum : String) (d : Disk)
      → str_eq to from ≡ false
      → Holds d to checksum
      → Kept from to checksum (way_back sha256 run from to checksum d)
  unfolding way_back
  way_back-Kept run from to checksum d ne h =
      if_rule (Kept from to checksum) (not (exists from d) && exists to d)
        (λ _. elim (copied_facts run.back from checksum d) [
          | inl e ↦ rw e (unfold clean_up in inr h)
          | inr (f, e, sum) ↦ rw e (clean_up-Kept run.cleaned from to checksum f d ne sum)
        ])
        (λ _. inr h)

  -- How a move ends: done, with the file moved and the database written; refused by a check, or
  -- by an exception when the checksum is read, with nothing changed; or raised, with the database as it was and the file in one of the two places.
  abbrev pub MoveEnd :
      String → String → String → QuarantineDb × ℕ → World → World × Outcome → Type 0
  MoveEnd from to checksum written w (w', done id) =
      (w'.disk from ≡ none) × Holds w'.disk to checksum × (w'.db ≡ written.0) × (id ≡ written.1)
  MoveEnd from to checksum written w (w', refused) = (w'.disk ≡ w.disk) × (w'.db ≡ w.db)
  MoveEnd from to checksum written w (w', unread) = (w'.disk ≡ w.disk) × (w'.db ≡ w.db)
  MoveEnd from to checksum written w (w', raised) = Kept from to checksum w'.disk × (w'.db ≡ w.db)

  settle_move-ends :
      (run : Run) (from to checksum : String) (written : QuarantineDb × ℕ) (w w₀ : World)
      → str_eq from to ≡ false
      → Holds w.disk to checksum
      → w.db ≡ w₀.db
      → MoveEnd from to checksum written w₀ (settle_move sha256 run from to checksum written w)
  unfolding settle_move
  settle_move-ends run from to checksum (db, id) w w₀ ne h same =
      let moved = if run.unlinked then write from none w.disk else w.disk in
      let there : Holds moved to checksum = record {
        file = h.file;
        at =
            if_rule (λ (d : Disk). d to ≡ some h.file) run.unlinked
              (λ _. write_ne from to none w.disk ne ∙ h.at) (λ _. h.at);
        sum = h.sum;
      } in
      if_rule (MoveEnd from to checksum (db, id) w₀) (run.unlinked && run.recorded)
        (λ e. (
          rw (and_left run.unlinked run.recorded e) (write_self from none w.disk),
          there,
          refl,
          refl,
        ))
        (λ _. (way_back-Kept run from to checksum moved (eq_sym_false from to ne) there, same))

  pub move_file-ends :
      (run : Run) (from to checksum : String) (written : QuarantineDb × ℕ) (w : World)
      → str_eq from to ≡ false
      → Holds w.disk from checksum
      → MoveEnd from to checksum written w (move_file sha256 run from to checksum written w)
  unfolding move_file after_copy
  move_file-ends run from to checksum written w ne h =
      elim (copied_facts run.copy to checksum w.disk) [
        | inl e ↦ rw e (inl h, refl)
        | inr (f, e, sum) ↦ rw e (
            settle_move-ends run from to checksum written
              (record w { disk = write to (some f) w.disk }) w ne
              (record { file = f; at = write_self to (some f) w.disk; sum = sum }) refl)
      ]

  pub check-Holds :
      (d : Disk) (p checksum : String) (f : Option File)
      → d p ≡ f
      → (regular_file f && has_checksum sha256 f checksum) ≡ true
      → Holds d p checksum
  check-Holds d p checksum none e h = absurd (no_file h)
    where
      no_file : ◌≡◌ {A = Bool} false true → ⊥
      no_file x = cc
  check-Holds d p checksum (some f) e h = record { file = f; at = e; sum = and_right f.regular _ h }

module _ (sha256 : String → String) (managed in_quarantine : String → Bool) where
  -- Quarantining artwork under another name, whatever the copies write and whichever calls fail:
  -- it ends with the file moved, under its checksum, and recorded; or with nothing changed, refused or
  -- after an exception of the reading of its checksum; or with the database as it was and a file with
  -- that checksum at its place or in the quarantine.
  pub quarantine_ends :
      (run : Run) (r : Request) (w : World)
      → str_eq r.source r.destination ≡ false
      → MoveEnd sha256 r.source r.destination r.checksum
          (record_quarantine r w.db)
          w
          (quarantine_asset sha256 managed in_quarantine run r w)
  unfolding quarantine_asset
  quarantine_ends run r w ne =
      let Ends = MoveEnd sha256 r.source r.destination r.checksum (record_quarantine r w.db) w in
      if_rule Ends (managed r.source && regular_file (w.disk r.source) && not run.is_read)
        (λ _. (refl, refl))
        (λ _.
          if_rule Ends (may_quarantine sha256 managed in_quarantine r w.disk)
            (λ e.
              let held : Holds sha256 w.disk r.source r.checksum =
                check-Holds sha256 w.disk r.source r.checksum (w.disk r.source) refl (
                  last_two (managed r.source) (regular_file (w.disk r.source))
                    (has_checksum sha256 (w.disk r.source) r.checksum) e) in
              if_rule Ends run.is_prepared
                (λ _.
                  move_file-ends sha256 run r.source r.destination r.checksum
                    (record_quarantine r w.db) w ne held)
                (λ _. (inl held, refl)))
            (λ _. (refl, refl)))

  restore_row-ends :
      (run : Run) (id now : ℕ) (row : QuarantineRow) (w : World)
      → str_eq row.quarantine_path row.source_path ≡ false
      → MoveEnd sha256 row.quarantine_path row.source_path row.checksum
          (restored_db id now w.db, id)
          w
          (restore_row sha256 managed in_quarantine run id now (row ∷ []) w)
  unfolding restore_row
  restore_row-ends run id now row w ne =
      let Ends =
        MoveEnd sha256 row.quarantine_path row.source_path row.checksum
          (restored_db id now w.db, id) w in
      if_rule Ends (may_read sha256 managed in_quarantine row w.disk && not run.is_read)
        (λ _. (refl, refl))
        (λ _.
          if_rule Ends (may_restore sha256 managed in_quarantine row w.disk)
            (λ e.
              move_file-ends sha256 run row.quarantine_path row.source_path row.checksum
                (restored_db id now w.db, id) w ne
                (check-Holds sha256 w.disk row.quarantine_path row.checksum
                  (w.disk row.quarantine_path) refl
                  (last_of_five (in_quarantine row.quarantine_path) (managed row.source_path)
                    (not (exists row.source_path w.disk))
                    (regular_file (w.disk row.quarantine_path))
                    (has_checksum sha256 (w.disk row.quarantine_path) row.checksum) e)))
            (λ _. (refl, refl)))

  -- Restoring the one active row of a history id ends the same three ways: the file is back at its
  -- place, under its checksum, and the row is closed; or nothing has changed; or the database is as
  -- it was, and a file with that checksum is in the quarantine or at its place.
  pub restore_ends :
      (run : Run) (id now : ℕ) (row : QuarantineRow) (w : World)
      → load_active sha256 managed in_quarantine id w.db.rows ≡ row ∷ []
      → str_eq row.quarantine_path row.source_path ≡ false
      → MoveEnd sha256 row.quarantine_path row.source_path row.checksum
          (restored_db id now w.db, id)
          w
          (restore_asset sha256 managed in_quarantine run id now w)
  unfolding restore_asset
  restore_ends run id now row w one ne = rw one (restore_row-ends run id now row w ne)
