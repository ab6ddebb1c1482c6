-- ===== src/Cleanup/Assets/Purge.antt =====
-- What a purge of the quarantine may remove.
use metafusion.Cleanup.Assets.{
  purge_row, World, PurgeStatus, purge_rows, purge_expired, load_expired,
}
use metafusion.Cleanup.Assets.Safety.{Holds, write_ne, check-Holds}
use metafusion.Cleanup.Disk.{Disk, write, exists, regular_file, has_checksum}
use metafusion.Cleanup.Quarantine.{QuarantineRow}
use metafusion.Prelude.{
  ◌≡◌, ◌⊎◌, ◌∷◌, [], String, Bool, List, ℕ, true, false, ◌∙◌, ◌&&◌, ◌||◌, refl, not, inl, arith,
  str_eq, sym, inr, none, eq_iff, if_rule,
}

root_checks : (a b : Bool) → (not a || b) ≡ false → (a ≡ true) × (b ≡ false)
root_checks a b h = ground arith

file_checks : (a b : Bool) → (not a || not b) ≡ false → (a && b) ≡ true
file_checks a b h = ground arith

module _ (sha256 : String → String) (managed in_quarantine links : String → Bool) where
  -- One of the rows stores its file at the path, under the quarantine's root, by no link, and what is
  -- there has the row's checksum.
  abbrev pub Purgeable : Disk → String → List QuarantineRow → Type 0
  Purgeable d p [] = ⊥
  Purgeable d p (row ∷ rows) =
      ((row.quarantine_path ≡ p)
        × (in_quarantine p ≡ true)
        × (links p ≡ false)
        × Holds sha256 d p row.checksum)
      ⊎ Purgeable d p rows

  purge_row-spares :
      (source : String) (now : ℕ) (row : QuarantineRow) (w : World) (p : String)
      → ((purge_row sha256 managed in_quarantine links source now row w).0.disk p ≡ w.disk p)
        ⊎ Purgeable w.disk p (row ∷ [])
  unfolding purge_row
  purge_row-spares source now row w p =
      if_rule Spared (not (in_quarantine q) || links q) (λ _. inl refl)
        (λ root.
          if_rule Spared (not (exists q w.disk)) (λ _. inl refl)
            (λ _.
              if_rule Spared
                (not (regular_file (w.disk q)) || not (has_checksum sha256 (w.disk q) row.checksum))
                (λ _. inl refl)
                (λ file.
                  let (inside, unlinked) = root_checks (in_quarantine q) (links q) root in
                  removed (str_eq q p) refl inside unlinked (
                    check-Holds sha256 w.disk q row.checksum (w.disk q) refl (
                      file_checks (regular_file (w.disk q))
                        (has_checksum sha256 (w.disk q) row.checksum) file)))))
    where
      q : String
      q = row.quarantine_path

      Spared : World × PurgeStatus → Type 0
      Spared r = (r.0.disk p ≡ w.disk p) ⊎ Purgeable w.disk p (row ∷ [])

      removed :
          (b : Bool)
          → str_eq q p ≡ b
          → in_quarantine q ≡ true
          → links q ≡ false
          → Holds sha256 w.disk q row.checksum
          → (write q none w.disk p ≡ w.disk p) ⊎ Purgeable w.disk p (row ∷ [])
      removed true e i l h =
          let same : q ≡ p = (eq_iff q p).0 e in
          inr (inl (same, rw (← same) i, rw (← same) l, rw (← same) h))
      removed false e i l h = inl (write_ne q p none w.disk e)

  Purgeable-back :
      (d d' : Disk) (p : String) (rows : List QuarantineRow)
      → d' p ≡ d p
      → Purgeable d' p rows
      → Purgeable d p rows
  Purgeable-back d d' p [] e h = h
  Purgeable-back d d' p (row ∷ rows) e (inl (a, b, c, h)) =
      inl (a, b, c, record { file = h.file; at = sym e ∙ h.at; sum = h.sum })
  Purgeable-back d d' p (row ∷ rows) e (inr h) = inr (Purgeable-back d d' p rows e h)

  purge_rows-spares :
      (source : String) (now : ℕ) (rows : List QuarantineRow) (w : World) (p : String)
      → ((purge_rows sha256 managed in_quarantine links source now rows w).0.disk p ≡ w.disk p)
        ⊎ Purgeable w.disk p rows
  unfolding purge_rows
  purge_rows-spares source now [] w p = inl refl
  purge_rows-spares source now (row ∷ rows) w p =
      let w' = (purge_row sha256 managed in_quarantine links source now row w).0 in
      elim (purge_row-spares source now row w p) [
        | inl same ↦ elim (purge_rows-spares source now rows w' p) [
          | inl same' ↦ inl (same' ∙ same)
          | inr h ↦ inr (inr (Purgeable-back w.disk w'.disk p rows same h))
        ]
        | inr (inl h) ↦ inr (inl h)
        | inr (inr h) ↦ absurd h
      ]

  -- A purge changes a path only where one of the expired active rows stores its file there, under the
  -- quarantine's root and by no link, and what is there still has the row's checksum.
  pub purge_expired-spares :
      (source : String) (now : ℕ) (w : World) (p : String)
      → ((purge_expired sha256 managed in_quarantine links source now w).0.disk p ≡ w.disk p)
        ⊎ Purgeable w.disk p (load_expired sha256 managed in_quarantine now w.db.rows)
  unfolding purge_expired
  purge_expired-spares source now w p =
      purge_rows-spares source now (load_expired sha256 managed in_quarantine now w.db.rows) w p
