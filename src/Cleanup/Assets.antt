-- ===== src/Cleanup/Assets.antt =====
-- `quarantine_managed_asset`, `restore_quarantined_asset` and `purge_expired_quarantine` of
-- helper/quarantine.py. `managed` says whether a path, resolved, lies under a configured root, and
-- `in_quarantine` whether it lies under the quarantine's root.
pub mod Safety
pub mod Purge
use metafusion.Cleanup.Disk.{
  CopyRun, Disk, write, copy_verified, exists, regular_file, has_checksum,
}
use metafusion.Cleanup.Quarantine.{
  QuarantineDb, Request, QuarantineRow, is_active, complete_quarantine, restored, missing,
  record_quarantine, purged,
}
use metafusion.Prelude.{
  if◌then◌else◌, ◌==◌, ◌&&◌, ◌||◌, ◌∷◌, [], ℕ, String, Bool, not, List, none, leb, true, false,
}

-- How an operation ends: with a history id, refused by a check, by an exception of the reading of the
-- file's checksum, or by one of a later call.
pub data Outcome : Type 0 where
  done : ℕ → Outcome
  refused : Outcome
  unread : Outcome
  raised : Outcome

-- What the machine does in one operation: whether the file's checksum can be read, whether the
-- quarantine's root can be made and the size read; the first copy, the removal of the file that was copied,
-- the write to the database, and the copy and the removal of the way back.
pub record Run : Type 0 where
  pub is_read : Bool
  pub is_prepared : Bool
  pub copy : CopyRun
  pub unlinked : Bool
  pub recorded : Bool
  pub back : CopyRun
  pub cleaned : Bool

pub record World : Type 0 where
  pub disk : Disk
  pub db : QuarantineDb

-- How the purge of one row ends.
pub data PurgeStatus : Type 0 where
  protected gone purged_now : PurgeStatus

-- The database after a restore.
unfoldable pub restored_db : ℕ → ℕ → QuarantineDb → QuarantineDb
restored_db id now db =
    complete_quarantine id "manual" "restore" restored
      "operator restored checksum-proven quarantined artwork" now db

module _ (sha256 : String → String) where
  -- After the copy back: remove `to`, if that copy returned.
  unfoldable pub clean_up : Bool → String → Disk × Bool → Disk
  clean_up cleaned to (d, ok) = if ok && cleaned then write to none d else d

  -- The `except` clause: `from` was copied to `to`. If `from` is gone and `to` is there, copy it
  -- back, and remove `to`.
  unfoldable pub way_back : Run → String → String → String → Disk → Disk
  unfolding clean_up
  way_back run from to checksum d =
      if not (exists from d) && exists to d
      then clean_up run.cleaned to (copy_verified sha256 run.back from checksum d)
      else d

  -- From the successful copy on: remove the file that was copied, and write to the database.
  unfoldable pub settle_move :
      Run → String → String → String → QuarantineDb × ℕ → World → World × Outcome
  settle_move run from to checksum (db, id) w =
      let moved = if run.unlinked then write from none w.disk else w.disk in
      if run.unlinked && run.recorded
      then (record { disk = moved; db = db }, done id)
      else (record { disk = way_back run from to checksum moved; db = w.db }, raised)

  unfoldable pub after_copy :
      Run → String → String → String → QuarantineDb × ℕ → World → Disk × Bool → World × Outcome
  after_copy run from to checksum written w (d, true) =
      settle_move run from to checksum written (record w { disk = d })
  after_copy run from to checksum written w (d, false) = (w, raised)

  unfoldable pub move_file :
      Run → String → String → String → QuarantineDb × ℕ → World → World × Outcome
  move_file run from to checksum written w =
      after_copy run from to checksum written w (copy_verified sha256 run.copy to checksum w.disk)

module _ (sha256 : String → String) (managed in_quarantine : String → Bool) where
  abbrev pub may_quarantine : Request → Disk → Bool
  may_quarantine r d =
      managed r.source && regular_file (d r.source) && has_checksum sha256 (d r.source) r.checksum

  -- `quarantine_managed_asset`
  unfoldable pub quarantine_asset : Run → Request → World → World × Outcome
  quarantine_asset run r w =
      if managed r.source && regular_file (w.disk r.source) && not run.is_read
      then (w, unread)
      else if may_quarantine r w.disk
      then if run.is_prepared
        then move_file sha256 run r.source r.destination r.checksum (record_quarantine r w.db) w
        else (w, raised)
      else (w, refused)

  -- `load_cleanup_quarantine(statuses=["active"], history_id=…)`
  abbrev pub load_active : ℕ → List QuarantineRow → List QuarantineRow
  load_active id [] = []
  load_active id (row ∷ rows) =
      if is_active row.status && row.history_id == id
      then row ∷ load_active id rows
      else load_active id rows

  abbrev pub may_restore : QuarantineRow → Disk → Bool
  may_restore row d =
      in_quarantine row.quarantine_path
      && managed row.source_path
      && not (exists row.source_path d)
      && regular_file (d row.quarantine_path)
      && has_checksum sha256 (d row.quarantine_path) row.checksum

  -- The checks before the checksum is read.
  abbrev pub may_read : QuarantineRow → Disk → Bool
  may_read row d =
      in_quarantine row.quarantine_path
      && managed row.source_path
      && not (exists row.source_path d)
      && regular_file (d row.quarantine_path)

  unfoldable pub restore_row : Run → ℕ → ℕ → List QuarantineRow → World → World × Outcome
  restore_row run id now (row ∷ []) w =
      if may_read row w.disk && not run.is_read
      then (w, unread)
      else if may_restore row w.disk
      then move_file sha256 run row.quarantine_path row.source_path row.checksum
          (restored_db id now w.db, id) w
      else (w, refused)
  restore_row run id now _ w = (w, refused)

  -- `restore_quarantined_asset`
  unfoldable pub restore_asset : Run → ℕ → ℕ → World → World × Outcome
  restore_asset run id now w = restore_row run id now (load_active id w.db.rows) w

  -- One expired row. (`links`: whether the stored path is a symbolic link.)
  unfoldable pub purge_row :
      (String → Bool) → String → ℕ → QuarantineRow → World → World × PurgeStatus
  purge_row links source now row w =
      if not (in_quarantine row.quarantine_path) || links row.quarantine_path
      then (w, protected)
      else if not (exists row.quarantine_path w.disk)
      then (
        record w {
          db =
              complete_quarantine row.history_id source "purge" missing
                "expired quarantine file was already absent" now w.db;
        },
        gone,
      )
      else if not (regular_file (w.disk row.quarantine_path))
          || not (has_checksum sha256 (w.disk row.quarantine_path) row.checksum)
      then (w, protected)
      else (
        record {
          disk = write row.quarantine_path none w.disk;
          db =
              complete_quarantine row.history_id source "purge" purged
                "quarantine retention expired" now w.db;
        },
        purged_now,
      )

  -- The loop over the rows that were loaded.
  unfoldable pub purge_rows :
      (String → Bool) → String → ℕ → List QuarantineRow → World → World × List PurgeStatus
  purge_rows links source now [] w = (w, [])
  purge_rows links source now (row ∷ rows) w =
      let (w', status) = purge_row links source now row w in
      let (w'', rest) = purge_rows links source now rows w' in (w'', status ∷ rest)

  -- `load_cleanup_quarantine(statuses=["active"], expired_before=…)`
  abbrev pub load_expired : ℕ → List QuarantineRow → List QuarantineRow
  load_expired now [] = []
  load_expired now (row ∷ rows) =
      if is_active row.status && leb row.expires_at now
      then row ∷ load_expired now rows
      else load_expired now rows

  -- `purge_expired_quarantine`
  unfoldable pub purge_expired : (String → Bool) → String → ℕ → World → World × List PurgeStatus
  purge_expired links source now w = purge_rows links source now (load_expired now w.db.rows) w
