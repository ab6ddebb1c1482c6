-- ===== src/Cleanup/Quarantine.antt =====
-- helper/quarantine.py, and the quarantine tables of helper/state_db.py. What the machine does
-- (files, the database, the paths' resolution) is an argument; an exception of a call that the
-- program makes is a `false` there.
use metafusion.Cleanup.Candidates.{
  History, append_history, ItemRecord, HistoryRow, cleanup_history_limit,
}
use metafusion.Prelude.{
  if◌then◌else◌, ◌==◌, ◌+◌, ◌*◌, ◌∷◌, [], Bool, ℕ, String, true, List, Option, false, ℤ, some, none,
  zero, suc, max, pos_part,
}

pub data QuarantineStatus : Type 0 where
  active restored purged missing : QuarantineStatus

abbrev pub is_active : QuarantineStatus → Bool
is_active active = true
is_active _ = false

pub record QuarantineRow : Type 0 where
  pub history_id : ℕ
  pub status : QuarantineStatus
  pub item : ItemRecord
  pub output_type : String
  pub season_number : Option ℕ
  pub source_path : String
  pub quarantine_path : String
  pub checksum : String
  pub size_bytes : ℕ
  pub quarantined_at : ℕ
  pub expires_at : ℕ
  pub completed_at : Option ℕ

-- The newest row first.
pub record QuarantineDb : Type 0 where
  pub history : History
  pub rows : List QuarantineRow

abbrev day : ℕ
day = 86400000000

-- The arguments of `quarantine_managed_asset`; `destination` is the fresh name in the quarantine.
pub record Request : Type 0 where
  pub source : String
  pub destination : String
  pub item : ItemRecord
  pub output_type : String
  pub season_number : Option ℕ
  pub checksum : String
  pub size_bytes : ℕ
  pub retention_days : ℤ
  pub now : ℕ

-- `record_cleanup_quarantine`
unfoldable pub record_quarantine : Request → QuarantineDb → QuarantineDb × ℕ
unfolding append_history
record_quarantine r db =
    let row : ℕ → HistoryRow = λ id. record {
      id = id;
      occurred_at = r.now;
      source = "automated";
      action = "quarantine";
      status = "completed";
      item = r.item;
      output_type = some r.output_type;
      season_number = r.season_number;
      destination = some r.source;
      checksum = some r.checksum;
      reason = some "confirmed absent from Plex";
    } in
    let history = append_history cleanup_history_limit row db.history in
    (
      record {
        history = history;
        rows =
            record {
              history_id = history.last_id;
              status = active;
              item = r.item;
              output_type = r.output_type;
              season_number = r.season_number;
              source_path = r.source;
              quarantine_path = r.destination;
              checksum = r.checksum;
              size_bytes = r.size_bytes;
              quarantined_at = r.now;
              expires_at = r.now + day * max 1 (pos_part r.retention_days);
              completed_at = none;
            }
            ∷ db.rows;
      },
      history.last_id,
    )

-- The DELETE of closed rows, of which the newest stay.
abbrev keep_closed : ℕ → List QuarantineRow → List QuarantineRow
keep_closed n [] = []
keep_closed n (row ∷ rows) = elim (is_active row.status) [
  | true ↦ row ∷ keep_closed n rows
  | false ↦ elim n [ zero ↦ keep_closed zero rows | suc k ↦ row ∷ keep_closed k rows ]
]

-- The UPDATE of the row of one history event.
abbrev close_row : ℕ → QuarantineStatus → ℕ → List QuarantineRow → List QuarantineRow
close_row id status now [] = []
close_row id status now (row ∷ rows) =
    (if row.history_id == id then record row { status = status; completed_at = some now } else row)
    ∷ close_row id status now rows

abbrev find_row : ℕ → List QuarantineRow → Option QuarantineRow
find_row id [] = none
find_row id (row ∷ rows) = if row.history_id == id then some row else find_row id rows

abbrev status_text : QuarantineStatus → String
status_text active = "active"
status_text restored = "restored"
status_text purged = "purged"
status_text missing = "missing"

unfoldable pub close_found :
    ℕ
    → String
    → String
    → QuarantineStatus
    → String
    → ℕ
    → Option QuarantineRow
    → QuarantineDb
    → QuarantineDb
unfolding append_history
close_found id source action status reason now none db = db
close_found id source action status reason now (some row) db =
    let event : ℕ → HistoryRow = λ n. record {
      id = n;
      occurred_at = now;
      source = source;
      action = action;
      status = status_text status;
      item = row.item;
      output_type = some row.output_type;
      season_number = row.season_number;
      destination = some row.source_path;
      checksum = some row.checksum;
      reason = some reason;
    } in
    record {
      history = append_history cleanup_history_limit event db.history;
      rows = keep_closed cleanup_history_limit (close_row id status now db.rows);
    }

-- `complete_cleanup_quarantine`
unfoldable pub complete_quarantine :
    ℕ → String → String → QuarantineStatus → String → ℕ → QuarantineDb → QuarantineDb
unfolding close_found
complete_quarantine id source action status reason now db =
    close_found id source action status reason now (find_row id db.rows) db
