-- ===== src/Cleanup/Examples.antt =====
-- The theorems about cleanup and the quarantine at concrete inputs, with a checksum that is the
-- content itself.
use metafusion.Cleanup.Assets.{
  Run, World, quarantine_asset, purge_expired, move_file, purge_rows, after_copy, load_expired,
  purge_row, settle_move, way_back, clean_up, restored_db, restore_asset,
}
use metafusion.Cleanup.Assets.Purge.{Purgeable, purge_expired-spares}
use metafusion.Cleanup.Assets.Safety.{MoveEnd, quarantine_ends, restore_ends}
use metafusion.Cleanup.Candidates.{ItemRecord, observe, Observation, empty_state}
use metafusion.Cleanup.Candidates.Streak.{
  newest, replay, streak, absent, dry_run_decides, scans, since, eligible_exact,
}
use metafusion.Cleanup.Disk.{Disk, write, copy_verified, copy_result}
use metafusion.Cleanup.Quarantine.{Request, QuarantineRow, active, record_quarantine}
use metafusion.Prelude.{
  ◌+◌, ◌≡◌, ◌⊎◌, ◌&&◌, ◌∷◌, refl, [], ℕ, String, some, true, Bool, none, false, pos, leb,
}

abbrev an_item : ItemRecord
an_item = record {
  server_id = some "server";
  library_uuid = some "library";
  library_name = some "Movies";
  rating_key = some "17";
  cache_key = some "movie:17";
  media_type = some "movie";
  title = some "Heat";
  year = some 1995;
  tmdb_id = some "949";
  imdb_id = none;
  tvdb_id = none;
  edition = none;
  reason = some "absent";
}

abbrev absence : ℕ → String → Observation
absence now scan = record {
  key = "movie:17";
  item = an_item;
  scope = "poster";
  season_number = none;
  episode_number = none;
  confirmations_required = pos 2;
  grace = pos 10;
  observation_id = some scan;
  now = now;
}

eligible_exact_example :
    let past = newest (absence 30 "c") ∷ streak "movie:17" (absent (absence 5 "a") ∷ []) [] in
    (observe true
      (absence 30 "c")
      (some (replay (absent (absence 5 "a") ∷ []) empty_state))).1.eligible
    ≡ (leb 2 (scans past) && leb (since past + 10) 30)
eligible_exact_example = eligible_exact (absent (absence 5 "a") ∷ []) (absence 30 "c")

-- The two scans are enough, and 30 is past 5 + 10.
eligible_after_two :
    (observe true
      (absence 30 "c")
      (some (replay (absent (absence 5 "a") ∷ []) empty_state))).1.eligible
    ≡ true
eligible_after_two = eligible_exact_example

dry_run_decides_case :
    let o = absence 30 "c" in
    let s = replay (absent (absence 5 "a") ∷ []) empty_state in
    ((observe false o (some s)).0 ≡ some s)
    × ((observe false o (some s)).1 ≡ (observe true o (some s)).1)
    × ((observe false o none).0 ≡ none)
    × ((observe false o none).1.eligible ≡ (observe true o none).1.eligible)
dry_run_decides_case =
    dry_run_decides (absence 30 "c") (replay (absent (absence 5 "a") ∷ []) empty_state)

abbrev same : String → String
same s = s

abbrev anywhere : String → Bool
anywhere p = true

abbrev no_link : String → Bool
no_link p = false

abbrev disk : Disk
disk = write "a.jpg" (some (record { content = "x"; regular = true })) (λ p. none)

abbrev request : Request
request = record {
  source = "a.jpg";
  destination = "q.jpg";
  item = an_item;
  output_type = "poster";
  season_number = none;
  checksum = "x";
  size_bytes = 1;
  retention_days = pos 14;
  now = 100;
}

abbrev good_run : Run
good_run = record {
  copy = record { copied = some "x"; replaced = true };
  unlinked = true;
  recorded = true;
  back = record { copied = some "x"; replaced = true };
  cleaned = true;
  is_read = true;
  is_prepared = true;
}

-- The database refuses the row: the file is copied back.
abbrev bad_run : Run
bad_run = record good_run { recorded = false }

abbrev world : World
world = record {
  disk = disk;
  db = record { history = record { last_id = 0; rows = [] }; rows = [] };
}

quarantine_ends_example :
    MoveEnd same "a.jpg" "q.jpg" "x"
      (record_quarantine request world.db)
      world
      (quarantine_asset same anywhere anywhere bad_run request world)
quarantine_ends_example = quarantine_ends same anywhere anywhere bad_run request world refl

-- The run raises, and the artwork is at its place.
copied_back :
    (quarantine_asset same anywhere anywhere bad_run request world).0.disk "a.jpg"
    ≡ some (record { content = "x"; regular = true })
unfolding quarantine_asset move_file after_copy copy_verified copy_result settle_move way_back
    clean_up write record_quarantine
copied_back = refl

abbrev stored_row : QuarantineRow
stored_row = record {
  history_id = 1;
  status = active;
  item = an_item;
  output_type = "poster";
  season_number = none;
  source_path = "b.jpg";
  quarantine_path = "a.jpg";
  checksum = "x";
  size_bytes = 1;
  quarantined_at = 0;
  expires_at = 50;
  completed_at = none;
}

abbrev stored : World
stored = record world { db = record (world.db) { rows = stored_row ∷ [] } }

restore_ends_example :
    MoveEnd same "a.jpg" "b.jpg" "x"
      (restored_db 1 70 stored.db, 1)
      stored
      (restore_asset same anywhere anywhere good_run 1 70 stored)
restore_ends_example = restore_ends same anywhere anywhere good_run 1 70 stored_row stored refl refl

purge_expired-spares_example :
    ((purge_expired same anywhere anywhere no_link "automated" 60 stored).0.disk "other.jpg"
      ≡ stored.disk "other.jpg")
    ⊎ Purgeable same anywhere anywhere no_link stored.disk "other.jpg"
        (load_expired same anywhere anywhere 60 stored.db.rows)
purge_expired-spares_example =
    purge_expired-spares same anywhere anywhere no_link "automated" 60 stored "other.jpg"

-- The expired file is removed.
purged_file :
    (purge_expired same anywhere anywhere no_link "automated" 60 stored).0.disk "a.jpg" ≡ none
unfolding purge_expired purge_rows purge_row write
purged_file = refl
