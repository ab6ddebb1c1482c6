-- ===== src/Cleanup/Candidates.antt =====
-- The tables `cleanup_candidates` and `cleanup_history` of helper/state_db.py, and their
-- operations. A time is whole microseconds in UTC.
pub mod Streak
use metafusion.Prelude.{
  if◌then◌else◌, ◌+◌, ◌&&◌, ◌∷◌, [], Option, String, ℕ, Dict, pos_part, leb, Bool, List, ℤ, max,
  true, some, remove, false, lookup, not, insert, none, suc, opt_eq, zero, str_eq,
}

-- The columns that identify an item, copied from the caller's record.
pub record ItemRecord : Type 0 where
  pub server_id : Option String
  pub library_uuid : Option String
  pub library_name : Option String
  pub rating_key : Option String
  pub cache_key : Option String
  pub media_type : Option String
  pub title : Option String
  pub year : Option ℕ
  pub tmdb_id : Option String
  pub imdb_id : Option String
  pub tvdb_id : Option String
  pub edition : Option String
  pub reason : Option String

pub record Candidate : Type 0 where
  pub item : ItemRecord
  pub scope : String
  pub season_number : Option ℕ
  pub episode_number : Option ℕ
  pub first_missing_at : ℕ
  pub last_confirmed_at : ℕ
  pub eligible_after : ℕ
  pub confirmations : ℕ
  pub last_observation_id : Option String

-- A row of `cleanup_history`, by the columns that its writers set apart.
pub record HistoryRow : Type 0 where
  pub id : ℕ
  pub occurred_at : ℕ
  pub source : String
  pub action : String
  pub status : String
  pub item : ItemRecord
  pub output_type : Option String
  pub season_number : Option ℕ
  pub destination : Option String
  pub checksum : Option String
  pub reason : Option String

-- The newest row first; `last_id` is the AUTOINCREMENT counter.
pub record History : Type 0 where
  pub last_id : ℕ
  pub rows : List HistoryRow

abbrev pub take {ℓ} : {A : Type ℓ} → ℕ → List A → List A
take zero xs = []
take (suc n) [] = []
take (suc n) (x ∷ xs) = x ∷ take n xs

abbrev pub cleanup_history_limit : ℕ
cleanup_history_limit = 20000

-- The INSERT, and the DELETE of all but the newest rows.
unfoldable pub append_history : ℕ → (ℕ → HistoryRow) → History → History
append_history limit row h = record {
  last_id = h.last_id + 1;
  rows = take limit (row (h.last_id + 1) ∷ h.rows);
}

pub record CleanupState : Type 0 where
  pub candidates : Dict Candidate
  pub history : History

unfoldable pub empty_state : CleanupState
empty_state = record { candidates = []; history = record { last_id = 0; rows = [] } }

-- The arguments of `observe_cleanup_candidate`, of which `grace` is in microseconds.
pub record Observation : Type 0 where
  pub key : String
  pub item : ItemRecord
  pub scope : String
  pub season_number : Option ℕ
  pub episode_number : Option ℕ
  pub confirmations_required : ℤ
  pub grace : ℤ
  pub observation_id : Option String
  pub now : ℕ

pub data Status : Type 0 where
  preview pending : Status

pub record Decision : Type 0 where
  pub confirmations : ℕ
  pub eligible_after : ℕ
  pub eligible : Bool
  pub status : Status

abbrev pub required : Observation → ℕ
required o = max 1 (pos_part o.confirmations_required)

-- `str(record.get("media_type") or "unknown")`
abbrev pub known_media_type : Option String → String
known_media_type none = "unknown"
known_media_type (some s) = if str_eq s "" then "unknown" else s

-- The row of a first observation.
unfoldable pub first_candidate : Observation → Candidate
first_candidate o = record {
  item = record (o.item) { media_type = some (known_media_type o.item.media_type) };
  scope = o.scope;
  season_number = o.season_number;
  episode_number = o.episode_number;
  first_missing_at = o.now;
  last_confirmed_at = o.now;
  eligible_after = o.now + pos_part o.grace;
  confirmations = 1;
  last_observation_id = o.observation_id;
}

-- `observation_id is None or last_observation_id != observation_id`
abbrev pub is_new_observation : Option String → Option String → Bool
is_new_observation none last = true
is_new_observation (some id) last = not (opt_eq last (some id))

-- The row of a repeated observation.
unfoldable pub confirmed_candidate : Observation → Candidate → Candidate
confirmed_candidate o c = record c {
  item = record (c.item) { reason = o.item.reason };
  last_confirmed_at = o.now;
  eligible_after = c.first_missing_at + pos_part o.grace;
  confirmations =
      if is_new_observation o.observation_id c.last_observation_id
      then c.confirmations + 1
      else c.confirmations;
  last_observation_id = o.observation_id;
}

unfoldable pub observed_candidate : Observation → Option Candidate → Candidate
unfolding first_candidate confirmed_candidate
observed_candidate o none = first_candidate o
observed_candidate o (some c) = confirmed_candidate o c

unfoldable pub decide_candidate : Observation → Candidate → Decision
decide_candidate o c = record {
  confirmations = c.confirmations;
  eligible_after = c.eligible_after;
  eligible = leb (required o) c.confirmations && leb c.eligible_after o.now;
  status = pending;
}

-- `observe_cleanup_candidate`. Without a database a dry run previews a first observation.
unfoldable pub observe : Bool → Observation → Option CleanupState → Option CleanupState × Decision
unfolding observed_candidate decide_candidate empty_state
observe false o none = (
  none,
  record {
    confirmations = 1;
    eligible_after = o.now + pos_part o.grace;
    eligible = leb (required o) 1 && leb (o.now + pos_part o.grace) o.now;
    status = preview;
  },
)
observe true o none =
    let c = observed_candidate o none in
    (some (record empty_state { candidates = insert o.key c [] }), decide_candidate o c)
observe writable o (some s) =
    let c = observed_candidate o (lookup o.key s.candidates) in
    (
      some (if writable then record s { candidates = insert o.key c s.candidates } else s),
      decide_candidate o c,
    )

-- `complete_cleanup_candidate`
unfoldable pub complete : String → CleanupState → CleanupState
complete key s = record s { candidates = remove key s.candidates }

unfoldable pub cancel_found :
    String → String → ℕ → Option Candidate → CleanupState → CleanupState × Bool
unfolding append_history complete
cancel_found key reason now none s = (s, false)
cancel_found key reason now (some c) s =
    let row : ℕ → HistoryRow = λ id. record {
      id = id;
      occurred_at = now;
      source = "automated";
      action = "candidate_cancelled";
      status = "cancelled";
      item = c.item;
      output_type = some c.scope;
      season_number = c.season_number;
      destination = none;
      checksum = none;
      reason = some reason;
    } in
    (complete key (record s { history = append_history cleanup_history_limit row s.history }), true)

-- `cancel_cleanup_candidate`
unfoldable pub cancel : String → String → ℕ → CleanupState → CleanupState × Bool
unfolding cancel_found
cancel key reason now s = cancel_found key reason now (lookup key s.candidates) s
