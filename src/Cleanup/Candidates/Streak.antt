-- ===== src/Cleanup/Candidates/Streak.antt =====
-- What the candidate table knows of an item: the absences since it was last seen or removed.
use metafusion.Cleanup.Candidates.{
  Observation, complete, observed_candidate, CleanupState, is_new_observation, Candidate, cancel,
  cancel_found, decide_candidate, observe, empty_state, required,
}
use metafusion.Prelude.{
  if◌then◌else◌, ◌+◌, ◌≡◌, ◌∷◌, refl, [], List, ℕ, String, Option, Bool, str_eq, insert, some,
  lookup, none, arith, ap, true, eq_iff, false, lookup-insert, lookup-remove, ◌∙◌, ◌&&◌, sym, leb,
  pos_part,
}

-- The moments at which cleanup touches the table, in a run that writes.
pub data Event : Type 0 where
  absent : Observation → Event
  returned : String → String → ℕ → Event
  removed : String → Event

unfoldable pub apply : Event → CleanupState → CleanupState
unfolding complete
apply (absent o) s = record s {
  candidates = insert o.key (observed_candidate o (lookup o.key s.candidates)) s.candidates;
}
apply (returned key reason now) s = (cancel key reason now s).0
apply (removed key) s = complete key s

-- The state that `observe` leaves in a run that writes.
observe-apply :
    (o : Observation) (s : CleanupState) → (observe true o (some s)).0 ≡ some (apply (absent o) s)
unfolding observe apply
observe-apply o s = refl

unfoldable pub replay : List Event → CleanupState → CleanupState
replay [] s = s
replay (e ∷ es) s = replay es (apply e s)

-- An absence: when it was observed, and by which scan.
pub record Absence : Type 0 where
  pub at : ℕ
  pub scan : Option String

-- The absences of one key since its last return or removal, the newest first.
abbrev pub next_streak : String → Event → List Absence → List Absence
next_streak k (absent o) streak =
    if str_eq o.key k then record { at = o.now; scan = o.observation_id } ∷ streak else streak
next_streak k (returned key reason now) streak = if str_eq key k then [] else streak
next_streak k (removed key) streak = if str_eq key k then [] else streak

abbrev pub streak : String → List Event → List Absence → List Absence
streak k [] acc = acc
streak k (e ∷ es) acc = streak k es (next_streak k e acc)

-- How many scans an item was absent from: a repeated report by the newest scan is not counted.
abbrev pub scans : List Absence → ℕ
scans [] = 0
scans (a ∷ []) = 1
scans (a ∷ b ∷ rest) =
    if is_new_observation a.scan b.scan then scans (b ∷ rest) + 1 else scans (b ∷ rest)

-- When the oldest absence was observed.
abbrev pub since : List Absence → ℕ
since [] = 0
since (a ∷ []) = a.at
since (a ∷ b ∷ rest) = since (b ∷ rest)

-- The row of a key, and the absences that it stands for.
abbrev pub Knows : Option Candidate → List Absence → Type 0
Knows none [] = Unit
Knows none (a ∷ rest) = ⊥
Knows (some c) [] = ⊥
Knows (some c) (a ∷ rest) =
    (c.first_missing_at ≡ since (a ∷ rest))
    × (c.confirmations ≡ scans (a ∷ rest))
    × (c.last_observation_id ≡ a.scan)

observed-Knows :
    (o : Observation) (row : Option Candidate) (past : List Absence)
    → Knows row past
    → Knows
        (some (observed_candidate o row))
        (record { at = o.now; scan = o.observation_id } ∷ past)
unfolding observed_candidate
observed-Knows o none [] h = (refl, refl, refl)
observed-Knows o none (a ∷ past) h = absurd h
observed-Knows o (some c) [] h = absurd h
observed-Knows o (some c) (a ∷ past) h = ground arith

found_candidates :
    (key reason : String) (now : ℕ) (k : String) (o : Option Candidate) (s : CleanupState)
    → lookup key s.candidates ≡ o
    → lookup k (cancel_found key reason now o s).0.candidates
      ≡ (if str_eq key k then none else lookup k s.candidates)
unfolding cancel_found
found_candidates key reason now k none s e = absent_key (str_eq key k) refl
  where
    absent_key :
        (b : Bool)
        → str_eq key k ≡ b
        → lookup k s.candidates ≡ (if b then none else lookup k s.candidates)
    absent_key true h = ap (λ j. lookup j s.candidates) (sym ((eq_iff key k).0 h)) ∙ e
    absent_key false h = refl
found_candidates key reason now k (some c) s e = lookup-remove key k s.candidates

cancelled_candidates :
    (key reason : String) (now : ℕ) (k : String) (s : CleanupState)
    → lookup k (cancel key reason now s).0.candidates
      ≡ (if str_eq key k then none else lookup k s.candidates)
unfolding cancel
cancelled_candidates key reason now k s =
    found_candidates key reason now k (lookup key s.candidates) s refl

dropped :
    (b : Bool) (row : Option Candidate) (past : List Absence)
    → Knows row past
    → Knows (if b then none else row) (if b then [] else past)
dropped true row past h = tt
dropped false row past h = h

apply-Knows :
    (k : String) (e : Event) (s : CleanupState) (past : List Absence)
    → Knows (lookup k s.candidates) past
    → Knows (lookup k (apply e s).candidates) (next_streak k e past)
unfolding apply
apply-Knows k (absent o) s past h = rw lookup-insert (branch (str_eq o.key k) refl)
  where
    branch :
        (b : Bool)
        → str_eq o.key k ≡ b
        → Knows
            (if b
              then some (observed_candidate o (lookup o.key s.candidates))
              else lookup k s.candidates)
            (if b then record { at = o.now; scan = o.observation_id } ∷ past else past)
    branch true e =
        observed-Knows o (lookup o.key s.candidates) past
          (rw (ap (λ j. lookup j s.candidates) ((eq_iff o.key k).0 e)) h)
    branch false e = h
apply-Knows k (returned key reason now) s past h =
    rw cancelled_candidates (dropped (str_eq key k) (lookup k s.candidates) past h)
apply-Knows k (removed key) s past h =
    rw lookup-remove (dropped (str_eq key k) (lookup k s.candidates) past h)

replay-Knows :
    (k : String) (es : List Event) (s : CleanupState) (past : List Absence)
    → Knows (lookup k s.candidates) past
    → Knows (lookup k (replay es s).candidates) (streak k es past)
unfolding replay
replay-Knows k [] s past h = h
replay-Knows k (e ∷ es) s past h =
    replay-Knows k es (apply e s) (next_streak k e past) (apply-Knows k e s past h)

abbrev pub newest : Observation → Absence
newest o = record { at = o.now; scan = o.observation_id }

decide_known :
    (o : Observation) (row : Option Candidate) (past : List Absence)
    → Knows row past
    → (decide_candidate o (observed_candidate o row)).eligible ≡ (
        leb (required o) (scans (newest o ∷ past))
        && leb (since (newest o ∷ past) + pos_part o.grace) o.now)
unfolding decide_candidate observed_candidate
decide_known o none [] h = refl
decide_known o none (a ∷ past) h = absurd h
decide_known o (some c) [] h = absurd h
decide_known o (some c) (a ∷ past) h = ground arith

-- After any run of cleanup, an observed absence makes an item eligible for removal exactly when the
-- scans that reported it absent, since it was last seen, are as many as required, and the first of
-- these reports is at least the grace period old. Other items make no difference to it.
pub eligible_exact :
    (es : List Event) (o : Observation)
    → let past = newest o ∷ streak o.key es [] in
      (observe true o (some (replay es empty_state))).1.eligible
      ≡ (leb (required o) (scans past) && leb (since past + pos_part o.grace) o.now)
unfolding observe
eligible_exact es o =
    decide_known o (lookup o.key (replay es empty_state).candidates) (streak o.key es [])
      (replay-Knows o.key es empty_state [] (unfold lookup empty_state in tt))

-- A dry run decides as a real run would, and leaves the database as it is, also where there is no
-- database yet.
pub dry_run_decides :
    (o : Observation) (s : CleanupState)
    → ((observe false o (some s)).0 ≡ some s)
      × ((observe false o (some s)).1 ≡ (observe true o (some s)).1)
      × ((observe false o none).0 ≡ none)
      × ((observe false o none).1.eligible ≡ (observe true o none).1.eligible)
unfolding observe
dry_run_decides o s = (refl, refl, refl, refl)
