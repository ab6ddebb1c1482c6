-- ===== src/Planning/Causes/Enabled.antt =====
-- The work that is due is work that is enabled.
use metafusion.Planning.Causes.{
  identity, Reason, when, Cause, is_metadata_due, metadata, metadata_pending_recheck, is_poster_due,
  poster, plex_metadata_recheck, is_background_due, background, poster_refresh_due, is_season_due,
  seasons, background_refresh_due, season_refresh_due, due_causes, any_metadata, or_identity,
  image_upgrade_reasons, due_selection_causes, enabled_work_reasons,
}
use metafusion.Planning.Items.{
  CacheEntry, Config, Flags, flag, truthy, is_empty, media_type_of, is_tv, is_movie,
}
use metafusion.Planning.Time.{get_image_upgrade_days, movie, series}
use metafusion.Prelude.{
  ◌≡◌, ◌∙◌, ◌&&◌, ◌||◌, ◌∷◌, ◌++◌, refl, [], Bool, List, any, true, arith, false, sym, String, ℕ,
  Option, if◌then◌else◌, some, ap,
}

abbrev pub reason_eq : Reason → Reason → Bool
reason_eq metadata metadata = true
reason_eq poster poster = true
reason_eq background background = true
reason_eq seasons seasons = true
reason_eq identity identity = true
reason_eq _ _ = false

abbrev pub has : Reason → List Reason → Bool
has r rs = any (reason_eq r) rs

any-append :
    {A : Type 0} (p : A → Bool) (xs ys : List A) → any p (xs ++ ys) ≡ (any p xs || any p ys)
any-append p [] ys = refl
any-append p (x ∷ xs) ys = ground (arith, any-append p xs ys)

any-when : {A : Type 0} (p : A → Bool) (b : Bool) (a : A) → any p (when b a) ≡ (b && p a)
any-when p true a = ground arith
any-when p false a = refl

abbrev five : Bool → Bool → Bool → Bool → Bool → List Cause
five a b c d e =
    when a metadata_pending_recheck
    ++ when b plex_metadata_recheck
    ++ when c poster_refresh_due
    ++ when d background_refresh_due
    ++ when e season_refresh_due

pub five-tests :
    (a b c d e : Bool)
    → (any is_metadata_due (five a b c d e) ≡ (a || b))
      × (any is_poster_due (five a b c d e) ≡ c)
      × (any is_background_due (five a b c d e) ≡ d)
      × (any is_season_due (five a b c d e) ≡ e)
five-tests a b c d e = (
  step is_metadata_due ∙ ground arith,
  step is_poster_due ∙ ground arith,
  step is_background_due ∙ ground arith,
  step is_season_due ∙ ground arith,
)
  where
    step :
        (p : Cause → Bool)
        → any p (five a b c d e) ≡ (
            (a && p metadata_pending_recheck)
            || (b && p plex_metadata_recheck)
            || (c && p poster_refresh_due)
            || (d && p background_refresh_due)
            || (e && p season_refresh_due))
    step p = simp (any-append, any-when)

abbrev four : Bool → Bool → Bool → Bool → List Reason
four m p b s = when m metadata ++ when p poster ++ when b background ++ when s seasons

-- A set of reasons lies in another, if its tests do.
pub has-four :
    (r : Reason) (m p b s m' p' b' s' : Bool)
    → (m ≡ true → m' ≡ true)
    → (p ≡ true → p' ≡ true)
    → (b ≡ true → b' ≡ true)
    → (s ≡ true → s' ≡ true)
    → has r (four m p b s) ≡ true
    → has r (four m' p' b' s') ≡ true
has-four r m p b s m' p' b' s' hm hp hb hs h =
    let given = sym (spread m p b s) ∙ h in
    spread m' p' b' s' ∙ ground (arith, given, hm, hp, hb, hs)
  where
    spread :
        (m p b s : Bool)
        → has r (four m p b s) ≡ (
            (m && reason_eq r metadata)
            || (p && reason_eq r poster)
            || (b && reason_eq r background)
            || (s && reason_eq r seasons))
    spread m p b s = simp (any-append, any-when)

-- The reasons that the causes give lie in a set of reasons, if the tests behind the causes do.
causes-within :
    (r : Reason) (a b c d e m p g s : Bool)
    → ((a || b) ≡ true → m ≡ true)
    → (c ≡ true → p ≡ true)
    → (d ≡ true → g ≡ true)
    → (e ≡ true → s ≡ true)
    → let causes = five a b c d e in
      has r (
          four
            (any is_metadata_due causes)
            (any is_poster_due causes)
            (any is_background_due causes)
            (any is_season_due causes))
        ≡ true
      → has r (four m p g s) ≡ true
causes-within r a b c d e m p g s hm hp hg hs h =
    let (tm, tp, tg, ts) = five-tests a b c d e in
    has-four r _ _ _ _ m p g s (λ x. hm (sym tm ∙ x)) (λ x. hp (sym tp ∙ x)) (λ x. hg (sym tg ∙ x))
      (λ x. hs (sym ts ∙ x)) h

module _ (lower : String → String) (local : ℕ → ℕ) where
  -- What is due of an entry is enabled.
  due_causes-enabled :
      (r : Reason) (e : CacheEntry) (tv : Bool) (interval : ℕ) (c : Config) (f : Flags) (now : ℕ)
      → let causes = due_causes lower local e tv interval c (any_metadata f) f now in
        has r (
            four
              (any is_metadata_due causes)
              (any is_poster_due causes)
              (any is_background_due causes)
              (any is_season_due causes))
          ≡ true
        → has r (
            four
              (flag f.metadata_basic true
                || flag f.metadata_enhanced false
                || flag f.plex_metadata false)
              (flag f.poster false)
              (flag f.background false)
              (tv && flag f.season false))
          ≡ true
  unfolding due_causes
  due_causes-enabled r e tv interval c f now h =
      causes-within r _ _ _ _ _ _ _ _ _
        (metadata_on f.metadata_basic f.metadata_enhanced f.plex_metadata _ _ _) (and_left _ _)
        (and_left _ _) (and_two tv (flag f.season false) _) h
    where
      and_left : (a b : Bool) → (a && b) ≡ true → a ≡ true
      and_left a b x = ground arith

      and_two : (a b c : Bool) → (a && b && c) ≡ true → (a && b) ≡ true
      and_two a b c x = ground arith

      metadata_on :
          (b n p : Option Bool) (x y z : Bool)
          → ((x && (flag b false || flag n false || flag p false) && y) || (flag p false && z))
            ≡ true
          → (flag b true || flag n false || flag p false) ≡ true
      metadata_on b n p x y z h = ground arith

  abbrev enabled_set : Flags → Bool → List Reason
  enabled_set f tv =
      four
        (flag f.metadata_basic true || flag f.metadata_enhanced false || flag f.plex_metadata false)
        (flag f.poster false) (flag f.background false) (tv && flag f.season false)

  movie_first :
      (r : Reason) (f : Flags) (tv : Bool)
      → has r (enabled_set f false) ≡ true
      → has r (enabled_set f tv) ≡ true
  movie_first r f tv h =
      has-four r _ _ _ (false && flag f.season false) _ _ _ (tv && flag f.season false) (λ x. x)
        (λ x. x) (λ x. x) (λ x. ground (arith, x)) h

  has-or_identity :
      (r : Reason) (rs : List Reason) → has r rs ≡ true → has r (or_identity lower local rs) ≡ true
  has-or_identity r [] h = ground (arith, h)
  has-or_identity r (x ∷ rs) h = h

  abbrev typed_causes : CacheEntry → Bool → Bool → Config → Flags → ℕ → List Cause
  typed_causes e m tv c f now =
      if m
      then due_causes lower local e false (get_image_upgrade_days c.upgrades movie) c
          (any_metadata f) f now
      else if tv
      then due_causes lower local e true (get_image_upgrade_days c.upgrades series) c
          (any_metadata f) f now
      else []

  typed_causes_given :
      (e : CacheEntry) (media_type : Option String) (c : Config) (f : Flags) (now : ℕ)
      → truthy media_type ≡ true
      → is_empty f ≡ false
      → let t = media_type_of lower media_type in
        due_selection_causes lower local (some e) media_type (some c) (some f) now
        ≡ typed_causes e (is_movie t) (is_tv t) c f now
  unfolding due_selection_causes
  typed_causes_given e media_type c f now typed given = rw typed (rw given refl)

  abbrev reasons_of : List Cause → List Reason
  reasons_of causes =
      four (any is_metadata_due causes) (any is_poster_due causes) (any is_background_due causes)
        (any is_season_due causes)

  typed-within :
      (r : Reason) (e : CacheEntry) (m tv : Bool) (c : Config) (f : Flags) (now : ℕ)
      → has r (reasons_of (typed_causes e m tv c f now)) ≡ true
      → has r (enabled_set f tv) ≡ true
  typed-within r e true tv c f now x = movie_first r f tv (due_causes-enabled r e false _ c f now x)
  typed-within r e false true c f now x = due_causes-enabled r e true _ c f now x
  typed-within r e false false c f now x = ground (arith, x)

  -- Where the feature flags are given and the item has a media type, each reason that makes an
  -- unchanged item due is one of the work that a full scan does for the item.
  pub due_reasons-enabled :
      (r : Reason) (e : CacheEntry) (media_type : Option String) (c : Config) (f : Flags) (now : ℕ)
      → truthy media_type ≡ true
      → is_empty f ≡ false
      → has r (image_upgrade_reasons lower local (some e) media_type (some c) (some f) now) ≡ true
      → has r (enabled_work_reasons lower local media_type (some f)) ≡ true
  unfolding image_upgrade_reasons due_selection_causes enabled_work_reasons
  due_reasons-enabled r e media_type c f now typed given h =
      let t = media_type_of lower media_type in
      let same = typed_causes_given e media_type c f now typed given in
      let due = ap (λ causes. has r (reasons_of causes)) (sym same) ∙ h in
      rw given (
        has-or_identity r (enabled_set f (is_tv t))
          (typed-within r e (is_movie t) (is_tv t) c f now due))
