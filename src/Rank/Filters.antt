-- ===== src/Rank/Filters.antt =====
-- internal/scout/rank.go: rankFilters, and what rankStreams asks of one release.
use den_scout.Prelude.{
  ℕ, ◌*◌, Bool, false, not, ◌&&◌, ◌||◌, String, Option, none, some, List, [], ◌∷◌, str_eq, is_nil,
  ltb, if◌then◌else◌,
}
use den_scout.Prelude.Int.{ℤ, pos, ◌-ℤ◌}
use den_scout.Pattern.{Text}
use den_scout.Release.{RawStream, to_lower, int_or, gib}
use den_scout.Attributes.Detect.{detect_resolution_lower}
use den_scout.Attributes.Probed.{stream_attributes}
use den_scout.Client.{ClientPlayable, cost}
use den_scout.Rank.Junk.{
  Junk, cam, telesync, telecine, screener, workprint, r5, upscaled, junk_class_of,
}
use den_scout.Rank.Patterns.{re_hdr_only}
use den_scout.Rank.Score.{quality_score_lower}
use den_scout.Rank.Titles.{release_years, year_mismatch, title_overlap}

-- What the ranking asks that is matched elsewhere: the `upscaled` pattern, by a third-party engine; and
-- otherShow and otherEpisode, by the episode patterns of season.go.
pub record Judges : Type 0 where
  pub upscaled_match : Text → Bool
  pub other_show : Text → List Text → Bool
  pub other_episode : Text → ℕ × ℕ → Bool

-- config.go clamps the bounds to positive ones: at most 1000 GB, and a cap from 1 to 50. `exclude` is
-- excludeRegex compiled by the standard library, none where it is empty or malformed.
pub record RankFilters : Type 0 where
  pub exclude_cam : Bool
  pub resolutions : List String
  pub prefer_resolution : String
  pub hdr_only : Bool
  pub min_seeders : Option ℕ
  pub max_size_gb : Option ℕ
  pub exclude : Option (Text → Bool)
  pub cached_only : Bool
  pub result_cap : ℕ
  pub expected_year : Option ℕ
  pub expected_title_tokens : List Text
  pub episode : Option (ℕ × ℕ)
  pub show_tokens : List Text
  pub client : Option ClientPlayable

abbrev pub preference_sink : ℕ
preference_sink = 5000

abbrev pub wrong_show_sink : ℕ
wrong_show_sink = 30_000

abbrev pub class_name : Junk → String
class_name cam = "cam"
class_name telesync = "telesync"
class_name telecine = "telecine"
class_name screener = "screener"
class_name workprint = "workprint"
class_name r5 = "r5"
class_name upscaled = "upscaled"

unfoldable pub mem_string : List String → String → Bool
mem_string [] s = false
mem_string (r ∷ rs) s = str_eq r s || mem_string rs s

abbrev pub excludes : Option (Text → Bool) → Text → Bool
excludes none title = false
excludes (some match_string) title = match_string title

abbrev pub other_year : Option ℕ → Text → Bool
other_year none title = false
other_year (some want) title = year_mismatch title want

abbrev pub other_title : List Text → Text → Bool
other_title expected title =
    not (is_nil expected) && is_nil (release_years title) && not (title_overlap title expected)

-- Of a resolution that was read and is not one of those asked for.
unfoldable pub other_resolution : List String → String → Bool
unfolding mem_string
other_resolution allowed res =
    not (is_nil allowed) && not (str_eq res "") && not (mem_string allowed res)

abbrev pub too_few : Option ℕ → Option ℕ → Bool
too_few (some least) (some seeders) = ltb seeders least
too_few _ _ = false

abbrev pub too_large : Option ℕ → Option ℕ → Bool
too_large none size = false
too_large (some most) size = ltb (most * gib) (int_or size 0)

module _ (judges : Judges) (f : RankFilters) where
  -- The filter that drops a release, none for one that is kept.
  unfoldable pub drop_reason : RawStream → Option String
  unfolding other_resolution
  drop_reason s =
      let t = to_lower s.title in
      elim (if f.exclude_cam then junk_class_of judges.upscaled_match t else none) [
        | some junk ↦ some (class_name junk)
        | none ↦
            if excludes f.exclude s.title
            then some "excludeRegex"
            else if other_year f.expected_year s.title
            then some "yearMismatch"
            else if other_title f.expected_title_tokens s.title
            then some "titleMismatch"
            else if other_resolution f.resolutions (detect_resolution_lower t)
            then some "resolution"
            else if f.hdr_only && not (re_hdr_only t)
            then some "hdrOnly"
            else if too_few f.min_seeders s.seeders
            then some "minSeeders"
            else if too_large f.max_size_gb s.size_bytes
            then some "maxSizeGB"
            else if f.cached_only && not s.cached && s.cache_known
            then some "cachedOnly"
            else none
      ]

  unfoldable pub client_cost : RawStream → ℕ
  client_cost s = elim f.client [
    | none ↦ 0
    | some p ↦ cost p s (stream_attributes judges.upscaled_match s)
  ]

  unfoldable pub preference_cost : RawStream → ℕ
  preference_cost s =
      let res = detect_resolution_lower (to_lower s.title) in
      if not (str_eq f.prefer_resolution "")
        && not (str_eq res "")
        && not (str_eq res f.prefer_resolution)
      then preference_sink
      else 0

  unfoldable pub show_cost : RawStream → ℕ
  show_cost s = elim f.episode [
    | none ↦ 0
    | some asked ↦
        if not (is_nil f.show_tokens) && judges.other_show s.title f.show_tokens
          || judges.other_episode s.title asked
        then wrong_show_sink
        else 0
  ]

  -- The score that a release is ordered by.
  unfoldable pub score : RawStream → ℤ
  unfolding client_cost preference_cost show_cost
  score s =
      let t = to_lower s.title in
      quality_score_lower t s (junk_class_of judges.upscaled_match t)
      -ℤ pos (client_cost s)
      -ℤ pos (preference_cost s)
      -ℤ pos (show_cost s)
