-- ===== src/Season.antt =====
-- internal/scout/season.go: which episode a file's name names.
--
-- A season and an episode are natural numbers, and a name is a text. The compiled patterns are kept in a
-- map that all requests share, behind a mutex; each read of it is one step.
pub mod Patterns
pub mod Ranges
pub mod Pick
pub mod Cached
pub mod Chosen
pub mod Tests
use den_scout.Prelude.{
  ℕ, suc, Bool, true, false, not, ◌&&◌, ◌||◌, Option, none, some, List, [], ◌∷◌, ltb, leb, ◌==◌,
  length, if◌then◌else◌,
}
use den_scout.Pattern.{Text, Re, matches}
use den_scout.Release.{to_lower}
use Patterns.{episode_patterns, season_only_pattern, labelled_episode_re}
use Ranges.{range_holds_episode}

-- Whether a text has the byte at all, and what stands behind its last one.
unfoldable pub has_char : ℕ → Text → Bool
has_char sep [] = false
has_char sep (c ∷ s) = c == sep || has_char sep s

unfoldable pub base_name : Text → Text
unfolding has_char
base_name [] = []
base_name (c ∷ s) = if has_char b'/' (c ∷ s) then base_name s else c ∷ s

unfoldable pub match_any : List Re → Text → Bool
unfolding matches
match_any [] s = false
match_any (re ∷ patterns) s = matches re s || match_any patterns s

unfoldable pub matches_episode : Text → List Re → Bool
unfolding match_any base_name
matches_episode name patterns = match_any patterns (to_lower (base_name name))

-- episodePatternCache, by season and episode.
abbrev pub PatternCache : Type 0
PatternCache = List ((ℕ × ℕ) × List Re)

abbrev pub episode_pattern_cap : ℕ
episode_pattern_cap = 512

abbrev pub same_key : ℕ × ℕ → ℕ → ℕ → Bool
same_key (s, e) season episode = s == season && e == episode

unfoldable pub cached : ℕ → ℕ → PatternCache → Option (List Re)
cached season episode [] = none
cached season episode ((key, patterns) ∷ cache) =
    if same_key key season episode then some patterns else cached season episode cache

unfoldable pub cached_episode_patterns : ℕ → ℕ → PatternCache → PatternCache × List Re
unfolding cached
cached_episode_patterns season episode cache = elim (cached season episode cache) [
  | some patterns ↦ (cache, patterns)
  | none ↦
      let room = if leb episode_pattern_cap (length cache) then [] else cache in
      let patterns = episode_patterns season episode in
      (((season, episode), patterns) ∷ room, patterns)
]

-- episodeNamer, and its `names`.
pub record EpisodeNamer : Type 0 where
  pub season : ℕ
  pub episode : ℕ
  pub patterns : List Re

unfoldable pub new_episode_namer : ℕ → ℕ → PatternCache → PatternCache × EpisodeNamer
unfolding cached_episode_patterns
new_episode_namer season episode cache =
    let (cache', patterns) = cached_episode_patterns season episode cache in
    (cache', record { season = season; episode = episode; patterns = patterns })

unfoldable pub names : EpisodeNamer → Text → Bool
unfolding matches_episode range_holds_episode
names n name =
    matches_episode name n.patterns
    || range_holds_episode (to_lower (base_name name)) n.season n.episode

unfoldable pub names_episode : Text → ℕ → ℕ → PatternCache → PatternCache × Bool
unfolding new_episode_namer names
names_episode name season episode cache =
    let (cache', namer) = new_episode_namer season episode cache in (cache', names namer name)

unfoldable pub unresolved_season_pack : Text → ℕ → ℕ → PatternCache → PatternCache × Bool
unfolding cached_episode_patterns matches_episode range_holds_episode season_only_pattern
unresolved_season_pack title season episode cache =
    let (cache', patterns) = cached_episode_patterns season episode cache in
    let lower = to_lower title in
    (
      cache',
      not (matches_episode title patterns)
          && (range_holds_episode (base_name lower) season episode
              || matches (season_only_pattern season) lower),
    )

-- rank.go's otherEpisode.
unfoldable pub other_episode : Text → ℕ → ℕ → PatternCache → PatternCache × Bool
unfolding labelled_episode_re names_episode
other_episode title season episode cache =
    if labelled_episode_re (to_lower (base_name title))
    then (let (cache', named) = names_episode title season episode cache in (cache', not named))
    else (cache, false)
