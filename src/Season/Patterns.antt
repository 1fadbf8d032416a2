-- ===== src/Season/Patterns.antt =====
-- internal/scout/season.go: the patterns that find an episode in a file's name.
use den_scout.Prelude.{ℕ, Bool, List, [], ◌∷◌, ◌++◌}
use den_scout.Pattern.{
  Text, Re, matches, boundary, starts, ends, chars, seq, alt, not_ahead, star, opt, letter, literal,
  lit, all_of, any_of, digit_class, separator_class,
}
use den_scout.Decimal.{digits, two_digits}

abbrev zero_class : List (ℕ × ℕ)
zero_class = (48, 48) ∷ []

-- `0*%d`.
unfoldable pub number : ℕ → Re
unfolding digits
number n = seq (star zero_class) (literal (digits n))

abbrev separators : Re
separators = star separator_class

-- `[\dpi]`.
abbrev resolution_class : List (ℕ × ℕ)
resolution_class = (48, 57) ∷ (105, 105) ∷ (112, 112) ∷ []

-- `\d{1,3}`, `\d{1,2}` and `\d{2}`.
abbrev digit : Re
digit = chars digit_class

abbrev pub up_to_two : Re
up_to_two = seq digit (opt digit)

abbrev pub up_to_three : Re
up_to_three = seq digit (opt (seq digit (opt digit)))

unfoldable pub season_episode : ℕ → ℕ → Re
unfolding number
season_episode season episode = all_of (
    letter b's'
    ∷ number season
    ∷ separators
    ∷ letter b'e'
    ∷ number episode
    ∷ not_ahead digit_class
    ∷ [])

unfoldable pub season_x_episode : ℕ → ℕ → Re
unfolding number
season_x_episode season episode =
    all_of (boundary ∷ number season ∷ letter b'x' ∷ number episode ∷ not_ahead digit_class ∷ [])

unfoldable pub in_words : ℕ → ℕ → Re
unfolding number
in_words season episode = all_of (
    lit "season"
    ∷ separators
    ∷ number season
    ∷ separators
    ∷ lit "episode"
    ∷ separators
    ∷ number episode
    ∷ not_ahead digit_class
    ∷ [])

unfoldable pub run_together : Text → ℕ → Re
unfolding two_digits
run_together season episode =
    all_of (boundary ∷ literal (season ++ two_digits episode) ∷ not_ahead resolution_class ∷ [])

unfoldable pub second_of_two : ℕ → ℕ → Re
unfolding number
second_of_two season episode = all_of (
    letter b's'
    ∷ number season
    ∷ separators
    ∷ letter b'e'
    ∷ up_to_three
    ∷ not_ahead digit_class
    ∷ separators
    ∷ letter b'e'
    ∷ number episode
    ∷ not_ahead digit_class
    ∷ [])

unfoldable pub episode_patterns : ℕ → ℕ → List Re
unfolding season_episode season_x_episode in_words run_together second_of_two digits two_digits
episode_patterns season episode =
    season_episode season episode
    ∷ season_x_episode season episode
    ∷ in_words season episode
    ∷ run_together (digits season) episode
    ∷ run_together (two_digits season) episode
    ∷ second_of_two season episode
    ∷ []

-- `[ _\-\[\]()]`, and the same with a dot.
abbrev bracket_class : List (ℕ × ℕ)
bracket_class = (32, 32) ∷ (40, 41) ∷ (45, 45) ∷ (91, 91) ∷ (93, 93) ∷ (95, 95) ∷ []

abbrev dotted_class : List (ℕ × ℕ)
dotted_class = (46, 46) ∷ bracket_class

unfoldable pub bare_episode_patterns : ℕ → List Re
unfolding number
bare_episode_patterns episode =
    all_of (
      alt starts (chars bracket_class)
      ∷ number episode
      ∷ any_of (chars bracket_class ∷ seq (letter b'.') (not_ahead digit_class) ∷ ends ∷ [])
      ∷ [])
    ∷ all_of (
        alt starts (chars dotted_class)
        ∷ letter b'e'
        ∷ number episode
        ∷ alt (chars dotted_class) ends
        ∷ [])
    ∷ []

unfoldable pub season_only_pattern : ℕ → Re
unfolding number
season_only_pattern season =
    alt (all_of (boundary ∷ letter b's' ∷ number season ∷ boundary ∷ []))
      (all_of (boundary ∷ lit "season" ∷ separators ∷ number season ∷ boundary ∷ []))

unfoldable pub video_ext_re : Text → Bool
unfolding matches
video_ext_re s =
    matches
      (all_of (
        letter b'.'
        ∷ any_of (
            lit "mkv"
            ∷ lit "mp4"
            ∷ lit "avi"
            ∷ lit "m4v"
            ∷ lit "ts"
            ∷ lit "mov"
            ∷ lit "wmv"
            ∷ lit "flv"
            ∷ lit "webm"
            ∷ [])
        ∷ ends
        ∷ []))
      s

unfoldable pub labelled_episode_re : Text → Bool
unfolding matches
labelled_episode_re s =
    matches
      (any_of (
        all_of (letter b's' ∷ up_to_two ∷ separators ∷ letter b'e' ∷ up_to_three ∷ [])
        ∷ all_of (boundary ∷ up_to_two ∷ letter b'x' ∷ digit ∷ digit ∷ boundary ∷ [])
        ∷ all_of (
            lit "season"
            ∷ separators
            ∷ up_to_two
            ∷ separators
            ∷ lit "episode"
            ∷ separators
            ∷ up_to_three
            ∷ [])
        ∷ []))
      s
