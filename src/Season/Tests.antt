-- ===== src/Season/Tests.antt =====
-- Names and packs, as the repository's tests and comments have them.
use den_scout.Prelude.{ℕ, ◌≡◌, refl, Bool, true, false, String, some, List, [], ◌∷◌, arith}
use den_scout.Pattern.{codes}
use den_scout.Decimal.{digits, two_digits}
use den_scout.Release.{to_lower}
use den_scout.Season.{
  base_name, matches_episode, new_episode_namer, names, names_episode, cached_episode_patterns,
  cached, match_any, unresolved_season_pack, other_episode,
}
use den_scout.Season.Patterns.{
  episode_patterns, bare_episode_patterns, season_only_pattern, video_ext_re, labelled_episode_re,
}
use den_scout.Season.Cached.{IsSound}
use den_scout.Season.Chosen.{IsRightOf, pick_episode_file-IsRightOf}
use den_scout.Season.Ranges.{range_holds_episode}
use den_scout.Season.Pick.{
  TorrentFile, picked, no_opinion, not_in_torrent, episode_file_pool, largest, pick_from,
  pick_unnamed, pick_with, pick_episode_file,
}

abbrev season_one : ℕ → String → Bool
season_one episode name = (names_episode (codes name) 1 episode []).1

-- Everything of season.go that a run needs.
unfoldable pub open_season : ℕ
unfolding names_episode new_episode_namer cached_episode_patterns cached names matches_episode
    match_any base_name to_lower episode_patterns bare_episode_patterns season_only_pattern
    video_ext_re labelled_episode_re range_holds_episode episode_file_pool largest pick_from
    pick_unnamed pick_with pick_episode_file unresolved_season_pack other_episode digits two_digits
open_season = 0

plain_label : season_one 5 "Show.S01E05.1080p.mkv" ≡ true
unfolding open_season
plain_label = refl

run_of_digits : season_one 2 "Pack/show 102.mkv" ≡ true
unfolding open_season
run_of_digits = refl

not_720p : (names_episode (codes "Show.720p.mkv") 7 20 []).1 ≡ false
unfolding open_season
not_720p = refl

second_of_double : season_one 6 "Show.S01E05-E06.mkv" ≡ true
unfolding open_season
second_of_double = refl

inside_range : season_one 3 "Show.S01E01-06.mkv" ≡ true
unfolding open_season
inside_range = refl

title_with_digit : season_one 7 "Show.S01E01-7.Minutes.mkv" ≡ false
unfolding open_season
title_with_digit = refl

four_k : season_one 4 "Show.S01E08-4K.HDR.mkv" ≡ false
unfolding open_season
four_k = refl

third_of_list : season_one 3 "Show.S01E01E02E03.mkv" ≡ true
unfolding open_season
third_of_list = refl

abbrev pub file : ℕ → String → ℕ → TorrentFile
file index name size = record { index = index; name = codes name; size_bytes = some size }

abbrev pub labelled_pack : List TorrentFile
labelled_pack =
    file 0 "Show/Show.S01E01.mkv" 500
    ∷ file 1 "Show/Show.S01E02.mkv" 900
    ∷ file 2 "Show/Show.S01E02.sample.mkv" 20
    ∷ file 3 "Show/cover.jpg" 5000
    ∷ []

abbrev bare_pack : List TorrentFile
bare_pack = file 0 "[Grp] Show - 01 [1080p].mkv" 500 ∷ file 1 "[Grp] Show - 02 [1080p].mkv" 900 ∷ []

largest_match : (pick_episode_file labelled_pack 1 2 []).1 ≡ picked 1
unfolding open_season
largest_match = refl

other_episodes : (pick_episode_file labelled_pack 1 7 []).1 ≡ not_in_torrent
unfolding open_season
other_episodes = refl

bare_number : (pick_episode_file bare_pack 1 1 []).1 ≡ picked 0
unfolding open_season
bare_number = refl

absolute_number : (pick_episode_file bare_pack 2 14 []).1 ≡ no_opinion
unfolding open_season
absolute_number = refl

whole_season : (unresolved_season_pack (codes "Show.S01.COMPLETE.1080p") 1 3 []).1 ≡ true
unfolding open_season
whole_season = refl

one_episode : (unresolved_season_pack (codes "Show.S01E03.1080p") 1 3 []).1 ≡ false
unfolding open_season
one_episode = refl

special : (other_episode (codes "Pokemon S00E82") 1 1 []).1 ≡ true
unfolding open_season
special = refl

pub no_patterns-IsSound : IsSound []
no_patterns-IsSound = record { entries = tt; small = omega arith }

pick_episode_file-IsRightOf_example :
    IsRightOf 1 2 (episode_file_pool labelled_pack) (pick_episode_file labelled_pack 1 2 []).1
pick_episode_file-IsRightOf_example =
    pick_episode_file-IsRightOf labelled_pack 1 2 [] no_patterns-IsSound
