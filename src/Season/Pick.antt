-- ===== src/Season/Pick.antt =====
-- internal/scout/season.go: the choice of a file of a torrent for an episode.
use den_scout.Prelude.{
  ℕ, ◌-◌, ◌*◌, Bool, true, false, not, ◌&&◌, ◌||◌, Option, none, some, List, [], ◌∷◌, ltb, leb,
  ◌==◌, length, keep, is_nil, if◌then◌else◌,
}
use den_scout.Pattern.{Text}
use den_scout.Release.{to_lower, int_or}
use den_scout.Season.{
  base_name, matches_episode, PatternCache, EpisodeNamer, new_episode_namer, names,
}
use den_scout.Season.Patterns.{bare_episode_patterns, video_ext_re, labelled_episode_re}

pub record TorrentFile : Type 0 where
  pub index : ℕ
  pub name : Text
  pub size_bytes : Option ℕ

abbrev pub is_video : TorrentFile → Bool
is_video f = video_ext_re (to_lower f.name)

unfoldable pub episode_file_pool : List TorrentFile → List TorrentFile
episode_file_pool files =
    let videos = keep is_video files in if is_nil videos then files else videos

abbrev pub size_of : TorrentFile → ℕ
size_of f = int_or f.size_bytes 0

-- `largest` of a list that has a first file.
unfoldable pub largest : TorrentFile → List TorrentFile → TorrentFile
largest best [] = best
largest best (f ∷ files) = largest (if ltb (size_of best) (size_of f) then f else best) files

abbrev pub is_unlabelled : TorrentFile → Bool
is_unlabelled f = not (labelled_episode_re (to_lower (base_name f.name)))

abbrev pub is_bare : ℕ → TorrentFile → Bool
is_bare episode f = matches_episode f.name (bare_episode_patterns episode)

abbrev pub is_named : EpisodeNamer → TorrentFile → Bool
is_named namer f = names namer f.name

-- `no_opinion` is the nil index, and `not_in_torrent` the error errEpisodeNotInTorrent.
pub data Pick : Type 0 where
  picked : ℕ → Pick
  no_opinion : Pick
  not_in_torrent : Pick

-- What is left when no name says enough: a pack of other episodes, or a torrent of one file.
unfoldable pub pick_unnamed : List TorrentFile → ℕ → Pick
pick_unnamed [] unlabelled = no_opinion
pick_unnamed (f ∷ pool) unlabelled =
    let labelled = length (f ∷ pool) - unlabelled in
    if ltb 1 labelled && ltb unlabelled labelled
    then not_in_torrent
    else if ltb 1 (length (f ∷ pool))
    then no_opinion
    else picked (largest f pool).index

-- The choice in a pool, by the files that name the episode, and those without a label that bear its number.
unfoldable pub pick_from : List TorrentFile → List TorrentFile → ℕ → List TorrentFile → Pick
unfolding largest pick_unnamed
pick_from pool (m ∷ matched) unlabelled bare = picked (largest m matched).index
pick_from pool [] unlabelled (b ∷ []) = picked b.index
pick_from pool [] unlabelled _ = pick_unnamed pool unlabelled

unfoldable pub pick_with : EpisodeNamer → List TorrentFile → ℕ → Pick
unfolding pick_from labelled_episode_re base_name names bare_episode_patterns matches_episode
pick_with namer pool episode =
    let unlabelled = keep is_unlabelled pool in
    pick_from pool (keep (is_named namer) pool) (length unlabelled)
      (keep (is_bare episode) unlabelled)

unfoldable pub pick_episode_file : List TorrentFile → ℕ → ℕ → PatternCache → PatternCache × Pick
unfolding episode_file_pool pick_with new_episode_namer
pick_episode_file files season episode cache = elim (episode_file_pool files) [
  | [] ↦ (cache, no_opinion)
  | f ∷ pool ↦
      let (cache', namer) = new_episode_namer season episode cache in
      (cache', pick_with namer (f ∷ pool) episode)
]

unfoldable pub unlabelled_candidates : List TorrentFile → List TorrentFile
unfolding episode_file_pool
unlabelled_candidates files = keep is_unlabelled (episode_file_pool files)

abbrev pub largest_index : List TorrentFile → Option ℕ
largest_index [] = none
largest_index (f ∷ files) = some (largest f files).index

unfoldable pub ambiguous_episode_guess : List TorrentFile → ℕ → Option ℕ
unfolding unlabelled_candidates largest
ambiguous_episode_guess files episode =
    largest_index (keep (is_bare episode) (unlabelled_candidates files))

-- The largest of a pool, or else of all the files; none where `largest` would panic, on no file at all.
abbrev largest_of : List TorrentFile → List TorrentFile → Option TorrentFile
largest_of (f ∷ pool) files = some (largest f pool)
largest_of [] (f ∷ files) = some (largest f files)
largest_of [] [] = none

unfoldable pub largest_playable : List TorrentFile → Option TorrentFile
unfolding episode_file_pool largest
largest_playable files = largest_of (episode_file_pool files) files

unfoldable pub largest_episode_candidate : List TorrentFile → Option TorrentFile
unfolding unlabelled_candidates largest largest_playable
largest_episode_candidate files = elim (unlabelled_candidates files) [
  | f ∷ candidates ↦ some (largest f candidates)
  | [] ↦ largest_playable files
]

abbrev is_unknown : Option ℕ → Bool
is_unknown none = true
is_unknown (some n) = false

abbrev top_of : List TorrentFile → ℕ
top_of [] = 0
top_of (f ∷ pool) = size_of (largest f pool)

-- A file of the list; the pool is empty only where the list is.
unfoldable pub is_feature_sized : List TorrentFile → TorrentFile → Bool
unfolding episode_file_pool largest
is_feature_sized files f =
    let pool = episode_file_pool files in
    let top = top_of pool in
    if ltb (length pool) (length files) && not (is_video f)
    then false
    else is_unknown f.size_bytes || top == 0 || leb top (size_of f * 2)
