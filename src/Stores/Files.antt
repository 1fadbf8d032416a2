-- ===== src/Stores/Files.antt =====
-- internal/scout/stores.go: the file of a torrent that each store asks its service for.
--
-- An indexer's fileIdx is a natural number; a negative one is out of range as a large one is.
pub mod Choice
pub mod Asked
pub mod Links
mod Tests
use den_scout.Prelude.{
  ℕ, zero, suc, Bool, true, false, not, ◌&&◌, String, Option, none, some, List, [], ◌∷◌, ◌==◌,
  length, get_elem?, is_nil, if◌then◌else◌,
}
use den_scout.Pattern.{Text}
use den_scout.Season.{PatternCache}
use den_scout.Season.Pick.{
  TorrentFile, Pick, picked, no_opinion, not_in_torrent, episode_file_pool, pick_episode_file,
  ambiguous_episode_guess, largest_playable, largest_episode_candidate, is_feature_sized,
}
use den_scout.Stores.{ResolveTarget}

-- The name match that every store tries first, for a target with an episode.
unfoldable pub pick_by_name : List TorrentFile → ResolveTarget → PatternCache → PatternCache × Pick
unfolding pick_episode_file
pick_by_name files t cache = elim t.season [
  | none ↦ (cache, no_opinion)
  | some season ↦ elim t.episode [
    | none ↦ (cache, no_opinion)
    | some episode ↦ pick_episode_file files season episode cache
  ]
]

abbrev pub index_or_none : Option TorrentFile → Pick
index_or_none none = no_opinion
index_or_none (some f) = picked f.index

abbrev has_season : ResolveTarget → Bool
has_season t = elim t.season [ none ↦ false | some n ↦ true ]

abbrev has_episode : ResolveTarget → Bool
has_episode t = has_season t && elim t.episode [ none ↦ false | some n ↦ true ]

-- A guess by the number, or else the largest file that may be it.
unfoldable pub guess : List TorrentFile → ℕ → Pick
unfolding ambiguous_episode_guess largest_episode_candidate
guess files episode = elim (ambiguous_episode_guess files episode) [
  | some i ↦ picked i
  | none ↦ index_or_none (largest_episode_candidate files)
]

abbrev episode_of : ResolveTarget → Option ℕ
episode_of t = elim t.season [ none ↦ none | some season ↦ t.episode ]

-- TorBox: a position is mapped to the file's id, and is passed on where the list does not reach.
unfoldable pub torbox_position : List TorrentFile → ResolveTarget → ℕ → Pick
unfolding is_feature_sized largest_playable
torbox_position files t i = elim (get_elem? files i) [
  | none ↦ picked i
  | some f ↦
      if not (has_season t) && not (is_feature_sized files f)
      then index_or_none (largest_playable files)
      else picked f.index
]

unfoldable pub torbox_unnamed : List TorrentFile → ResolveTarget → Pick
unfolding torbox_position guess episode_file_pool
torbox_unnamed files t = elim t.file_idx [
  | some i ↦ torbox_position files t i
  | none ↦ elim (episode_of t) [
    | none ↦ no_opinion
    | some episode ↦ if is_nil (episode_file_pool files) then no_opinion else guess files episode
  ]
]

abbrev pub if_no_opinion : Pick → Pick → Pick
if_no_opinion no_opinion p = p
if_no_opinion p q = p

unfoldable pub select_file_id :
    List TorrentFile → ResolveTarget → PatternCache → PatternCache × Pick
unfolding pick_by_name torbox_unnamed
select_file_id files t cache =
    let (cache', p) = pick_by_name files t cache in
    (cache', if_no_opinion p (torbox_unnamed files t))

unfoldable pub last_resort : List TorrentFile → ResolveTarget → Pick
unfolding guess largest_playable
last_resort files t = elim (episode_of t) [
  | none ↦ index_or_none (largest_playable files)
  | some episode ↦ guess files episode
]

-- Real-Debrid and Premiumize: a position counts where the list reaches; `at` is what it stands for.
module _ (at : ℕ → TorrentFile → ℕ) where
  unfoldable pub listed_unnamed : List TorrentFile → ResolveTarget → Pick
  unfolding last_resort
  listed_unnamed files t = elim t.file_idx [
    | none ↦ last_resort files t
    | some i ↦ elim (get_elem? files i) [ some f ↦ picked (at i f) | none ↦ last_resort files t ]
  ]

  unfoldable pub pick_listed : List TorrentFile → ResolveTarget → PatternCache → PatternCache × Pick
  unfolding pick_by_name listed_unnamed
  pick_listed [] t cache = (cache, no_opinion)
  pick_listed (f ∷ files) t cache =
      let (cache', p) = pick_by_name (f ∷ files) t cache in
      (cache', if_no_opinion p (listed_unnamed (f ∷ files) t))

-- Real-Debrid's pickFileID, and Premiumize's pickIndex, whose files are numbered by their position.
unfoldable pub pick_file_id : List TorrentFile → ResolveTarget → PatternCache → PatternCache × Pick
unfolding pick_listed
pick_file_id = pick_listed (λ i f. f.index)

unfoldable pub pick_index : List TorrentFile → ResolveTarget → PatternCache → PatternCache × Pick
unfolding pick_listed
pick_index = pick_listed (λ i f. i)

-- What Real-Debrid says of a torrent. The progress is the bits of its float.
pub record RdFile : Type 0 where
  pub id : ℕ
  pub path : Text
  pub bytes : ℕ
  pub selected : ℕ

pub record RdInfo : Type 0 where
  pub files : List RdFile
  pub links : List String
  pub status : String
  pub progress : ℕ

unfoldable pub selected_in : List RdFile → ℕ → Bool
selected_in [] id = false
selected_in (f ∷ files) id = if f.id == id then f.selected == 1 else selected_in files id

unfoldable pub rd_file_selected : RdInfo → ℕ → Bool
unfolding selected_in
rd_file_selected info id = selected_in info.files id

-- The walk over the files, with the number of selected ones before; it gives a link, or none.
unfoldable pub rd_link_from : List String → ℕ → List RdFile → ℕ → Option String
rd_link_from (link ∷ []) zero [] id = some link
rd_link_from links pos [] id = none
rd_link_from links pos (f ∷ files) id =
    if f.selected == 0
    then rd_link_from links pos files id
    else if f.id == id
    then get_elem? links pos
    else rd_link_from links (suc pos) files id

unfoldable pub rd_link_for : RdInfo → ℕ → Option String
unfolding rd_link_from
rd_link_for info id = rd_link_from info.links 0 info.files id
