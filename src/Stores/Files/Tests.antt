-- ===== src/Stores/Files/Tests.antt =====
-- Packs and links as the stores see them.
use den_scout.Prelude.{
  ℕ, ◌≡◌, refl, false, String, Option, none, some, [], ◌∷◌, here, there, ◌==◌, if◌then◌else◌, arith,
}
use den_scout.Season.Chosen.{namer_of, IsUndecided, IsLabelledPack}
use den_scout.Season.Pick.{not_in_torrent, episode_file_pool}
use den_scout.Season.Tests.{open_season, labelled_pack, no_patterns-IsSound}
use den_scout.Stores.{ResolveTarget}
use den_scout.Stores.Files.{select_file_id, pick_listed, RdFile, RdInfo, rd_link_for}
use den_scout.Stores.Files.Asked.{AsksFor, choice-IsFit, pack_of_others}
use den_scout.Stores.Files.Choice.{IsFitChoice}
use den_scout.Stores.Files.Links.{rd_link_for-selected}

abbrev asking : ℕ → Option ℕ → ResolveTarget
asking episode position = record {
  info_hash = "aa";
  file_idx = position;
  season = some 1;
  episode = some episode;
  no_add = false;
  prefetch = false;
  release_size = 0;
  list_files = false;
  title = "";
  imdb = "";
}

asking-AsksFor : (episode : ℕ) (position : Option ℕ) → AsksFor 1 episode (asking episode position)
asking-AsksFor episode position = record { season_asked = refl; episode_asked = refl }

choice-IsFit_example :
    IsFitChoice 1 2 labelled_pack (select_file_id labelled_pack (asking 2 none) []).1
    × IsFitChoice 1 2 labelled_pack (pick_listed (λ i f. i) labelled_pack (asking 2 none) []).1
choice-IsFit_example =
    choice-IsFit (asking 2 none) (asking-AsksFor 2 none) (λ i f. i) labelled_pack []
      no_patterns-IsSound refl

no_seventh : IsUndecided (namer_of 1 7) 7 (episode_file_pool labelled_pack)
unfolding open_season
no_seventh = ((refl, (refl, (refl, tt))), λ one. omega (arith, one))

mostly_labelled : IsLabelledPack (namer_of 1 7) 7 (episode_file_pool labelled_pack)
unfolding open_season
mostly_labelled = (omega arith, omega arith)

pack_of_others_example :
    ((select_file_id labelled_pack (asking 7 (some 0)) []).1 ≡ not_in_torrent)
    × ((pick_listed (λ i f. i) labelled_pack (asking 7 (some 0)) []).1 ≡ not_in_torrent)
pack_of_others_example =
    pack_of_others (asking 7 (some 0)) (asking-AsksFor 7 (some 0)) (λ i f. i) _ _ []
      no_patterns-IsSound no_seventh mostly_labelled

abbrev rd_file : ℕ → ℕ → RdFile
rd_file id selected = record { id = id; path = []; bytes = 0; selected = selected }

abbrev rd_torrent : RdInfo
rd_torrent = record {
  files = rd_file 4 1 ∷ rd_file 5 0 ∷ rd_file 6 1 ∷ [];
  links = "first" ∷ "second" ∷ [];
  status = "downloaded";
  progress = 0;
}

abbrev link_by_id : RdFile → String
link_by_id f = if f.id == 4 then "first" else "second"

unselected : rd_link_for rd_torrent 5 ≡ none
unfolding rd_link_for
unselected = refl

rd_link_for-selected_example : rd_link_for rd_torrent 6 ≡ some "second"
rd_link_for-selected_example =
    rd_link_for-selected link_by_id rd_torrent (rd_file 6 1) refl
      (
        ((λ e. ground (arith, e)), ((λ e. ground (arith, e)), tt)),
        (((λ e. ground (arith, e)), tt), (tt, tt)),
      )
      (there here)
