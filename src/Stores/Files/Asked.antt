-- ===== src/Stores/Files/Asked.antt =====
-- What each store asks for when an episode is wanted, and when it refuses.
use den_scout.Prelude.{
  ℕ, ◌≡◌, ◌≢◌, refl, ap, subst, true, false, none, some, List, [], ◌∷◌, length, is_nil, Each, IsIn,
  here, there, arith, if◌then◌else◌,
}
use den_scout.Season.{PatternCache, EpisodeNamer}
use den_scout.Season.Cached.{IsSound}
use den_scout.Season.Chosen.{
  by_name, by_number, alone, IsUndecided, IsLabelledPack, IsRightPick, namer_of, IsRightOf,
  pick_episode_file-IsRightOf,
}
use den_scout.Season.Pick.{
  TorrentFile, Pick, picked, no_opinion, not_in_torrent, episode_file_pool, is_named,
  pick_episode_file,
}
use den_scout.Stores.{ResolveTarget}
use den_scout.Stores.Files.{
  pick_by_name, guess, torbox_unnamed, if_no_opinion, select_file_id, last_resort, listed_unnamed,
  pick_listed,
}
use den_scout.Stores.Files.Choice.{
  IsFitChoice, guess-IsFitChoice, pool-some, pick-IsFitChoice, if_no_opinion-IsFitChoice,
}

not_named :
    (namer : EpisodeNamer) {f : TorrentFile} (files : List TorrentFile)
    → IsIn f files
    → Each (λ g. is_named namer g ≡ false) files
    → is_named namer f ≢ true
not_named namer [] h v e = elim h [ ]
not_named namer (f ∷ files) here v e = ground (arith, v.0, e)
not_named namer (g ∷ files) (there h) v e = not_named namer files h v.1 e

-- A target for an episode.
pub record AsksFor (season episode : ℕ) (t : ResolveTarget) : Type 0 where
  pub season_asked : t.season ≡ some season
  pub episode_asked : t.episode ≡ some episode

module _ {season episode : ℕ} (t : ResolveTarget) (asks : AsksFor season episode t) where
  by_name_asked :
      (files : List TorrentFile) (cache : PatternCache)
      → pick_by_name files t cache ≡ pick_episode_file files season episode cache
  unfolding pick_by_name
  by_name_asked files cache = rw (asks.season_asked, asks.episode_asked) refl

  torbox_asked :
      (files : List TorrentFile)
      → t.file_idx ≡ none
      → torbox_unnamed files t
        ≡ (if is_nil (episode_file_pool files) then no_opinion else guess files episode)
  unfolding torbox_unnamed
  torbox_asked files h = rw (h, asks.season_asked, asks.episode_asked) refl

  listed_asked :
      (at : ℕ → TorrentFile → ℕ) (files : List TorrentFile)
      → t.file_idx ≡ none
      → listed_unnamed at files t ≡ guess files episode
  unfolding listed_unnamed last_resort
  listed_asked at files h = rw (h, asks.season_asked, asks.episode_asked) refl

  nil_or_guess :
      (files pool : List TorrentFile)
      → episode_file_pool files ≡ pool
      → IsFitChoice season episode files (if is_nil pool then no_opinion else guess files episode)
  nil_or_guess files [] e = tt
  nil_or_guess files (p ∷ pool) e =
      guess-IsFitChoice season episode files (p ∷ pool) e (λ h. ground (arith, h))

  named-IsFitChoice :
      (files : List TorrentFile) (cache : PatternCache)
      → IsSound cache
      → IsFitChoice season episode files (pick_by_name files t cache).1
  named-IsFitChoice files cache v = rw (by_name_asked files cache) (
      pick-IsFitChoice season episode files _ _ refl
        (pick_episode_file-IsRightOf files season episode cache v))

  torbox-IsFitChoice :
      (files : List TorrentFile) (cache : PatternCache)
      → IsSound cache
      → t.file_idx ≡ none
      → IsFitChoice season episode files (select_file_id files t cache).1
  unfolding select_file_id
  torbox-IsFitChoice files cache v h =
      if_no_opinion-IsFitChoice season episode files _ _ (named-IsFitChoice files cache v)
        (rw (torbox_asked files h) (nil_or_guess files (episode_file_pool files) refl))

  listed-IsFitChoice :
      (at : ℕ → TorrentFile → ℕ) (files : List TorrentFile) (cache : PatternCache)
      → IsSound cache
      → t.file_idx ≡ none
      → IsFitChoice season episode files (pick_listed at files t cache).1
  unfolding pick_listed
  listed-IsFitChoice at [] cache v h = tt
  listed-IsFitChoice at (f ∷ fs) cache v h =
      let files = f ∷ fs in
      if_no_opinion-IsFitChoice season episode files _ _ (named-IsFitChoice files cache v) (
        rw (listed_asked at files h)
          (guess-IsFitChoice season episode files _ refl (pool-some season episode files refl)))

  -- Where the indexer names no file, no store picks another episode's: what TorBox, and Real-Debrid or
  -- Premiumize, is asked for is a file of the pool that names the episode, or has no label at all; a
  -- labelled one is a last resort, where the whole pool is labelled.
  pub choice-IsFit :
      (at : ℕ → TorrentFile → ℕ) (files : List TorrentFile) (cache : PatternCache)
      → IsSound cache
      → t.file_idx ≡ none
      → IsFitChoice season episode files (select_file_id files t cache).1
        × IsFitChoice season episode files (pick_listed at files t cache).1
  choice-IsFit at files cache v h =
      (torbox-IsFitChoice files cache v h, listed-IsFitChoice at files cache v h)

  -- A pack that is labelled, and undecided, refuses whichever file the indexer named.
  refused_by_name :
      (p : Pick) (files : List TorrentFile)
      → IsRightPick (namer_of season episode) episode files p
      → IsUndecided (namer_of season episode) episode files
      → IsLabelledPack (namer_of season episode) episode files
      → p ≡ not_in_torrent
  refused_by_name (picked i) files (f, same, found, by_name h most) u l =
      absurd (not_named _ files found u.0 h)
  refused_by_name (picked i) files (f, same, found, by_number none_named h by only) u l =
      absurd (u.1 (ap length only))
  refused_by_name (picked i) files (f, same, found, alone none_named only) u l =
      let one : length files ≡ 1 = ap length only in ground (arith, l.0, one)
  refused_by_name no_opinion files h u l = absurd (h.1 l)
  refused_by_name not_in_torrent files h u l = refl

  refused_at :
      (files pool : List TorrentFile) (cache : PatternCache)
      → IsSound cache
      → episode_file_pool files ≡ pool
      → IsUndecided (namer_of season episode) episode pool
      → IsLabelledPack (namer_of season episode) episode pool
      → (pick_by_name files t cache).1 ≡ not_in_torrent
  refused_at files [] cache v e u l = ground (arith, l.0)
  refused_at files (f ∷ pool) cache v e u l = rw (by_name_asked files cache) (
      refused_by_name _ (f ∷ pool)
        (subst (λ p. IsRightOf season episode p (pick_episode_file files season episode cache).1) e
          (pick_episode_file-IsRightOf files season episode cache v))
        u l)

  -- Let no file of the pool name the episode, let there not be exactly one file without a label that bears
  -- its number, and let the labelled files be at least two and more than those without. Then the torrent is
  -- refused by every store, also where the indexer says which file it wants.
  pub pack_of_others :
      (at : ℕ → TorrentFile → ℕ) (f : TorrentFile) (fs : List TorrentFile) (cache : PatternCache)
      → IsSound cache
      → IsUndecided (namer_of season episode) episode (episode_file_pool (f ∷ fs))
      → IsLabelledPack (namer_of season episode) episode (episode_file_pool (f ∷ fs))
      → ((select_file_id (f ∷ fs) t cache).1 ≡ not_in_torrent)
        × ((pick_listed at (f ∷ fs) t cache).1 ≡ not_in_torrent)
  unfolding select_file_id pick_listed
  pack_of_others at f fs cache v u l =
      let e = refused_at (f ∷ fs) _ cache v refl u l in
      (
        ap (λ p. if_no_opinion p (torbox_unnamed (f ∷ fs) t)) e,
        ap (λ p. if_no_opinion p (listed_unnamed at (f ∷ fs) t)) e,
      )
