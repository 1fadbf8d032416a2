-- ===== src/Season/Chosen.antt =====
-- Which file is picked for an episode, and when a torrent is refused for it.
use den_scout.Prelude.{
  ℕ, suc, ◌-◌, ◌≤◌, ◌<◌, ◌≡◌, ◌≢◌, refl, sym, ap, subst, true, false, List, [], ◌∷◌, inl, inr, ltb,
  length, keep, keep-nil, Each, Each-unkeep, IsIn, here, there, IsIn-keep, arith, Bool-cases,
}
use den_scout.Season.{PatternCache, EpisodeNamer, new_episode_namer}
use den_scout.Season.Patterns.{episode_patterns}
use den_scout.Season.Cached.{IsSound, cached_episode_patterns-IsSound}
use den_scout.Season.Pick.{
  TorrentFile, episode_file_pool, size_of, largest, is_unlabelled, is_bare, is_named, Pick, picked,
  no_opinion, not_in_torrent, pick_unnamed, pick_from, pick_with, pick_episode_file,
}

-- No file of the list is larger.
abbrev pub IsLargest : TorrentFile → List TorrentFile → Type 0
IsLargest f files = Each (λ g. size_of g ≤ size_of f) files

abbrev IsBest : List TorrentFile → TorrentFile → Type 0
IsBest files f = IsIn f files × IsLargest f files

keep_first :
    {f best g : TorrentFile} {files : List TorrentFile}
    → IsIn f (best ∷ files)
    → IsIn f (best ∷ g ∷ files)
keep_first here = here
keep_first (there h) = there (there h)

-- `largest` picks one of the files, and none is larger.
pub largest-IsLargest :
    (best : TorrentFile) (files : List TorrentFile)
    → IsIn (largest best files) (best ∷ files) × IsLargest (largest best files) (best ∷ files)
unfolding largest
largest-IsLargest best [] = (here, (omega arith, tt))
largest-IsLargest best (f ∷ files) = elim (Bool-cases (ltb (size_of best) (size_of f))) [
  | inl e ↦
      let (found, (most, rest)) = largest-IsLargest f files in
      let same : largest best (f ∷ files) ≡ largest f files = rw e refl in
      subst (IsBest (best ∷ f ∷ files)) (sym same)
        (there found, (ground (arith, most, e), (most, rest)))
  | inr e ↦
      let (found, (most, rest)) = largest-IsLargest best files in
      let same : largest best (f ∷ files) ≡ largest best files = rw e refl in
      subst (IsBest (best ∷ f ∷ files)) (sym same)
        (keep_first found, (most, (ground (arith, most, e), rest)))
]

module _ (namer : EpisodeNamer) (episode : ℕ) (pool : List TorrentFile) where
  abbrev unlabelled : List TorrentFile
  unlabelled = keep is_unlabelled pool

  abbrev bare : List TorrentFile
  bare = keep (is_bare episode) unlabelled

  abbrev NoneNamed : Type 0
  NoneNamed = Each (λ f. is_named namer f ≡ false) pool

  -- Why a file of the pool is the one for the episode: it is the largest that names it; or none names it,
  -- and this is the only one without a label that bears its number; or it is alone.
  pub data Reason (f : TorrentFile) : Type 0 where
    by_name :
        is_named namer f ≡ true
        → Each (λ g. is_named namer g ≡ true → size_of g ≤ size_of f) pool
        → Reason f
    by_number :
        NoneNamed → is_unlabelled f ≡ true → is_bare episode f ≡ true → bare ≡ f ∷ [] → Reason f
    alone : NoneNamed → pool ≡ f ∷ [] → Reason f

  -- No file names the episode, and its number does not single one out.
  abbrev pub IsUndecided : Type 0
  IsUndecided = NoneNamed × (length bare ≢ 1)

  -- More than one file, and more than half, have a label.
  abbrev pub IsLabelledPack : Type 0
  IsLabelledPack =
      (1 < length pool - length unlabelled) × (length unlabelled < length pool - length unlabelled)

  abbrev pub IsRightPick : Pick → Type 0
  IsRightPick (picked i) = (f : TorrentFile) × (f.index ≡ i) × IsIn f pool × Reason f
  IsRightPick not_in_torrent = IsUndecided × IsLabelledPack
  IsRightPick no_opinion = IsUndecided × ¬ IsLabelledPack × (length pool ≢ 1)

  named-IsRightPick :
      (m : TorrentFile) (matched : List TorrentFile)
      → keep (is_named namer) pool ≡ m ∷ matched
      → IsRightPick (picked (largest m matched).index)
  named-IsRightPick m matched e =
      let (found, most) = largest-IsLargest m matched in
      let f = largest m matched in
      let (in_pool, named) = IsIn-keep (is_named namer) pool (subst (IsIn f) (sym e) found) in
      (
        f,
        refl,
        in_pool,
        by_name named (
            Each-unkeep (λ g. size_of g ≤ size_of f) (is_named namer) pool
              (subst (IsLargest f) (sym e) most)),
      )

  unnamed-IsRightPick :
      (p : List TorrentFile)
      → pool ≡ p
      → NoneNamed
      → p ≢ []
      → length bare ≢ 1
      → IsRightPick (pick_unnamed p (length unlabelled))
  unfolding pick_unnamed largest
  unnamed-IsRightPick [] e h some_file k = absurd (some_file refl)
  unnamed-IsRightPick (f ∷ []) e h some_file k =
      let one : length pool ≡ 1 = ap length e in
      let own : IsRightPick (picked f.index) = (f, refl, rw e here, alone h e) in
      ground (arith, one, own)
  unnamed-IsRightPick (f ∷ g ∷ p) e h some_file k =
      let many : length pool ≡ suc (suc (length p)) = ap length e in ground (arith, h, k, many)

  sole-IsRightPick : (b : TorrentFile) → NoneNamed → bare ≡ b ∷ [] → IsRightPick (picked b.index)
  sole-IsRightPick b h e =
      let (free, by) = IsIn-keep (is_bare episode) unlabelled (subst (IsIn b) (sym e) here) in
      let (in_pool, no_label) = IsIn-keep is_unlabelled pool free in
      (b, refl, in_pool, by_number h no_label by e)

  pick_from-IsRightPick :
      (matched bare' : List TorrentFile)
      → pool ≢ []
      → keep (is_named namer) pool ≡ matched
      → bare ≡ bare'
      → IsRightPick (pick_from pool matched (length unlabelled) bare')
  unfolding pick_from
  pick_from-IsRightPick (m ∷ matched) bare' some_file e k = named-IsRightPick m matched e
  pick_from-IsRightPick [] [] some_file e k =
      let count : length bare ≡ 0 = ap length k in
      unnamed-IsRightPick pool refl (keep-nil _ pool e) some_file (λ one. omega (arith, one, count))
  pick_from-IsRightPick [] (b ∷ []) some_file e k = sole-IsRightPick b (keep-nil _ pool e) k
  pick_from-IsRightPick [] (b ∷ c ∷ bs) some_file e k =
      let count : length bare ≡ suc (suc (length bs)) = ap length k in
      unnamed-IsRightPick pool refl (keep-nil _ pool e) some_file (λ one. omega (arith, one, count))

abbrev pub namer_of : ℕ → ℕ → EpisodeNamer
namer_of season episode = record {
  season = season;
  episode = episode;
  patterns = episode_patterns season episode;
}

-- The right pick for a torrent: none of no file, and else by the pool.
abbrev pub IsRightOf : ℕ → ℕ → List TorrentFile → Pick → Type 0
IsRightOf season episode [] p = p ≡ no_opinion
IsRightOf season episode (f ∷ pool) p = IsRightPick (namer_of season episode) episode (f ∷ pool) p

pick_with-IsRightPick :
    (namer : EpisodeNamer) (episode : ℕ) (pool : List TorrentFile)
    → pool ≢ []
    → IsRightPick namer episode pool (pick_with namer pool episode)
unfolding pick_with
pick_with-IsRightPick namer episode pool some_file =
    pick_from-IsRightPick namer episode pool _ _ some_file refl refl

namer-namer_of :
    (season episode : ℕ) (cache : PatternCache)
    → IsSound cache
    → (new_episode_namer season episode cache).1 ≡ namer_of season episode
unfolding new_episode_namer
namer-namer_of season episode cache v =
    ap (λ p. record { season = season; episode = episode; patterns = p })
      (cached_episode_patterns-IsSound season episode cache v).0

by_pool :
    (files pool : List TorrentFile) (season episode : ℕ) (cache : PatternCache)
    → IsSound cache
    → episode_file_pool files ≡ pool
    → IsRightOf season episode pool (pick_episode_file files season episode cache).1
unfolding pick_episode_file
by_pool files [] season episode cache v e = rw (e, pick_episode_file) refl
by_pool files (f ∷ pool) season episode cache v e =
    rw (e, pick_episode_file, namer-namer_of season episode cache v)
      (pick_with-IsRightPick (namer_of season episode) episode (f ∷ pool) (λ h. ground (arith, h)))

-- A file is picked for an episode only with a reason: it is the largest of the pool that names the episode,
-- or none names it and this one alone bears its number without any label, or it is the only file. The
-- torrent is refused exactly where no file is picked and more than one file, and more than half, are
-- labelled. Otherwise there is no opinion. The pool is the videos, or all files where there are none.
pub pick_episode_file-IsRightOf :
    (files : List TorrentFile) (season episode : ℕ) (cache : PatternCache)
    → IsSound cache
    → IsRightOf season episode
        (episode_file_pool files)
        (pick_episode_file files season episode cache).1
pick_episode_file-IsRightOf files season episode cache v =
    by_pool files _ season episode cache v refl
