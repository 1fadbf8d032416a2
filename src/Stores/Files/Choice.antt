-- ===== src/Stores/Files/Choice.antt =====
-- No store is asked for another episode's file.
use den_scout.Prelude.{
  ℕ, ◌≡◌, ◌≢◌, refl, sym, ap, subst, ◌∙◌, true, false, none, some, List, [], ◌∷◌, inl, inr, keep,
  keep-nil, Each, IsIn, IsIn-keep, arith, Bool-cases,
}
use den_scout.Season.Chosen.{
  largest-IsLargest, Reason, by_name, by_number, alone, IsRightPick, namer_of, IsRightOf,
}
use den_scout.Season.Pick.{
  TorrentFile, Pick, picked, no_opinion, not_in_torrent, episode_file_pool, largest, is_unlabelled,
  is_bare, is_named, unlabelled_candidates, ambiguous_episode_guess, largest_index,
  largest_playable, largest_episode_candidate,
}
use den_scout.Stores.Files.{guess, if_no_opinion, index_or_none}

module _ (season episode : ℕ) (files : List TorrentFile) where
  abbrev pool : List TorrentFile
  pool = episode_file_pool files

  -- A file that names the episode, or has no label, or is of a pool that is labelled throughout.
  pub data IsFit (f : TorrentFile) : Type 0 where
    named : is_named (namer_of season episode) f ≡ true → IsFit f
    free : is_unlabelled f ≡ true → IsFit f
    forced : Each (λ g. is_unlabelled g ≡ false) pool → IsFit f

  -- A choice that is made, if any, is a fit file of the pool.
  abbrev pub IsFitChoice : Pick → Type 0
  IsFitChoice (picked i) = (f : TorrentFile) × (f.index ≡ i) × IsIn f pool × IsFit f
  IsFitChoice no_opinion = Unit
  IsFitChoice not_in_torrent = Unit

  Reason-IsFit : (f : TorrentFile) → Reason (namer_of season episode) episode pool f → IsFit f
  Reason-IsFit f (by_name h most) = named h
  Reason-IsFit f (by_number none_named h by only) = free h
  Reason-IsFit f (alone none_named only) = elim (Bool-cases (is_unlabelled f)) [
    | inl e ↦ free e
    | inr e ↦ forced (subst (Each (λ g. is_unlabelled g ≡ false)) (sym only) (e, tt))
  ]

  right-IsFitChoice :
      (p : Pick) → IsRightPick (namer_of season episode) episode pool p → IsFitChoice p
  right-IsFitChoice (picked i) (f, same, found, why) = (f, same, found, Reason-IsFit f why)
  right-IsFitChoice no_opinion h = tt
  right-IsFitChoice not_in_torrent h = tt

  free_choice :
      (f : TorrentFile) → IsIn f (unlabelled_candidates files) → IsFitChoice (picked f.index)
  unfolding unlabelled_candidates
  free_choice f h =
      let (in_pool, no_label) = IsIn-keep is_unlabelled pool h in (f, refl, in_pool, free no_label)

  all_forced : unlabelled_candidates files ≡ [] → Each (λ g. is_unlabelled g ≡ false) pool
  unfolding unlabelled_candidates
  all_forced e = keep-nil is_unlabelled pool e

  no_number :
      keep (is_bare episode) (unlabelled_candidates files) ≡ []
      → guess files episode ≡ index_or_none (largest_episode_candidate files)
  unfolding guess ambiguous_episode_guess
  no_number e =
      let unsure : ambiguous_episode_guess files episode ≡ none = ap largest_index e in
      rw (unsure, guess) refl

  first_candidate :
      (c : TorrentFile) (cs : List TorrentFile)
      → unlabelled_candidates files ≡ c ∷ cs
      → largest_episode_candidate files ≡ some (largest c cs)
  unfolding largest_episode_candidate
  first_candidate c cs k = rw (k, largest_episode_candidate) refl

  no_candidate :
      unlabelled_candidates files ≡ [] → largest_episode_candidate files ≡ largest_playable files
  unfolding largest_episode_candidate
  no_candidate k = rw (k, largest_episode_candidate) refl

  largest_video :
      (p : TorrentFile) (ps : List TorrentFile)
      → pool ≡ p ∷ ps
      → largest_playable files ≡ some (largest p ps)
  unfolding largest_playable
  largest_video p ps h = rw h refl

  -- The guess, by the candidates and those of them that bear the number.
  guess_by :
      (bares candidates : List TorrentFile) (p : TorrentFile) (ps : List TorrentFile)
      → keep (is_bare episode) (unlabelled_candidates files) ≡ bares
      → unlabelled_candidates files ≡ candidates
      → pool ≡ p ∷ ps
      → IsFitChoice (guess files episode)
  unfolding guess ambiguous_episode_guess largest_episode_candidate
  guess_by (b ∷ bs) candidates p ps e k h =
      let f = largest b bs in
      let found = subst (IsIn f) (sym e) (largest-IsLargest b bs).0 in
      let sure : ambiguous_episode_guess files episode ≡ some f.index = ap largest_index e in
      let same : guess files episode ≡ picked f.index = rw (sure, guess) refl in
      subst IsFitChoice (sym same)
        (free_choice f (IsIn-keep (is_bare episode) (unlabelled_candidates files) found).0)
  guess_by [] (c ∷ cs) p ps e k h =
      let f = largest c cs in
      let same : guess files episode ≡ picked f.index =
        no_number e ∙ ap index_or_none (first_candidate c cs k) in
      subst IsFitChoice (sym same)
        (free_choice f (subst (IsIn f) (sym k) (largest-IsLargest c cs).0))
  guess_by [] [] p ps e k h =
      let f = largest p ps in
      let same : guess files episode ≡ picked f.index =
        no_number e ∙ ap index_or_none (no_candidate k ∙ largest_video p ps h) in
      subst IsFitChoice (sym same)
        (f, refl, subst (IsIn f) (sym h) (largest-IsLargest p ps).0, forced (all_forced k))

  pub pool-some : {f : TorrentFile} {fs : List TorrentFile} → files ≡ f ∷ fs → pool ≢ []
  unfolding episode_file_pool
  pool-some e h = ground (arith, e, h)

  pub guess-IsFitChoice :
      (p : List TorrentFile) → pool ≡ p → p ≢ [] → IsFitChoice (guess files episode)
  guess-IsFitChoice [] h some_file = absurd (some_file refl)
  guess-IsFitChoice (p ∷ ps) h some_file = guess_by _ _ p ps refl refl h

  pub pick-IsFitChoice :
      (p : List TorrentFile) (q : Pick) → pool ≡ p → IsRightOf season episode p q → IsFitChoice q
  pick-IsFitChoice [] q e h = subst IsFitChoice (sym h) tt
  pick-IsFitChoice (f ∷ p) q e h =
      right-IsFitChoice q (subst (λ l. IsRightPick (namer_of season episode) episode l q) (sym e) h)

  pub if_no_opinion-IsFitChoice :
      (p q : Pick) → IsFitChoice p → IsFitChoice q → IsFitChoice (if_no_opinion p q)
  if_no_opinion-IsFitChoice (picked i) q h k = h
  if_no_opinion-IsFitChoice no_opinion q h k = k
  if_no_opinion-IsFitChoice not_in_torrent q h k = tt
