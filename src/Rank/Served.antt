-- ===== src/Rank/Served.antt =====
-- What rankStreams serves.
use den_scout.Prelude.{
  ℕ, zero, suc, ◌≤◌, ◌<◌, ◌≡◌, refl, Option, none, some, List, [], ◌∷◌, arith, length, take, map,
  get_elem?, Bool-cases, Option-cases, inl, inr, ltb, sym, subst, ap, ◌∙◌,
}
use mathlib.Core.List.{Perm}
use den_scout.Prelude.Sorting.{AreAll, sort_by-AreAll}
use den_scout.Prelude.Int.{ℤ, ◌≤ℤ◌}
use den_scout.Release.{RawStream}
use den_scout.Rank.Filters.{Judges, RankFilters, drop_reason, score}
use den_scout.Rank.Listing.{
  Scored, RankDebug, before, sort_scored, scored, judge_from, cap_list, rank_streams, drop_n,
}
use den_scout.Rank.Order.{
  IsOrdered, IsSorted-IsOrdered, IsSorted-score, sort_scored-IsSorted, sort_scored-Perm,
}

take_all : (n : ℕ) (l : List Scored) → length l ≤ n → take n l ≡ l
take_all zero [] h = refl
take_all zero (a ∷ l) h = elim h [ ]
take_all (suc n) [] h = refl
take_all (suc n) (a ∷ l) h = ap (λ r. a ∷ r) (take_all n l (omega arith))

module _ (judges : Judges) (f : RankFilters) where
  -- The releases that no filter drops, each with its place and its score.
  unfoldable pub survivors : ℕ → List RawStream → List Scored
  survivors i [] = []
  survivors i (s ∷ streams) = elim (drop_reason judges f s) [
    | some reason ↦ survivors (suc i) streams
    | none ↦ scored judges f s i ∷ survivors (suc i) streams
  ]

  pub judge_from-survivors :
      (i : ℕ) (streams : List RawStream) (debug : Option RankDebug)
      → (judge_from judges f i streams debug).0 ≡ survivors i streams
  unfolding judge_from survivors
  judge_from-survivors i [] debug = refl
  judge_from-survivors i (s ∷ streams) debug = elim (Option-cases (drop_reason judges f s)) [
    | inl e ↦ rw (e, judge_from, survivors, judge_from-survivors (suc i) streams debug) refl
    | inr (reason, e) ↦
        rw (e, judge_from, survivors, judge_from-survivors (suc i) streams (drop_n debug reason 1))
          refl
  ]

  pub cap_list-take :
      (out : List Scored) (debug : Option RankDebug)
      → (cap_list judges f out debug).0 ≡ take f.result_cap out
  unfolding cap_list
  cap_list-take out debug = elim (Bool-cases (ltb f.result_cap (length out))) [
    | inl e ↦ rw (e) refl
    | inr e ↦ rw (e) (sym (take_all f.result_cap out (ground (arith, e))))
  ]

  pub rank_streams-take :
      (streams : List RawStream) (debug : Option RankDebug)
      → (rank_streams judges f streams debug).0
        ≡ map (λ a. a.s) (take f.result_cap (sort_scored (survivors 0 streams)))
  unfolding rank_streams
  rank_streams-take streams debug =
      let (judged, d) = judge_from judges f 0 streams debug in
      ap (map (λ a. a.s)) (
        cap_list-take (sort_scored judged) d
        ∙ ap (λ l. take f.result_cap (sort_scored l)) (judge_from-survivors 0 streams debug))

  -- A served list and the whole ranking that it begins.
  pub record IsRankingOf (streams served : List RawStream) : Type 0 where
    pub ranked : List Scored
    pub sorted : IsOrdered ranked
    pub complete : Perm ranked (survivors 0 streams)
    pub capped : served ≡ map (λ a. a.s) (take f.result_cap ranked)

  -- The list served is the first `resultCap` of the releases that no filter drops, in order of falling
  -- score, then of falling seeders, then of the place that they were scraped at.
  pub rank_streams-IsRankingOf :
      (streams : List RawStream) (debug : Option RankDebug)
      → IsRankingOf streams (rank_streams judges f streams debug).0
  rank_streams-IsRankingOf streams debug = record {
    ranked = sort_scored (survivors 0 streams);
    sorted =
        IsSorted-IsOrdered (sort_scored (survivors 0 streams))
          (sort_scored-IsSorted (survivors 0 streams));
    complete = sort_scored-Perm (survivors 0 streams);
    capped = rank_streams-take streams debug;
  }

  -- A survivor, with the score of its release.
  abbrev IsJudged : Scored → Type 0
  IsJudged a = (a.score ≡ score judges f a.s) × (drop_reason judges f a.s ≡ none)

  abbrev AreJudged : List Scored → Type 0
  AreJudged l = AreAll before IsJudged l

  survivors-AreJudged : (i : ℕ) (streams : List RawStream) → AreJudged (survivors i streams)
  unfolding survivors
  survivors-AreJudged i [] = tt
  survivors-AreJudged i (s ∷ streams) = elim (Option-cases (drop_reason judges f s)) [
    | inl e ↦ rw (e, survivors) ((refl, e), survivors-AreJudged (suc i) streams)
    | inr (reason, e) ↦ rw (e, survivors) (survivors-AreJudged (suc i) streams)
  ]

  sort_scored-AreJudged : (l : List Scored) → AreJudged l → AreJudged (sort_scored l)
  unfolding sort_scored
  sort_scored-AreJudged l v = sort_by-AreAll before IsJudged l v

  AreJudged-at :
      (l : List Scored) (i : ℕ) (a : Scored) → AreJudged l → get_elem? l i ≡ some a → IsJudged a
  AreJudged-at [] i a v e = ground arith
  AreJudged-at (b ∷ l) zero a (v, w) e = subst IsJudged {x = b} {y = a} (cc) v
  AreJudged-at (b ∷ l) (suc i) a (v, w) e = AreJudged-at l i a w e

  -- An entry of the served list comes from one of the ranking.
  served-at :
      (n : ℕ) (l : List Scored) (i : ℕ) (s : RawStream)
      → get_elem? (map (λ a. a.s) (take n l)) i ≡ some s
      → (a : Scored) × (get_elem? l i ≡ some a) × (a.s ≡ s)
  served-at zero l i s e = ground arith
  served-at (suc n) [] i s e = ground arith
  served-at (suc n) (a ∷ l) zero s e = (a, refl, cc)
  served-at (suc n) (a ∷ l) (suc i) s e = served-at n l i s e

  -- Of two releases served, the one further down the list scores no higher than the other, and no filter
  -- drops either.
  pub rank_streams-score :
      (streams : List RawStream) (debug : Option RankDebug) (s t : RawStream) (i j : ℕ)
      → i < j
      → get_elem? (rank_streams judges f streams debug).0 i ≡ some s
      → get_elem? (rank_streams judges f streams debug).0 j ≡ some t
      → (score judges f t ≤ℤ score judges f s)
        × (drop_reason judges f s ≡ none)
        × (drop_reason judges f t ≡ none)
  rank_streams-score streams debug s t i j h d e =
      let capped = rank_streams-take streams debug in
      let ranked = sort_scored (survivors 0 streams) in
      let judged = sort_scored-AreJudged (survivors 0 streams) (survivors-AreJudged 0 streams) in
      let (a, at, p) =
        served-at f.result_cap ranked i s
          (subst (λ (l : List RawStream). get_elem? l i ≡ some s) capped d) in
      let (b, bt, q) =
        served-at f.result_cap ranked j t
          (subst (λ (l : List RawStream). get_elem? l j ≡ some t) capped e) in
      let (u, x) = AreJudged-at ranked i a judged at in
      let (v, y) = AreJudged-at ranked j b judged bt in
      let order =
        IsSorted-score ranked a b i j (sort_scored-IsSorted (survivors 0 streams)) h at bt in
      (
        subst (λ (z : ℤ). z ≤ℤ score judges f s) (v ∙ ap (score judges f) q)
            (subst (λ (z : ℤ). b.score ≤ℤ z) (u ∙ ap (score judges f) p) order),
        subst (λ (r : RawStream). drop_reason judges f r ≡ none) p x,
        subst (λ (r : RawStream). drop_reason judges f r ≡ none) q y,
      )
