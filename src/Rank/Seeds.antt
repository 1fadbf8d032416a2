-- ===== src/Rank/Seeds.antt =====
-- internal/scout/rank.go: what is kept of a scrape before the cache is asked, and Real-Debrid's names.
use den_scout.Prelude.{
  ℕ, ◌≤◌, ◌<◌, ◌≡◌, refl, Bool, true, false, ◌||◌, List, [], ◌∷◌, ltb, leb, ◌==◌, length,
  length-map, length-take, take, map, arith, if◌then◌else◌,
}
use mathlib.Core.List.{Perm}
use den_scout.Prelude.Int.{ℤ, ltb_ℤ, ◌≤ℤ◌}
use den_scout.Prelude.Sorting.{
  length-sort_by, sort_by, sort_by-Perm, sort_by-IsSortedBy, IsSortedBy, IsLeast,
}
use den_scout.Pattern.{Text, codes}
use den_scout.Release.{RawStream, int_or, to_lower, contains}
use den_scout.Rank.Score.{quality_score}

abbrev pub rd_block_substrings : List Text
rd_block_substrings =
    codes "web-dl" ∷ codes "webrip" ∷ codes "bdrip" ∷ codes "hdrip" ∷ codes "dvdrip" ∷ []

abbrev pub rd_block_dot_adjacent : List Text
rd_block_dot_adjacent =
    codes "bluray.x264"
    ∷ codes "hdtv.x264"
    ∷ codes "hdtv.xvid"
    ∷ codes "web.x264"
    ∷ codes "web.h264"
    ∷ []

unfoldable pub contains_one : List Text → Text → Bool
contains_one [] t = false
contains_one (s ∷ ss) t = contains t s || contains_one ss t

unfoldable pub real_debrid_blocked : Text → Bool
unfolding contains_one
real_debrid_blocked title =
    let t = to_lower title in
    contains_one rd_block_substrings t || contains_one rd_block_dot_adjacent t

-- capSeeds' `ranked`.
pub record Seed : Type 0 where
  pub s : RawStream
  pub score : ℤ
  pub seeders : ℕ

unfoldable pub seed_before : Seed → Seed → Bool
seed_before a b =
    if ltb_ℤ b.score a.score || ltb_ℤ a.score b.score
    then ltb_ℤ b.score a.score
    else ltb b.seeders a.seeders

module _ (upscaled_match : Text → Bool) where
  unfoldable pub seed_of : RawStream → Seed
  seed_of s = record { s = s; score = quality_score upscaled_match s; seeders = int_or s.seeders 0 }

  unfoldable pub cap_seeds : List RawStream → ℕ → List RawStream
  unfolding seed_of
  cap_seeds streams limit =
      if limit == 0 || leb (length streams) limit
      then streams
      else map (λ a. a.s) (take limit (sort_by seed_before (map seed_of streams)))

  seed_before_asym : (a b : Seed) → seed_before b a ≡ true → seed_before a b ≡ false
  unfolding seed_before
  seed_before_asym a b h = ground arith

  seed_before_through :
      (a b c : Seed) → seed_before b a ≡ false → seed_before c b ≡ false → seed_before c a ≡ false
  unfolding seed_before
  seed_before_through a b c h k = ground arith

  -- No higher by score, nor by seeders where the scores are equal.
  pub record IsBelow (a b : Seed) : Type 0 where
    pub by_score : b.score ≤ℤ a.score
    pub by_seeders : a.score ≤ℤ b.score → b.seeders ≤ a.seeders

  abbrev AreBelow : Seed → List Seed → Type 0
  AreBelow a [] = Unit
  AreBelow a (b ∷ bs) = IsBelow a b × AreBelow a bs

  abbrev pub IsFalling : List Seed → Type 0
  IsFalling [] = Unit
  IsFalling (a ∷ rest) = AreBelow a rest × IsFalling rest

  seed_before-IsBelow : (a b : Seed) → seed_before b a ≡ false → IsBelow a b
  unfolding seed_before
  seed_before-IsBelow a b h = record {
    by_score = ground (arith, h);
    by_seeders = λ p. ground (arith, h, p);
  }

  IsLeast-AreBelow : (a : Seed) (bs : List Seed) → IsLeast seed_before a bs → AreBelow a bs
  IsLeast-AreBelow a [] v = tt
  IsLeast-AreBelow a (b ∷ bs) (h, v) = (seed_before-IsBelow a b h, IsLeast-AreBelow a bs v)

  IsSortedBy-IsFalling : (l : List Seed) → IsSortedBy seed_before l → IsFalling l
  IsSortedBy-IsFalling [] v = tt
  IsSortedBy-IsFalling (a ∷ rest) (first, v) =
      (IsLeast-AreBelow a rest first, IsSortedBy-IsFalling rest v)

  -- All streams in falling order, and the ones kept at its head.
  pub record IsSelection (streams kept : List RawStream) (limit : ℕ) : Type 0 where
    pub ranked : List Seed
    pub falling : IsFalling ranked
    pub complete : Perm ranked (map seed_of streams)
    pub best : kept ≡ map (λ a. a.s) (take limit ranked)

  -- Of more releases than a positive limit, exactly the limit is kept, and they are the best by quality
  -- and then by seeders: the head of all of them in falling order.
  pub cap_seeds-IsSelection :
      (streams : List RawStream) (limit : ℕ)
      → 0 < limit
      → limit < length streams
      → IsSelection streams (cap_seeds streams limit) limit
        × (length (cap_seeds streams limit) ≡ limit)
  unfolding cap_seeds
  cap_seeds-IsSelection streams limit h k =
      let ranked = sort_by seed_before (map seed_of streams) in
      let trimmed : (limit == 0 || leb (length streams) limit) ≡ false = ground (arith, h, k) in
      (
        record {
          ranked = ranked;
          falling = IsSortedBy-IsFalling ranked (
              sort_by-IsSortedBy seed_before seed_before_asym seed_before_through
                (map seed_of streams));
          complete = sort_by-Perm seed_before (map seed_of streams);
          best = rw (trimmed) refl;
        },
        rw (trimmed) (
            omega (
              arith,
              k,
              length-map (take limit ranked) (λ (a : Seed). a.s),
              length-take limit ranked,
              length-sort_by seed_before (map seed_of streams),
              length-map streams seed_of,
            )),
      )
