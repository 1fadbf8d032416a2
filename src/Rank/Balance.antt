-- ===== src/Rank/Balance.antt =====
-- The score of a release as a balance, and what a higher one means for its place.
use den_scout.Prelude.{
  ℕ, ◌+◌, ◌≤◌, ◌<◌, ◌≡◌, Bool, true, false, Option, some, List, arith, get_elem?, inl, inr, ◌⊎◌,
  sym, subst, ◌∙◌,
}
use mathlib.Core.Option.{some-injective}
use den_scout.Prelude.Int.{pos, pos_part, neg_part, sub_ℕ, sub_ℕ_parts, ◌-ℤ◌, ◌<ℤ◌, int_laws}
use den_scout.Release.{RawStream, to_lower}
use den_scout.Rank.Junk.{Junk, junk_class}
use den_scout.Rank.Score.{gains, losses, quality_score_lower, junk_penalty, cached_bonus}
use den_scout.Rank.Filters.{Judges, RankFilters, client_cost, preference_cost, show_cost, score}
use den_scout.Rank.Listing.{RankDebug, rank_streams}
use den_scout.Rank.Served.{rank_streams-score}

order_cases : (i j : ℕ) → (i < j) ⊎ ((j < i) ⊎ (i ≡ j))
order_cases i j = omega arith

minus_three :
    (a b x y z : ℕ)
    → pos_part (sub_ℕ a b -ℤ pos x -ℤ pos y -ℤ pos z) + b + x + y + z
      ≡ neg_part (sub_ℕ a b -ℤ pos x -ℤ pos y -ℤ pos z) + a
minus_three a b x y z = omega (int_laws, sub_ℕ_parts a b)

module _ (judges : Judges) (f : RankFilters) where
  unfoldable pub junk_of : RawStream → Option Junk
  unfolding junk_class
  junk_of s = junk_class judges.upscaled_match s.title

  -- The score, as what is added and what is taken away.
  pub score_balance :
      (s : RawStream)
      → pos_part (score judges f s)
          + (junk_penalty (junk_of s) + losses (to_lower s.title))
          + client_cost judges f s
          + preference_cost judges f s
          + show_cost judges f s
        ≡ neg_part (score judges f s) + (cached_bonus s.cached + gains (to_lower s.title) s)
  unfolding score quality_score_lower junk_of
  score_balance s =
      minus_three (cached_bonus s.cached + gains (to_lower s.title) s)
        (junk_penalty (junk_of s) + losses (to_lower s.title)) (client_cost judges f s)
        (preference_cost judges f s) (show_cost judges f s)

  pub preference_cost_bound : (s : RawStream) → preference_cost judges f s ≤ 5000
  unfolding preference_cost
  preference_cost_bound s = ground arith

  pub cached_bonus_bound : (b : Bool) → cached_bonus b ≤ 8000
  cached_bonus_bound true = omega arith
  cached_bonus_bound false = omega arith

  pub cached_bonus_le : (b c : Bool) → (b ≡ true → c ≡ true) → cached_bonus b ≤ cached_bonus c
  cached_bonus_le b c h = ground (arith, h)

  -- A release with the higher score stands first, wherever both are served.
  pub higher_first :
      (streams : List RawStream) (debug : Option RankDebug) (s t : RawStream) (i j : ℕ)
      → score judges f t <ℤ score judges f s
      → get_elem? (rank_streams judges f streams debug).0 i ≡ some s
      → get_elem? (rank_streams judges f streams debug).0 j ≡ some t
      → i < j
  higher_first streams debug s t i j h d e =
      let served = (rank_streams judges f streams debug).0 in
      elim (order_cases i j) [
        | inl q ↦ q
        | inr (inl q) ↦
            omega (arith, h, (rank_streams-score judges f streams debug t s j i q e d).0)
        | inr (inr q) ↦
            let at : get_elem? served j ≡ some s =
              subst (λ (n : ℕ). get_elem? served n ≡ some s) q d in
            let same : s ≡ t = some-injective s t (sym at ∙ e) in
            omega
              (arith, subst (λ (r : RawStream). score judges f r <ℤ score judges f s) (sym same) h)
      ]
