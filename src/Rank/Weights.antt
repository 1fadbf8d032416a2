-- ===== src/Rank/Weights.antt =====
-- What the weights guarantee of a served list.
use den_scout.Prelude.{
  ℕ, ◌+◌, ◌≤◌, ◌<◌, ◌≡◌, refl, Bool, true, false, ◌&&◌, Option, none, some, List, arith, get_elem?,
  ap, ◌==◌, if◌then◌else◌, ◌∙◌,
}
use den_scout.Release.{Probe, RawStream, to_lower}
use den_scout.Attributes.Probed.{StreamAttributes, is_some, stream_attributes, of_title, with_probe}
use den_scout.Attributes.Detect.{guess_dv_profile}
use den_scout.Client.{ClientPlayable, cost}
use den_scout.Rank.Junk.{Junk}
use den_scout.Rank.Patterns.{re_av1, re_is4k, re3d}
use den_scout.Rank.Score.{losses, junk_penalty, cached_bonus, av1_penalty, other_penalty}
use den_scout.Rank.Dominance.{gains_bounds, losses_bound, source_penalty_bound}
use den_scout.Rank.Filters.{Judges, RankFilters, client_cost, preference_cost, show_cost}
use den_scout.Rank.Listing.{RankDebug, rank_streams}
use den_scout.Rank.Balance.{
  junk_of, score_balance, preference_cost_bound, cached_bonus_bound, cached_bonus_le, higher_first,
}

three_d-with_probe :
    (a : StreamAttributes) (o : Option Probe) → (with_probe a o).three_d ≡ a.three_d
unfolding with_probe
three_d-with_probe a none = refl
three_d-with_probe a (some p) = refl

three_d-guess :
    (b : Bool) (a : StreamAttributes) (n : ℕ)
    → (if b then record a { dv_profile_guess = n } else a).three_d ≡ a.three_d
three_d-guess true a n = refl
three_d-guess false a n = refl

module _ (judges : Judges) (f : RankFilters) where
  -- A junk release stands behind every release that is not junk, both being served, unless that other one
  -- is both of another show and impossible to play: what it pays for these two is at most 60 000 otherwise.
  pub junk_last :
      (streams : List RawStream) (debug : Option RankDebug) (s t : RawStream) (i j : ℕ)
      (class : Junk)
      → junk_of judges f s ≡ none
      → junk_of judges f t ≡ some class
      → client_cost judges f s + show_cost judges f s ≤ 60_000
      → get_elem? (rank_streams judges f streams debug).0 i ≡ some s
      → get_elem? (rank_streams judges f streams debug).0 j ≡ some t
      → i < j
  junk_last streams debug s t i j class clean junk paid =
      higher_first judges f streams debug s t i j (
        omega (
          arith,
          score_balance judges f s,
          score_balance judges f t,
          ap junk_penalty clean,
          ap junk_penalty junk,
          preference_cost_bound judges f s,
          cached_bonus_bound judges f t.cached,
          gains_bounds (to_lower s.title) s,
          gains_bounds (to_lower t.title) t,
          losses_bound (to_lower s.title),
        ))

  -- 3D, and AV1 at 4K: the two large penalties.
  abbrev pub is_av1_4k : RawStream → Bool
  is_av1_4k s = re_av1 (to_lower s.title) && re_is4k (to_lower s.title)

  losses_one :
      (s : RawStream)
      → (re3d (to_lower s.title) && is_av1_4k s) ≡ false
      → losses (to_lower s.title) ≤ 3000
  unfolding losses av1_penalty other_penalty
  losses_one s h = ground (arith, source_penalty_bound (to_lower s.title))

  losses_plain :
      (s : RawStream)
      → re3d (to_lower s.title) ≡ false
      → is_av1_4k s ≡ false
      → losses (to_lower s.title) ≤ 1000
  unfolding losses av1_penalty other_penalty
  losses_plain s h k = ground (arith, source_penalty_bound (to_lower s.title))

  -- A cached release that is no junk stands before every release that is not cached and pays no less for
  -- the browser, the preferred resolution and the show, unless it is both 3D and AV1 at 4K.
  pub cached_first :
      (streams : List RawStream) (debug : Option RankDebug) (s t : RawStream) (i j : ℕ)
      → s.cached ≡ true
      → t.cached ≡ false
      → junk_of judges f s ≡ none
      → (re3d (to_lower s.title) && is_av1_4k s) ≡ false
      → client_cost judges f s + preference_cost judges f s + show_cost judges f s
        ≤ client_cost judges f t + preference_cost judges f t + show_cost judges f t
      → get_elem? (rank_streams judges f streams debug).0 i ≡ some s
      → get_elem? (rank_streams judges f streams debug).0 j ≡ some t
      → i < j
  cached_first streams debug s t i j held not_held clean h paid =
      higher_first judges f streams debug s t i j (
        omega (
          arith,
          score_balance judges f s,
          score_balance judges f t,
          ap junk_penalty clean,
          ap cached_bonus held,
          ap cached_bonus not_held,
          gains_bounds (to_lower s.title) s,
          gains_bounds (to_lower t.title) t,
          losses_one s h,
        ))

  three_d-stream_attributes :
      (s : RawStream)
      → (stream_attributes judges.upscaled_match s).three_d ≡ re3d (to_lower s.title)
  unfolding stream_attributes of_title
  three_d-stream_attributes s =
      let attrs = of_title judges.upscaled_match s in
      let probed = with_probe attrs s.probe in
      three_d-guess (probed.dolby_vision && probed.dv_profile == 0) probed
        (guess_dv_profile (to_lower s.title) (is_some probed.hdr_format))
      ∙ three_d-with_probe attrs s.probe

  -- A release that the browser plays as it is is not 3D.
  free-re3d :
      (s : RawStream) (p : ClientPlayable)
      → f.client ≡ some p
      → client_cost judges f s ≡ 0
      → re3d (to_lower s.title) ≡ false
  unfolding client_cost cost
  free-re3d s p c h = ground (arith, c, three_d-stream_attributes s)

  -- For a browser, a release that costs nothing (it plays as it is), that is no junk and is not AV1 at 4K,
  -- stands before every release that costs a video conversion or more, where it is cached if that one is
  -- and pays no more for the preferred resolution and the show.
  pub as_it_is_first :
      (streams : List RawStream) (debug : Option RankDebug) (s t : RawStream) (i j : ℕ)
      → (p : ClientPlayable) → f.client ≡ some p
      → client_cost judges f s ≡ 0
      → 6000 ≤ client_cost judges f t
      → (t.cached ≡ true → s.cached ≡ true)
      → junk_of judges f s ≡ none
      → is_av1_4k s ≡ false
      → preference_cost judges f s + show_cost judges f s
        ≤ preference_cost judges f t + show_cost judges f t
      → get_elem? (rank_streams judges f streams debug).0 i ≡ some s
      → get_elem? (rank_streams judges f streams debug).0 j ≡ some t
      → i < j
  as_it_is_first streams debug s t i j p c free costly held clean plain paid =
      higher_first judges f streams debug s t i j (
        omega (
          arith,
          free,
          costly,
          paid,
          score_balance judges f s,
          score_balance judges f t,
          ap junk_penalty clean,
          cached_bonus_le judges f t.cached s.cached held,
          gains_bounds (to_lower s.title) s,
          gains_bounds (to_lower t.title) t,
          losses_plain s (free-re3d s p c free) plain,
        ))

  -- A release of the show and episode asked for, that is no junk and costs the browser at most one video
  -- conversion, stands before every release of another show or episode.
  pub right_show_first :
      (streams : List RawStream) (debug : Option RankDebug) (s t : RawStream) (i j : ℕ)
      → show_cost judges f s ≡ 0
      → show_cost judges f t ≡ 30_000
      → client_cost judges f s ≤ 6300
      → junk_of judges f s ≡ none
      → get_elem? (rank_streams judges f streams debug).0 i ≡ some s
      → get_elem? (rank_streams judges f streams debug).0 j ≡ some t
      → i < j
  right_show_first streams debug s t i j right wrong cheap clean =
      higher_first judges f streams debug s t i j (
        omega (
          arith,
          right,
          wrong,
          cheap,
          score_balance judges f s,
          score_balance judges f t,
          ap junk_penalty clean,
          preference_cost_bound judges f s,
          cached_bonus_bound judges f t.cached,
          gains_bounds (to_lower s.title) s,
          gains_bounds (to_lower t.title) t,
          losses_bound (to_lower s.title),
        ))
