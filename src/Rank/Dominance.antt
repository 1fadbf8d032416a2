-- ===== src/Rank/Dominance.antt =====
-- What the weights of the score guarantee.
use den_scout.Prelude.{ℕ, ◌+◌, ◌≤◌, ◌≡◌, false, Option, none, some, arith, ap}
use den_scout.Prelude.Int.{pos, negsuc, sub_ℕ_parts, ◌≤ℤ◌}
use den_scout.Pattern.{Text}
use den_scout.Release.{RawStream}
use den_scout.Rank.Score.{
  resolution_base, source_bonus, source_penalty, hdr_bonus, audio_bonus, size_bonus, av1_penalty,
  other_penalty, gains, losses, cached_bonus, quality_score_lower,
}

resolution_base_bounds :
    (t : Text) (n : Option ℕ) → (100 ≤ resolution_base t n) × (resolution_base t n ≤ 4000)
unfolding resolution_base
resolution_base_bounds t n = ground arith

source_bonus_bound : (t : Text) → source_bonus t ≤ 230
unfolding source_bonus
source_bonus_bound t = ground arith

audio_bonus_bound : (t : Text) → audio_bonus t ≤ 30
unfolding audio_bonus
audio_bonus_bound t = ground arith

hdr_bonus_bound : (t : Text) → hdr_bonus t ≤ 30
unfolding hdr_bonus
hdr_bonus_bound t = ground arith

size_bonus_bound : (n : Option ℕ) → size_bonus n ≤ 600
unfolding size_bonus
size_bonus_bound none = omega arith
size_bonus_bound (some n) = omega arith

pub source_penalty_bound : (t : Text) → source_penalty t ≤ 650
unfolding source_penalty
source_penalty_bound t = ground arith

pub gains_bounds : (t : Text) (s : RawStream) → (100 ≤ gains t s) × (gains t s ≤ 4890)
unfolding gains
gains_bounds t s = omega (
  arith,
  resolution_base_bounds t s.size_bytes,
  source_bonus_bound t,
  hdr_bonus_bound t,
  audio_bonus_bound t,
  size_bonus_bound s.size_bytes,
)

pub losses_bound : (t : Text) → losses t ≤ 4350
unfolding losses av1_penalty other_penalty
losses_bound t = ground (arith, source_penalty_bound t)

-- Quality alone, without the cache bonus and junk, is between -4250 and 4890.
pub quality_range :
    (t : Text) (s : RawStream)
    → s.cached ≡ false
    → (negsuc 4249 ≤ℤ quality_score_lower t s none) × (quality_score_lower t s none ≤ℤ pos 4890)
unfolding quality_score_lower
quality_range t s h =
    let balance = sub_ℕ_parts (cached_bonus s.cached + gains t s) (0 + losses t) in
    (
      omega (arith, balance, ap cached_bonus h, gains_bounds t s, losses_bound t),
      omega (arith, balance, ap cached_bonus h, gains_bounds t s, losses_bound t),
    )
