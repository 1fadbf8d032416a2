-- ===== src/Client/Cost.antt =====
-- The bounds of a release's cost, which the weights of the ranking are chosen around.
use den_scout.Prelude.{ℕ, ◌≤◌, ◌≡◌, ◌⊎◌, inl, inr, some, arith, Option-cases}
use den_scout.Release.{RawStream}
use den_scout.Attributes.Probed.{StreamAttributes}
use den_scout.Client.{
  ClientPlayable, cost, video_cost, audio_cost, dolby_vision_cost, h264_cost, hevc_cost, av1_cost,
  vp9_cost, never_plays_cost,
}

pub video_cost_bound :
    (p : ClientPlayable) (a : StreamAttributes) (v : ℕ) → video_cost p a ≡ some v → v ≤ 6000
unfolding video_cost h264_cost hevc_cost av1_cost vp9_cost
video_cost_bound p a v h = ground arith

pub audio_cost_bound : (p : ClientPlayable) (a : StreamAttributes) → audio_cost p a ≤ 300
unfolding audio_cost
audio_cost_bound p a = ground arith

pub dolby_vision_cost_bound :
    (p : ClientPlayable) (a : StreamAttributes) → dolby_vision_cost p a ≤ 12_000
unfolding dolby_vision_cost
dolby_vision_cost_bound p a = ground arith

-- A cost is that of a release that never plays, or at most that of a proven profile 5 whose video and
-- audio are both converted, 18 300.
pub cost_bounds :
    (p : ClientPlayable) (s : RawStream) (a : StreamAttributes)
    → (cost p s a ≡ never_plays_cost) ⊎ (cost p s a ≤ 18_300)
unfolding cost
cost_bounds p s a = elim (Option-cases (video_cost p a)) [
  | inl e ↦ ground (arith, e)
  | inr (v, e) ↦
      ground (arith, e, video_cost_bound p a v e, audio_cost_bound p a, dolby_vision_cost_bound p a)
]
