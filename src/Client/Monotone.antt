-- ===== src/Client/Monotone.antt =====
-- A browser that plays more pays no more.
use den_scout.Prelude.{ℕ, ◌≤◌, ◌≡◌, inl, inr, true, ◌||◌, Option, none, some, arith, Option-cases}
use den_scout.Prelude.Int.{ℤ, pos, ◌≤ℤ◌}
use den_scout.Release.{RawStream}
use den_scout.Attributes.Probed.{StreamAttributes}
use den_scout.Client.{
  ClientPlayable, cost, video_cost, audio_cost, dolby_vision_cost, h264_cost, hevc_cost, av1_cost,
  vp9_cost, never_plays_cost, most_h264, most_hevc, most_av1, beyond, is_zero,
}
use den_scout.Client.Cost.{video_cost_bound, audio_cost_bound, dolby_vision_cost_bound}

-- Both levels are real ones, and the second takes what the first does.
pub record IsLevelUpTo (l m : ℤ) : Type 0 where
  pub real : pos 0 ≤ℤ l
  pub up_to : l ≤ℤ m

-- The second browser plays all that the first one does.
pub record PlaysAllOf (p q : ClientPlayable) : Type 0 where
  pub h264 : IsLevelUpTo p.h264 q.h264
  pub h264_high10 : IsLevelUpTo p.h264_high10 q.h264_high10
  pub hevc_main : IsLevelUpTo p.hevc_main q.hevc_main
  pub hevc_main10 : IsLevelUpTo p.hevc_main10 q.hevc_main10
  pub hevc_high_tier : IsLevelUpTo p.hevc_high_tier q.hevc_high_tier
  pub av1 : IsLevelUpTo p.av1 q.av1
  pub av1_main10 : IsLevelUpTo p.av1_main10 q.av1_main10
  pub hdr : p.hdr ≡ true → q.hdr ≡ true
  pub av1_hdr : p.av1_hdr ≡ true → q.av1_hdr ≡ true
  pub eac3 : p.eac3 ≡ true → q.eac3 ≡ true
  pub flac : p.flac ≡ true → q.flac ≡ true
  pub dolby_vision_p5 : p.dolby_vision_p5 ≡ true → q.dolby_vision_p5 ≡ true
  pub vp9 : p.vp9 ≡ true → q.vp9 ≡ true
  pub vp9_profile2 : p.vp9_profile2 ≡ true → q.vp9_profile2 ≡ true

refused_level :
    (a : StreamAttributes) (l m : ℤ) (n : ℕ)
    → IsLevelUpTo l m
    → (is_zero m || beyond a m n) ≡ true
    → (is_zero l || beyond a l n) ≡ true
unfolding beyond
refused_level a l m n v h = ground (arith, v.real, v.up_to)

most_h264_up :
    (p q : ClientPlayable) (a : StreamAttributes)
    → PlaysAllOf p q
    → IsLevelUpTo (most_h264 p a) (most_h264 q a)
unfolding most_h264
most_h264_up p q a v = record {
  real = ground (arith, v.h264.real, v.h264_high10.real);
  up_to = ground (arith, v.h264.up_to, v.h264_high10.up_to);
}

most_hevc_up :
    (p q : ClientPlayable) (a : StreamAttributes)
    → PlaysAllOf p q
    → IsLevelUpTo (most_hevc p a) (most_hevc q a)
unfolding most_hevc
most_hevc_up p q a v = record {
  real = ground (arith, v.hevc_main.real, v.hevc_main10.real, v.hevc_high_tier.real);
  up_to = ground (arith, v.hevc_main.up_to, v.hevc_main10.up_to, v.hevc_high_tier.up_to);
}

most_av1_up :
    (p q : ClientPlayable) (a : StreamAttributes)
    → PlaysAllOf p q
    → IsLevelUpTo (most_av1 p a) (most_av1 q a)
unfolding most_av1
most_av1_up p q a v = record {
  real = ground (arith, v.av1.real, v.av1_main10.real);
  up_to = ground (arith, v.av1.up_to, v.av1_main10.up_to);
}

abbrev or_never : Option ℕ → ℕ
or_never none = never_plays_cost
or_never (some n) = n

h264_le :
    (p q : ClientPlayable) (a : StreamAttributes)
    → PlaysAllOf p q
    → or_never (h264_cost q a) ≤ or_never (h264_cost p a)
unfolding h264_cost
h264_le p q a v =
    ground (arith, refused_level a (most_h264 p a) (most_h264 q a) 51 (most_h264_up p q a v))

hevc_le :
    (p q : ClientPlayable) (a : StreamAttributes) → PlaysAllOf p q → hevc_cost q a ≤ hevc_cost p a
unfolding hevc_cost
hevc_le p q a v =
    ground
      (arith, v.hdr, refused_level a (most_hevc p a) (most_hevc q a) 150 (most_hevc_up p q a v))

av1_le :
    (p q : ClientPlayable) (a : StreamAttributes)
    → PlaysAllOf p q
    → or_never (av1_cost q a) ≤ or_never (av1_cost p a)
unfolding av1_cost
av1_le p q a v =
    ground
      (arith, v.av1_hdr, refused_level a (most_av1 p a) (most_av1 q a) 12 (most_av1_up p q a v))

vp9_le :
    (p q : ClientPlayable) (a : StreamAttributes)
    → PlaysAllOf p q
    → or_never (vp9_cost q a) ≤ or_never (vp9_cost p a)
unfolding vp9_cost
vp9_le p q a v = ground (arith, v.vp9, v.vp9_profile2)

video_le :
    (p q : ClientPlayable) (a : StreamAttributes)
    → PlaysAllOf p q
    → or_never (video_cost q a) ≤ or_never (video_cost p a)
unfolding video_cost
video_le p q a v = ground (arith, h264_le p q a v, hevc_le p q a v, av1_le p q a v, vp9_le p q a v)

audio_le :
    (p q : ClientPlayable) (a : StreamAttributes) → PlaysAllOf p q → audio_cost q a ≤ audio_cost p a
unfolding audio_cost
audio_le p q a v = ground (arith, v.eac3, v.flac)

dolby_vision_le :
    (p q : ClientPlayable) (a : StreamAttributes)
    → PlaysAllOf p q
    → dolby_vision_cost q a ≤ dolby_vision_cost p a
unfolding dolby_vision_cost
dolby_vision_le p q a v = ground (arith, v.dolby_vision_p5)

-- For a browser that plays all that another one does, no release costs more than for the other, where the
-- levels reported are not negative.
pub cost-PlaysAllOf :
    (p q : ClientPlayable) (s : RawStream) (a : StreamAttributes)
    → PlaysAllOf p q
    → cost q s a ≤ cost p s a
unfolding cost
cost-PlaysAllOf p q s a v = elim (Option-cases (video_cost q a)) [
  | inl d ↦ elim (Option-cases (video_cost p a)) [
    | inl e ↦ ground (arith, d, e)
    | inr (m, e) ↦ ground (arith, d, e, video_le p q a v, video_cost_bound p a m e)
  ]
  | inr (n, d) ↦ elim (Option-cases (video_cost p a)) [
    | inl e ↦
        ground
          (arith, d, e, video_cost_bound q a n d, audio_cost_bound q a, dolby_vision_cost_bound q a)
    | inr (m, e) ↦ ground (arith, d, e, video_le p q a v, audio_le p q a v, dolby_vision_le p q a v)
  ]
]
