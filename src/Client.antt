-- ===== src/Client.antt =====
-- internal/scout/client.go: what a release costs in rank for the browser that reported what it plays.
pub mod Cost
pub mod Monotone
mod Tests
use den_scout.Prelude.{
  ℕ, ◌+◌, ◌*◌, Bool, true, false, not, ◌&&◌, ◌||◌, String, Option, none, some, List, [], ◌∷◌,
  str_eq, ◌==◌, ltb, leb, if◌then◌else◌,
}
use den_scout.Prelude.Int.{ℤ, pos, negsuc, ltb_ℤ}
use den_scout.Pattern.{Text, codes}
use den_scout.Release.{RawStream, to_lower, ends_with}
use den_scout.Attributes.Probed.{StreamAttributes, deref, container_of}

-- Levels are the JSON's integers, of either sign. `dolby_vision_p5` and `dolby_vision_p8` are the two
-- fields of its `dolbyVision`.
pub record ClientPlayable : Type 0 where
  pub h264 : ℤ
  pub h264_high10 : ℤ
  pub hevc_main : ℤ
  pub hevc_main10 : ℤ
  pub hevc_high_tier : ℤ
  pub hdr : Bool
  pub eac3 : Bool
  pub aac_multichannel : Bool
  pub dolby_vision_p5 : Bool
  pub dolby_vision_p8 : Bool
  pub av1 : ℤ
  pub av1_main10 : ℤ
  pub av1_hdr : Bool
  pub flac : Bool
  pub aac71 : Bool
  pub vp9 : Bool
  pub vp9_profile2 : Bool

abbrev pub audio_converted_cost : ℕ
audio_converted_cost = 300

abbrev pub video_unnamed_cost : ℕ
video_unnamed_cost = 300

abbrev pub video_converted_cost : ℕ
video_converted_cost = 6000

abbrev pub never_plays_cost : ℕ
never_plays_cost = 60_000

abbrev pub remux_refused_ext : List Text
remux_refused_ext =
    codes ".avi"
    ∷ codes ".ts"
    ∷ codes ".m2ts"
    ∷ codes ".iso"
    ∷ codes ".wmv"
    ∷ codes ".mpg"
    ∷ codes ".mpeg"
    ∷ codes ".vob"
    ∷ codes ".webm"
    ∷ []

unfoldable pub has_suffix_of : List Text → Text → Bool
has_suffix_of [] name = false
has_suffix_of (ext ∷ exts) name = ends_with name ext || has_suffix_of exts name

unfoldable pub remux_opens : RawStream → Bool
unfolding has_suffix_of
remux_opens s =
    if str_eq (container_of s) "avi" || str_eq (container_of s) "webm"
    then false
    else not (has_suffix_of remux_refused_ext (to_lower s.title))

abbrev pub max_ℤ : ℤ → ℤ → ℤ
max_ℤ a b = if ltb_ℤ a b then b else a

abbrev pub is_zero : ℤ → Bool
is_zero (pos n) = n == 0
is_zero (negsuc n) = false

-- The closure `beyond` of `cost`.
unfoldable pub beyond : StreamAttributes → ℤ → ℕ → Bool
beyond a most uhd_level =
    if ltb 0 a.video_level
    then ltb_ℤ most (pos a.video_level)
    else str_eq (deref a.resolution) "2160p" && ltb_ℤ most (pos uhd_level)

abbrev pub ten_bit : StreamAttributes → Bool
ten_bit a = leb 10 a.bit_depth

-- The highest level that is taken, by codec.
unfoldable pub most_h264 : ClientPlayable → StreamAttributes → ℤ
most_h264 p a = if ten_bit a && (a.probed || not a.hdr) then p.h264_high10 else p.h264

unfoldable pub most_hevc : ClientPlayable → StreamAttributes → ℤ
most_hevc p a =
    if a.high_tier
    then p.hevc_high_tier
    else if ten_bit a
    then p.hevc_main10
    else max_ℤ p.hevc_main10 p.hevc_main

unfoldable pub most_av1 : ClientPlayable → StreamAttributes → ℤ
most_av1 p a = if ten_bit a then p.av1_main10 else max_ℤ p.av1_main10 p.av1

-- Each codec's case: what the video adds, or that it never plays.
unfoldable pub h264_cost : ClientPlayable → StreamAttributes → Option ℕ
unfolding most_h264
h264_cost p a = if is_zero (most_h264 p a) || beyond a (most_h264 p a) 51 then none else some 0

unfoldable pub hevc_cost : ClientPlayable → StreamAttributes → ℕ
unfolding most_hevc
hevc_cost p a =
    if is_zero (most_hevc p a) || beyond a (most_hevc p a) 150 || a.hdr && not p.hdr
    then video_converted_cost
    else 0

unfoldable pub av1_cost : ClientPlayable → StreamAttributes → Option ℕ
unfolding most_av1
av1_cost p a =
    if is_zero (most_av1 p a) || a.high_tier || beyond a (most_av1 p a) 12 || a.hdr && not p.av1_hdr
    then none
    else some 0

unfoldable pub vp9_cost : ClientPlayable → StreamAttributes → Option ℕ
vp9_cost p a = if if ten_bit a then p.vp9_profile2 else p.vp9 then some 0 else none

unfoldable pub video_cost : ClientPlayable → StreamAttributes → Option ℕ
unfolding h264_cost hevc_cost av1_cost vp9_cost
video_cost p a =
    let codec = deref a.codec in
    if str_eq codec "h264"
    then h264_cost p a
    else if str_eq codec "hevc"
    then some (hevc_cost p a)
    else if str_eq codec "av1"
    then av1_cost p a
    else if str_eq codec "vp9"
    then vp9_cost p a
    else if str_eq codec ""
    then some video_unnamed_cost
    else none

unfoldable pub audio_cost : ClientPlayable → StreamAttributes → ℕ
audio_cost p a =
    let codec = deref a.audio_codec in
    if str_eq codec "aac"
    then 0
    else if str_eq codec "eac3" || str_eq codec "ac3"
    then if p.eac3 then 0 else audio_converted_cost
    else if str_eq codec "flac"
    then if p.flac then 0 else audio_converted_cost
    else audio_converted_cost

unfoldable pub dolby_vision_cost : ClientPlayable → StreamAttributes → ℕ
dolby_vision_cost p a =
    (if a.dv_profile == 5 && not p.dolby_vision_p5 then video_converted_cost * 2 else 0)
    + (if a.dv_profile == 0 && a.dv_profile_guess == 5 && not p.dolby_vision_p5
        then video_converted_cost
        else 0)

unfoldable pub cost : ClientPlayable → RawStream → StreamAttributes → ℕ
cost p s a = if a.three_d || not (remux_opens s) then never_plays_cost else elim (video_cost p a) [
  | none ↦ never_plays_cost
  | some video ↦ dolby_vision_cost p a + video + audio_cost p a
]
