-- ===== src/Rank/Score.antt =====
-- internal/scout/rank.go: the quality score of a release, additive, higher wins.
use den_scout.Prelude.{
  ℕ, ◌+◌, ◌*◌, ◌/◌, Bool, true, false, ◌&&◌, ◌||◌, Option, none, some, ltb, min, if◌then◌else◌,
}
use den_scout.Prelude.Int.{ℤ, sub_ℕ}
use den_scout.Pattern.{Text}
use den_scout.Release.{RawStream, mib, gib, int_or, to_lower}
use den_scout.Rank.Junk.{Junk, junk_class_of}
use den_scout.Rank.Patterns.{
  res2160, res1440, res1080, res720, res576, res540, res480, res4k_uhd, re_remux, re_bluray,
  re_br_rip, re_web_dl, re_web_rip, re_web, re_hdtv, re_dvd_rip, re_low_src, re_do_vi, re_hdr10p,
  re_hdr, re_atmos, re_dtsx, re_true_hd, re_dts_hd_ma, re_dts_hd, re_eac3, re_dts, re_ac3, re_is4k,
  re_av1, re3d, re_korsub_hc,
}

abbrev pub fake4k_floor : ℕ
fake4k_floor = 700 * mib

-- `sizeBytes != nil && *sizeBytes < fake4KFloor`.
abbrev pub is_small : Option ℕ → Bool
is_small none = false
is_small (some n) = ltb n fake4k_floor

unfoldable pub resolution_base : Text → Option ℕ → ℕ
resolution_base t size =
    if res2160 t
    then if is_small size then 1080 else 4000
    else if res1440 t
    then 1440
    else if res1080 t
    then 1080
    else if res720 t
    then 720
    else if res576 t
    then 576
    else if res540 t
    then 540
    else if res480 t
    then 480
    else if res4k_uhd t && ltb (3 * gib) (int_or size 0)
    then 4000
    else 100

unfoldable pub source_bonus : Text → ℕ
source_bonus t =
    if re_remux t
    then 230
    else if re_bluray t || re_br_rip t
    then 150
    else if re_web_dl t
    then 75
    else if re_web_rip t
    then 50
    else if re_web t
    then 75
    else 0

unfoldable pub source_penalty : Text → ℕ
source_penalty t =
    (if re_hdtv t then 150 else 0)
    + (if re_dvd_rip t then 200 else 0)
    + (if re_low_src t then 300 else 0)

unfoldable pub hdr_bonus : Text → ℕ
hdr_bonus t = if re_do_vi t then 30 else if re_hdr10p t then 24 else if re_hdr t then 18 else 0

unfoldable pub audio_bonus : Text → ℕ
audio_bonus t =
    if re_eac3 t && re_atmos t
    then 30
    else if re_eac3 t
    then 20
    else if re_ac3 t
    then 14
    else if re_dtsx t || re_true_hd t || re_dts_hd_ma t || re_dts_hd t
    then 12
    else if re_dts t
    then 8
    else if re_atmos t
    then 20
    else 0

-- `math.Round(float64(size) / gib * 6)`, at most 600. The division by 2^30 is exact, and so is the product
-- below 2^50 bytes: half a unit is added, and the quotient taken.
unfoldable pub size_bonus : Option ℕ → ℕ
size_bonus none = 0
size_bonus (some n) = min ((n * 6 + gib / 2) / gib) 600

unfoldable pub av1_penalty : Text → ℕ
av1_penalty t = if re_av1 t then if re_is4k t then 1500 else 150 else 0

unfoldable pub other_penalty : Text → ℕ
other_penalty t = (if re3d t then 2000 else 0) + (if re_korsub_hc t then 200 else 0)

abbrev pub junk_penalty : Option Junk → ℕ
junk_penalty none = 0
junk_penalty (some j) = 100_000

abbrev pub cached_bonus : Bool → ℕ
cached_bonus true = 8000
cached_bonus false = 0

-- What quality alone adds and takes away.
unfoldable pub gains : Text → RawStream → ℕ
gains t s =
    resolution_base t s.size_bytes
    + source_bonus t
    + hdr_bonus t
    + audio_bonus t
    + size_bonus s.size_bytes

unfoldable pub losses : Text → ℕ
losses t = source_penalty t + av1_penalty t + other_penalty t

-- The source adds and subtracts in its own order; the sum is the same.
unfoldable pub quality_score_lower : Text → RawStream → Option Junk → ℤ
quality_score_lower t s junk =
    sub_ℕ (cached_bonus s.cached + gains t s) (junk_penalty junk + losses t)

unfoldable pub quality_score : (Text → Bool) → RawStream → ℤ
quality_score upscaled_match s =
    let t = to_lower s.title in quality_score_lower t s (junk_class_of upscaled_match t)
