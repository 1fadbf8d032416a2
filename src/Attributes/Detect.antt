-- ===== src/Attributes/Detect.antt =====
-- internal/scout/attributes.go, with detectResolutionLower of rank.go: what is read off a lowercased
-- title. The empty string is "not said", as in the source.
use den_scout.Prelude.{ℕ, Bool, ◌||◌, String, some, if◌then◌else◌}
use den_scout.Pattern.{Text}
use den_scout.Rank.Junk.{cam, telesync, screener, junk_class_of}
use den_scout.Rank.Patterns.{
  res2160, res1080, res720, res576, res540, res480, re_remux, re_bluray, re_br_rip, re_web_dl,
  re_web_rip, re_web, re_hdtv, re_dvd_rip, re_hdr10p, re_atmos, re_dtsx, re_true_hd, re_dts_hd_ma,
  re_eac3, re_dts, re_ac3, re_av1,
}
use den_scout.Attributes.Patterns.{
  re_hlg, re_hdr10any, re_hdr_plain, re_ch71, re_ch51, re_ch20, re_hevc, re_avc, re_dts_hda,
  re_flac, re_aac, re_opus, re_mp3, re_hi10, re_ten_bit, re_hybrid,
}

unfoldable pub detect_resolution_lower : Text → String
detect_resolution_lower t =
    if res2160 t
    then "2160p"
    else if res1080 t
    then "1080p"
    else if res720 t
    then "720p"
    else if res480 t || res576 t || res540 t
    then "480p"
    else ""

unfoldable pub source_of_name : Text → String
source_of_name t =
    if re_remux t
    then "remux"
    else if re_bluray t || re_br_rip t
    then "bluray"
    else if re_web_dl t
    then "webdl"
    else if re_web_rip t
    then "webrip"
    else if re_web t
    then "web"
    else if re_hdtv t
    then "hdtv"
    else if re_dvd_rip t
    then "dvdrip"
    else ""

-- `upscaled_match` is the third-party pattern of junkClassOf.
unfoldable pub detect_source_attr : (Text → Bool) → Text → String
unfolding source_of_name
detect_source_attr upscaled_match t = elim (junk_class_of upscaled_match t) [
  | some cam ↦ "cam"
  | some telesync ↦ "telesync"
  | some screener ↦ "screener"
  | _ ↦ source_of_name t
]

unfoldable pub detect_codec : Text → String
detect_codec t =
    if re_av1 t
    then "av1"
    else if re_hevc t
    then "hevc"
    else if re_avc t || re_hi10 t
    then "h264"
    else ""

unfoldable pub detect_bit_depth : Text → Bool → ℕ
detect_bit_depth t hdr = if hdr || re_ten_bit t then 10 else 0

unfoldable pub detect_hdr_format : Text → String
detect_hdr_format t =
    if re_hdr10p t
    then "HDR10+"
    else if re_hlg t
    then "HLG"
    else if re_hdr10any t
    then "HDR10"
    else if re_hdr_plain t
    then "HDR"
    else ""

unfoldable pub detect_audio_codec : Text → String
detect_audio_codec t =
    if re_dtsx t
    then "dtsx"
    else if re_true_hd t
    then "truehd"
    else if re_dts_hd_ma t
    then "dtshdma"
    else if re_dts_hda t
    then "dtshd"
    else if re_flac t
    then "flac"
    else if re_eac3 t
    then "eac3"
    else if re_dts t
    then "dts"
    else if re_ac3 t
    then "ac3"
    else if re_aac t
    then "aac"
    else if re_opus t
    then "opus"
    else if re_mp3 t
    then "mp3"
    else ""

unfoldable pub detect_channels : Text → String
detect_channels t =
    if re_ch71 t then "7.1" else if re_ch51 t then "5.1" else if re_ch20 t then "2.0" else ""

unfoldable pub detect_audio : Text → String
detect_audio t =
    if re_atmos t
    then "Atmos"
    else if re_dtsx t
    then "DTS:X"
    else if re_true_hd t
    then "TrueHD"
    else if re_dts_hda t
    then "DTS-HD"
    else if re_flac t
    then "FLAC"
    else if re_eac3 t
    then "EAC3"
    else if re_dts t
    then "DTS"
    else if re_ac3 t
    then "AC3"
    else ""

unfoldable pub guess_dv_profile : Text → Bool → ℕ
guess_dv_profile t names_hdr_base =
    if re_remux t
    then 7
    else if names_hdr_base || re_hybrid t || re_bluray t || re_br_rip t
    then 8
    else if re_web_dl t || re_web_rip t || re_web t
    then 5
    else 0
