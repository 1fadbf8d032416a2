-- ===== src/Attributes/Probed.antt =====
-- internal/scout/attributes.go: the attributes of a stream, its probe's word over its title's.
--
-- The label of label.go is not a field here: nothing reads it again.
use den_scout.Prelude.{
  ℕ, Bool, true, false, not, ◌&&◌, ◌||◌, String, Option, none, some, List, [], str_eq, ◌==◌, leb,
  if◌then◌else◌,
}
use den_scout.Pattern.{Text, codes}
use den_scout.Release.{Probe, RawStream, to_lower, ends_with}
use den_scout.Rank.Patterns.{re_atmos, re_korsub_hc, re3d}
use den_scout.Attributes.Patterns.{re_do_vi_attr, re_hdr_extra}
use den_scout.Attributes.Detect.{
  detect_resolution_lower, detect_source_attr, detect_codec, detect_bit_depth, detect_hdr_format,
  detect_audio_codec, detect_channels, detect_audio, guess_dv_profile,
}

pub record StreamAttributes : Type 0 where
  pub resolution : Option String
  pub source : Option String
  pub codec : Option String
  pub hdr : Bool
  pub dolby_vision : Bool
  pub hdr_format : Option String
  pub audio : Option String
  pub audio_codec : Option String
  pub audio_channels : Option String
  pub atmos : Bool
  pub hardcoded_subs : Bool
  pub three_d : Bool
  pub size_bytes : Option ℕ
  pub pack_size_bytes : Option ℕ
  pub seeders : Option ℕ
  pub cached : Option Bool
  pub audio_languages : List String
  pub subtitle_languages : List String
  pub untagged_audio : ℕ
  pub probed : Bool
  pub bit_depth : ℕ
  pub dv_profile : ℕ
  pub dv_profile_guess : ℕ
  pub video_level : ℕ
  pub high_tier : Bool
  pub width : ℕ
  pub height : ℕ
  pub frame_rate : ℕ

-- strPtr: no pointer to the empty string.
abbrev pub str_ptr : String → Option String
str_ptr s = if str_eq s "" then none else some s

abbrev pub deref : Option String → String
deref none = ""
deref (some s) = s

abbrev pub is_some : Option String → Bool
is_some none = false
is_some (some s) = true

abbrev pub cached_claim : RawStream → Option Bool
cached_claim s = if s.cache_known then some s.cached else none

unfoldable pub resolution_of_width : ℕ → String
resolution_of_width w =
    if leb 3200 w
    then "2160p"
    else if leb 1700 w
    then "1080p"
    else if leb 1100 w
    then "720p"
    else "480p"

-- A non-empty value of the file, else the title's.
abbrev pub said : String → Option String → Option String
said s o = if str_eq s "" then o else some s

abbrev pub read : ℕ → ℕ → ℕ
read n m = if n == 0 then m else n

unfoldable pub with_probe : StreamAttributes → Option Probe → StreamAttributes
unfolding resolution_of_width
with_probe attrs none = attrs
with_probe attrs (some p) = record attrs {
  probed = true;
  audio_languages = p.audio;
  subtitle_languages = p.subtitles;
  untagged_audio = p.untagged_audio;
  codec = said p.video_codec attrs.codec;
  audio_channels = said p.audio_channels attrs.audio_channels;
  dolby_vision = p.dolby_vision || attrs.dolby_vision;
  hdr = not (str_eq p.hdr_format "") || p.dolby_vision || attrs.hdr;
  bit_depth = read p.bit_depth attrs.bit_depth;
  dv_profile = read p.dv_profile attrs.dv_profile;
  hdr_format = said p.hdr_format attrs.hdr_format;
  resolution = if p.width == 0 then attrs.resolution else some (resolution_of_width p.width);
  video_level = p.video_level;
  high_tier = p.high_tier;
  width = p.width;
  height = p.height;
  frame_rate = p.frame_rate;
}

-- The attributes that the title gives.
unfoldable pub of_title : (Text → Bool) → RawStream → StreamAttributes
of_title upscaled_match s =
    let t = to_lower s.title in
    let dolby_vision = re_do_vi_attr t in
    let hdr = dolby_vision || re_hdr_extra t in
    record {
      resolution = str_ptr (detect_resolution_lower t);
      source = str_ptr (detect_source_attr upscaled_match t);
      codec = str_ptr (detect_codec t);
      hdr = hdr;
      dolby_vision = dolby_vision;
      hdr_format = str_ptr (detect_hdr_format t);
      audio = str_ptr (detect_audio t);
      audio_codec = str_ptr (detect_audio_codec t);
      audio_channels = str_ptr (detect_channels t);
      atmos = re_atmos t;
      hardcoded_subs = re_korsub_hc t;
      three_d = re3d t;
      size_bytes = s.size_bytes;
      pack_size_bytes = s.pack_size_bytes;
      seeders = s.seeders;
      cached = cached_claim s;
      audio_languages = [];
      subtitle_languages = [];
      untagged_audio = 0;
      probed = false;
      bit_depth = detect_bit_depth t hdr;
      dv_profile = 0;
      dv_profile_guess = 0;
      video_level = 0;
      high_tier = false;
      width = 0;
      height = 0;
      frame_rate = 0;
    }

unfoldable pub stream_attributes : (Text → Bool) → RawStream → StreamAttributes
unfolding of_title with_probe
stream_attributes upscaled_match s =
    let attrs = with_probe (of_title upscaled_match s) s.probe in
    if attrs.dolby_vision && attrs.dv_profile == 0
    then record attrs {
      dv_profile_guess = guess_dv_profile (to_lower s.title) (is_some attrs.hdr_format);
    }
    else attrs

unfoldable pub container_of_name : Text → String
container_of_name t =
    if ends_with t (codes ".mp4") || ends_with t (codes ".m4v")
    then "mp4"
    else if ends_with t (codes ".mkv")
    then "matroska"
    else if ends_with t (codes ".webm")
    then "webm"
    else if ends_with t (codes ".avi")
    then "avi"
    else ""

unfoldable pub container_of : RawStream → String
unfolding container_of_name
container_of s = elim s.probe [
  | some p ↦ if str_eq p.container "" then container_of_name (to_lower s.title) else p.container
  | none ↦ container_of_name (to_lower s.title)
]
