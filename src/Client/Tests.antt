-- ===== src/Client/Tests.antt =====
-- Two browsers and one release.
use den_scout.Prelude.{◌≤◌, refl, true, false, none, some, [], arith}
use den_scout.Prelude.Int.{pos}
use den_scout.Pattern.{codes}
use den_scout.Release.{RawStream}
use den_scout.Attributes.Probed.{StreamAttributes}
use den_scout.Client.{ClientPlayable, cost}
use den_scout.Client.Monotone.{PlaysAllOf, cost-PlaysAllOf}

abbrev sd_only : ClientPlayable
sd_only = record {
  h264 = pos 40;
  h264_high10 = pos 0;
  hevc_main = pos 0;
  hevc_main10 = pos 0;
  hevc_high_tier = pos 0;
  hdr = false;
  eac3 = false;
  aac_multichannel = false;
  dolby_vision_p5 = false;
  dolby_vision_p8 = false;
  av1 = pos 0;
  av1_main10 = pos 0;
  av1_hdr = false;
  flac = false;
  aac71 = false;
  vp9 = false;
  vp9_profile2 = false;
}

abbrev safari : ClientPlayable
safari = record sd_only {
  h264 = pos 52;
  hevc_main = pos 153;
  hevc_main10 = pos 153;
  hdr = true;
  eac3 = true;
}

safari-PlaysAllOf : PlaysAllOf sd_only safari
safari-PlaysAllOf = record {
  h264 = record { real = omega arith; up_to = omega arith };
  h264_high10 = record { real = omega arith; up_to = omega arith };
  hevc_main = record { real = omega arith; up_to = omega arith };
  hevc_main10 = record { real = omega arith; up_to = omega arith };
  hevc_high_tier = record { real = omega arith; up_to = omega arith };
  av1 = record { real = omega arith; up_to = omega arith };
  av1_main10 = record { real = omega arith; up_to = omega arith };
  hdr = λ e. refl;
  av1_hdr = λ e. e;
  eac3 = λ e. refl;
  flac = λ e. e;
  dolby_vision_p5 = λ e. e;
  vp9 = λ e. e;
  vp9_profile2 = λ e. e;
}

abbrev film : RawStream
film = record {
  info_hash = "h";
  file_idx = none;
  title = codes "film.mkv";
  size_bytes = none;
  pack_size_bytes = none;
  seeders = none;
  cached = true;
  cache_known = true;
  source = "torrentio";
  probe = none;
}

-- HEVC in ten bits with HDR, and DD+.
abbrev hdr_film : StreamAttributes
hdr_film = record {
  resolution = some "2160p";
  source = some "webdl";
  codec = some "hevc";
  hdr = true;
  dolby_vision = false;
  hdr_format = some "HDR10";
  audio = some "EAC3";
  audio_codec = some "eac3";
  audio_channels = some "5.1";
  atmos = false;
  hardcoded_subs = false;
  three_d = false;
  size_bytes = none;
  pack_size_bytes = none;
  seeders = none;
  cached = some true;
  audio_languages = [];
  subtitle_languages = [];
  untagged_audio = 0;
  probed = true;
  bit_depth = 10;
  dv_profile = 0;
  dv_profile_guess = 0;
  video_level = 150;
  high_tier = false;
  width = 3840;
  height = 2160;
  frame_rate = 0;
}

cost-PlaysAllOf_example : cost safari film hdr_film ≤ cost sd_only film hdr_film
cost-PlaysAllOf_example = cost-PlaysAllOf sd_only safari film hdr_film safari-PlaysAllOf
