-- ===== src/Rank/Tests.antt =====
-- Rankings of concrete releases.
use den_scout.Prelude.{
  ℕ, ◌*◌, ◌<◌, ◌≡◌, refl, Bool, true, false, String, none, some, [], ◌∷◌, arith, length, ◌==◌,
}
use den_scout.Prelude.Sorting.{sort_by, place_by}
use den_scout.Prelude.Int.{pos, negsuc, ◌-ℤ◌, ◌≤ℤ◌}
use den_scout.Pattern.{Text, codes}
use den_scout.Release.{RawStream, to_lower, gib, ends_with, text_eq, contains}
use den_scout.Client.{
  ClientPlayable, cost, video_cost, audio_cost, dolby_vision_cost, h264_cost, hevc_cost, av1_cost,
  vp9_cost, remux_opens, most_h264, most_hevc, most_av1, beyond, has_suffix_of,
}
use den_scout.Rank.Junk.{cam, telesync, junk_class, junk_class_of, unambiguous, bare, strip_exts}
use den_scout.Rank.JunkPatterns.{
  good_source, junk_cam, junk_telesync, junk_telecine, junk_screener, junk_workprint, junk_r5,
  bare_cam, bare_ts, bare_scr,
}
use den_scout.Rank.Patterns.{
  res2160, res1440, res1080, res720, res576, res540, res480, res4k_uhd, re_remux, re_bluray,
  re_br_rip, re_web_dl, re_web_rip, re_web, re_hdtv, re_dvd_rip, re_low_src, re_do_vi, re_hdr10p,
  re_hdr, re_atmos, re_dtsx, re_true_hd, re_dts_hd_ma, re_dts_hd, re_eac3, re_dts, re_ac3, re_is4k,
  re_av1, re3d, re_korsub_hc, re_hdr_only,
}
use den_scout.Rank.Score.{
  quality_score, quality_score_lower, gains, losses, resolution_base, source_bonus, source_penalty,
  hdr_bonus, audio_bonus, size_bonus, av1_penalty, other_penalty,
}
use den_scout.Rank.Dominance.{quality_range}
use den_scout.Rank.Filters.{
  Judges, RankFilters, score, client_cost, preference_cost, show_cost, drop_reason,
}
use den_scout.Attributes.Detect.{
  detect_resolution_lower, source_of_name, detect_source_attr, detect_codec, detect_bit_depth,
  detect_hdr_format, detect_audio_codec, detect_channels, detect_audio, guess_dv_profile,
}
use den_scout.Attributes.Probed.{
  with_probe, of_title, stream_attributes, container_of, container_of_name,
}
use den_scout.Attributes.Patterns.{
  re_do_vi_attr, re_hdr_extra, re_hlg, re_hdr10any, re_hdr_plain, re_ch71, re_ch51, re_ch20,
  re_hevc, re_avc, re_dts_hda, re_flac, re_aac, re_opus, re_mp3, re_hi10, re_ten_bit, re_hybrid,
}
use den_scout.Rank.Listing.{
  RankDebug, rank_streams, judge_from, sort_scored, before, cap_list, report, drop_n,
}
use den_scout.Rank.Served.{IsRankingOf, rank_streams-IsRankingOf}
use den_scout.Rank.Account.{IsAccountOf, rank_streams-account}
use den_scout.Rank.Seeds.{
  cap_seeds, seed_before, IsSelection, cap_seeds-IsSelection, real_debrid_blocked,
}
use den_scout.Rank.Balance.{junk_of}
use den_scout.Rank.Weights.{junk_last, cached_first, as_it_is_first, right_show_first}

abbrev never : Text → Bool
never t = false

abbrev judges : Judges
judges = record {
  upscaled_match = never;
  other_show = λ t tokens. false;
  other_episode = λ t asked. false;
}

abbrev release : String → Bool → RawStream
release name cached = record {
  info_hash = name;
  file_idx = none;
  title = codes name;
  size_bytes = none;
  pack_size_bytes = none;
  seeders = none;
  cached = cached;
  cache_known = true;
  source = "torrentio";
  probe = none;
}

abbrev no_filters : RankFilters
no_filters = record {
  exclude_cam = false;
  resolutions = [];
  prefer_resolution = "";
  hdr_only = false;
  min_seeders = none;
  max_size_gb = none;
  exclude = none;
  cached_only = false;
  result_cap = 2;
  expected_year = none;
  expected_title_tokens = [];
  episode = none;
  show_tokens = [];
  client = none;
}

abbrev best : RawStream
best = record (release "x 2160p remux dv ddp atmos" false) { size_bytes = some (100 * gib) }

-- What a concrete ranking computes through.
unfoldable open_rules : ℕ
unfolding quality_score quality_score_lower gains losses resolution_base source_bonus source_penalty
    hdr_bonus audio_bonus size_bonus av1_penalty other_penalty junk_class_of unambiguous bare
    strip_exts to_lower score client_cost preference_cost show_cost drop_reason rank_streams
    judge_from sort_scored sort_by place_by before cap_list report drop_n detect_resolution_lower
    good_source junk_cam junk_telesync junk_telecine junk_screener junk_workprint junk_r5 bare_cam
    bare_ts bare_scr res2160 res1440 res1080 res720 res576 res540 res480 res4k_uhd re_remux
    re_bluray re_br_rip re_web_dl re_web_rip re_web re_hdtv re_dvd_rip re_low_src re_do_vi re_hdr10p
    re_hdr re_atmos re_dtsx re_true_hd re_dts_hd_ma re_dts_hd re_eac3 re_dts re_ac3 re_is4k re_av1
    re3d re_korsub_hc re_hdr_only source_of_name detect_source_attr detect_codec detect_bit_depth
    detect_hdr_format detect_audio_codec detect_channels detect_audio guess_dv_profile with_probe
    of_title stream_attributes container_of container_of_name cost video_cost audio_cost
    dolby_vision_cost h264_cost hevc_cost av1_cost vp9_cost remux_opens most_h264 most_hevc most_av1
    beyond has_suffix_of re_do_vi_attr re_hdr_extra re_hlg re_hdr10any re_hdr_plain re_ch71 re_ch51
    re_ch20 re_hevc re_avc re_dts_hda re_flac re_aac re_opus re_mp3 re_hi10 re_ten_bit re_hybrid
    ends_with text_eq junk_of ◌-ℤ◌
open_rules = 0

-- The most that quality reaches is 4890.
best_quality : quality_score never best ≡ pos 4890
unfolding open_rules
best_quality = refl

ts_file : junk_class never (codes "Show.S01E01.ts") ≡ none
unfolding open_rules junk_class
ts_file = refl

ts_tag : junk_class never (codes "Show.TS.x264") ≡ some telesync
unfolding open_rules junk_class
ts_tag = refl

abbrev cam_release : RawStream
cam_release = release "a 2160p hdcam" true

abbrev clean : RawStream
clean = release "a 720p web" false

abbrev cached_480 : RawStream
cached_480 = release "a 480p" true

junk_last_example : 0 < 1
unfolding open_rules
junk_last_example =
    junk_last judges no_filters (cam_release ∷ clean ∷ []) none clean cam_release 0 1 cam refl refl
      (omega arith) refl refl

cached_first_example : 0 < 1
unfolding open_rules
cached_first_example =
    cached_first judges no_filters (best ∷ cached_480 ∷ []) none cached_480 best 0 1 refl refl refl
      refl (omega arith) refl refl

-- A browser that decodes H.264 alone.
abbrev h264_only : ClientPlayable
h264_only = record {
  h264 = pos 51;
  h264_high10 = pos 0;
  hevc_main = pos 0;
  hevc_main10 = pos 0;
  hevc_high_tier = pos 0;
  hdr = false;
  eac3 = false;
  aac_multichannel = false;
  dolby_vision_p5 = false;
  dolby_vision_p8 = false;
  av1 = pos 0;
  av1_main10 = pos 0;
  av1_hdr = false;
  flac = false;
  aac71 = false;
  vp9 = false;
  vp9_profile2 = false;
}

abbrev plays : RawStream
plays = release "a 480p x264 aac" false

abbrev converted : RawStream
converted = release "a 2160p x265 aac" false

as_it_is_first_example : 0 < 1
unfolding open_rules
as_it_is_first_example =
    as_it_is_first judges (record no_filters { client = some h264_only }) (converted ∷ plays ∷ [])
      none plays converted 0 1 h264_only refl refl (omega arith) (λ e. e) refl refl (omega arith)
      refl refl

-- Names that begin with a b are of another episode.
abbrev starts_with_b : Judges
starts_with_b = record judges {
  other_episode = λ t asked. elim t [ [] ↦ false | c ∷ s ↦ c == b'b' ];
}

abbrev first_episode : RankFilters
first_episode = record no_filters { episode = some (1, 1) }

abbrev other_one : RawStream
other_one = release "b 2160p" true

right_show_first_example : 0 < 1
unfolding open_rules
right_show_first_example =
    right_show_first starts_with_b first_episode (other_one ∷ clean ∷ []) none clean other_one 0 1
      refl refl (omega arith) refl refl refl

rank_streams-IsRankingOf_example :
    IsRankingOf judges no_filters
      (best ∷ cached_480 ∷ clean ∷ [])
      (rank_streams judges no_filters (best ∷ cached_480 ∷ clean ∷ []) none).0
rank_streams-IsRankingOf_example =
    rank_streams-IsRankingOf judges no_filters (best ∷ cached_480 ∷ clean ∷ []) none

-- Of three the cap of two serves the cached one and the best.
three_capped :
    (rank_streams judges no_filters (best ∷ cached_480 ∷ clean ∷ []) none).0
    ≡ cached_480 ∷ best ∷ []
unfolding open_rules
three_capped = refl

abbrev fresh_debug : RankDebug
fresh_debug = record { deduped = 3; ranked = 0; dropped_by = []; kept = []; note = "" }

abbrev no_cams : RankFilters
no_cams = record no_filters { exclude_cam = true; result_cap = 1 }

rank_streams-account_example :
    (e : RankDebug) × ((rank_streams judges no_cams
        (cam_release ∷ clean ∷ cached_480 ∷ [])
        (some fresh_debug)).1
      ≡ some e)
    × IsAccountOf judges no_cams
        (cam_release ∷ clean ∷ cached_480 ∷ [])
        (rank_streams judges no_cams (cam_release ∷ clean ∷ cached_480 ∷ []) (some fresh_debug)).0
        fresh_debug
        e
rank_streams-account_example =
    rank_streams-account judges no_cams (cam_release ∷ clean ∷ cached_480 ∷ []) fresh_debug

quality_range_example :
    (negsuc 4249 ≤ℤ quality_score_lower (codes "a 2160p") clean none)
    × (quality_score_lower (codes "a 2160p") clean none ≤ℤ pos 4890)
quality_range_example = quality_range (codes "a 2160p") clean refl

cap_seeds-IsSelection_example :
    IsSelection never
      (cam_release ∷ clean ∷ best ∷ [])
      (cap_seeds never (cam_release ∷ clean ∷ best ∷ []) 2)
      2
    × (length (cap_seeds never (cam_release ∷ clean ∷ best ∷ []) 2) ≡ 2)
cap_seeds-IsSelection_example =
    cap_seeds-IsSelection never (cam_release ∷ clean ∷ best ∷ []) 2 (omega arith) (omega arith)

-- The cam at the head is what the trim drops.
trimmed : cap_seeds never (cam_release ∷ clean ∷ best ∷ []) 2 ≡ best ∷ clean ∷ []
unfolding open_rules cap_seeds seed_before
trimmed = refl

blocked : real_debrid_blocked (codes "Film.1080p.WEB-DL") ≡ true
unfolding open_rules real_debrid_blocked contains
blocked = refl
