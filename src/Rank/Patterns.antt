-- ===== src/Rank/Patterns.antt =====
-- internal/scout/rank.go: the patterns that the score and the filters match against a lowercased title,
-- one predicate to a pattern.
use den_scout.Prelude.{Bool, [], ◌∷◌}
use den_scout.Pattern.{Text, matches, chars, all_of, any_of, opt, lit, joined, word, separator}

unfoldable pub res2160 : Text → Bool
unfolding matches
res2160 t = matches (all_of (lit "2160" ∷ opt (lit "p") ∷ [])) t

unfoldable pub res1440 : Text → Bool
unfolding matches
res1440 t = matches (all_of (lit "1440" ∷ opt (lit "p") ∷ [])) t

unfoldable pub res1080 : Text → Bool
unfolding matches
res1080 t = matches (all_of (lit "1080" ∷ opt (lit "p") ∷ [])) t

unfoldable pub res720 : Text → Bool
unfolding matches
res720 t = matches (all_of (lit "720" ∷ opt (lit "p") ∷ [])) t

unfoldable pub res576 : Text → Bool
unfolding matches
res576 t = matches (all_of (lit "576" ∷ opt (lit "p") ∷ [])) t

unfoldable pub res540 : Text → Bool
unfolding matches
res540 t = matches (all_of (lit "540" ∷ opt (lit "p") ∷ [])) t

unfoldable pub res480 : Text → Bool
unfolding matches
res480 t = matches (all_of (lit "480" ∷ opt (lit "p") ∷ [])) t

unfoldable pub res4k_uhd : Text → Bool
unfolding matches
res4k_uhd t = matches (any_of (lit "4k" ∷ lit "uhd" ∷ [])) t

unfoldable pub re_remux : Text → Bool
unfolding matches
re_remux t = matches (word "remux") t

unfoldable pub re_bluray : Text → Bool
unfolding matches
re_bluray t = matches (any_of (lit "bluray" ∷ lit "blu-ray" ∷ [])) t

unfoldable pub re_br_rip : Text → Bool
unfolding matches
re_br_rip t =
    matches (all_of (lit "b" ∷ chars ((100, 100) ∷ (114, 114) ∷ []) ∷ separator ∷ lit "rip" ∷ [])) t

unfoldable pub re_web_dl : Text → Bool
unfolding matches
re_web_dl t = matches (joined (lit "web") (lit "dl")) t

unfoldable pub re_web_rip : Text → Bool
unfolding matches
re_web_rip t = matches (joined (lit "web") (lit "rip")) t

unfoldable pub re_web : Text → Bool
unfolding matches
re_web t = matches (word "web") t

unfoldable pub re_hdtv : Text → Bool
unfolding matches
re_hdtv t = matches (word "hdtv") t

unfoldable pub re_dvd_rip : Text → Bool
unfolding matches
re_dvd_rip t = matches (joined (lit "dvd") (lit "rip")) t

unfoldable pub re_low_src : Text → Bool
unfolding matches
re_low_src t = matches (any_of (lit "tvrip" ∷ lit "satrip" ∷ lit "pdtv" ∷ [])) t

unfoldable pub re_do_vi : Text → Bool
unfolding matches
re_do_vi t =
    matches (any_of (lit "dolby vision" ∷ lit "dolbyvision" ∷ lit "dovi" ∷ word "dv" ∷ [])) t

unfoldable pub re_hdr10p : Text → Bool
unfolding matches
re_hdr10p t = matches (any_of (lit "hdr10+" ∷ lit "hdr10plus" ∷ [])) t

unfoldable pub re_hdr : Text → Bool
unfolding matches
re_hdr t = matches (any_of (word "hdr" ∷ word "hlg" ∷ [])) t

unfoldable pub re_atmos : Text → Bool
unfolding matches
re_atmos t = matches (lit "atmos") t

unfoldable pub re_dtsx : Text → Bool
unfolding matches
re_dtsx t = matches (any_of (lit "dts:x" ∷ lit "dtsx" ∷ lit "dts-x" ∷ [])) t

unfoldable pub re_true_hd : Text → Bool
unfolding matches
re_true_hd t = matches (any_of (lit "truehd" ∷ lit "true-hd" ∷ [])) t

unfoldable pub re_dts_hd_ma : Text → Bool
unfolding matches
re_dts_hd_ma t = matches (any_of (lit "dts-hd ma" ∷ lit "dts-hd.ma" ∷ lit "dts-ma" ∷ [])) t

unfoldable pub re_dts_hd : Text → Bool
unfolding matches
re_dts_hd t =
    matches
      (any_of
        (lit "dts-hd" ∷ lit "dts hd" ∷ lit "dtshd" ∷ lit "flac" ∷ lit "lpcm" ∷ lit "pcm" ∷ []))
      t

unfoldable pub re_eac3 : Text → Bool
unfolding matches
re_eac3 t =
    matches (any_of (lit "eac3" ∷ lit "e-ac3" ∷ lit "dd+" ∷ lit "ddp" ∷ lit "ddplus" ∷ [])) t

unfoldable pub re_dts : Text → Bool
unfolding matches
re_dts t = matches (word "dts") t

unfoldable pub re_ac3 : Text → Bool
unfolding matches
re_ac3 t = matches (any_of (lit "ac3" ∷ word "dd" ∷ lit "dolby digital" ∷ [])) t

unfoldable pub re_is4k : Text → Bool
unfolding matches
re_is4k t =
    matches (any_of (all_of (lit "2160" ∷ opt (lit "p") ∷ []) ∷ lit "4k" ∷ lit "uhd" ∷ [])) t

unfoldable pub re_av1 : Text → Bool
unfolding matches
re_av1 t = matches (lit "av1") t

unfoldable pub re3d : Text → Bool
unfolding matches
re3d t =
    matches
      (any_of (
        word "3d"
        ∷ lit "hsbs"
        ∷ joined (lit "half") (lit "sbs")
        ∷ joined (lit "sbs") (lit "3d")
        ∷ []))
      t

unfoldable pub re_korsub_hc : Text → Bool
unfolding matches
re_korsub_hc t = matches (any_of (lit "korsub" ∷ word "hc" ∷ [])) t

unfoldable pub re_hdr_only : Text → Bool
unfolding matches
re_hdr_only t =
    matches
      (any_of (
        lit "dolby vision"
        ∷ lit "dolbyvision"
        ∷ lit "dovi"
        ∷ word "hdr"
        ∷ lit "hdr10"
        ∷ word "hlg"
        ∷ []))
      t
