-- ===== src/Attributes/Patterns.antt =====
-- internal/scout/attributes.go: the patterns of the attributes, one predicate to a pattern.
use den_scout.Prelude.{Bool, [], ◌∷◌, List, ℕ}
use den_scout.Pattern.{
  Text, matches, boundary, chars, plus, all_of, any_of, opt, lit, word, separator, digit_class,
}

-- `.`: any character but a newline.
abbrev any_class : List (ℕ × ℕ)
any_class = (0, 9) ∷ (11, 1_114_111) ∷ []

unfoldable pub re_do_vi_attr : Text → Bool
unfolding matches
re_do_vi_attr t =
    matches (any_of (lit "dolby vision" ∷ lit "dolbyvision" ∷ lit "dovi" ∷ word "dv" ∷ [])) t

unfoldable pub re_hdr_extra : Text → Bool
unfolding matches
re_hdr_extra t = matches (any_of (lit "hdr10" ∷ word "hdr" ∷ word "hlg" ∷ [])) t

unfoldable pub re_hlg : Text → Bool
unfolding matches
re_hlg t = matches (word "hlg") t

unfoldable pub re_hdr10any : Text → Bool
unfolding matches
re_hdr10any t = matches (lit "hdr10") t

unfoldable pub re_hdr_plain : Text → Bool
unfolding matches
re_hdr_plain t = matches (word "hdr") t

unfoldable pub re_ch71 : Text → Bool
unfolding matches
re_ch71 t = matches (any_of (lit "7.1" ∷ lit "7 1" ∷ word "8ch" ∷ [])) t

unfoldable pub re_ch51 : Text → Bool
unfolding matches
re_ch51 t = matches (any_of (lit "5.1" ∷ lit "5 1" ∷ word "6ch" ∷ [])) t

unfoldable pub re_ch20 : Text → Bool
unfolding matches
re_ch20 t = matches (any_of (lit "2.0" ∷ lit "2 0" ∷ lit "stereo" ∷ word "2ch" ∷ [])) t

unfoldable pub re_hevc : Text → Bool
unfolding matches
re_hevc t =
    matches
      (any_of (lit "x265" ∷ all_of (lit "h" ∷ opt (lit ".") ∷ lit "265" ∷ []) ∷ lit "hevc" ∷ [])) t

unfoldable pub re_avc : Text → Bool
unfolding matches
re_avc t =
    matches
      (any_of (lit "x264" ∷ all_of (lit "h" ∷ opt (lit ".") ∷ lit "264" ∷ []) ∷ word "avc" ∷ [])) t

unfoldable pub re_dts_hda : Text → Bool
unfolding matches
re_dts_hda t = matches (any_of (lit "dts-hd" ∷ lit "dts hd" ∷ lit "dtshd" ∷ [])) t

unfoldable pub re_flac : Text → Bool
unfolding matches
re_flac t = matches (any_of (lit "flac" ∷ lit "lpcm" ∷ lit "pcm" ∷ [])) t

unfoldable pub re_aac : Text → Bool
unfolding matches
re_aac t =
    matches (all_of (boundary ∷ lit "aac" ∷ any_of (chars digit_class ∷ boundary ∷ []) ∷ [])) t

unfoldable pub re_opus : Text → Bool
unfolding matches
re_opus t =
    matches
      (all_of (
        any_of (
          all_of (
            chars digit_class
            ∷ chars digit_class
            ∷ chars digit_class
            ∷ opt (chars digit_class)
            ∷ lit "p"
            ∷ [])
          ∷ all_of (lit "x26" ∷ chars ((52, 53) ∷ []) ∷ [])
          ∷ all_of (lit "h" ∷ opt (lit ".") ∷ lit "26" ∷ chars ((52, 53) ∷ []) ∷ [])
          ∷ lit "hevc"
          ∷ lit "av1"
          ∷ all_of (lit "10" ∷ opt (chars any_class) ∷ lit "bit" ∷ opt (lit "s") ∷ [])
          ∷ all_of (lit "web" ∷ opt (lit "-") ∷ lit "dl" ∷ [])
          ∷ lit "webrip"
          ∷ lit "bluray"
          ∷ [])
        ∷ boundary
        ∷ opt (plus any_class)
        ∷ word "opus"
        ∷ []))
      t

unfoldable pub re_mp3 : Text → Bool
unfolding matches
re_mp3 t = matches (word "mp3") t

unfoldable pub re_hi10 : Text → Bool
unfolding matches
re_hi10 t = matches (all_of (boundary ∷ lit "hi10" ∷ opt (lit "p") ∷ boundary ∷ [])) t

unfoldable pub re_ten_bit : Text → Bool
unfolding matches
re_ten_bit t =
    matches
      (any_of (
        all_of (boundary ∷ lit "10" ∷ separator ∷ lit "bit" ∷ opt (lit "s") ∷ boundary ∷ [])
        ∷ all_of (boundary ∷ lit "hi10" ∷ opt (lit "p") ∷ boundary ∷ [])
        ∷ all_of (boundary ∷ lit "main" ∷ opt (lit " ") ∷ lit "10" ∷ boundary ∷ [])
        ∷ []))
      t

unfoldable pub re_hybrid : Text → Bool
unfolding matches
re_hybrid t = matches (word "hybrid") t
