-- ===== src/Rank/JunkPatterns.antt =====
-- internal/scout/rank.go: the patterns of the junk classes, and of the good sources. `upscaled` alone is
-- not here: its lookbehind is matched by a third-party engine.
use den_scout.Prelude.{Bool, [], ◌∷◌}
use den_scout.Pattern.{
  Text, matches, chars, plus, all_of, any_of, opt, lit, joined, word, separator,
}

unfoldable pub good_source : Text → Bool
unfolding matches
good_source t =
    matches
      (any_of (
        lit "remux"
        ∷ lit "bluray"
        ∷ lit "blu-ray"
        ∷ all_of (lit "b" ∷ chars ((100, 100) ∷ (114, 114) ∷ []) ∷ separator ∷ lit "rip" ∷ [])
        ∷ all_of (lit "web" ∷ separator ∷ opt (any_of (lit "dl" ∷ lit "rip" ∷ [])) ∷ [])
        ∷ lit "hdtv"
        ∷ all_of (lit "dvd" ∷ separator ∷ lit "rip" ∷ [])
        ∷ []))
      t

unfoldable pub junk_cam : Text → Bool
unfolding matches
junk_cam t =
    matches
      (any_of (
        all_of (
          lit "h"
          ∷ chars ((100, 100) ∷ (113, 113) ∷ [])
          ∷ separator
          ∷ lit "cam"
          ∷ opt (lit "rip")
          ∷ [])
        ∷ joined (lit "cam") (lit "rip")
        ∷ all_of (lit "s" ∷ plus ((32, 32) ∷ (45, 46) ∷ []) ∷ lit "print" ∷ [])
        ∷ []))
      t

unfoldable pub junk_telesync : Text → Bool
unfolding matches
junk_telesync t =
    matches
      (any_of (
        all_of (lit "telesync" ∷ opt (lit "h") ∷ [])
        ∷ all_of (lit "hd" ∷ separator ∷ lit "ts" ∷ opt (lit "rip") ∷ [])
        ∷ joined (lit "ts") (lit "rip")
        ∷ []))
      t

unfoldable pub junk_telecine : Text → Bool
unfolding matches
junk_telecine t = matches (any_of (lit "telecine" ∷ joined (lit "hd") (lit "tc") ∷ [])) t

unfoldable pub junk_screener : Text → Bool
unfolding matches
junk_screener t =
    matches
      (any_of (
        all_of (
          any_of (lit "dvd" ∷ lit "bd" ∷ lit "br" ∷ lit "web" ∷ lit "hd" ∷ [])
          ∷ separator
          ∷ lit "scr"
          ∷ [])
        ∷ all_of (lit "p" ∷ opt (lit "re") ∷ lit "dvd" ∷ opt (lit "rip") ∷ [])
        ∷ lit "screener"
        ∷ []))
      t

unfoldable pub junk_workprint : Text → Bool
unfolding matches
junk_workprint t = matches (lit "workprint") t

unfoldable pub junk_r5 : Text → Bool
unfolding matches
junk_r5 t = matches (word "r5") t

unfoldable pub bare_cam : Text → Bool
unfolding matches
bare_cam t = matches (word "cam") t

unfoldable pub bare_ts : Text → Bool
unfolding matches
bare_ts t = matches (word "ts") t

unfoldable pub bare_scr : Text → Bool
unfolding matches
bare_scr t = matches (word "scr") t
