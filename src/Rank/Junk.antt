-- ===== src/Rank/Junk.antt =====
-- internal/scout/rank.go: the junk classes of a title.
use den_scout.Prelude.{
  ℕ, zero, suc, Bool, true, ◌&&◌, ◌||◌, Option, none, some, List, [], ◌∷◌, ◌==◌, length,
  if◌then◌else◌,
}
use den_scout.Pattern.{Text, codes}
use den_scout.Release.{to_lower, starts_with}
use den_scout.Rank.JunkPatterns.{
  good_source, junk_cam, junk_telesync, junk_telecine, junk_screener, junk_workprint, junk_r5,
  bare_cam, bare_ts, bare_scr,
}

pub data Junk : Type 0 where
  cam telesync telecine screener workprint r5 upscaled : Junk

-- `\s`, or the end of the text.
unfoldable pub at_space : Text → Bool
at_space [] = true
at_space (c ∷ s) = c == 9 || c == 10 || c == 12 || c == 13 || c == 32

-- The container extensions, without their dot.
abbrev pub container_exts : List Text
container_exts =
    codes "m2ts"
    ∷ codes "ts"
    ∷ codes "mkv"
    ∷ codes "mp4"
    ∷ codes "avi"
    ∷ codes "m4v"
    ∷ codes "webm"
    ∷ []

unfoldable pub skip : ℕ → Text → Text
skip zero s = s
skip (suc n) [] = []
skip (suc n) (c ∷ s) = skip n s

-- The length of the extension that stands here and ends a name, or 0.
unfoldable pub ext_here : List Text → Text → ℕ
unfolding at_space starts_with skip
ext_here [] s = 0
ext_here (e ∷ es) s =
    if starts_with s e && at_space (skip (length e) s) then length e else ext_here es s

-- `containerExt.ReplaceAllString(t, "$1")`; the number is how many characters of a match are still to
-- drop.
unfoldable pub strip_exts : ℕ → Text → Text
unfolding ext_here
strip_exts (suc n) (c ∷ s) = strip_exts n s
strip_exts n [] = []
strip_exts zero (c ∷ s) =
    let ext = if c == b'.' then ext_here container_exts s else 0 in
    if ext == 0 then c ∷ strip_exts 0 s else strip_exts ext s

-- `upscaled_match` is the pattern with a lookbehind, which the third-party regexp2 matches.
module _ (upscaled_match : Text → Bool) where
  -- The loop over unambiguousJunk.
  unfoldable pub unambiguous : Text → Option Junk
  unambiguous t =
      if junk_cam t
      then some cam
      else if junk_telesync t
      then some telesync
      else if junk_telecine t
      then some telecine
      else if junk_screener t
      then some screener
      else if junk_workprint t
      then some workprint
      else if junk_r5 t
      then some r5
      else if upscaled_match t
      then some upscaled
      else none

  unfoldable pub bare : Text → Option Junk
  bare t =
      if good_source t
      then none
      else if bare_cam t
      then some cam
      else if bare_ts t
      then some telesync
      else if bare_scr t
      then some screener
      else none

  -- Of a lowercased title.
  unfoldable pub junk_class_of : Text → Option Junk
  unfolding strip_exts unambiguous bare
  junk_class_of title =
      let t = strip_exts 0 title in elim (unambiguous t) [ some j ↦ some j | none ↦ bare t ]

  unfoldable pub junk_class : Text → Option Junk
  junk_class title = junk_class_of (to_lower title)
