-- ===== src/Release.antt =====
-- The releases that are ranked: rank.go's RawStream, with what a probe of the file said (probe.go), and
-- the standard library's text functions over code points.
use den_scout.Prelude.{
  ℕ, ◌+◌, Bool, true, false, ◌&&◌, ◌||◌, not, String, Option, none, some, List, [], ◌∷◌, leb, ◌==◌,
  if◌then◌else◌,
}
use den_scout.Pattern.{Text}

-- The fields of a Probe that ranking and attributes read.
pub record Probe : Type 0 where
  pub container : String
  pub video_codec : String
  pub audio_channels : String
  pub audio : List String
  pub subtitles : List String
  pub untagged_audio : ℕ
  pub dolby_vision : Bool
  pub bit_depth : ℕ
  pub dv_profile : ℕ
  pub hdr_format : String
  pub width : ℕ
  pub height : ℕ
  pub video_level : ℕ
  pub high_tier : Bool
  -- The bits of the frame rate's float, which is only copied.
  pub frame_rate : ℕ

pub record RawStream : Type 0 where
  pub info_hash : String
  pub file_idx : Option ℕ
  pub title : Text
  pub size_bytes : Option ℕ
  pub pack_size_bytes : Option ℕ
  pub seeders : Option ℕ
  pub cached : Bool
  pub cache_known : Bool
  pub source : String
  pub probe : Option Probe

abbrev pub mib : ℕ
mib = 1_048_576

abbrev pub gib : ℕ
gib = 1_073_741_824

-- strings.ToLower on ASCII and on every letter whose lower case a pattern or the folding of accents names.
unfoldable pub lower : ℕ → ℕ
lower c =
    if leb b'A' c && leb c b'Z' || leb 0xc0 c && leb c 0xde && not (c == 0xd7)
    then c + 32
    else if c == 0x100 || c == 0x112 || c == 0x12a || c == 0x14c || c == 0x16a
    then c + 1
    else if c == 0x178
    then 0xff
    else if c == 0x212a
    then b'k'
    else if c == 0x130
    then b'i'
    else if c == 0x212b
    then 0xe5
    else c

unfoldable pub to_lower : Text → Text
unfolding lower
to_lower [] = []
to_lower (c ∷ s) = lower c ∷ to_lower s

unfoldable pub text_eq : Text → Text → Bool
text_eq [] [] = true
text_eq (c ∷ s) (d ∷ t) = c == d && text_eq s t
text_eq _ _ = false

-- strings.HasPrefix and strings.HasSuffix.
unfoldable pub starts_with : Text → Text → Bool
starts_with s [] = true
starts_with [] (d ∷ t) = false
starts_with (c ∷ s) (d ∷ t) = c == d && starts_with s t

unfoldable pub ends_with : Text → Text → Bool
unfolding text_eq
ends_with [] t = text_eq [] t
ends_with (c ∷ s) t = text_eq (c ∷ s) t || ends_with s t

unfoldable pub contains : Text → Text → Bool
unfolding starts_with
contains [] t = starts_with [] t
contains (c ∷ s) t = starts_with (c ∷ s) t || contains s t

-- intOr.
abbrev pub int_or : Option ℕ → ℕ → ℕ
int_or none d = d
int_or (some n) d = n
