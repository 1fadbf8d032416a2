-- ===== src/Rank/Titles.antt =====
-- internal/scout/rank.go: the years and the words of a title.
use den_scout.Prelude.{
  ℕ, zero, suc, ◌+◌, ◌-◌, ◌*◌, Bool, true, false, not, ◌&&◌, ◌||◌, Option, none, some, List, [],
  ◌∷◌, ◌++◌, keep, leb, ◌==◌, length, if◌then◌else◌,
}
use den_scout.Pattern.{Text}
use den_scout.Release.{to_lower, text_eq}
use den_scout.Rank.Stopwords.{title_stop}

abbrev pub is_digit : ℕ → Bool
is_digit c = leb b'0' c && leb c b'9'

-- The four characters that `19\d\d|20[0-3]\d` matches.
unfoldable pub is_year : ℕ → ℕ → ℕ → ℕ → Bool
is_year a b c d =
    a == b'1' && b == b'9' && is_digit c && is_digit d
    || a == b'2' && b == b'0' && leb b'0' c && leb c b'3' && is_digit d

-- `yearToken` at the head of a text: the year, and the character that follows it, a space at the end.
unfoldable pub year_here : Text → Option (ℕ × ℕ)
unfolding is_year
year_here (a ∷ b ∷ c ∷ d ∷ s) =
    if is_year a b c d
    then some (
      (a - b'0') * 1000 + (b - b'0') * 100 + (c - b'0') * 10 + (d - b'0'),
      elim s [ [] ↦ b' ' | e ∷ r ↦ e ],
    )
    else none
year_here _ = none

-- Digits of a longer number or of a resolution, by the characters around.
unfoldable pub is_part_of_more : ℕ → ℕ → Bool
is_part_of_more before after =
    is_digit before
    || before == b'x'
    || is_digit after
    || after == b'p'
    || after == b'i'
    || after == b'x'

-- The years from here on, where the first number of characters belongs to a match already made, and the
-- second is the character before. Matches do not overlap.
unfoldable pub years_from : ℕ → ℕ → Text → List ℕ
unfolding year_here is_part_of_more
years_from n before [] = []
years_from (suc n) before (c ∷ s) = years_from n c s
years_from zero before (c ∷ s) = elim (year_here (c ∷ s)) [
  | none ↦ years_from 0 c s
  | some (y, after) ↦
      let rest = years_from 3 c s in if is_part_of_more before after then rest else y ∷ rest
]

unfoldable pub release_years : Text → List ℕ
unfolding years_from
release_years title = years_from 0 b' ' (to_lower title)

unfoldable pub any_near : List ℕ → ℕ → Bool
any_near [] want = false
any_near (y ∷ ys) want = leb want (y + 1) && leb y (want + 1) || any_near ys want

unfoldable pub year_mismatch : Text → ℕ → Bool
unfolding any_near
year_mismatch title want = elim (release_years title) [
  | [] ↦ false
  | y ∷ ys ↦ not (any_near (y ∷ ys) want)
]

-- foldDiacritics, by the letter that stands for the accented ones.
abbrev accents : List (ℕ × List ℕ)
accents =
    (b'a', 0xe1 ∷ 0xe0 ∷ 0xe2 ∷ 0xe4 ∷ 0xe3 ∷ 0xe5 ∷ 0x101 ∷ [])
    ∷ (b'e', 0xe9 ∷ 0xe8 ∷ 0xea ∷ 0xeb ∷ 0x113 ∷ [])
    ∷ (b'i', 0xed ∷ 0xec ∷ 0xee ∷ 0xef ∷ 0x12b ∷ [])
    ∷ (b'o', 0xf3 ∷ 0xf2 ∷ 0xf4 ∷ 0xf6 ∷ 0xf5 ∷ 0xf8 ∷ 0x14d ∷ [])
    ∷ (b'u', 0xfa ∷ 0xf9 ∷ 0xfb ∷ 0xfc ∷ 0x16b ∷ [])
    ∷ (b'n', 0xf1 ∷ [])
    ∷ (b'c', 0xe7 ∷ [])
    ∷ (b'y', 0xfd ∷ 0xff ∷ [])
    ∷ []

unfoldable pub one_of : ℕ → List ℕ → Bool
one_of c [] = false
one_of c (d ∷ ds) = c == d || one_of c ds

unfoldable pub fold_by : List (ℕ × List ℕ) → ℕ → ℕ
unfolding one_of
fold_by [] c = c
fold_by ((plain, accented) ∷ rest) c = if one_of c accented then plain else fold_by rest c

unfoldable pub fold_diacritics : Text → Text
unfolding fold_by
fold_diacritics [] = []
fold_diacritics (c ∷ s) = fold_by accents c ∷ fold_diacritics s

unfoldable pub mem_text : List Text → Text → Bool
mem_text [] t = false
mem_text (u ∷ us) t = text_eq u t || mem_text us t

abbrev is_token_char : ℕ → Bool
is_token_char c = is_digit c || leb b'a' c && leb c b'z'

-- Each maximal run of `[a-z0-9]`; the text read so far in the run is given, and an empty one is none.
unfoldable pub runs : Text → Text → List Text
runs [] [] = []
runs (c ∷ run) [] = (c ∷ run) ∷ []
runs run (c ∷ s) = elim (is_token_char c) [
  | true ↦ runs (run ++ (c ∷ [])) s
  | false ↦ elim run [ [] ↦ runs [] s | d ∷ r ↦ (d ∷ r) ∷ runs [] s ]
]

abbrev is_bare_year : Text → Bool
is_bare_year tok = length tok == 4 && elim (year_here tok) [ some y ↦ true | none ↦ false ]

-- A token has a character, so one shorter than two has one.
abbrev is_noise : Text → Bool
is_noise [] = false
is_noise (c ∷ []) = not (is_digit c)
is_noise (c ∷ d ∷ s) = false

unfoldable pub is_significant : Text → Bool
unfolding mem_text year_here
is_significant tok = not (mem_text title_stop tok) && not (is_bare_year tok) && not (is_noise tok)

-- The map's keys, with a token as often as the title has it.
unfoldable pub title_tokens : Text → List Text
unfolding runs is_significant fold_diacritics
title_tokens title = keep is_significant (runs [] (fold_diacritics (to_lower title)))

unfoldable pub shares_token : List Text → List Text → Bool
unfolding mem_text
shares_token [] expected = false
shares_token (tok ∷ toks) expected = mem_text expected tok || shares_token toks expected

unfoldable pub title_overlap : Text → List Text → Bool
unfolding shares_token title_tokens
title_overlap release_title expected = shares_token (title_tokens release_title) expected
