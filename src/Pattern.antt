-- ===== src/Pattern.antt =====
-- The part of Go's `regexp` (RE2), and of regexp2, that the release patterns use, over the code points of a text.
--
-- A pattern is matched by continuations: whether some way to match it leaves a rest that the continuation
-- accepts. That decides `MatchString`; which of several matches is found does not matter to it. The
-- character before a position is kept for `\b` and `^`. `\b` and `\d` know the ASCII characters alone, as
-- RE2 does; regexp2 goes by Unicode, which differs on a title with other letters or digits at that place.
mod Tests
use Prim.Native.Char.{code}
use den_scout.Prelude.{
  ℕ, zero, suc, ◌+◌, Bool, true, false, not, ◌&&◌, ◌||◌, String, Option, none, some, List, [], ◌∷◌,
  ltb, leb, ◌==◌, if◌then◌else◌,
}

-- A text as its code points.
abbrev pub Text : Type 0
Text = List ℕ

abbrev pub codes : String → Text
codes String.[] = []
codes (String.◌∷◌ c s) = code c ∷ codes s

-- `chars` is a class, as ranges; `plus` one or more of a class; `not_ahead` the lookahead `(?![class])`.
pub data Re : Type 0 where
  empty : Re
  chars : List (ℕ × ℕ) → Re
  plus : List (ℕ × ℕ) → Re
  seq : Re → Re → Re
  alt : Re → Re → Re
  boundary : Re
  starts : Re
  ends : Re
  not_ahead : List (ℕ × ℕ) → Re

unfoldable pub in_class : List (ℕ × ℕ) → ℕ → Bool
in_class [] c = false
in_class ((lo, hi) ∷ ranges) c = leb lo c && leb c hi || in_class ranges c

-- [0-9A-Za-z_]
abbrev word_class : List (ℕ × ℕ)
word_class = (48, 57) ∷ (65, 90) ∷ (95, 95) ∷ (97, 122) ∷ []

unfoldable pub is_word : Option ℕ → Bool
unfolding in_class
is_word none = false
is_word (some c) = in_class word_class c

unfoldable pub next_of : Text → Option ℕ
next_of [] = none
next_of (c ∷ s) = some c

-- `\b`: a word character on one side alone.
unfoldable pub at_boundary : Option ℕ → Text → Bool
unfolding is_word next_of
at_boundary prev s =
    let before = is_word prev in
    let after = is_word (next_of s) in before && not after || not before && after

unfoldable pub many : List (ℕ × ℕ) → Text → (Option ℕ → Text → Bool) → Bool
unfolding in_class
many cls [] k = false
many cls (c ∷ s) k = elim (in_class cls c) [
  | true ↦ elim (k (some c) s) [ true ↦ true | false ↦ many cls s k ]
  | false ↦ false
]

unfoldable pub in_next : List (ℕ × ℕ) → Text → Bool
unfolding in_class
in_next cls [] = false
in_next cls (c ∷ s) = in_class cls c

unfoldable pub accepts : Re → Option ℕ → Text → (Option ℕ → Text → Bool) → Bool
unfolding many at_boundary in_next
accepts empty prev s k = k prev s
accepts (chars cls) prev [] k = false
accepts (chars cls) prev (c ∷ s) k = elim (in_class cls c) [ true ↦ k (some c) s | false ↦ false ]
accepts (plus cls) prev s k = many cls s k
accepts (seq a b) prev s k = accepts a prev s (λ p r. accepts b p r k)
accepts (alt a b) prev s k = elim (accepts a prev s k) [ true ↦ true | false ↦ accepts b prev s k ]
accepts boundary prev s k = elim (at_boundary prev s) [ true ↦ k prev s | false ↦ false ]
accepts starts none s k = k none s
accepts starts (some c) s k = false
accepts (not_ahead cls) prev s k = elim (in_next cls s) [ true ↦ false | false ↦ k prev s ]
accepts ends prev [] k = k prev []
accepts ends prev (c ∷ s) k = false

unfoldable pub search_from : Re → Option ℕ → Text → Bool
unfolding accepts
search_from re prev [] = accepts re prev [] (λ p r. true)
search_from re prev (c ∷ s) = elim (accepts re prev (c ∷ s) (λ p r. true)) [
  | true ↦ true
  | false ↦ search_from re (some c) s
]

-- `re.MatchString(s)`.
unfoldable pub matches : Re → Text → Bool
unfolding search_from
matches re s = search_from re none s

-- Patterns by their parts.
abbrev pub all_of : List Re → Re
all_of [] = empty
all_of (r ∷ []) = r
all_of (r ∷ r' ∷ rs) = seq r (all_of (r' ∷ rs))

abbrev pub any_of : List Re → Re
any_of [] = empty
any_of (r ∷ []) = r
any_of (r ∷ r' ∷ rs) = alt r (any_of (r' ∷ rs))

abbrev pub opt : Re → Re
opt r = alt r empty

abbrev pub star : List (ℕ × ℕ) → Re
star cls = opt (plus cls)

abbrev pub letter : ℕ → Re
letter c = chars ((c, c) ∷ [])

abbrev pub literal : Text → Re
literal [] = empty
literal (c ∷ []) = letter c
literal (c ∷ d ∷ s) = seq (letter c) (literal (d ∷ s))

abbrev pub lit : String → Re
lit s = literal (codes s)

-- A whole word, `\bs\b`.
abbrev pub word : String → Re
word s = all_of (boundary ∷ lit s ∷ boundary ∷ [])

abbrev pub words : List String → List Re
words [] = []
words (s ∷ ss) = lit s ∷ words ss

abbrev pub digit_class : List (ℕ × ℕ)
digit_class = (48, 57) ∷ []

-- `[ .\-_]` and `[ .\-]`.
abbrev pub separator_class : List (ℕ × ℕ)
separator_class = (32, 32) ∷ (45, 46) ∷ (95, 95) ∷ []

abbrev pub separator : Re
separator = opt (chars separator_class)

-- Two words with an optional separator between: `a[ .\-_]?b`.
abbrev pub joined : Re → Re → Re
joined a b = all_of (a ∷ separator ∷ b ∷ [])
