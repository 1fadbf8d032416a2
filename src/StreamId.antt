-- ===== src/StreamId.antt =====
-- internal/scout/id.go: the parsing of a Stremio stream id, over the bytes of the path.
pub mod Parse
mod Tests
use den_scout.Prelude.{
  ℕ, zero, suc, ◌+◌, ◌-◌, ◌*◌, ◌^◌, Bool, true, false, not, ◌&&◌, ◌||◌, String, Option, none, some,
  List, [], ◌∷◌, str_eq, ltb, leb, ◌==◌, length, take, if◌then◌else◌,
}
use den_scout.Prelude.Int.{ℤ, pos, negsuc}
use den_scout.Pattern.{Text, codes}
use den_scout.Release.{ends_with}
use den_scout.Rank.Titles.{is_digit}

pub record StreamId : Type 0 where
  pub kind : String
  pub imdb : Text
  pub season : ℕ
  pub episode : ℕ
  pub has_ep : Bool

abbrev pub max_stream_id_len : ℕ
max_stream_id_len = 64

unfoldable pub all_digits : Text → Bool
all_digits [] = true
all_digits (c ∷ s) = is_digit c && all_digits s

-- `^tt\d{1,10}$`.
unfoldable pub is_imdb : Text → Bool
unfolding all_digits
is_imdb (a ∷ b ∷ ds) =
    a == b't' && b == b't' && all_digits ds && ltb 0 (length ds) && leb (length ds) 10
is_imdb _ = false

-- strings.TrimSuffix.
unfoldable pub trim_suffix : Text → Text → Text
trim_suffix s suffix = if ends_with s suffix then take (length s - length suffix) s else s

-- strings.Split at a byte: the first part and the others.
unfoldable pub split : ℕ → Text → Text × List Text
split sep [] = ([], [])
split sep (c ∷ s) =
    let (part, parts) = split sep s in if c == sep then ([], part ∷ parts) else (c ∷ part, parts)

unfoldable pub decimal : ℕ → Text → ℕ
decimal v [] = v
decimal v (c ∷ s) = decimal (v * 10 + (c - b'0')) s

-- The digits of a number below a bound.
unfoldable pub number_below : ℕ → Text → Option ℕ
unfolding all_digits decimal
number_below bound [] = none
number_below bound (c ∷ s) =
    if all_digits (c ∷ s) && ltb (decimal 0 (c ∷ s)) bound then some (decimal 0 (c ∷ s)) else none

abbrev negated : Option ℕ → Option ℤ
negated none = none
negated (some zero) = some (pos 0)
negated (some (suc n)) = some (negsuc n)

abbrev positive : Option ℕ → Option ℤ
positive none = none
positive (some n) = some (pos n)

-- strconv.Atoi, of a 64-bit int; none is its error.
unfoldable pub atoi : Text → Option ℤ
unfolding number_below
atoi [] = none
atoi (c ∷ s) =
    if c == b'-'
    then negated (number_below (2 ^ 63 + 1) s)
    else if c == b'+'
    then positive (number_below (2 ^ 63) s)
    else positive (number_below (2 ^ 63) (c ∷ s))

-- A season or an episode: a number that is not negative.
unfoldable pub part_number : Text → Option ℕ
unfolding atoi
part_number s = elim (atoi s) [ some (pos n) ↦ some n | _ ↦ none ]

unfoldable pub parse_series : Text → List Text → Option StreamId
unfolding part_number
parse_series imdb (s ∷ e ∷ rest) = elim (part_number s) [
  | none ↦ none
  | some season ↦ elim (part_number e) [
    | none ↦ none
    | some episode ↦
        some (record {
          kind = "series";
          imdb = imdb;
          season = season;
          episode = episode;
          has_ep = true;
        })
  ]
]
parse_series imdb _ = none

unfoldable pub parse_stream_id : String → Text → Option StreamId
unfolding is_imdb trim_suffix split parse_series
parse_stream_id typ raw_id =
    if not (str_eq typ "movie") && not (str_eq typ "series")
      || ltb max_stream_id_len (length raw_id)
    then none
    else (let (imdb, parts) = split b':' (trim_suffix raw_id (codes ".json")) in
        if not (is_imdb imdb)
        then none
        else if str_eq typ "series"
        then parse_series imdb parts
        else some (record { kind = "movie"; imdb = imdb; season = 0; episode = 0; has_ep = false }))
