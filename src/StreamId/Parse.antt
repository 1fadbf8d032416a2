-- ===== src/StreamId/Parse.antt =====
-- Which ids are accepted, and what they are read as.
use den_scout.Prelude.{
  ℕ, ◌+◌, ◌-◌, ◌^◌, ◌≤◌, ◌<◌, ◌≡◌, refl, Bool, true, false, not, ◌&&◌, String, some, List, [], ◌∷◌,
  ◌++◌, ltb, ◌==◌, length, length-append, take, ap, ◌∙◌, arith,
}
use den_scout.Prelude.Int.{pos}
use den_scout.Pattern.{Text, codes}
use den_scout.Release.{text_eq, ends_with}
use den_scout.StreamId.{
  StreamId, all_digits, is_imdb, trim_suffix, split, decimal, number_below, atoi, part_number,
  parse_series, parse_stream_id,
}

text_eq_refl : (s : Text) → text_eq s s ≡ true
unfolding text_eq
text_eq_refl [] = refl
text_eq_refl (c ∷ s) = ground (arith, text_eq_refl s)

ends_with-append : (x suffix : Text) → ends_with (x ++ suffix) suffix ≡ true
unfolding ends_with
ends_with-append [] [] = text_eq_refl []
ends_with-append [] (c ∷ s) = ground (arith, text_eq_refl (c ∷ s))
ends_with-append (c ∷ x) suffix = ground (arith, ends_with-append x suffix)

take-append : (x rest : Text) → take (length x) (x ++ rest) ≡ x
take-append [] rest = refl
take-append (c ∷ x) rest = ap (λ r. c ∷ r) (take-append x rest)

trim_suffix-append : (x suffix : Text) → trim_suffix (x ++ suffix) suffix ≡ x
unfolding trim_suffix
trim_suffix-append x suffix =
    let rest : length (x ++ suffix) - length suffix ≡ length x =
      omega (arith, length-append x suffix) in
    rw (ends_with-append x suffix)
      (ap (λ (n : ℕ). take n (x ++ suffix)) rest ∙ take-append x suffix)

-- The separator is none of the characters.
unfoldable pub is_free : ℕ → Text → Bool
is_free sep [] = true
is_free sep (c ∷ s) = not (c == sep) && is_free sep s

free_parts :
    (sep c : ℕ) (s : Text)
    → is_free sep (c ∷ s) ≡ true
    → ((c == sep) ≡ false) × (is_free sep s ≡ true)
unfolding is_free
free_parts sep c s h = ground (arith, h)

own_sep : (sep : ℕ) → (sep == sep) ≡ true
own_sep sep = ground arith

split-free : (sep : ℕ) (s : Text) → is_free sep s ≡ true → split sep s ≡ (s, [])
unfolding is_free split
split-free sep [] h = refl
split-free sep (c ∷ s) h =
    let (differs, v) = free_parts sep c s h in rw (differs, split-free sep s v) refl

split-append :
    (sep : ℕ) (a b : Text)
    → is_free sep a ≡ true
    → split sep (a ++ sep ∷ b) ≡ (a, (split sep b).0 ∷ (split sep b).1)
unfolding is_free split
split-append sep [] b h = rw (own_sep sep) refl
split-append sep (c ∷ a) b h =
    let (differs, v) = free_parts sep c a h in rw (differs, split-append sep a b v) refl

all_digits-free : (s : Text) → all_digits s ≡ true → is_free b':' s ≡ true
unfolding all_digits is_free
all_digits-free [] h = refl
all_digits-free (c ∷ s) h = ground (arith, h, all_digits-free s)

is_imdb-free : (s : Text) → is_imdb s ≡ true → is_free b':' s ≡ true
unfolding is_imdb is_free
is_imdb-free [] h = ground (arith, h)
is_imdb-free (a ∷ []) h = ground (arith, h)
is_imdb-free (a ∷ b ∷ ds) h = ground (arith, h, all_digits-free ds)

-- A nonempty run of digits for a number that an int holds.
pub record IsNumber (s : Text) : Type 0 where
  pub digits : all_digits s ≡ true
  pub nonempty : 0 < length s
  pub fits : decimal 0 s < 2 ^ 63

pub atoi-IsNumber : (s : Text) → IsNumber s → atoi s ≡ some (pos (decimal 0 s))
unfolding atoi number_below
atoi-IsNumber [] v = ground (arith, v.nonempty)
atoi-IsNumber (c ∷ s) v = ground (arith, v.digits, v.fits)

part_number-IsNumber : (s : Text) → IsNumber s → part_number s ≡ some (decimal 0 s)
unfolding part_number
part_number-IsNumber s v = rw (atoi-IsNumber s v, part_number) refl

parse_series-IsNumber :
    (imdb ds es : Text)
    → IsNumber ds
    → IsNumber es
    → parse_series imdb (ds ∷ es ∷ [])
      ≡ some (record {
        kind = "series";
        imdb = imdb;
        season = decimal 0 ds;
        episode = decimal 0 es;
        has_ep = true;
      })
unfolding parse_series
parse_series-IsNumber imdb ds es v w =
    rw (part_number-IsNumber ds v, parse_series, part_number-IsNumber es w) refl

short_enough :
    (imdb ds es : Text)
    → length imdb + length ds + length es ≤ 57
    → ltb 64 (length ((imdb ++ b':' ∷ (ds ++ b':' ∷ es)) ++ codes ".json")) ≡ false
short_enough imdb ds es h =
    let whole = imdb ++ b':' ∷ (ds ++ b':' ∷ es) in
    ground (
      arith,
      h,
      length-append whole (codes ".json"),
      length-append imdb (b':' ∷ (ds ++ b':' ∷ es)),
      length-append ds (b':' ∷ es),
    )

atoi-bound : (s : Text) (n : ℕ) → atoi s ≡ some (pos n) → n < 2 ^ 63
unfolding atoi number_below
atoi-bound [] n h = ground (arith, h)
atoi-bound (c ∷ s) n h = ground (arith, h)

part_number-bound : (s : Text) (n : ℕ) → part_number s ≡ some n → n < 2 ^ 63
unfolding part_number
part_number-bound s n h = ground (arith, h, atoi-bound s n)

parse_series-bounds :
    (imdb : Text) (parts : List Text) (id : StreamId)
    → parse_series imdb parts ≡ some id
    → (id.imdb ≡ imdb) × (id.season < 2 ^ 63) × (id.episode < 2 ^ 63)
unfolding parse_series
parse_series-bounds imdb [] id h = ground (arith, h)
parse_series-bounds imdb (s ∷ []) id h = ground (arith, h)
parse_series-bounds imdb (s ∷ e ∷ rest) id h =
    ground (arith, h, part_number-bound s id.season, part_number-bound e id.episode)

-- A series id as Stremio writes it is read as the season and the episode that its digits name.
pub parse_stream_id-series :
    (imdb ds es : Text)
    → is_imdb imdb ≡ true
    → IsNumber ds
    → IsNumber es
    → length imdb + length ds + length es ≤ 57
    → parse_stream_id "series" ((imdb ++ b':' ∷ (ds ++ b':' ∷ es)) ++ codes ".json")
      ≡ some (record {
        kind = "series";
        imdb = imdb;
        season = decimal 0 ds;
        episode = decimal 0 es;
        has_ep = true;
      })
unfolding parse_stream_id
parse_stream_id-series imdb ds es u v w h =
    rw
      (
        short_enough imdb ds es h,
        parse_stream_id,
        trim_suffix-append (imdb ++ b':' ∷ (ds ++ b':' ∷ es)) (codes ".json"),
        split-append b':' imdb (ds ++ b':' ∷ es) (is_imdb-free imdb u),
        u,
        split-append b':' ds es (all_digits-free ds v.digits),
        split-free b':' es (all_digits-free es w.digits),
      )
      (parse_series-IsNumber imdb ds es v w)

-- What is accepted is an id of at most 64 bytes that begins with tt and one to ten digits, and its season
-- and its episode are below 2 ^ 63.
pub parse_stream_id-bounds :
    (typ : String) (raw : Text) (id : StreamId)
    → parse_stream_id typ raw ≡ some id
    → (length raw ≤ 64) × (is_imdb id.imdb ≡ true) × (id.season < 2 ^ 63) × (id.episode < 2 ^ 63)
unfolding parse_stream_id parse_series
parse_stream_id-bounds typ raw id h =
    let (imdb, parts) = split b':' (trim_suffix raw (codes ".json")) in
    ground (arith, h, parse_series-bounds imdb parts id)
