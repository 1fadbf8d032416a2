-- ===== src/StreamId/Tests.antt =====
-- Ids that are accepted, and ids that are not.
use den_scout.Prelude.{◌≡◌, refl, true, none, some, arith}
use den_scout.Pattern.{codes}
use den_scout.Release.{ends_with, text_eq}
use den_scout.StreamId.{
  StreamId, is_imdb, parse_stream_id, parse_series, part_number, atoi, number_below, all_digits,
  decimal,
}
use den_scout.StreamId.Parse.{IsNumber, parse_stream_id-series}

abbrev pokemon : StreamId
pokemon = record {
  kind = "series";
  imdb = codes "tt0168366";
  season = 1;
  episode = 12;
  has_ep = true;
}

one-IsNumber : IsNumber (codes "1")
unfolding all_digits decimal
one-IsNumber = record { digits = refl; nonempty = omega arith; fits = omega arith }

twelve-IsNumber : IsNumber (codes "12")
unfolding all_digits decimal
twelve-IsNumber = record { digits = refl; nonempty = omega arith; fits = omega arith }

parse_stream_id-series_example :
    parse_stream_id "series" (codes "tt0168366:1:12.json") ≡ some pokemon
unfolding is_imdb decimal
parse_stream_id-series_example =
    parse_stream_id-series (codes "tt0168366") (codes "1") (codes "12") refl one-IsNumber
      twelve-IsNumber (omega arith)

no_episode : parse_stream_id "series" (codes "tt0168366:1.json") ≡ none
unfolding parse_stream_id ends_with text_eq
no_episode = refl

negative_season : parse_stream_id "series" (codes "tt0168366:-1:2") ≡ none
unfolding parse_stream_id ends_with text_eq parse_series part_number atoi number_below
negative_season = refl

eleven_digits : parse_stream_id "movie" (codes "tt01234567890") ≡ none
unfolding parse_stream_id ends_with text_eq
eleven_digits = refl
