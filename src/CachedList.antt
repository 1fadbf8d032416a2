-- ===== src/CachedList.antt =====
-- internal/scout/handler.go: a stream list as the cache holds it, and how long it may be used.
--
-- An entry is its bytes. Its freshness is an int64; strconv.ParseInt gives 0 for what is no number, and the
-- nearest int64 for a number out of range.
pub mod RoundTrip
mod Tests
use den_scout.Prelude.{
  ℕ, zero, suc, ◌+◌, ◌-◌, ◌*◌, ◌^◌, min, max, Bool, true, false, ◌&&◌, Option, none, some, List, [],
  ◌∷◌, ◌++◌, ltb, ◌==◌, is_nil, not, if◌then◌else◌,
}
use den_scout.Prelude.Int.{ℤ, pos, negsuc}
use den_scout.Pattern.{Text}
use den_scout.Release.{text_eq}
use den_scout.StreamId.{all_digits, atoi}
use den_scout.Decimal.{digits}
use den_scout.AddBudget.{minute, hour}

abbrev pub max_stale_serve_window : ℕ
max_stale_serve_window = 2 * minute

abbrev pub max_stale_if_error : ℕ
max_stale_if_error = hour

abbrev pub outage_viewing_room : ℕ
outage_viewing_room = 6 * hour

unfoldable pub stale_window_for : ℕ → ℕ
stale_window_for ttl = if ltb ttl max_stale_serve_window then ttl else max_stale_serve_window

-- A difference below zero is kept at zero by the outer `max`.
unfoldable pub stale_if_error_for : ℕ → ℕ → ℕ
stale_if_error_for list_ttl ticket_ttl = min max_stale_if_error (ticket_ttl - 3 * list_ttl)

unfoldable pub outage_hold_for : ℕ → ℕ → ℕ
unfolding stale_if_error_for
outage_hold_for list_ttl ticket_ttl =
    max (stale_if_error_for list_ttl ticket_ttl) (ticket_ttl - 3 * list_ttl - outage_viewing_room)

pub record CachedList : Type 0 where
  pub complete : Bool
  pub fresh_until : ℤ
  pub etag : Text
  pub body : Text

-- strings.IndexByte, and the parts on either side.
unfoldable pub cut : ℕ → Text → Option (Text × Text)
cut sep [] = none
cut sep (c ∷ s) = elim (c == sep) [
  | true ↦ some ([], s)
  | false ↦ elim (cut sep s) [ none ↦ none | some (a, b) ↦ some (c ∷ a, b) ]
]

abbrev is_number : Text → Bool
is_number s = not (is_nil s) && all_digits s

-- What ParseInt gives beside an error: a number too large is cut off, and anything else is 0.
unfoldable pub out_of_range : Text → ℤ
unfolding all_digits
out_of_range [] = pos 0
out_of_range (c ∷ s) =
    if c == b'-'
    then (if is_number s then negsuc (2 ^ 63 - 1) else pos 0)
    else if c == b'+'
    then (if is_number s then pos (2 ^ 63 - 1) else pos 0)
    else if is_number (c ∷ s)
    then pos (2 ^ 63 - 1)
    else pos 0

unfoldable pub parse_int : Text → ℤ
unfolding atoi out_of_range
parse_int s = elim (atoi s) [ some z ↦ z | none ↦ out_of_range s ]

-- The flag of completeness, and the stamp if there is one.
unfoldable pub read_flag : Text → Text × ℤ
unfolding cut parse_int
read_flag flag = elim (cut b'|' flag) [
  | none ↦ (flag, pos 0)
  | some (before, stamp) ↦ (before, parse_int stamp)
]

unfoldable pub split_cached : Text → CachedList
unfolding cut read_flag text_eq
split_cached v = elim (cut 0 v) [
  | none ↦ record { complete = false; fresh_until = pos 0; etag = []; body = v }
  | some (first, rest) ↦ elim (cut 0 rest) [
    | none ↦ record { complete = false; fresh_until = pos 0; etag = first; body = rest }
    | some (etag, body) ↦
        let (flag, fresh_until) = read_flag first in
        record {
          complete = text_eq flag (b'1' ∷ []);
          fresh_until = fresh_until;
          etag = etag;
          body = body;
        }
  ]
]

abbrev pub flag_of : Bool → Text
flag_of true = b'1' ∷ []
flag_of false = b'0' ∷ []

unfoldable pub stamp_of : ℤ → Text
unfolding digits
stamp_of (pos (suc n)) = b'|' ∷ digits (suc n)
stamp_of _ = []

unfoldable pub join_cached : CachedList → Text
unfolding stamp_of
join_cached l = (flag_of l.complete ++ stamp_of l.fresh_until) ++ 0 ∷ (l.etag ++ 0 ∷ l.body)
