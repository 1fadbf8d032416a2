-- ===== src/CachedList/RoundTrip.antt =====
-- What is stored is read back.
use mathlib.Core.List.{append-nil}
use den_scout.Prelude.{
  ℕ, zero, suc, ◌+◌, ◌*◌, ◌^◌, ◌≤◌, ◌<◌, ◌≡◌, ◌≢◌, refl, ap, ◌∙◌, Bool, true, false, none, some, [],
  ◌∷◌, ◌++◌, arith,
}
use den_scout.Prelude.Int.{ℤ, pos, negsuc}
use den_scout.Pattern.{Text}
use den_scout.Release.{text_eq}
use den_scout.StreamId.{all_digits}
use den_scout.StreamId.Parse.{is_free, IsNumber, atoi-IsNumber}
use den_scout.Decimal.{digits, decimal-digits}
use den_scout.CachedList.{
  CachedList, cut, parse_int, read_flag, split_cached, flag_of, stamp_of, join_cached,
  stale_if_error_for, outage_hold_for,
}

cut-append : (sep : ℕ) (a b : Text) → is_free sep a ≡ true → cut sep (a ++ sep ∷ b) ≡ some (a, b)
unfolding cut is_free
cut-append sep [] b h = ground arith
cut-append sep (c ∷ a) b h = ground (arith, h, cut-append sep a b)

cut-free : (sep : ℕ) (a : Text) → is_free sep a ≡ true → cut sep a ≡ none
unfolding cut is_free
cut-free sep [] h = refl
cut-free sep (c ∷ a) h = ground (arith, h, cut-free sep a)

-- A run of digits holds no other byte.
digits-free : (sep : ℕ) (s : Text) → sep < b'0' → all_digits s ≡ true → is_free sep s ≡ true
unfolding all_digits is_free
digits-free sep [] low h = refl
digits-free sep (c ∷ s) low h = ground (arith, h, low, digits-free sep s low)

digits-IsNumber : (n : ℕ) → n < 2 ^ 63 → IsNumber (digits n)
digits-IsNumber n h =
    let (are, some_digit, same) = decimal-digits n in
    record { digits = are; nonempty = some_digit; fits = omega (arith, same, h) }

parse_int-digits : (n : ℕ) → n < 2 ^ 63 → parse_int (digits n) ≡ pos n
unfolding parse_int
parse_int-digits n h =
    let (are, some_digit, same) = decimal-digits n in
    rw (atoi-IsNumber (digits n) (digits-IsNumber n h), parse_int) (ap pos same)

is_free-append :
    (sep : ℕ) (a b : Text)
    → is_free sep a ≡ true
    → is_free sep b ≡ true
    → is_free sep (a ++ b) ≡ true
unfolding is_free
is_free-append sep [] b h k = k
is_free-append sep (c ∷ a) b h k = ground (arith, h, is_free-append sep a b)

stamp_of-free : (z : ℤ) → is_free 0 (stamp_of z) ≡ true
unfolding stamp_of is_free
stamp_of-free (pos zero) = refl
stamp_of-free (negsuc n) = refl
stamp_of-free (pos (suc n)) =
    ground (arith, digits-free 0 (digits (suc n)) (omega arith) (decimal-digits (suc n)).0)

flag_of-free :
    (complete : Bool) (sep : ℕ) → sep ≢ b'0' → sep ≢ b'1' → is_free sep (flag_of complete) ≡ true
unfolding is_free
flag_of-free true sep h k = ground (arith, k)
flag_of-free false sep h k = ground (arith, h)

read_flag-free : (flag : Text) → is_free b'|' flag ≡ true → read_flag flag ≡ (flag, pos 0)
unfolding read_flag
read_flag-free flag h = rw (cut-free b'|' flag h, read_flag) refl

read_flag-join :
    (complete : Bool) (n : ℕ)
    → n < 2 ^ 63
    → read_flag (flag_of complete ++ stamp_of (pos n)) ≡ (flag_of complete, pos n)
unfolding read_flag stamp_of
read_flag-join complete zero h =
    ap read_flag (append-nil (flag_of complete))
    ∙ read_flag-free (flag_of complete) (flag_of-free complete b'|' (omega arith) (omega arith))
read_flag-join complete (suc n) h =
    let free = flag_of-free complete b'|' (omega arith) (omega arith) in
    rw (cut-append b'|' (flag_of complete) (digits (suc n)) free, read_flag)
      (ap (λ z. (flag_of complete, z)) (parse_int-digits (suc n) h))

flag_of-read : (complete : Bool) → text_eq (flag_of complete) (b'1' ∷ []) ≡ complete
unfolding text_eq
flag_of-read true = refl
flag_of-read false = refl

abbrev parts : Text → Text → Text × ℤ → CachedList
parts etag body (flag, fresh_until) = record {
  complete = text_eq flag (b'1' ∷ []);
  fresh_until = fresh_until;
  etag = etag;
  body = body;
}

abbrev pub stored : Bool → ℕ → Text → Text → CachedList
stored complete n etag body = record {
  complete = complete;
  fresh_until = pos n;
  etag = etag;
  body = body;
}

split_by :
    (v first rest etag body : Text)
    → cut 0 v ≡ some (first, rest)
    → cut 0 rest ≡ some (etag, body)
    → split_cached v ≡ parts etag body (read_flag first)
unfolding split_cached
split_by v first rest etag body e k = rw (e, split_cached, k) refl

-- A list that is stored is read back whole: its completeness, its freshness, which is an int64 that is not
-- negative, its etag if that has no zero byte, and its body, whatever bytes that has.
pub split_cached-join_cached :
    (complete : Bool) (n : ℕ) (etag body : Text)
    → n < 2 ^ 63
    → is_free 0 etag ≡ true
    → let l = stored complete n etag body in split_cached (join_cached l) ≡ l
unfolding join_cached
split_cached-join_cached complete n etag body h free =
    let flag = flag_of complete ++ stamp_of (pos n) in
    let flag_free =
      is_free-append 0 (flag_of complete) (stamp_of (pos n))
        (flag_of-free complete 0 (omega arith) (omega arith)) (stamp_of-free (pos n)) in
    split_by _ flag (etag ++ 0 ∷ body) etag body (cut-append 0 flag (etag ++ 0 ∷ body) flag_free)
      (cut-append 0 etag body free)
    ∙ ap (parts etag body) (read_flag-join complete n h)
    ∙ ap (λ c. stored c n etag body) (flag_of-read complete)

-- However long past its freshness a list is used on a device or held for an outage, the tickets in it
-- outlive that use, and the hold leaves at least what a device may keep.
pub no_lapsed_ticket :
    (list_ttl ticket_ttl : ℕ)
    → 3 * list_ttl ≤ ticket_ttl
    → (3 * list_ttl + outage_hold_for list_ttl ticket_ttl ≤ ticket_ttl)
      × (stale_if_error_for list_ttl ticket_ttl ≤ outage_hold_for list_ttl ticket_ttl)
unfolding outage_hold_for stale_if_error_for
no_lapsed_ticket list_ttl ticket_ttl h = (omega (arith, h), omega arith)
