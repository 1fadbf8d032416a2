-- ===== src/UpstreamPause/Pauses.antt =====
-- How long an upstream is left alone.
use den_scout.Prelude.{
  ℕ, zero, suc, ◌+◌, ◌-◌, ◌*◌, ◌/◌, ◌^◌, ◌≤◌, ◌<◌, ◌≡◌, ◌≢◌, refl, min, Bool, true, false, String,
  none, some, arith, ltb, length, if◌then◌else◌, ◌==◌, ◌&&◌, ◌||◌, ◌⊎◌, str_eq, str_eq_iff,
  str_eq_refl, List, [], ◌∷◌, Each, sym, ap, ◌∙◌, inl, inr, Option-cases,
}
use den_scout.UpstreamPause.Bound.{settle_all, length-settle}
use native.Mathlib.Nat.{pow-suc}
use den_scout.Prelude.Assoc.{lookup, lookup-insert, lookup-delete}
use den_scout.AddBudget.{second, hour}
use den_scout.UpstreamPause.{
  Paused, left, refused, answered, entry_for, backoff, settle, round_trip, Reply, failed, response,
  passed, paused_for, seconds_left, max_paused_upstreams, max_refusal_pause, refusal_pause,
}
use den_scout.UpstreamPause.Headers.{
  RetryAfter, absent, seconds, date, unreadable, Allowance, retry_after, exhausted_for,
}

one-le-two-pow : (k : ℕ) → 1 ≤ 2 ^ k
one-le-two-pow zero = omega arith
one-le-two-pow (suc k) = rw pow-suc (omega (arith, one-le-two-pow k))

-- A refusal that names no time pauses for half a minute at least and twelve and a half minutes at most,
-- whatever came before, and the first one for 37.5 seconds at most.
pub backoff_bounds :
    (n draw : ℕ)
    → (refusal_pause ≤ backoff n draw)
      × (backoff n draw ≤ max_refusal_pause + max_refusal_pause / 4)
      × (backoff 1 draw ≤ refusal_pause + refusal_pause / 4)
unfolding backoff
backoff_bounds n draw = (omega (arith, one-le-two-pow (min (n - 1) 10)), omega arith, omega arith)

-- What is found after a refusal.
pub lookup-refused :
    (paused : Paused) (key k : String) (asked : ℕ) (named : Bool) (draw now : ℕ)
    → let (paused', pause) = refused paused key asked named draw now in
      let p = (entry_for paused key now).1 in
      lookup k paused' ≡ (
        if str_eq key k
        then some (record {
          until = if ltb p.until (now + pause) then now + pause else p.until;
          refusals = p.refusals + 1;
        })
        else lookup k (entry_for paused key now).0)
unfolding refused
lookup-refused paused key k asked named draw now =
    lookup-insert key k _ (entry_for paused key now).0

-- All of the pause is left after a refusal, less the time that has passed.
left-refused :
    (paused : Paused) (key : String) (asked : ℕ) (named : Bool) (draw now later : ℕ)
    → let (paused', pause) = refused paused key asked named draw now in
      now + pause - later ≤ left paused' key later
unfolding left
left-refused paused key asked named draw now later =
    rw (lookup-refused paused key key asked named draw now, left, str_eq_refl) (ground arith)

seconds_cover : (l : ℕ) → (l ≤ seconds_left l * second) × (seconds_left l * second < l + second)
seconds_cover l = omega arith

round_trip_paused :
    (paused : Paused) (key : String) (reply : Reply) (draw now later : ℕ)
    → 0 < left paused key now
    → round_trip paused key reply draw now later
      ≡ (paused, paused_for (seconds_left (left paused key now)))
unfolding round_trip
round_trip_paused paused key reply draw now later h = ground arith

-- Once nothing is left of a pause, a request goes to the upstream and its reply comes back as it is; an
-- answer below 400 that names no spent allowance ends the pause, and every other upstream's stays.
pub round_trip_answered :
    (paused : Paused) (key k : String) (status : ℕ) (header : RetryAfter) (allowance : Allowance)
    (draw now later : ℕ)
    → left paused key now ≡ 0
    → status < 400
    → exhausted_for allowance later ≡ none
    → let (paused', answer) =
        round_trip paused key (response status header allowance) draw now later in
      (answer ≡ passed (response status header allowance))
      × (lookup k paused' ≡ (if str_eq key k then none else lookup k paused))
unfolding round_trip settle answered
round_trip_answered paused key k status header allowance draw now later free ok spent =
    rw (free, not_429, not_503, below, spent, settle) (refl, lookup-delete key k paused)
  where
    not_429 : (status == 429) ≡ false
    not_429 = ground arith

    not_503 : (status == 503) ≡ false
    not_503 = ground arith

    below : ltb status 400 ≡ true
    below = ground arith

-- A refusal never shortens a pause that runs, and leaves every other upstream's alone while the map has
-- room.
pub refused-keeps :
    (paused : Paused) (key k : String) (asked : ℕ) (named : Bool) (draw now later : ℕ)
    → length paused < max_paused_upstreams
    → let paused' = (refused paused key asked named draw now).0 in
      (left paused key later ≤ left paused' key later)
      × (key ≢ k → lookup k paused' ≡ lookup k paused)
unfolding left
refused-keeps paused key k asked named draw now later room = (
  rw (lookup-refused paused key key asked named draw now, left, str_eq_refl)
      (unfold entry_for in ground arith),
  λ ne.
      rw (lookup-refused paused key k asked named draw now)
        (unfold entry_for in ground (arith, str_eq_iff key k)),
)

-- What a refusal is left alone for: the time it names, an hour at most, and half a minute where it names none.
abbrev pub asked_for : RetryAfter → ℕ → ℕ
asked_for (seconds n) now = min (n * second) hour
asked_for (date at) now = min (at - now) hour
asked_for _ now = refusal_pause

refused-asked_for :
    (paused : Paused) (key : String) (header : RetryAfter) (draw now : ℕ)
    → let (asked, named) = retry_after header now in
      asked_for header now ≤ (refused paused key asked named draw now).1
unfolding refused retry_after
refused-asked_for paused key absent draw now = (backoff_bounds _ draw).0
refused-asked_for paused key (seconds n) draw now = omega arith
refused-asked_for paused key (date at) draw now = omega arith
refused-asked_for paused key unreadable draw now = (backoff_bounds _ draw).0

-- A reply of another upstream, while there is room.
lookup-settle :
    (paused : Paused) (key k : String) (reply : Reply) (draw now : ℕ)
    → length paused < max_paused_upstreams
    → k ≢ key
    → lookup k (settle paused key reply draw now) ≡ lookup k paused
unfolding settle answered
lookup-settle paused key k failed draw now room ne = refl
lookup-settle paused key k (response status header allowance) draw now room ne =
    let ne' : key ≢ k = λ e. ne (sym e) in
    let (asked, named) = retry_after header now in
    let refusal = (refused-keeps paused key k asked named draw now now room).1 ne' in
    elim (Option-cases (exhausted_for allowance now)) [
      | inl e ↦ ground (arith, e, refusal, lookup-delete key k paused, str_eq_iff key k, ne')
      | inr (wait, e) ↦
          ground (arith, e, refusal, (refused-keeps paused key k wait true draw now now room).1 ne')
    ]

lookup-settle_all :
    (paused : Paused) (k : String) (others : List (String × Reply × ℕ × ℕ))
    → Each (λ o. k ≢ o.0) others
    → length paused + length others ≤ max_paused_upstreams
    → lookup k (settle_all paused others) ≡ lookup k paused
unfolding settle_all
lookup-settle_all paused k [] each room = refl
lookup-settle_all paused k ((key, reply, draw, now) ∷ others) (ne, each) room =
    lookup-settle_all (settle paused key reply draw now) k others each
      (omega (arith, room, length-settle paused key reply draw now))
    ∙ lookup-settle paused key k reply draw now (omega (arith, room)) ne

left-lookup :
    (paused paused' : Paused) (key : String) (later : ℕ)
    → lookup key paused' ≡ lookup key paused
    → left paused' key later ≡ left paused key later
unfolding left
left-lookup paused paused' key later e = ground (arith, e)

settle-refused :
    (paused : Paused) (key : String) (status : ℕ) (header : RetryAfter) (allowance : Allowance)
    (draw now : ℕ)
    → (status ≡ 429) ⊎ ((status ≡ 503) × ((retry_after header now).1 ≡ true))
    → let (asked, named) = retry_after header now in
      settle paused key (response status header allowance) draw now
      ≡ (refused paused key asked named draw now).0
unfolding settle
settle-refused paused key status header allowance draw now refusal = rw test refl
  where
    test : ((status == 429) || (status == 503) && (retry_after header now).1) ≡ true
    test = ground arith

-- A refusal, a 429 or a 503 that names a Retry-After, is honoured. Let the upstreams that reply after it be
-- others, and let the map have room for them. Then until the time is over that the refusal asked for, an hour
-- at most and half a minute where it named none, a request to the upstream that refused is answered by a
-- 429 of scout's own and changes nothing, whatever the transport would say. The Retry-After of that 429 covers
-- the rest of the time.
pub settle-round_trip-refused :
    (paused : Paused) (key : String) (status : ℕ) (header : RetryAfter) (allowance : Allowance)
    (draw now : ℕ) (others : List (String × Reply × ℕ × ℕ)) (later : ℕ) (reply : Reply)
    (draw' end : ℕ)
    → (status ≡ 429) ⊎ ((status ≡ 503) × ((retry_after header now).1 ≡ true))
    → Each (λ o. key ≢ o.0) others
    → suc (length paused) + length others ≤ max_paused_upstreams
    → later < now + asked_for header now
    → let paused' =
        settle_all (settle paused key (response status header allowance) draw now) others in
      (round_trip paused' key reply draw' later end
        ≡ (paused', paused_for (seconds_left (left paused' key later))))
      × (now + asked_for header now ≤ later + seconds_left (left paused' key later) * second)
settle-round_trip-refused paused key status header allowance draw now others later reply draw' end
      refusal each room early =
    let (asked, named) = retry_after header now in
    let paused'' = settle paused key (response status header allowance) draw now in
    let paused' = settle_all paused'' others in
    let refuses = settle-refused paused key status header allowance draw now refusal in
    let grown = length-settle paused key (response status header allowance) draw now in
    let same =
      left-lookup paused'' paused' key later
        (lookup-settle_all paused'' key others each (omega (arith, room, grown))) in
    let held : now + asked_for header now - later ≤ left paused' key later = omega (
      arith,
      same,
      ap (λ p. left p key later) refuses,
      left-refused paused key asked named draw now later,
      refused-asked_for paused key header draw now,
    ) in
    (
      round_trip_paused paused' key reply draw' later end (omega (arith, held, early)),
      omega (arith, held, seconds_cover (left paused' key later)),
    )
