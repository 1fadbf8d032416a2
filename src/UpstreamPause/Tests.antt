-- ===== src/UpstreamPause/Tests.antt =====
-- Pauses on concrete replies.
use den_scout.Prelude.{
  ◌+◌, ◌*◌, ◌≤◌, ◌≡◌, ◌≢◌, refl, inl, ℕ, List, String, none, [], ◌∷◌, arith, length, str_eq_iff,
}
use den_scout.Prelude.Assoc.{lookup, insert}
use den_scout.AddBudget.{second}
use den_scout.UpstreamPause.{
  Paused, Reply, response, failed, paused_for, seconds_left, left, refused, settle, round_trip,
  entry_for,
}
use den_scout.UpstreamPause.Headers.{absent, seconds, Allowance, retry_after}
use den_scout.UpstreamPause.Pauses.{settle-round_trip-refused}
use den_scout.UpstreamPause.Bound.{settle_all, settle_all-bound}

abbrev silent : Allowance
silent = record {
  r = none;
  t = none;
  remaining = none;
  reset = none;
  x_remaining = none;
  x_reset = none;
}

abbrev none_paused : Paused
none_paused = []

abbrev throttled : Paused
throttled = ("torrentio", record { until = 100 * second; refusals = 1 }) ∷ []

-- A 429 that asks for two minutes is answered here for two minutes.
second_request :
    (round_trip
      (settle none_paused "torrentio" (response 429 (seconds 120) silent) 7 (10 * second))
      "torrentio"
      failed
      0
      (40 * second)
      (41 * second)).1
    ≡ paused_for 90
unfolding round_trip settle retry_after refused entry_for insert lookup left
second_request = refl

torrentio_ne_comet : ◌≢◌ {A = String} "torrentio" "comet"
torrentio_ne_comet = ground (arith, str_eq_iff "torrentio" "comet")

-- Another upstream refuses in between.
abbrev comet_too : List (String × Reply × ℕ × ℕ)
comet_too = ("comet", response 429 absent silent, 3, 11 * second) ∷ []

settle-round_trip-refused_example :
    let paused =
      settle_all
        (settle none_paused "torrentio" (response 429 (seconds 120) silent) 7 (10 * second))
        comet_too in
    (round_trip paused "torrentio" failed 0 (40 * second) (41 * second)
      ≡ (paused, paused_for (seconds_left (left paused "torrentio" (40 * second)))))
    × (130 * second ≤ 40 * second + seconds_left (left paused "torrentio" (40 * second)) * second)
settle-round_trip-refused_example =
    settle-round_trip-refused none_paused "torrentio" 429 (seconds 120) silent 7 (10 * second)
      comet_too (40 * second) failed 0 (41 * second) (inl refl) (torrentio_ne_comet, tt)
      (omega arith) (omega arith)

settle_all-bound_example :
    length (settle_all throttled (("comet", response 429 absent silent, 3, 5) ∷ [])) ≤ 4096
settle_all-bound_example =
    settle_all-bound throttled (("comet", response 429 absent silent, 3, 5) ∷ []) (omega arith)
