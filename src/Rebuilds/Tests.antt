-- ===== src/Rebuilds/Tests.antt =====
-- A rebuild that outruns its lease.
use den_scout.Prelude.{
  ℕ, ◌≤◌, ◌≡◌, refl, false, none, some, List, [], ◌∷◌, length, arith, str_eq_iff,
}
use den_scout.Prelude.Assoc.{lookup, insert, delete, filter_values}
use den_scout.Rebuilds.{
  RebuildLease, sweep, book_rebuild, release_rebuild, mark_outage, in_outage, end_lease,
  max_concurrent_rebuilds,
}
use den_scout.Rebuilds.History.{
  Event, ask, outage, finish, World, after, after_all, IsSound, rebuilds_counted,
}
use den_scout.Rebuilds.Leases.{AreQuiet, lease_holds}

abbrev nothing : World
nothing = record { gate = record { leases = []; gen = 0; live = 0 }; running = [] }

nothing-IsSound : IsSound nothing
nothing-IsSound = record { counted = refl; bounded = omega arith; keyed = tt }

-- The first rebuild of the key outruns its lease, which ends at 30; the key is booked again at 40.
abbrev overrun : List Event
overrun = ask "tt1" 0 30 ∷ ask "tt1" 40 70 ∷ []

-- Then the late one ends, degraded, while others come and go.
abbrev meanwhile : List Event
meanwhile =
    finish 1 (some 200)
    ∷ ask "tt1" 50 80
    ∷ ask "tt2" 55 90
    ∷ outage "tt3" 60 120
    ∷ finish 0 none
    ∷ []

abbrev second : RebuildLease
second = record { until = 70; gen = 2; outage = false }

-- Everything that a run needs.
unfoldable open_rebuilds : ℕ
unfolding after_all after book_rebuild release_rebuild mark_outage end_lease sweep lookup insert
    delete filter_values AreQuiet
open_rebuilds = 0

booked_again : lookup "tt1" (after_all overrun nothing).gate.leases ≡ some second
unfolding open_rebuilds
booked_again = refl

overrun-IsSound : IsSound (after_all overrun nothing)
unfolding open_rebuilds
overrun-IsSound = record { counted = refl; bounded = omega arith; keyed = (refl, tt) }

rebuilds_counted_example :
    ((after_all meanwhile (after_all overrun nothing)).gate.live
      ≡ length (after_all meanwhile (after_all overrun nothing)).running)
    × (length (after_all meanwhile (after_all overrun nothing)).running ≤ max_concurrent_rebuilds)
rebuilds_counted_example = rebuilds_counted meanwhile (after_all overrun nothing) overrun-IsSound

all_quiet : AreQuiet "tt1" second meanwhile (after_all overrun nothing)
unfolding open_rebuilds
all_quiet = (
  λ e. ground (arith, e),
  (
    omega arith,
    (
      omega arith,
      (
        (omega arith, λ e. ground (arith, (str_eq_iff "tt3" "tt1").1 e)),
        (λ e. ground (arith, e), tt),
      ),
    ),
  ),
)

lease_holds_example :
    ((book_rebuild "tt1" 65 99 (after_all meanwhile (after_all overrun nothing)).gate).1 ≡ none)
    × (in_outage "tt1" 65 (after_all meanwhile (after_all overrun nothing)).gate ≡ false)
lease_holds_example =
    lease_holds "tt1" second meanwhile (after_all overrun nothing) overrun-IsSound booked_again
      all_quiet 65 99 (omega arith)
