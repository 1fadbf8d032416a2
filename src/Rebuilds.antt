-- ===== src/Rebuilds.antt =====
-- internal/scout/handler.go: the leases under which stale lists are rebuilt in the background.
--
-- Each operation holds the mutex throughout. The generation is a uint64 and wraps around. A goroutine is
-- started for each booking that is granted, and releases it once.
pub mod History
pub mod Leases
mod Tests
use den_scout.Prelude.{
  ℕ, suc, ◌+◌, ◌-◌, ◌*◌, ◌%◌, ◌^◌, Bool, true, false, not, ◌&&◌, String, Option, none, some, List,
  [], ◌∷◌, ltb, leb, ◌==◌, if◌then◌else◌,
}
use den_scout.Prelude.Assoc.{lookup, insert, delete, filter_values}
use den_scout.AddBudget.{minute}

abbrev pub rebuild_cooloff : ℕ
rebuild_cooloff = minute

abbrev pub max_concurrent_rebuilds : ℕ
max_concurrent_rebuilds = 8

pub record RebuildLease : Type 0 where
  pub until : ℕ
  pub gen : ℕ
  pub outage : Bool

-- The handler's rebuilds, rebuildGen and rebuildsLive.
pub record Rebuilds : Type 0 where
  pub leases : List (String × RebuildLease)
  pub gen : ℕ
  pub live : ℕ

abbrev pub lasts : ℕ → RebuildLease → Bool
lasts now l = ltb now l.until

-- The loop that deletes what has ended.
unfoldable pub sweep : ℕ → List (String × RebuildLease) → List (String × RebuildLease)
sweep now = filter_values (lasts now)

abbrev pub next_gen : ℕ → ℕ
next_gen gen = suc gen % 2 ^ 64

unfoldable pub mark_outage : String → ℕ → ℕ → Rebuilds → Rebuilds
unfolding sweep
mark_outage key now until r =
    let gen = next_gen r.gen in
    record r {
      leases = insert key (record { until = until; gen = gen; outage = true }) (sweep now r.leases);
      gen = gen;
    }

unfoldable pub in_outage : String → ℕ → Rebuilds → Bool
in_outage key now r = elim (lookup key r.leases) [ none ↦ false | some l ↦ l.outage && lasts now l ]

abbrev pub is_held : ℕ → Option RebuildLease → Bool
is_held now none = false
is_held now (some l) = lasts now l

-- The generation of a booking that is granted.
unfoldable pub book_rebuild : String → ℕ → ℕ → Rebuilds → Rebuilds × Option ℕ
unfolding sweep
book_rebuild key now until r =
    if is_held now (lookup key r.leases)
    then (r, none)
    else if leb max_concurrent_rebuilds r.live
    then (r, none)
    else (let gen = next_gen r.gen in
        (
          record {
            leases =
                insert key (record { until = until; gen = gen; outage = false })
                  (sweep now r.leases);
            gen = gen;
            live = suc r.live;
          },
          some gen,
        ))

-- What is left of the lease under a key when the rebuild of a generation ends; none for the zero time.
unfoldable pub end_lease :
    String → ℕ → Option ℕ → List (String × RebuildLease) → List (String × RebuildLease)
end_lease key gen cooloff_until leases = elim (lookup key leases) [
  | none ↦ leases
  | some l ↦ if not (l.gen == gen) then leases else elim cooloff_until [
    | none ↦ delete key leases
    | some until ↦ insert key (record { until = until; gen = gen; outage = false }) leases
  ]
]

unfoldable pub release_rebuild : String → ℕ → Option ℕ → Rebuilds → Rebuilds
unfolding end_lease
release_rebuild key gen cooloff_until r = record r {
  leases = end_lease key gen cooloff_until r.leases;
  live = r.live - 1;
}
