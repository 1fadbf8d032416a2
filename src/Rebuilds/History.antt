-- ===== src/Rebuilds/History.antt =====
-- The leases over any history of requests and of rebuilds that end.
use den_scout.Prelude.{
  ℕ, zero, suc, ◌≤◌, ◌≡◌, refl, ap, false, String, Option, none, some, List, [], ◌∷◌, inl, inr,
  length, get_elem?, arith, Option-cases,
}
use den_scout.Prelude.Assoc.{filter_values, IsMap, insert-IsMap, delete-IsMap, filter_values-IsMap}
use den_scout.Rebuilds.{
  RebuildLease, Rebuilds, lasts, sweep, next_gen, mark_outage, book_rebuild, end_lease,
  release_rebuild, max_concurrent_rebuilds,
}

-- A request that asks to rebuild a key, a build that found no indexer, or the end of a running rebuild, by
-- its place among those that run.
pub data Event : Type 0 where
  ask : String → ℕ → ℕ → Event
  outage : String → ℕ → ℕ → Event
  finish : ℕ → Option ℕ → Event

-- The leases, and the bookings whose goroutines are running.
pub record World : Type 0 where
  pub gate : Rebuilds
  pub running : List (String × ℕ)

abbrev remove_at {ℓ} : {A : Type ℓ} → ℕ → List A → List A
remove_at i [] = []
remove_at zero (x ∷ xs) = xs
remove_at (suc i) (x ∷ xs) = x ∷ remove_at i xs

abbrev started : String → Option ℕ → List (String × ℕ) → List (String × ℕ)
started key none running = running
started key (some gen) running = (key, gen) ∷ running

unfoldable pub after : Event → World → World
unfolding book_rebuild mark_outage release_rebuild
after (ask key now until) w =
    let (gate, granted) = book_rebuild key now until w.gate in
    record { gate = gate; running = started key granted w.running }
after (outage key now until) w = record w { gate = mark_outage key now until w.gate }
after (finish i cooloff_until) w = elim (get_elem? w.running i) [
  | none ↦ w
  | some (key, gen) ↦ record {
    gate = release_rebuild key gen cooloff_until w.gate;
    running = remove_at i w.running;
  }
]

unfoldable pub after_all : List Event → World → World
unfolding after
after_all [] w = w
after_all (e ∷ events) w = after_all events (after e w)

-- The slots that are taken are the rebuilds that run, eight at most, and a key has one lease.
pub record IsSound (w : World) : Type 0 where
  pub counted : w.gate.live ≡ length w.running
  pub bounded : w.gate.live ≤ max_concurrent_rebuilds
  pub keyed : IsMap w.gate.leases

length-remove_at {ℓ} :
    {A : Type ℓ} (i : ℕ) (xs : List A) {x : A}
    → get_elem? xs i ≡ some x
    → suc (length (remove_at i xs)) ≡ length xs
length-remove_at i [] h = ground (arith, h)
length-remove_at zero (x ∷ xs) h = refl
length-remove_at (suc i) (x ∷ xs) h = ap suc (length-remove_at i xs h)

end_lease-IsMap :
    (key : String) (gen : ℕ) (cooloff : Option ℕ) (leases : List (String × RebuildLease))
    → IsMap leases
    → IsMap (end_lease key gen cooloff leases)
unfolding end_lease
end_lease-IsMap key gen none leases v = ground (arith, v, delete-IsMap key leases v)
end_lease-IsMap key gen (some until) leases v =
    ground
      (arith, v, insert-IsMap key (record { until = until; gen = gen; outage = false }) leases v)

pub after-IsSound : (e : Event) (w : World) → IsSound w → IsSound (after e w)
unfolding after book_rebuild mark_outage release_rebuild sweep
after-IsSound (ask key now until) w v =
    let leases = filter_values (lasts now) w.gate.leases in
    let lease : RebuildLease = record {
      until = until;
      gen = next_gen w.gate.gen;
      outage = false;
    } in
    ground (
      arith,
      v.counted,
      v.bounded,
      v.keyed,
      insert-IsMap key lease leases (filter_values-IsMap (lasts now) w.gate.leases v.keyed),
    )
after-IsSound (outage key now until) w v = record {
  counted = v.counted;
  bounded = v.bounded;
  keyed = insert-IsMap key _ _ (filter_values-IsMap (lasts now) w.gate.leases v.keyed);
}
after-IsSound (finish i cooloff) w v = elim (Option-cases (get_elem? w.running i)) [
  | inl e ↦ rw (e, after) v
  | inr ((key, gen), e) ↦
      let shorter = length-remove_at i w.running e in
      rw (e, after)
        (record {
          counted = omega (arith, v.counted, shorter);
          bounded = omega (arith, v.bounded);
          keyed = end_lease-IsMap key gen cooloff w.gate.leases v.keyed;
        })
]

after_all-IsSound : (events : List Event) (w : World) → IsSound w → IsSound (after_all events w)
unfolding after_all
after_all-IsSound [] w v = v
after_all-IsSound (e ∷ events) w v = after_all-IsSound events (after e w) (after-IsSound e w v)

-- Over any history, whatever order the rebuilds end in and however long they outrun their leases, the slots
-- that are taken are exactly the rebuilds that run, so none leaks, and there are never more than eight.
pub rebuilds_counted :
    (events : List Event) (w : World)
    → IsSound w
    → ((after_all events w).gate.live ≡ length (after_all events w).running)
      × (length (after_all events w).running ≤ max_concurrent_rebuilds)
rebuilds_counted events w v =
    let v' = after_all-IsSound events w v in (v'.counted, omega (arith, v'.counted, v'.bounded))
