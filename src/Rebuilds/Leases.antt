-- ===== src/Rebuilds/Leases.antt =====
-- What a lease keeps out for as long as it lasts.
use den_scout.Prelude.{
  ℕ, ◌<◌, ◌≡◌, ◌≢◌, refl, sym, ap₂, ◌∙◌, false, String, Option, none, some, List, [], ◌∷◌, inl, inr,
  lt→ltb, ◌==◌, get_elem?, str_eq, str_eq_iff, arith, Bool-cases, Option-cases,
}
use den_scout.Prelude.Assoc.{
  lookup, insert, IsMap, lookup-insert, lookup-delete, lookup-filter_values,
}
use den_scout.Rebuilds.{
  RebuildLease, lasts, sweep, next_gen, mark_outage, in_outage, is_held, book_rebuild, end_lease,
  release_rebuild,
}
use den_scout.Rebuilds.History.{
  Event, ask, outage, finish, World, after, after_all, IsSound, after-IsSound,
}

module _ (key : String) (l : RebuildLease) where
  -- What leaves the lease alone: anything before it ends but the end of its own rebuild, and an outage of the
  -- same key.
  abbrev pub IsQuiet : Event → World → Type 0
  IsQuiet (ask k now until) w = now < l.until
  IsQuiet (outage k now until) w = (now < l.until) × (k ≢ key)
  IsQuiet (finish i cooloff) w = get_elem? w.running i ≢ some (key, l.gen)

  unfoldable pub AreQuiet : List Event → World → Type 0
  AreQuiet [] w = Unit
  AreQuiet (e ∷ events) w = IsQuiet e w × AreQuiet events (after e w)

  lookup-sweep :
      (now : ℕ) (leases : List (String × RebuildLease))
      → IsMap leases
      → lookup key leases ≡ some l
      → now < l.until
      → lookup key (sweep now leases) ≡ some l
  unfolding sweep
  lookup-sweep now leases v h early =
      lookup-filter_values (lasts now) key leases v ∙ rw h (ground (arith, early))

  lookup-insert_other :
      (k : String) (lease : RebuildLease) (leases : List (String × RebuildLease))
      → k ≢ key
      → lookup key leases ≡ some l
      → lookup key (insert k lease leases) ≡ some l
  lookup-insert_other k lease leases ne h =
      ground (arith, h, ne, lookup-insert k key lease leases, str_eq_iff k key)

  end_lease_other :
      (k : String) (gen : ℕ) (cooloff : Option ℕ) (leases : List (String × RebuildLease))
      → lookup key leases ≡ some l
      → str_eq k key ≡ false
      → lookup key (end_lease k gen cooloff leases) ≡ some l
  unfolding end_lease
  end_lease_other k gen none leases h e = ground (arith, h, e, lookup-delete k key leases)
  end_lease_other k gen (some until) leases h e =
      let cooling : RebuildLease = record { until = until; gen = gen; outage = false } in
      ground (arith, h, e, lookup-insert k key cooling leases)

  lookup-end_lease :
      (k : String) (gen : ℕ) (cooloff : Option ℕ) (leases : List (String × RebuildLease))
      → lookup key leases ≡ some l
      → (k ≡ key → gen ≢ l.gen)
      → lookup key (end_lease k gen cooloff leases) ≡ some l
  unfolding end_lease
  lookup-end_lease k gen cooloff leases h ne = elim (Bool-cases (str_eq k key)) [
    | inl e ↦
        let same = (str_eq_iff k key).0 e in
        let differs : (l.gen == gen) ≡ false =
          ground (arith, λ (x : l.gen ≡ gen). ne same (sym x)) in
        rw (same, h, end_lease, differs) h
    | inr e ↦ end_lease_other k gen cooloff leases h e
  ]

  after-lookup :
      (e : Event) (w : World)
      → IsSound w
      → lookup key w.gate.leases ≡ some l
      → IsQuiet e w
      → lookup key (after e w).gate.leases ≡ some l
  unfolding after book_rebuild mark_outage release_rebuild
  after-lookup (ask k now until) w v h early =
      elim (Bool-cases (is_held now (lookup k w.gate.leases))) [
        | inl held ↦ rw (held, after, book_rebuild) h
        | inr free ↦
            let ne : k ≢ key = λ same. ground (arith, rw same at free, h, early) in
            let swept = lookup-sweep now w.gate.leases v.keyed h early in
            let lease : RebuildLease = record {
              until = until;
              gen = next_gen w.gate.gen;
              outage = false;
            } in
            ground (arith, free, h, lookup-insert_other k lease (sweep now w.gate.leases) ne swept)
      ]
  after-lookup (outage k now until) w v h (early, ne) =
      lookup-insert_other k _ _ ne (lookup-sweep now w.gate.leases v.keyed h early)
  after-lookup (finish i cooloff) w v h quiet = elim (Option-cases (get_elem? w.running i)) [
    | inl e ↦ rw (e, after) h
    | inr ((k, gen), e) ↦
        rw (e, after)
          (lookup-end_lease k gen cooloff w.gate.leases h
            (λ same same'. quiet (e ∙ ap₂ (λ a b. some (a, b)) same same')))
  ]

  -- A lease holds until it ends, unless its own rebuild ends or a build finds an outage for its key. Whatever
  -- else comes before then, requests to rebuild this key or others, outages of other keys, and other rebuilds
  -- that end, late ones of this very key among them, the key keeps the lease: no other rebuild of it is
  -- booked, and an outage that was marked is still one.
  pub lease_holds :
      (events : List Event) (w : World)
      → IsSound w
      → lookup key w.gate.leases ≡ some l
      → AreQuiet events w
      → (now until : ℕ) → now < l.until
      → ((book_rebuild key now until (after_all events w).gate).1 ≡ none)
        × (in_outage key now (after_all events w).gate ≡ l.outage)
  unfolding after_all AreQuiet book_rebuild in_outage
  lease_holds [] w v h q now until early = rw (h, lt→ltb now l.until early) (refl, ground arith)
  lease_holds (e ∷ events) w v h (q, qs) now until early =
      lease_holds events (after e w) (after-IsSound e w v) (after-lookup e w v h q) qs now until
        early
