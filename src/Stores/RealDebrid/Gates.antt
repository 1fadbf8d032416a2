-- ===== src/Stores/RealDebrid/Gates.antt =====
-- When Real-Debrid is sent an add.
use den_scout.Prelude.{
  ℕ, ◌+◌, ◌*◌, ltb, refl, ◌≡◌, Bool, true, false, not, ◌&&◌, ◌||◌, String, Option, none, some,
  arith, if◌then◌else◌,
}
use den_scout.Stores.{real_debrid, StoreError, add_in_flight, dead_link}
use den_scout.Stores.Memory.{
  Kind, adding, outcome_unknown, refused, refused_account, Value, flag, stamp, words, key_for,
  Cache, unknown_too_long, add_outcome_unknown, check_add_in_flight, note_add_attempt, backed_off,
}
use den_scout.Stores.RealDebrid.{
  AddReply, no_answer, unread, answered, Added, stopped, hear, add_magnet,
}

abbrev pub is_stopped : Added → Bool
is_stopped (stopped e) = true
is_stopped _ = false

abbrev pub is_none {ℓ} : {A : Type ℓ} → Option A → Bool
is_none none = true
is_none (some a) = false

-- Nothing was sent, and the caller is told that the release is dead, or that it is coming.
abbrev pub is_dead : Added → Bool
is_dead (stopped (dead_link why)) = true
is_dead _ = false

abbrev pub is_coming : Added → Bool
is_coming (stopped (add_in_flight svc why)) = true
is_coming _ = false

-- A stamp that lies more than ten minutes back.
abbrev pub is_long_ago : Option Value → ℕ → Bool
is_long_ago (some (stamp at)) now = ltb ((at + 600) * 1_000_000_000) now
is_long_ago _ now = false

abbrev pub is_present : Option Value → Bool
is_present none = false
is_present (some v) = true

abbrev pub is_refusal : Option Value → Bool
is_refusal (some (words why)) = true
is_refusal _ = false

module _ {C : Type 0} (cache : Cache C) (token info_hash : String) where
  abbrev pub reads : Kind → ℕ → C → Option Value
  reads kind now c = cache.get (key_for real_debrid token info_hash kind) now c

  abbrev pub is_late : ℕ → C → Bool
  is_late now c = is_long_ago (reads outcome_unknown now c) now

  abbrev pub is_out : ℕ → C → Bool
  is_out now c = is_present (reads adding now c)

  -- No deadline has passed, no add is out, neither the account nor the release was refused, and nothing
  -- speaks against an add.
  abbrev pub is_open : Option StoreError → ℕ → C → Bool
  is_open denied now c =
      not (is_late now c)
      && not (is_out now c)
      && not (is_refusal (cache.get (key_for real_debrid token "" refused_account) now c))
      && not (is_refusal (reads refused now c))
      && is_none denied

  -- The marker of an add, for ninety seconds.
  abbrev pub marked : ℕ → C → C
  marked now c =
      cache.put (key_for real_debrid token info_hash adding) flag (90 * 1_000_000_000) now c

  hear-is_stopped :
      (reply : AddReply) (later : ℕ) (c : C)
      → is_stopped (hear cache token info_hash reply later c).1 ≡ false
  unfolding hear
  hear-is_stopped (no_answer err) later c = ground arith
  hear-is_stopped (unread err) later c = ground arith
  hear-is_stopped (answered status id detail) later c = ground arith

  late_lem :
      (now : ℕ) (c : C) → unknown_too_long cache real_debrid token info_hash now c ≡ is_late now c
  unfolding unknown_too_long
  late_lem now c = ground arith

  out_lem :
      (now : ℕ) (c : C) → add_outcome_unknown cache real_debrid token info_hash now c ≡ is_out now c
  unfolding add_outcome_unknown
  out_lem now c = ground arith

  refusal_lem :
      (now : ℕ) (c : C)
      → is_none (backed_off cache real_debrid token info_hash now c) ≡ (
          not (is_refusal (cache.get (key_for real_debrid token "" refused_account) now c))
          && not (is_refusal (reads refused now c)))
  unfolding backed_off
  refusal_lem now c = ground arith

  marked_lem :
      (now : ℕ) (c : C) → note_add_attempt cache real_debrid token info_hash now c ≡ marked now c
  unfolding note_add_attempt
  marked_lem now c = refl

  pub add_magnet-gates :
      (denied : Option StoreError) (reply : AddReply) (now later : ℕ) (c : C)
      → let r = add_magnet cache token info_hash denied reply now later c in
        (is_stopped r.1 ≡ not (is_open denied now c))
        × (r.0 ≡ (
            if is_open denied now c
            then (hear cache token info_hash reply later (marked now c)).0
            else c))
        × ((not (is_late now c) || is_dead r.1) ≡ true)
        × ((is_late now c || not (is_out now c) || is_coming r.1) ≡ true)
  unfolding add_magnet check_add_in_flight
  add_magnet-gates denied reply now later c =
      let heard = hear-is_stopped reply later (marked now c) in
      let late = late_lem now c in
      let out = out_lem now c in
      let refusal = refusal_lem now c in
      let mark = marked_lem now c in
      (
        ground (arith, heard, late, out, refusal, mark),
        ground (arith, late, out, refusal, mark),
        ground (arith, late),
        ground (arith, late, out),
      )
