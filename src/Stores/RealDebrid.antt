-- ===== src/Stores/RealDebrid.antt =====
-- internal/scout/stores.go: the part of Real-Debrid's Resolve that adds a torrent, as far as the answer to
-- the add.
--
-- What the HTTP call comes to is an argument, and so is whether the clock and the hourly allowance let it be
-- sent. The charge goes back where `refunded` says so.

pub mod Gates
pub mod Stamp
mod Tests
use Prim.Native.String.{◌++◌ as str_append}
use den_scout.Prelude.{
  ℕ, Bool, true, false, not, ◌&&◌, ◌||◌, String, Option, none, some, ltb, leb, ◌==◌, if◌then◌else◌,
}
use den_scout.Stores.{Service, real_debrid, StoreError, unavailable, dead_link}
use den_scout.Stores.Memory.{
  Cache, Cause, told, is_cancellation, is_add_in_flight, add_outcome_unknown, check_add_in_flight,
  note_add_attempt, settle_add_attempt, note_unknown_outcome, unknown_outcome, backed_off,
  record_refusal,
}

-- The call fails; or its body cannot be read; or it answers with a status, the id of a torrent and the words
-- that explain it, its number first.
pub data AddReply : Type 0 where
  no_answer : Cause → AddReply
  unread : Cause → AddReply
  answered : ℕ → Option String → String → AddReply

-- Nothing was sent; or an add was sent and told an error, or a torrent was added.
pub data Added : Type 0 where
  stopped : StoreError → Added
  sent : Cause → Added
  refunded : Cause → Added
  added : String → Added

abbrev pub store_refused_us : ℕ → Bool
store_refused_us status = status == 401 || status == 403 || status == 429 || leb 500 status

abbrev pub is_success : ℕ → Bool
is_success status = not (ltb status 200 || leb 300 status)

module _ {C : Type 0} (cache : Cache C) (token info_hash : String) where
  abbrev pub no_torrent : ℕ → String → Cause
  no_torrent status detail =
      if store_refused_us status
      then told (unavailable real_debrid (str_append "addmagnet http" detail) status)
      else told (dead_link (str_append "realdebrid no torrent id" detail))

  -- What came of an add that was sent, at the time it came.
  unfoldable pub hear : AddReply → ℕ → C → C × Added
  unfolding add_outcome_unknown note_unknown_outcome unknown_outcome settle_add_attempt
      record_refusal
  hear (no_answer err) now c =
      if add_outcome_unknown cache real_debrid token info_hash now c
      then (
        if not (is_cancellation err) && not (is_add_in_flight err)
            then note_unknown_outcome cache real_debrid token info_hash now c
            else c,
        sent err,
      )
      else (record_refusal cache real_debrid token info_hash err now c, sent err)
  hear (unread err) now c =
      let (c', e) = unknown_outcome cache real_debrid token info_hash err now c in
      (c', sent (told e))
  hear (answered status id detail) now c =
      let c' = settle_add_attempt cache real_debrid token info_hash now c in
      let refusal = no_torrent status detail in
      elim (if is_success status then id else none) [
        | some torrent ↦ (c', added torrent)
        | none ↦ (record_refusal cache real_debrid token info_hash refusal now c', refunded refusal)
      ]

  -- `denied` is what the clock or the allowance says against the add.
  unfoldable pub add_magnet : Option StoreError → AddReply → ℕ → ℕ → C → C × Added
  unfolding check_add_in_flight backed_off note_add_attempt hear
  add_magnet denied reply now later c =
      elim (check_add_in_flight cache real_debrid token info_hash now c) [
        | some e ↦ (c, stopped e)
        | none ↦ elim (backed_off cache real_debrid token info_hash now c) [
          | some reason ↦
              (c, stopped (unavailable real_debrid (str_append reason " (backing off)") 0))
          | none ↦ elim denied [
            | some e ↦ (c, stopped e)
            | none ↦ hear reply later (note_add_attempt cache real_debrid token info_hash now c)
          ]
        ]
      ]
