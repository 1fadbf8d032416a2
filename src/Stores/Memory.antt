-- ===== src/Stores/Memory.antt =====
-- internal/scout/stores.go: what a store remembers in the cache of an add that it sent and of a refusal;
-- Transfers is the same of a transfer that is queued.
--
-- The cache is an interface of which nothing is assumed: it may evict what it holds at any time, and a nil
-- one keeps nothing. The account is hashed into a key, which is the text of
-- its parts. A stamp is the decimal of its Unix seconds, which ParseInt reads back; the class of an entry
-- only says which tier holds it.

pub mod Transfers
use Prim.Native.String.{◌++◌ as str_append}
use den_scout.Prelude.{
  ℕ, ◌+◌, ◌-◌, ◌*◌, ◌/◌, ◌^◌, Bool, true, false, not, ◌&&◌, ◌||◌, String, Option, none, some, ltb,
  leb, ◌==◌, if◌then◌else◌,
}
use den_scout.AddBudget.{minute, hour}
use den_scout.Stores.{
  Service, torbox, real_debrid, premiumize, StoreError, add_in_flight, add_queued, unavailable,
  scout_side, dead_link, failure,
}

-- The prefixes of the keys.
pub data Kind : Type 0 where
  adding outcome_unknown torrent_miss queued held refused refused_account : Kind

pub record Key : Type 0 where
  pub kind : Kind
  pub service : Service
  pub account : String
  pub info_hash : String

-- What is stored: "1", the empty string, a time, or the reason of a refusal.
pub data Value : Type 0 where
  flag emptied : Value
  stamp : ℕ → Value
  words : String → Value

pub record Cache (C : Type 0) : Type 0 where
  pub get : Key → ℕ → C → Option Value
  pub put : Key → Value → ℕ → ℕ → C → C

abbrev pub second : ℕ
second = 10 ^ 9

abbrev pub add_attempt_ttl : ℕ
add_attempt_ttl = 90 * second

abbrev pub queued_ttl : ℕ
queued_ttl = 20 * minute

abbrev pub pending_give_up : ℕ
pending_give_up = 10 * minute

abbrev pub add_give_up : ℕ
add_give_up = 10 * minute

abbrev pub unknown_outcome_ttl : ℕ
unknown_outcome_ttl = 30 * minute

abbrev pub refusal_backoff : ℕ
refusal_backoff = minute

abbrev pub resolve_cache_ttl : ℕ
resolve_cache_ttl = 6 * hour

-- An error, as errors.Is and errors.As tell them apart here: one that is a cancellation, errTorrentGone, or
-- one of a store.
pub data Cause : Type 0 where
  cancelled gone : Cause
  told : StoreError → Cause

abbrev pub is_cancellation : Cause → Bool
is_cancellation cancelled = true
is_cancellation _ = false

abbrev pub is_add_in_flight : Cause → Bool
is_add_in_flight (told (add_in_flight svc reason)) = true
is_add_in_flight _ = false

abbrev pub is_scout_side : Cause → Bool
is_scout_side (told (scout_side reason)) = true
is_scout_side _ = false

abbrev pub is_gone : Cause → Bool
is_gone gone = true
is_gone _ = false

abbrev pub refusal_is_about_the_account : Cause → Bool
refusal_is_about_the_account (told (unavailable svc reason status)) = status == 401 || status == 403
refusal_is_about_the_account _ = false

abbrev pub refusal_reason : Cause → String
refusal_reason (told (add_in_flight svc reason)) = reason
refusal_reason (told (unavailable svc reason status)) = reason
refusal_reason (told (scout_side reason)) = reason
refusal_reason (told (dead_link reason)) = reason
refusal_reason (told (failure reason)) = reason
refusal_reason (told add_queued) = "torbox queued this add behind the account's slot limit"
refusal_reason cancelled = "context canceled"
refusal_reason gone = "torrent gone"

abbrev pub service_name : Service → String
service_name torbox = "torbox"
service_name real_debrid = "realdebrid"
service_name premiumize = "premiumize"

-- A value that is read as a time.
abbrev pub time_in : Option Value → Option ℕ
time_in (some (stamp at)) = some at
time_in _ = none

abbrev pub is_there : Option Value → Bool
is_there none = false
is_there (some v) = true

-- A value that is there, and is not the empty string.
abbrev pub is_said : Option Value → Bool
is_said none = false
is_said (some emptied) = false
is_said (some v) = true

-- The text under the key of a refusal, where nothing else is stored.
abbrev pub words_of : Option Value → Option String
words_of (some (words said)) = some said
words_of _ = none

abbrev pub key_for : Service → String → String → Kind → Key
key_for svc account info_hash kind = record {
  kind = kind;
  service = svc;
  account = account;
  info_hash = info_hash;
}

abbrev pub account_refused_key : Service → String → Key
account_refused_key svc account = key_for svc account "" refused_account

abbrev pub is_torbox : Service → Bool
is_torbox torbox = true
is_torbox _ = false

abbrev pub never_reported : Service → StoreError
never_reported svc = dead_link (str_append (service_name svc) " never reported what its add did")

module _ {C : Type 0} (cache : Cache C) (svc : Service) (account info_hash : String) where
  unfoldable pub add_outcome_unknown : ℕ → C → Bool
  add_outcome_unknown now c = is_there (cache.get (key_for svc account info_hash adding) now c)

  -- time.Since of a time in whole seconds.
  unfoldable pub unknown_too_long : ℕ → C → Bool
  unknown_too_long now c =
      elim (time_in (cache.get (key_for svc account info_hash outcome_unknown) now c)) [
        | none ↦ false
        | some at ↦ ltb add_give_up (now - at * second)
      ]

  unfoldable pub check_add_in_flight : ℕ → C → Option StoreError
  unfolding unknown_too_long add_outcome_unknown
  check_add_in_flight now c =
      if unknown_too_long now c
      then some (never_reported svc)
      else if not (add_outcome_unknown now c)
      then none
      else some (
          add_in_flight svc "scout already sent an add for this release and is awaiting the result")

  unfoldable pub add_still_believable : ℕ → C → Bool
  unfolding unknown_too_long add_outcome_unknown
  add_still_believable now c = if unknown_too_long now c then false else add_outcome_unknown now c

  unfoldable pub note_add_attempt : ℕ → C → C
  note_add_attempt now c =
      let c' = cache.put (key_for svc account info_hash adding) flag add_attempt_ttl now c in
      if is_torbox svc
      then cache.put (key_for svc account info_hash torrent_miss) emptied 1 now c'
      else c'

  unfoldable pub settle_add_attempt : ℕ → C → C
  settle_add_attempt now c =
      cache.put (key_for svc account info_hash outcome_unknown) emptied 1 now
        (cache.put (key_for svc account info_hash adding) emptied 1 now c)

  unfoldable pub note_unknown_outcome : ℕ → C → C
  note_unknown_outcome now c =
      if is_said (cache.get (key_for svc account info_hash outcome_unknown) now c)
      then c
      else cache.put (key_for svc account info_hash outcome_unknown) (stamp (now / second))
          unknown_outcome_ttl now c

  -- What an add is told whose answer could not be read; `cause` is the error of the read.
  unfoldable pub unknown_outcome : Cause → ℕ → C → C × StoreError
  unfolding unknown_too_long note_unknown_outcome
  unknown_outcome cause now c = if unknown_too_long now c then (c, never_reported svc) else (
    if is_cancellation cause then c else note_unknown_outcome now c,
    add_in_flight svc
        "the add was answered but its body could not be read, so the outcome is unknown",
  )

  unfoldable pub account_backed_off : ℕ → C → Option String
  account_backed_off now c = words_of (cache.get (account_refused_key svc account) now c)

  unfoldable pub backed_off : ℕ → C → Option String
  backed_off now c = elim (words_of (cache.get (account_refused_key svc account) now c)) [
    | some said ↦ some said
    | none ↦ words_of (cache.get (key_for svc account info_hash refused) now c)
  ]

  unfoldable pub record_refusal : Cause → ℕ → C → C
  record_refusal err now c =
      if is_cancellation err || is_scout_side err || is_add_in_flight err || is_gone err
      then c
      else if refusal_is_about_the_account err
      then cache.put (account_refused_key svc account) (words (refusal_reason err)) refusal_backoff
          now c
      else cache.put (key_for svc account info_hash refused) (words (refusal_reason err))
          refusal_backoff now c

  unfoldable pub record_refusal_for : Cause → Bool → ℕ → C → C
  unfolding record_refusal
  record_refusal_for err no_add now c =
      if not no_add || refusal_is_about_the_account err then record_refusal err now c else c
