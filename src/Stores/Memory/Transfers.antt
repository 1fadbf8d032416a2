-- ===== src/Stores/Memory/Transfers.antt =====
-- internal/scout/stores.go: what Premiumize remembers of a transfer that it queued, and of a release that it
-- served from the account.
use den_scout.Prelude.{ℕ, ◌-◌, ◌*◌, ◌/◌, Bool, false, String, none, some, leb}
use den_scout.Stores.{Service}
use den_scout.Stores.Memory.{
  queued, held, flag, emptied, stamp, Cache, second, queued_ttl, pending_give_up, resolve_cache_ttl,
  time_in, is_there, key_for,
}

module _ {C : Type 0} (cache : Cache C) (svc : Service) (account info_hash : String) where
  unfoldable pub note_queued : ℕ → C → C
  note_queued now c =
      cache.put (key_for svc account info_hash queued) (stamp (now / second)) queued_ttl now c

  unfoldable pub pending_too_long : ℕ → C → Bool
  pending_too_long now c = elim (time_in (cache.get (key_for svc account info_hash queued) now c)) [
    | none ↦ false
    | some at ↦ leb pending_give_up (now - at * second)
  ]

  unfoldable pub settle_queued_transfer : ℕ → C → C
  settle_queued_transfer now c = cache.put (key_for svc account info_hash queued) emptied 1 now c

  unfoldable pub already_queued : ℕ → C → Bool
  already_queued now c = is_there (cache.get (key_for svc account info_hash queued) now c)

  unfoldable pub note_held : ℕ → C → C
  note_held now c = cache.put (key_for svc account info_hash held) flag resolve_cache_ttl now c

  unfoldable pub forget_held : ℕ → C → C
  forget_held now c = cache.put (key_for svc account info_hash held) emptied 1 now c

  unfoldable pub held_recently : ℕ → C → Bool
  held_recently now c = is_there (cache.get (key_for svc account info_hash held) now c)
