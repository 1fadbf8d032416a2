-- ===== src/Stores/RealDebrid/Tests.antt =====
-- A cache that keeps what it is given, and an account whose adds are lost, refused or left.
use den_scout.Prelude.{
  ℕ, ◌+◌, ◌*◌, ◌≡◌, refl, Bool, true, ◌&&◌, String, Option, none, some, List, [], ◌∷◌, ltb, ◌==◌,
  str_eq, if◌then◌else◌,
}
use den_scout.Stores.{Service, torbox, real_debrid, premiumize, failure}
use den_scout.Stores.Memory.{
  Kind, adding, outcome_unknown, torrent_miss, queued, held, refused, refused_account, Key, Value,
  Cache, cancelled, told, second, never_reported, add_outcome_unknown, unknown_too_long,
  check_add_in_flight, note_add_attempt, note_unknown_outcome, unknown_outcome, backed_off,
  record_refusal, settle_add_attempt,
}
use den_scout.Stores.RealDebrid.{AddReply, no_answer, unread, stopped, hear, add_magnet}
use den_scout.Stores.RealDebrid.Gates.{is_open, marked}
use den_scout.Stores.RealDebrid.Stamp.{
  Spares, is_stamped, leaving_condemns_nothing, silence_keeps_the_stamp,
}

abbrev place : Kind → ℕ
place adding = 0
place outcome_unknown = 1
place torrent_miss = 2
place queued = 3
place held = 4
place refused = 5
place refused_account = 6

abbrev place_of : Service → ℕ
place_of torbox = 0
place_of real_debrid = 1
place_of premiumize = 2

unfoldable same_key : Key → Key → Bool
same_key k j =
    place k.kind == place j.kind
    && place_of k.service == place_of j.service
    && str_eq k.account j.account
    && str_eq k.info_hash j.info_hash

abbrev Entries : Type 0
Entries = List (Key × Value × ℕ)

unfoldable read : Key → ℕ → Entries → Option Value
unfolding same_key
read k t [] = none
read k t ((j, v, until) ∷ c) =
    if same_key j k then (if ltb t until then some v else none) else read k t c

unfoldable write : Key → Value → ℕ → ℕ → Entries → Entries
write k v ttl now c = (k, v, now + ttl) ∷ c

abbrev roomy : Cache Entries
roomy = record { get = read; put = write }

abbrev lost : AddReply
lost = no_answer (told (failure "connection reset"))

abbrev left : AddReply
left = unread cancelled

abbrev account : String
account = "token"

abbrev release : String
release = "c9e15763f722f23e98a29decdfae341b98d53056"

-- The first add goes out at 100 s.
abbrev first_sent : Entries
first_sent = note_add_attempt roomy real_debrid account release (100 * second) []

unfoldable open_adds : ℕ
unfolding add_outcome_unknown unknown_too_long check_add_in_flight note_add_attempt
    settle_add_attempt note_unknown_outcome unknown_outcome backed_off record_refusal hear
    add_magnet same_key read write
open_adds = 0

-- Ten minutes after its first silence a release is dead, though an add went out in between.
abbrev silent_once : Entries
silent_once = (hear roomy account release lost (101 * second) first_sent).0

abbrev asked_again : Entries
asked_again =
    (add_magnet roomy account release none lost (690 * second) (691 * second) silent_once).0

dead_at_last :
    (add_magnet roomy account release none lost (702 * second) (703 * second) asked_again).1
    ≡ stopped (never_reported real_debrid)
unfolding open_adds
dead_at_last = refl

-- The second add of a release that is stamped.
stamped_then :
    is_stamped roomy account release
      (691 * second)
      (marked roomy account release (690 * second) silent_once)
    ≡ true
unfolding open_adds
stamped_then = refl

silence_keeps_the_stamp_example : Spares roomy outcome_unknown silent_once asked_again
silence_keeps_the_stamp_example =
    silence_keeps_the_stamp roomy account release none lost (690 * second) (691 * second)
      silent_once refl stamped_then

leaving_condemns_nothing_example :
    (add_magnet roomy account release none left (690 * second) (691 * second) silent_once).0 ≡ (
      if is_open roomy account release none (690 * second) silent_once
      then marked roomy account release (690 * second) silent_once
      else silent_once)
leaving_condemns_nothing_example =
    leaving_condemns_nothing roomy account release none left (690 * second) (691 * second)
      silent_once refl refl
