-- ===== src/Stores/Pool/Tests.antt =====
-- The pool on concrete stores.
use mathlib.Core.List.{Perm}
use den_scout.Prelude.{
  ℕ, ◌+◌, ◌-◌, ◌≤◌, ◌<◌, ◌≡◌, refl, ◌&&◌, ◌||◌, not, Bool, true, false, Option, none, some, List,
  [], ◌∷◌, ltb, leb, ◌==◌, min, is_nil, length, Each, suc, if◌then◌else◌, arith,
}
use den_scout.Prelude.Assoc.{lookup, insert}
use den_scout.Prelude.Sorting.{sort_by}
use den_scout.Stores.{
  Service, torbox, real_debrid, premiumize, ResolveTarget, unavailable, dead_link, Resolved, link,
  failed, StatusAnswer, status_no, status_unknown, Store,
}
use den_scout.Stores.Pool.{
  held_by, is_known, truth_of, ordered, order_from, each_service, mem_service, is_coming,
  is_unavailable, resolve_preferring, resolve_each, verdict, note_holders, note_answers, note_reply,
  note_replies, mark_known,
}
use den_scout.Stores.Pool.Detail.{Clock, no_status, answer_of, status_from, status_detail}
use den_scout.Stores.Pool.Order.{sooner, ordered-sort_by}
use den_scout.Stores.Pool.Truth.{
  Replies, AreMaps, sayers, votes, truth_stores, heard, SaysNo, truth_of-account, truth_of-no,
}
use den_scout.Stores.Pool.Resolve.{
  first, attempts, conclude, IsKeptBy, resolve_preferring-attempts, resolve_preferring-dead,
}
use den_scout.Stores.Pool.Status.{IsFair, AllSayNo, status_detail-fair, status_detail-no}

-- The time, how many adds were asked for, and the shortest slice that a status read was given.
record World : Type 0 where
  now : ℕ
  adds : ℕ
  shortest : ℕ

abbrev clock : Clock World
clock = record { now = λ w. w.now; cancelled = λ w. false }

abbrev reading : Option ℕ → ℕ → World → World
reading none takes w = record w { now = w.now + takes }
reading (some end) takes w = record w {
  now = (if ltb end (w.now + takes) then end else w.now + takes);
  shortest = min w.shortest (end - w.now);
}

-- A store that answers so much later, with a status read no later than its deadline.
abbrev acting : Service → Resolved → StatusAnswer → ℕ → Store World
acting svc answer said takes = record {
  service = svc;
  cache_check = λ hashes. none;
  resolve = λ t w. (record w { now = w.now + takes; adds = suc w.adds }, answer);
  status = λ end t w. (w, none);
  status_answer = some (λ end t w. (reading end takes w, (no_status, said)));
}

abbrev gone : Store World
gone = acting torbox (failed (dead_link "gone")) status_no 3

abbrev away : Store World
away = acting real_debrid (failed (unavailable real_debrid "busy" 503)) status_unknown 90

abbrev serving : Store World
serving = acting premiumize (link "https://file") status_no 5

abbrev three : List (Store World)
three = gone ∷ away ∷ serving ∷ []

abbrev target : ResolveTarget
target = record {
  info_hash = "aa";
  file_idx = none;
  season = none;
  episode = none;
  no_add = false;
  prefetch = false;
  release_size = 0;
  list_files = false;
  title = "";
  imdb = "";
}

abbrev start : World
start = record { now = 0; adds = 0; shortest = 1000 }

abbrev late : World → Bool
late w = leb 1000 w.now

-- Premiumize twice, then TorBox: the third store is asked first.
asked_first : ordered three (premiumize ∷ premiumize ∷ torbox ∷ []) ≡ serving ∷ gone ∷ away ∷ []
unfolding ordered order_from each_service mem_service
asked_first = refl

ordered-sort_by_example :
    (ordered three (premiumize ∷ torbox ∷ []) ≡ sort_by (sooner (premiumize ∷ torbox ∷ [])) three)
    × Perm (ordered three (premiumize ∷ torbox ∷ [])) three
ordered-sort_by_example = ordered-sort_by three (premiumize ∷ torbox ∷ [])

abbrev two_replies : Replies
two_replies =
    (torbox, ("aa", false) ∷ ("bb", true) ∷ [])
    ∷ (real_debrid, [])
    ∷ (premiumize, ("aa", false) ∷ [])
    ∷ []

two_replies-AreMaps : AreMaps two_replies
unfolding lookup
two_replies-AreMaps = ((refl, (refl, tt)), (tt, ((refl, tt), tt)))

truth_of-account_example :
    (held_by (truth_of two_replies).0 "bb" ≡ sayers "bb" two_replies)
    × (is_known (truth_of two_replies).0 "bb" ≡ (
        ltb 0 (votes "bb" two_replies)
        && (not (is_nil (sayers "bb" two_replies))
            || votes "bb" two_replies == truth_stores two_replies)))
    × ((truth_of two_replies).0.complete ≡ (heard two_replies == truth_stores two_replies))
    × ((truth_of two_replies).1 ≡ ltb 0 (heard two_replies))
truth_of-account_example = truth_of-account "bb" two_replies two_replies-AreMaps

known_no : is_known (truth_of two_replies).0 "aa" ≡ true
unfolding is_known truth_of note_replies note_reply note_holders note_answers mark_known insert
    lookup
known_no = refl

held_no : held_by (truth_of two_replies).0 "aa" ≡ []
unfolding held_by truth_of note_replies note_reply note_holders note_answers mark_known insert
    lookup
held_no = refl

truth_of-no_example : Each (SaysNo "aa") two_replies × (0 < truth_stores two_replies)
truth_of-no_example = truth_of-no "aa" two_replies two_replies-AreMaps known_no held_no

resolve_preferring-attempts_example :
    resolve_preferring late target three (real_debrid ∷ []) start
    ≡ conclude late
        (first is_coming (attempts target (ordered three (real_debrid ∷ [])) start).errors)
        (first is_unavailable (attempts target (ordered three (real_debrid ∷ [])) start).errors)
        (attempts target (ordered three (real_debrid ∷ [])) start)
resolve_preferring-attempts_example =
    resolve_preferring-attempts late target three (real_debrid ∷ []) start

abbrev one_gone : List (Store World)
one_gone = gone ∷ gone ∷ []

abbrev after_both : World
after_both = record { now = 6; adds = 2; shortest = 1000 }

both_gone :
    resolve_preferring late target one_gone [] start
    ≡ (after_both, failed (dead_link "no store could resolve"))
unfolding resolve_preferring ordered resolve_each verdict
both_gone = refl

resolve_preferring-dead_example :
    (length (attempts target (ordered one_gone []) start).errors ≡ length one_gone)
    × Each (λ e. is_coming e ≡ false) (attempts target (ordered one_gone []) start).errors
    × Each (λ e. is_unavailable e ≡ false) (attempts target (ordered one_gone []) start).errors
    × (late after_both ≡ false)
resolve_preferring-dead_example =
    resolve_preferring-dead late target one_gone [] start after_both "no store could resolve"
      both_gone

-- A holder, which serves what the account has and adds nothing.
abbrev holder : Store World
holder = record serving { resolve = λ t w. (w, link "https://held") }

abbrev NothingAdded : World → Type 0
NothingAdded w = w.adds ≡ 0

held_only-IsKeptBy :
    Each
      (λ (st : Store World).
        mem_service st.service (premiumize ∷ []) ≡ true → IsKeptBy target NothingAdded st)
      (gone ∷ holder ∷ [])
unfolding mem_service
held_only-IsKeptBy = (λ e. ground (arith, e), (λ e w k. k, tt))

abbrev HadThirty : World → Type 0
HadThirty w = 30 ≤ w.shortest

acting-IsFair :
    (svc : Service) (answer : Resolved) (said : StatusAnswer) (takes : ℕ)
    → IsFair clock target 30 HadThirty (acting svc answer said takes)
unfolding answer_of
acting-IsFair svc answer said takes = record {
  keeps = λ w end k room. omega (arith, k, room);
  back_in_time = λ w end early. ground (arith, early);
}

-- The second store takes all that it is given, and the third still has its share.
status_detail-fair_example : HadThirty (status_detail clock target (some 90) three start).0
status_detail-fair_example =
    status_detail-fair clock target HadThirty 90 three start
      (
        acting-IsFair torbox (failed (dead_link "gone")) status_no 3,
        (
          acting-IsFair real_debrid (failed (unavailable real_debrid "busy" 503)) status_unknown 90,
          (acting-IsFair premiumize (link "https://file") status_no 5, tt),
        ),
      )
      (omega arith) (omega arith)

abbrev read_both : World
read_both = record { now = 8; adds = 0; shortest = 45 }

both_say_no :
    status_detail clock target (some 90) (gone ∷ serving ∷ []) start ≡ (read_both, (none, []))
unfolding status_detail status_from answer_of
both_say_no = refl

status_detail-no_example : AllSayNo clock target (some 90) (gone ∷ serving ∷ []) start
status_detail-no_example =
    status_detail-no clock target (some 90) (gone ∷ serving ∷ []) start read_both both_say_no
