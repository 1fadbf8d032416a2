-- ===== src/Stores/Pool.antt =====
-- internal/scout/stores.go: StorePool, which asks the stores of one viewer.
--
-- The stores are parameters: what a call answers, and what it does to the state `W`. The cache checks run
-- side by side and do not depend on each other, so each is asked once and the replies are read in the
-- order of the stores. A failed check leaves the nil map, which is the empty one.
pub mod Order
pub mod Truth
pub mod Resolve
pub mod Detail
pub mod Status
mod Tests
use den_scout.Prelude.{
  ℕ, suc, ◌+◌, ◌-◌, ◌/◌, Bool, true, false, ◌&&◌, ◌||◌, not, String, Option, none, some, List, [],
  ◌∷◌, ◌++◌, leb, ltb, ◌==◌, keep, length, if◌then◌else◌,
}
use den_scout.Prelude.Assoc.{lookup, insert}
use den_scout.Stores.{
  Service, torbox, real_debrid, premiumize, same_service, ResolveTarget, StoreError, add_in_flight,
  add_queued, unavailable, scout_side, dead_link, failure, Resolved, link, failed, StoreStatus,
  StatusAnswer, status_no, status_downloading, status_unknown, Store,
}

-- `truth.holders`, and `answers`.
abbrev pub Holders : Type 0
Holders = List (String × List Service)

pub record CacheTruth : Type 0 where
  pub holders : Holders
  pub known : List (String × Bool)
  pub complete : Bool

-- `m[hash]` of a map of slices or of counts: the zero value where the key is missing.
abbrev pub holders_of : Option (List Service) → List Service
holders_of none = []
holders_of (some services) = services

abbrev pub count_of : Option ℕ → ℕ
count_of none = 0
count_of (some n) = n

unfoldable pub held_by : CacheTruth → String → List Service
held_by truth hash = holders_of (lookup hash truth.holders)

abbrev pub is_some_true : Option Bool → Bool
is_some_true (some true) = true
is_some_true _ = false

unfoldable pub is_known : CacheTruth → String → Bool
is_known truth hash = is_some_true (lookup hash truth.known)

abbrev pub is_cache_truth_service : Service → Bool
is_cache_truth_service torbox = true
is_cache_truth_service premiumize = true
is_cache_truth_service real_debrid = false

-- One store's reply, added to the holders and to the count of answers.
unfoldable pub note_holders : Service → List (String × Bool) → Holders → Holders
note_holders svc [] holders = holders
note_holders svc ((hash, cached) ∷ m) holders =
    note_holders svc m (
      if cached
      then insert hash (holders_of (lookup hash holders) ++ svc ∷ []) holders
      else holders)

unfoldable pub note_answers : List (String × Bool) → List (String × ℕ) → List (String × ℕ)
note_answers [] answers = answers
note_answers ((hash, cached) ∷ m) answers =
    note_answers m (insert hash (suc (count_of (lookup hash answers))) answers)

pub record Tally : Type 0 where
  pub holders : Holders
  pub answers : List (String × ℕ)
  pub stores : ℕ
  pub answered : ℕ

unfoldable pub note_reply : Service → List (String × Bool) → Tally → Tally
unfolding note_holders note_answers
note_reply svc m tally =
    if not (is_cache_truth_service svc)
    then record tally { holders = note_holders svc m tally.holders }
    else if length m == 0
    then record tally { stores = suc tally.stores }
    else record {
      holders = note_holders svc m tally.holders;
      answers = note_answers m tally.answers;
      stores = suc tally.stores;
      answered = suc tally.answered;
    }

unfoldable pub note_replies : List (Service × List (String × Bool)) → Tally → Tally
unfolding note_reply
note_replies [] tally = tally
note_replies ((svc, m) ∷ replies) tally = note_replies replies (note_reply svc m tally)

abbrev is_nonempty : Option (List Service) → Bool
is_nonempty (some (svc ∷ services)) = true
is_nonempty _ = false

-- The hashes that a store holds, or that every store which can tell has answered for.
unfoldable pub mark_known : ℕ → Holders → List (String × ℕ) → List (String × Bool)
mark_known stores holders [] = []
mark_known stores holders ((hash, n) ∷ answers) =
    if is_nonempty (lookup hash holders) || n == stores
    then (hash, true) ∷ mark_known stores holders answers
    else mark_known stores holders answers

abbrev pub no_tally : Tally
no_tally = record { holders = []; answers = []; stores = 0; answered = 0 }

-- The truth of the replies, and whether any store that can tell has answered at all.
unfoldable pub truth_of : List (Service × List (String × Bool)) → CacheTruth × Bool
unfolding note_replies mark_known
truth_of replies =
    let tally = note_replies replies no_tally in
    (
      record {
        holders = tally.holders;
        known = mark_known tally.stores tally.holders tally.answers;
        complete = tally.answered == tally.stores;
      },
      ltb 0 tally.answered,
    )

abbrev pub answer_or_nil : Option (List (String × Bool)) → List (String × Bool)
answer_or_nil none = []
answer_or_nil (some m) = m

module _ {W : Type 0} where
  unfoldable pub replies : List (Store W) → List String → List (Service × List (String × Bool))
  replies [] hashes = []
  replies (st ∷ stores) hashes =
      (st.service, answer_or_nil (st.cache_check hashes)) ∷ replies stores hashes

  unfoldable pub cache_check : List (Store W) → List String → CacheTruth × Bool
  unfolding truth_of replies
  cache_check stores [] = (record { holders = []; known = []; complete = true }, true)
  cache_check stores (hash ∷ hashes) = truth_of (replies stores (hash ∷ hashes))

unfoldable pub mem_service : Service → List Service → Bool
mem_service svc [] = false
mem_service svc (s ∷ services) = same_service s svc || mem_service svc services

-- `order`: the preferred services, each once.
unfoldable pub order_from : List Service → List Service → List Service
unfolding mem_service
order_from order [] = order
order_from order (svc ∷ preferred) =
    order_from (if mem_service svc order then order else order ++ svc ∷ []) preferred

module _ {W : Type 0} where
  abbrev pub of_service : Service → List (Store W) → List (Store W)
  of_service svc = keep (λ (st : Store W). same_service st.service svc)

  unfoldable pub each_service : List Service → List (Store W) → List (Store W)
  each_service [] stores = []
  each_service (svc ∷ order) stores = of_service svc stores ++ each_service order stores

  unfoldable pub ordered : List (Store W) → List Service → List (Store W)
  unfolding order_from each_service
  ordered stores [] = stores
  ordered stores (svc ∷ preferred) =
      let order = order_from [] (svc ∷ preferred) in
      each_service order stores
      ++ keep (λ (st : Store W). not (mem_service st.service order)) stores

abbrev pub is_coming : StoreError → Bool
is_coming (add_in_flight svc why) = true
is_coming add_queued = true
is_coming _ = false

abbrev pub is_unavailable : StoreError → Bool
is_unavailable (add_in_flight svc why) = true
is_unavailable (unavailable svc why status) = true
is_unavailable (scout_side why) = true
is_unavailable _ = false

-- The first error of a kind is kept.
abbrev pub first_of : Option StoreError → Bool → StoreError → Option StoreError
first_of (some held) test e = some held
first_of none test e = if test then some e else none

-- What a resolve that no store could serve says; `expired` is whether its clock ran out.
unfoldable pub verdict : Option StoreError → Option StoreError → Bool → StoreError
verdict (some coming) refused expired = coming
verdict none (some refused) expired = refused
verdict none none expired =
    if expired
    then scout_side "the resolve budget was spent before a store could answer"
    else dead_link "no store could resolve"

module _ {W : Type 0} (expired : W → Bool) (t : ResolveTarget) where
  unfoldable pub resolve_each :
      List (Store W) → Option StoreError → Option StoreError → W → W × Resolved
  unfolding verdict
  resolve_each [] coming refused w = (w, failed (verdict coming refused (expired w)))
  resolve_each (st ∷ stores) coming refused w =
      let (w', answer) = st.resolve t w in
      elim answer [
        | link l ↦ (w', link l)
        | failed e ↦
            resolve_each stores (first_of coming (is_coming e) e)
              (first_of refused (is_unavailable e) e) w'
      ]

  unfoldable pub resolve_preferring : List (Store W) → List Service → W → W × Resolved
  unfolding resolve_each ordered
  resolve_preferring stores preferred w = resolve_each (ordered stores preferred) none none w

abbrev pub cached_only_verdict : Option StoreError → StoreError
cached_only_verdict (some refused) = refused
cached_only_verdict none = dead_link "no holding store could resolve"

module _ {W : Type 0} (t : ResolveTarget) where
  unfoldable pub resolve_held : List Service → List (Store W) → Option StoreError → W → W × Resolved
  unfolding mem_service
  resolve_held holders [] refused w = (w, failed (cached_only_verdict refused))
  resolve_held holders (st ∷ stores) refused w = elim (mem_service st.service holders) [
    | false ↦ resolve_held holders stores refused w
    | true ↦
        let (w', answer) = st.resolve t w in
        elim answer [
          | link l ↦ (w', link l)
          | failed e ↦ resolve_held holders stores (first_of refused (is_unavailable e) e) w'
        ]
  ]

  unfoldable pub resolve_cached_only : List (Store W) → List Service → W → W × Resolved
  unfolding resolve_held
  resolve_cached_only stores [] w = (w, failed (dead_link "no store holds this release"))
  resolve_cached_only stores (svc ∷ holders) w = resolve_held (svc ∷ holders) stores none w
