-- ===== src/AddBudget/Refine.antt =====
-- The budget answers as the log does, whatever it has pruned.
use den_scout.Prelude.{
  ℕ, ◌+◌, ◌≤◌, ◌≡◌, refl, sym, ap, ap₂, ◌∙◌, Bool, true, String, List, [], ◌∷◌, arith, leb, length,
  if◌then◌else◌, str_eq, str_eq_iff, Option-cases, Bool-cases, inl, inr,
}
use den_scout.Prelude.Assoc.{
  lookup, insert, IsMap, lookup-insert, lookup-filter_values, insert-IsMap, filter_values-IsMap,
}
use den_scout.AddBudget.{
  AddBudget, Limits, live, ceiling, charges, has_live, drop_drained, take, refund, new_add_budget,
}
use den_scout.AddBudget.Live.{
  Desc, Desc-mono, live-Desc, live-live, has_live-false, tail_of, live-tail_of, tail_of-Desc,
}
use den_scout.AddBudget.Log
use den_scout.AddBudget.Log.{Log, Event, takes, refunds, log_step, log_run, log_end}

pub charges-insert :
    (k j : String) (ts : List ℕ) (m : List (String × List ℕ))
    → charges j (insert k ts m) ≡ (if str_eq k j then ts else charges j m)
unfolding charges
charges-insert k j ts m = ground (arith, lookup-insert k j ts m)

-- An account whose window has emptied may be forgotten: the live charges stay the same.
pub live-drop_drained :
    (l : Limits) (now : ℕ) (a : String) (m : List (String × List ℕ))
    → IsMap m
    → Desc now (charges a m)
    → (live l now (charges a (drop_drained l now m)) ≡ live l now (charges a m))
      × Desc now (charges a (drop_drained l now m))
unfolding charges drop_drained
live-drop_drained l now a m u d = elim (Option-cases (lookup a m)) [
  | inl e ↦ ground (arith, lookup-filter_values (has_live l now) a m u)
  | inr (ts, e) ↦
      ground (arith, lookup-filter_values (has_live l now) a m u, has_live-false l now now ts)
]

-- A budget and a log that agree: the log holds every charge that the budget's window still holds.
pub record Agrees (now : ℕ) (b : AddBudget) (log : Log) : Type 0 where
  pub is_map : IsMap b.spent
  pub ordered : (a : String) → Desc now (charges a b.spent)
  pub log_ordered : (a : String) → Desc now (log a)
  pub same : (a : String) → live b.limits now (charges a b.spent) ≡ live b.limits now (log a)

unfoldable pub step : AddBudget → ℕ → Event → AddBudget × Bool
step b now (takes account prefetch) = take b account prefetch now
step b now (refunds account) = (refund b account, true)

unfoldable pub run : AddBudget → ℕ → List (ℕ × Event) → AddBudget × List Bool
run b now [] = (b, [])
run b now ((gap, e) ∷ es) =
    let (b', answer) = step b (now + gap) e in
    let (b'', answers) = run b' (now + gap) es in (b'', answer ∷ answers)

module _ (b : AddBudget) (log : Log) (now gap : ℕ) (v : Agrees now b log) where
  later : Agrees (now + gap) b log
  later = record {
    is_map = v.is_map;
    ordered = λ a. Desc-mono now (now + gap) (charges a b.spent) (omega arith) (v.ordered a);
    log_ordered = λ a. Desc-mono now (now + gap) (log a) (omega arith) (v.log_ordered a);
    same = λ a.
        sym (live-live b.limits now (now + gap) (charges a b.spent) (omega arith))
        ∙ ap (live b.limits (now + gap)) (v.same a)
        ∙ live-live b.limits now (now + gap) (log a) (omega arith);
  }

module _ (b : AddBudget) (log : Log) (now : ℕ) (v : Agrees now b log) where
  kept_lem :
      (a : String)
      → live b.limits now (charges a (drop_drained b.limits now b.spent))
        ≡ live b.limits now (log a)
  kept_lem a = (live-drop_drained b.limits now a b.spent v.is_map (v.ordered a)).0 ∙ v.same a

  take-answer :
      (a : String) (p : Bool) → (take b a p now).1 ≡ (log_step b.limits log now (takes a p)).1
  unfolding take log_step
  take-answer a p = rw (kept_lem a) (ground arith)

  take-limits : (a : String) (p : Bool) → (take b a p now).0.limits ≡ b.limits
  unfolding take
  take-limits a p = ground arith

  -- One account written on both sides, over a map that agrees with the budget's.
  written :
      (a : String) (m : List (String × List ℕ)) (log' : Log) (ts us : List ℕ)
      → IsMap m
      → ((x : String) → Desc now (charges x m))
      → ((x : String) → live b.limits now (charges x m) ≡ live b.limits now (log x))
      → ((x : String) → log' x ≡ (if str_eq a x then us else log x))
      → Desc now ts
      → Desc now us
      → live b.limits now ts ≡ live b.limits now us
      → Agrees now (record b { spent = insert a ts m }) log'
  written a m log' ts us u dm sm e dt du s = record {
    is_map = insert-IsMap a ts m u;
    ordered = λ x. rw (charges-insert a x ts m) (ground (arith, dm x));
    log_ordered = λ x. rw (e x) (ground (arith, v.log_ordered x));
    same = λ x. rw (charges-insert a x ts m, e x) (ground (arith, sm x));
  }

  drained_ordered : (x : String) → Desc now (charges x (drop_drained b.limits now b.spent))
  drained_ordered x = (live-drop_drained b.limits now x b.spent v.is_map (v.ordered x)).1

  drained_IsMap : IsMap (drop_drained b.limits now b.spent)
  unfolding drop_drained
  drained_IsMap = filter_values-IsMap (has_live b.limits now) b.spent v.is_map

  kept_Desc : (a : String) → Desc now (live b.limits now (log a))
  kept_Desc a = live-Desc b.limits now now (log a) (v.log_ordered a)

  kept_twice :
      (a : String) → live b.limits now (live b.limits now (log a)) ≡ live b.limits now (log a)
  kept_twice a = live-live b.limits now now (log a) (omega arith)

  take-Agrees :
      (a : String) (p : Bool)
      → Agrees now (take b a p now).0 (log_step b.limits log now (takes a p)).0
  unfolding take log_step
  take-Agrees a p =
      rw (kept_lem a)
        (elim (Bool-cases (leb (ceiling b.limits p) (length (live b.limits now (log a))))) [
          | inl full ↦ rw full (
              written a _ log (live b.limits now (log a)) (log a) drained_IsMap drained_ordered
                kept_lem (λ x. ground (arith, str_eq_iff a x)) (kept_Desc a) (v.log_ordered a)
                (kept_twice a))
          | inr room ↦ rw room (
              written a _ _ (now ∷ live b.limits now (log a)) (now ∷ log a) drained_IsMap
                drained_ordered kept_lem (λ x. refl) (omega arith, kept_Desc a)
                (omega arith, v.log_ordered a) (ground (arith, kept_twice a)))
        ])

  same_tail :
      (a : String) (t : ℕ) (ts : List ℕ)
      → charges a b.spent ≡ t ∷ ts
      → live b.limits now ts ≡ live b.limits now (tail_of (log a))
  unfolding tail_of
  same_tail a t ts e =
      rw (live-tail_of b.limits now now (log a) (v.log_ordered a), ← v.same a, e)
        (live-tail_of b.limits now now (t ∷ ts) (ground (arith, v.ordered a)))

  same_empty :
      (a : String)
      → charges a b.spent ≡ []
      → live b.limits now (log a) ≡ live b.limits now (tail_of (log a))
  unfolding tail_of
  same_empty a e = rw (live-tail_of b.limits now now (log a) (v.log_ordered a), ← v.same a, e)

  refund_cases :
      (a : String) (ts : List ℕ)
      → charges a b.spent ≡ ts
      → Agrees now (refund b a) (log_step b.limits log now (refunds a)).0
  unfolding refund log_step tail_of
  refund_cases a [] e =
      rw (e, refund)
        (record {
          is_map = v.is_map;
          ordered = v.ordered;
          log_ordered =
              λ x. ground (arith, v.log_ordered x, tail_of-Desc now (log a) (v.log_ordered a));
          same = λ x. ground (arith, str_eq_iff a x, v.same x, v.same a, same_empty a e);
        })
  refund_cases a (t ∷ ts) e =
      rw (e, refund)
        (written a b.spent _ ts (tail_of (log a)) v.is_map v.ordered v.same (λ x. refl)
          (tail_of-Desc now (t ∷ ts) (rw e at (v.ordered a)))
          (tail_of-Desc now (log a) (v.log_ordered a)) (same_tail a t ts e))

  refund-Agrees : (a : String) → Agrees now (refund b a) (log_step b.limits log now (refunds a)).0
  refund-Agrees a = refund_cases a (charges a b.spent) refl

  refund-limits : (a : String) → (refund b a).limits ≡ b.limits
  unfolding refund
  refund-limits a = ground arith

step-Agrees :
    (b : AddBudget) (log : Log) (now gap : ℕ) (e : Event)
    → Agrees now b log
    → Agrees (now + gap) (step b (now + gap) e).0 (log_step b.limits log (now + gap) e).0
unfolding step
step-Agrees b log now gap (takes a p) v = take-Agrees b log (now + gap) (later b log now gap v) a p
step-Agrees b log now gap (refunds a) v = refund-Agrees b log (now + gap) (later b log now gap v) a

step-answer :
    (b : AddBudget) (log : Log) (now gap : ℕ) (e : Event)
    → Agrees now b log
    → (step b (now + gap) e).1 ≡ (log_step b.limits log (now + gap) e).1
unfolding step log_step
step-answer b log now gap (takes a p) v =
    unfold log_step in take-answer b log (now + gap) (later b log now gap v) a p
step-answer b log now gap (refunds a) v = refl

step-limits : (b : AddBudget) (now : ℕ) (e : Event) → (step b now e).0.limits ≡ b.limits
unfolding step take refund
step-limits b now (takes a p) = ground arith
step-limits b now (refunds a) = ground arith

-- Whatever was pruned on the way, a budget that agrees with the log answers a history of adds and
-- refunds as the log does, and agrees with it at the end.
pub run-log_run :
    (b : AddBudget) (log : Log) (now : ℕ) (es : List (ℕ × Event))
    → Agrees now b log
    → ((run b now es).1 ≡ (log_run b.limits log now es).1)
      × Agrees (log_end now es) (run b now es).0 (log_run b.limits log now es).0
unfolding run log_run log_end
run-log_run b log now [] v = (refl, v)
run-log_run b log now ((gap, e) ∷ es) v =
    let b' = (step b (now + gap) e).0 in
    let log' = (log_step b.limits log (now + gap) e).0 in
    let kept : b'.limits ≡ b.limits = step-limits b (now + gap) e in
    let agrees : Agrees (now + gap) b' log' = step-Agrees b log now gap e v in
    let rest = rw kept at (run-log_run b' log' (now + gap) es agrees) in
    (ap₂ ◌∷◌ (step-answer b log now gap e v) rest.0, rest.1)

pub new-Agrees : (window limit now : ℕ) → Agrees now (new_add_budget window limit) (λ a. [])
unfolding new_add_budget charges lookup
new-Agrees window limit now = record {
  is_map = tt;
  ordered = λ a. tt;
  log_ordered = λ a. tt;
  same = λ a. refl;
}

-- A new budget answers a whole history as the log does, and never lets more than `limit` charges of an
-- account stand inside one window: at the history's end, the log of every charge made and not
-- refunded holds at most `limit` of them.
pub run-within_limit :
    (window limit now : ℕ) (es : List (ℕ × Event)) (account : String)
    → let b = new_add_budget window limit in
      let logged = log_run b.limits (λ a. []) now es in
      ((run b now es).1 ≡ logged.1)
      × (length (live b.limits (log_end now es) (logged.0 account)) ≤ b.limit)
run-within_limit window limit now es account =
    let b = new_add_budget window limit in
    (
      (run-log_run b (λ a. []) now es (new-Agrees window limit now)).0,
      (Log.log_run-Inv b.limits (λ a. []) now es (Log.empty-Inv b.limits now)).within account,
    )
