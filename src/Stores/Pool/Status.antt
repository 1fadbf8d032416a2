-- ===== src/Stores/Pool/Status.antt =====
-- How the pool shares the time of a status read, and what it takes for a no.
use native.Mathlib.Nat.{le-div_iff_mul-le, mul-div-le, mul-le-mul_left}
use den_scout.Prelude.{
  ℕ, suc, ◌+◌, ◌-◌, ◌*◌, ◌/◌, ◌≤◌, Bool, false, ◌||◌, Option, none, some, List, [], ◌∷◌, ◌++◌, ◌≡◌,
  ap, ◌≢◌, ◌&&◌, inl, inr, length, Each, arith, Bool-cases, if◌then◌else◌,
}
use den_scout.Stores.{
  ResolveTarget, StatusAnswer, status_no, status_downloading, status_unknown, Store,
}
use den_scout.Stores.Pool.Detail.{
  Clock, ctx_err, has_deadline, share, answer_of, is_downloading, is_unsure, status_from,
  status_detail,
}

-- A share of what is left is no less than what each had, and leaves as much to the others.
share_fair : (n q left : ℕ) → suc n * q ≤ left → (q ≤ left / suc n) × (left / suc n + n * q ≤ left)
share_fair n q left h =
    let whole = suc n * (left / suc n) in
    let most : q ≤ left / suc n = (le-div_iff_mul-le (omega arith)).1 (omega (arith, h)) in
    let others : n * q ≤ n * (left / suc n) = mul-le-mul_left n most in
    let fits : suc n * (left / suc n) ≤ left = mul-div-le left (suc n) in
    (most, omega (arith, others, fits))

module _ {W : Type 0} (clock : Clock W) (t : ResolveTarget) where
  -- A status read keeps a fact about the state if it is given at least `least` of time, and it is back by
  -- its deadline.
  pub record IsFair (least : ℕ) (Keeps : W → Type 0) (st : Store W) : Type 0 where
    pub keeps :
        (w : W) (end : ℕ)
        → Keeps w
        → clock.now w + least ≤ end
        → Keeps (answer_of t st (some end) w).0
    pub back_in_time :
        (w : W) (end : ℕ) → clock.now w ≤ end → clock.now (answer_of t st (some end) w).0 ≤ end

  module _ (Keeps : W → Type 0) (end : ℕ) where
    status_from-fair :
        (least : ℕ) (stores unknown : List (Store W)) (w : W)
        → Each (IsFair least Keeps) stores
        → Keeps w
        → clock.now w + length stores * least ≤ end
        → Keeps (status_from clock t (some end) stores unknown w).0
    unfolding status_from
    status_from-fair least [] unknown w fair k room = k
    status_from-fair least (st ∷ stores) unknown w fair k room =
        let n = length stores in
        let (most, others) = share_fair n least (end - clock.now w) (omega (arith, room)) in
        let slice = clock.now w + (end - clock.now w) / suc n in
        let w' = (answer_of t st (some slice) w).0 in
        let answer = (answer_of t st (some slice) w).1.1 in
        let k' = fair.0.keeps w slice k (omega (arith, most)) in
        let back = fair.0.back_in_time w slice (omega arith) in
        let unsure =
          is_unsure answer (ctx_err clock (some slice) w' || ctx_err clock (some end) w') in
        elim (Bool-cases (ctx_err clock (some end) w)) [
          | inl e ↦ rw (e, status_from) k
          | inr e ↦ elim (Bool-cases (is_downloading answer)) [
            | inl e' ↦ rw (e, status_from, e') k'
            | inr e' ↦
                rw (e, status_from, e')
                  (status_from-fair least stores (if unsure then unknown ++ st ∷ [] else unknown) w'
                    fair.1 k' (omega (arith, others, back, room)))
          ]
        ]

    -- However the time is spent, each store that is asked is given at least an even share of the whole
    -- budget, as long as each is back by the deadline of its slice: a fact that every store keeps when it is
    -- given that much is kept by the whole read.
    pub status_detail-fair :
        (stores : List (Store W)) (w : W)
        → Each (IsFair ((end - clock.now w) / length stores) Keeps) stores
        → Keeps w
        → clock.now w ≤ end
        → Keeps (status_detail clock t (some end) stores w).0
    unfolding status_detail
    status_detail-fair stores w fair k early =
        status_from-fair ((end - clock.now w) / length stores) stores [] w fair k
          (omega (arith, mul-div-le (end - clock.now w) (length stores), early))

  -- In its turn each store has answered no, before the time of its slice and of the caller ran out.
  unfoldable pub AllSayNo : Option ℕ → List (Store W) → W → Type 0
  AllSayNo deadline [] w = Unit
  AllSayNo deadline (st ∷ stores) w =
      let slice = share clock deadline (suc (length stores)) w in
      let (w', (status, answer)) = answer_of t st slice w in
      (answer ≡ status_no)
      × (ctx_err clock slice w' ≡ false)
      × (ctx_err clock deadline w' ≡ false)
      × AllSayNo deadline stores w'

  not_nil : (xs : List (Store W)) (x : Store W) (ys : List (Store W)) → xs ++ x ∷ ys ≢ []
  not_nil [] x ys h = ground (arith, h)
  not_nil (a ∷ xs) x ys h = ground (arith, h)

  definite :
      (answer : StatusAnswer) (cut cut' : Bool)
      → is_downloading answer ≡ false
      → is_unsure answer (cut || cut') ≡ false
      → (answer ≡ status_no) × (cut ≡ false) × (cut' ≡ false)
  definite status_no cut cut' h k = ground (arith, k)
  definite status_downloading cut cut' h k = ground (arith, h)
  definite status_unknown cut cut' h k = ground (arith, k)

  status_from-no :
      (deadline : Option ℕ) (stores unknown : List (Store W)) (w w' : W)
      → status_from clock t deadline stores unknown w ≡ (w', (none, []))
      → (unknown ≡ []) × AllSayNo deadline stores w
  unfolding status_from AllSayNo
  status_from-no deadline [] unknown w w' h = (ap (λ r. r.1.1) h, tt)
  status_from-no deadline (st ∷ stores) unknown w w' h =
      let slice = share clock deadline (suc (length stores)) w in
      let w1 = (answer_of t st slice w).0 in
      let answer = (answer_of t st slice w).1.1 in
      let cut = ctx_err clock slice w1 in
      let cut' = ctx_err clock deadline w1 in
      elim (Bool-cases (has_deadline deadline && ctx_err clock deadline w)) [
        | inl e ↦ absurd (not_nil unknown _ _ (ap (λ r. r.1.1) (rw (e, status_from) at h)))
        | inr e ↦ elim (Bool-cases (is_downloading answer)) [
          | inl e' ↦ ground (arith, rw (e, status_from, e') at h)
          | inr e' ↦ elim (Bool-cases (is_unsure answer (cut || cut'))) [
            | inl e2 ↦
                let rest =
                  status_from-no deadline stores (unknown ++ st ∷ []) w1 w'
                    (rw (e, status_from, e', e2) at h) in
                absurd (not_nil unknown _ _ rest.0)
            | inr e2 ↦
                let rest =
                  status_from-no deadline stores unknown w1 w' (rw (e, status_from, e', e2) at h) in
                let (said, kept, kept') = definite answer cut cut' e' e2 in
                (rest.0, (said, kept, kept', rest.1))
          ]
        ]
      ]

  -- When a status read finds that no store is fetching the release and lists none to ask again, which is
  -- what an add waits for, then each store was asked in turn and said no, none of them after its time.
  pub status_detail-no :
      (deadline : Option ℕ) (stores : List (Store W)) (w w' : W)
      → status_detail clock t deadline stores w ≡ (w', (none, []))
      → AllSayNo deadline stores w
  unfolding status_detail
  status_detail-no deadline stores w w' h = (status_from-no deadline stores [] w w' h).1
