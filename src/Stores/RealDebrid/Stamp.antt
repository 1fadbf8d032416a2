-- ===== src/Stores/RealDebrid/Stamp.antt =====
-- What an add that is not answered writes.
use den_scout.Prelude.{
  some, ℕ, ◌≡◌, ◌≢◌, sym, ap, subst, ◌∙◌, Bool, true, false, String, Option, inl, inr, arith,
  Bool-cases, if◌then◌else◌,
}
use den_scout.Stores.{real_debrid, StoreError}
use den_scout.Stores.Memory.{
  Kind, stamp, adding, flag, add_attempt_ttl, outcome_unknown, refused, Key, Value, Cache, Cause,
  cancelled, is_cancellation, key_for, add_outcome_unknown, note_unknown_outcome, unknown_outcome,
  record_refusal, refusal_is_about_the_account, account_refused_key,
}
use den_scout.Stores.RealDebrid.{AddReply, no_answer, unread, answered, hear, add_magnet}
use den_scout.Stores.RealDebrid.Gates.{is_open, marked, add_magnet-gates}

abbrev pub is_silent : AddReply → Bool
is_silent (answered status id detail) = false
is_silent _ = true

abbrev pub cause_of : AddReply → Cause
cause_of (no_answer err) = err
cause_of (unread err) = err
cause_of (answered status id detail) = cancelled

abbrev pub is_stamp : Option Value → Bool
is_stamp (some (stamp at)) = true
is_stamp _ = false

module _ {C : Type 0} (cache : Cache C) where
  -- One state after another, by writes under keys that are not of a kind.
  pub data Spares (kind : Kind) : C → C → Type 0 where
    same : {c : C} → Spares kind c c
    wrote :
        (k : Key) (v : Value) (ttl now : ℕ) {c c' : C}
        → k.kind ≢ kind
        → Spares kind (cache.put k v ttl now c) c'
        → Spares kind c c'

module _ {C : Type 0} (cache : Cache C) (token info_hash : String) where
  abbrev pub is_stamped : ℕ → C → Bool
  is_stamped now c =
      is_stamp (cache.get (key_for real_debrid token info_hash outcome_unknown) now c)

  if-Spares :
      (b : Bool) {c x y : C}
      → Spares cache outcome_unknown c x
      → Spares cache outcome_unknown c y
      → Spares cache outcome_unknown c (if b then x else y)
  if-Spares true v w = v
  if-Spares false v w = w

  put-Spares :
      (k : Key) (v : Value) (ttl now : ℕ) (c : C)
      → k.kind ≢ outcome_unknown
      → Spares cache outcome_unknown c (cache.put k v ttl now c)
  put-Spares k v ttl now c ne = wrote k v ttl now ne same

  record_refusal-Spares :
      (err : Cause) (now : ℕ) (c : C)
      → Spares cache outcome_unknown c (record_refusal cache real_debrid token info_hash err now c)
  unfolding record_refusal
  record_refusal-Spares err now c = if-Spares _ same (
      if-Spares (refusal_is_about_the_account err)
        (put-Spares (account_refused_key real_debrid token) _ _ _ c (λ e. ground (arith, e)))
        (put-Spares (key_for real_debrid token info_hash refused) _ _ _ c (λ e. ground (arith, e))))

  hear-Spares :
      (reply : AddReply) (later : ℕ) (c : C)
      → is_silent reply ≡ true
      → is_stamped later c ≡ true
      → Spares cache outcome_unknown c (hear cache token info_hash reply later c).0
  unfolding hear unknown_outcome
  hear-Spares (no_answer err) later c silent h =
      let stays : note_unknown_outcome cache real_debrid token info_hash later c ≡ c =
        unfold note_unknown_outcome in ground (arith, h) in
      let after = (hear cache token info_hash (no_answer err) later c).0 in
      elim (Bool-cases (add_outcome_unknown cache real_debrid token info_hash later c)) [
        | inl e ↦
            let still : after ≡ c = ground (arith, e, stays) in
            subst (Spares cache outcome_unknown c) (sym still) same
        | inr e ↦
            let written : after ≡ record_refusal cache real_debrid token info_hash err later c =
              ground (arith, e) in
            subst (Spares cache outcome_unknown c) (sym written) (record_refusal-Spares err later c)
      ]
  hear-Spares (unread err) later c silent h =
      let stays : note_unknown_outcome cache real_debrid token info_hash later c ≡ c =
        unfold note_unknown_outcome in ground (arith, h) in
      let still : (hear cache token info_hash (unread err) later c).0 ≡ c = ground (arith, stays) in
      subst (Spares cache outcome_unknown c) (sym still) same
  hear-Spares (answered status id detail) later c silent h = ground (arith, silent)

  hear_cancelled :
      (reply : AddReply) (later : ℕ) (c : C)
      → is_silent reply ≡ true
      → is_cancellation (cause_of reply) ≡ true
      → (hear cache token info_hash reply later c).0 ≡ c
  unfolding hear unknown_outcome record_refusal
  hear_cancelled (no_answer err) later c silent left = ground (arith, left)
  hear_cancelled (unread err) later c silent left = ground (arith, left)
  hear_cancelled (answered status id detail) later c silent left = ground (arith, silent)

  marked_first :
      (now : ℕ) (c : C) {after : C}
      → Spares cache outcome_unknown (marked cache token info_hash now c) after
      → Spares cache outcome_unknown c after
  marked_first now c v =
      wrote (key_for real_debrid token info_hash adding) flag add_attempt_ttl now
        (λ e. ground (arith, e)) v

  -- The deadline of a release runs from the first silence: a request whose add is not answered, and that
  -- reads a stamp when that is heard, writes under other keys alone, so it does not put the stamp off.
  pub silence_keeps_the_stamp :
      (denied : Option StoreError) (reply : AddReply) (now later : ℕ) (c : C)
      → is_silent reply ≡ true
      → is_stamped later (marked cache token info_hash now c) ≡ true
      → Spares cache outcome_unknown c (add_magnet cache token info_hash denied reply now later c).0
  silence_keeps_the_stamp denied reply now later c silent h =
      let c' = marked cache token info_hash now c in
      let (stops, written, dead, coming) =
        add_magnet-gates cache token info_hash denied reply now later c in
      subst (Spares cache outcome_unknown c) (sym written) (
        if-Spares (is_open cache token info_hash denied now c)
          (marked_first now c (hear-Spares reply later c' silent h)) same)

  -- A viewer who leaves condemns nothing: a request whose add ends in a cancellation before it is answered
  -- writes the marker of the add, if it sends one, and nothing else: no stamp, and no refusal.
  pub leaving_condemns_nothing :
      (denied : Option StoreError) (reply : AddReply) (now later : ℕ) (c : C)
      → is_silent reply ≡ true
      → is_cancellation (cause_of reply) ≡ true
      → (add_magnet cache token info_hash denied reply now later c).0 ≡ (
          if is_open cache token info_hash denied now c
          then marked cache token info_hash now c
          else c)
  leaving_condemns_nothing denied reply now later c silent left =
      let c' = marked cache token info_hash now c in
      let (stops, written, dead, coming) =
        add_magnet-gates cache token info_hash denied reply now later c in
      written
      ∙ ap (λ x. if is_open cache token info_hash denied now c then x else c)
          (hear_cancelled reply later c' silent left)
