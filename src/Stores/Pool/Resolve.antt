-- ===== src/Stores/Pool/Resolve.antt =====
-- What a play is answered, by what the stores of the pool answer.
use den_scout.Prelude.{
  suc, Bool, true, false, String, Option, none, some, List, [], ◌∷◌, ◌≡◌, refl, sym, ap, ap₂, ◌∙◌,
  ◌⊎◌, inl, inr, length, Each, arith, Bool-cases, if◌then◌else◌,
}
use den_scout.Prelude.Sorting.{length-sort_by}
use den_scout.Stores.{
  Service, ResolveTarget, StoreError, scout_side, dead_link, Resolved, link, failed, Store,
}
use den_scout.Stores.Pool.{
  mem_service, ordered, is_coming, is_unavailable, first_of, verdict, resolve_each,
  resolve_preferring, resolve_held, resolve_cached_only,
}
use den_scout.Stores.Pool.Order.{ordered-sort_by, sooner}

unfoldable pub first : (StoreError → Bool) → List StoreError → Option StoreError
first test [] = none
first test (e ∷ es) = if test e then some e else first test es

abbrev or_else : Option StoreError → Option StoreError → Option StoreError
or_else none o = o
or_else (some e) o = some e

-- What was asked of the stores, and how it ended.
pub record Attempts (W : Type 0) : Type 0 where
  pub errors : List StoreError
  pub after : W
  pub served : Option String

module _ {W : Type 0} (t : ResolveTarget) where
  -- The stores are asked in turn until one has a link.
  unfoldable pub attempts : List (Store W) → W → Attempts W
  attempts [] w = record { errors = []; after = w; served = none }
  attempts (st ∷ stores) w =
      let (w', answer) = st.resolve t w in
      elim answer [
        | link l ↦ record { errors = []; after = w'; served = some l }
        | failed e ↦ let rest = attempts stores w' in record rest { errors = e ∷ rest.errors }
      ]

Resolved-cases :
    (a : Resolved) → ((l : String) × (a ≡ link l)) ⊎ ((e : StoreError) × (a ≡ failed e))
Resolved-cases (link l) = inl (l, refl)
Resolved-cases (failed e) = inr (e, refl)

module _ {W : Type 0} (expired : W → Bool) where
  -- The link; or else the error of a release that is coming, that of a service that could not be asked, or
  -- one for the time that ran out or for a dead link, in that order.
  abbrev pub conclude : Option StoreError → Option StoreError → Attempts W → W × Resolved
  conclude coming refused a = elim a.served [
    | some l ↦ (a.after, link l)
    | none ↦ elim coming [
      | some e ↦ (a.after, failed e)
      | none ↦ elim refused [
        | some e ↦ (a.after, failed e)
        | none ↦
            if expired a.after
            then (
              a.after,
              failed (scout_side "the resolve budget was spent before a store could answer"),
            )
            else (a.after, failed (dead_link "no store could resolve"))
      ]
    ]
  ]

  concluded :
      (coming refused : Option StoreError) (w : W)
      → (w, failed (verdict coming refused (expired w)))
        ≡ conclude coming refused (record { errors = []; after = w; served = none })
  unfolding verdict
  concluded (some e) refused w = refl
  concluded none (some e) w = refl
  concluded none none w = ground arith

module _ {W : Type 0} (expired : W → Bool) (t : ResolveTarget) where
  abbrev outcome : Option StoreError → Option StoreError → Attempts W → W × Resolved
  outcome coming refused a =
      conclude expired (or_else coming (first is_coming a.errors))
        (or_else refused (first is_unavailable a.errors)) a

  or_else-none : (o : Option StoreError) → or_else o none ≡ o
  or_else-none none = refl
  or_else-none (some e) = refl

  or_else-first_of :
      (o : Option StoreError) (test : StoreError → Bool) (e : StoreError) (es : List StoreError)
      → or_else (first_of o (test e) e) (first test es) ≡ or_else o (first test (e ∷ es))
  unfolding first
  or_else-first_of none test e es = ground arith
  or_else-first_of (some held) test e es = refl

  outcome-cons :
      (coming refused : Option StoreError) (e : StoreError) (a : Attempts W)
      → outcome (first_of coming (is_coming e) e) (first_of refused (is_unavailable e) e) a
        ≡ outcome coming refused (record a { errors = e ∷ a.errors })
  outcome-cons coming refused e a =
      ap₂ (λ c r. conclude expired c r a) (or_else-first_of coming is_coming e a.errors)
        (or_else-first_of refused is_unavailable e a.errors)

  resolve_each-attempts :
      (stores : List (Store W)) (coming refused : Option StoreError) (w : W)
      → resolve_each expired t stores coming refused w
        ≡ outcome coming refused (attempts t stores w)
  unfolding resolve_each attempts first
  resolve_each-attempts [] coming refused w =
      concluded expired coming refused w
      ∙ ap₂ (λ c r. conclude expired c r (attempts t [] w)) (sym (or_else-none coming))
          (sym (or_else-none refused))
  resolve_each-attempts (st ∷ stores) coming refused w =
      let w' = (st.resolve t w).0 in
      elim (Resolved-cases (st.resolve t w).1) [
        | inl (l, h) ↦ rw (h, resolve_each, attempts) refl
        | inr (e, h) ↦
            rw (h, resolve_each, attempts)
              (resolve_each-attempts stores (first_of coming (is_coming e) e)
                  (first_of refused (is_unavailable e) e) w'
                ∙ outcome-cons coming refused e (attempts t stores w'))
      ]

  -- A resolve asks the stores in their order until one has a link, and answers that link. If none has, it
  -- answers the first error that says the release is coming, or else the first of a service that could not
  -- be asked, or else that its clock ran out or that the link is dead.
  pub resolve_preferring-attempts :
      (stores : List (Store W)) (preferred : List Service) (w : W)
      → resolve_preferring expired t stores preferred w
        ≡ conclude expired
            (first is_coming (attempts t (ordered stores preferred) w).errors)
            (first is_unavailable (attempts t (ordered stores preferred) w).errors)
            (attempts t (ordered stores preferred) w)
  unfolding resolve_preferring
  resolve_preferring-attempts stores preferred w =
      resolve_each-attempts (ordered stores preferred) none none w

module _ {W : Type 0} (t : ResolveTarget) where
  attempts_all :
      (stores : List (Store W)) (w : W)
      → (attempts t stores w).served ≡ none
      → length (attempts t stores w).errors ≡ length stores
  unfolding attempts
  attempts_all [] w h = refl
  attempts_all (st ∷ stores) w h =
      let w' = (st.resolve t w).0 in
      elim (Resolved-cases (st.resolve t w).1) [
        | inl (l, e) ↦ ground (arith, rw (e, attempts) at h)
        | inr (err, e) ↦ rw (e, attempts) (ap suc (attempts_all stores w' (rw (e, attempts) at h)))
      ]

first-none :
    (test : StoreError → Bool) (es : List StoreError)
    → first test es ≡ none
    → Each (λ e. test e ≡ false) es
unfolding first
first-none test [] h = tt
first-none test (e ∷ es) h = elim (Bool-cases (test e)) [
  | inl e' ↦ ground (arith, h, e')
  | inr e' ↦ (e', first-none test es (ground (arith, h, e')))
]

first-holds :
    (test : StoreError → Bool) (es : List StoreError) (e : StoreError)
    → first test es ≡ some e
    → test e ≡ true
unfolding first
first-holds test [] e h = ground (arith, h)
first-holds test (a ∷ es) e h = ground (arith, h, first-holds test es e)

module _ {W : Type 0} (expired : W → Bool) where
  conclude-dead :
      (coming refused : Option StoreError) (a : Attempts W) (w' : W) (why : String)
      → ((e : StoreError) → coming ≡ some e → is_coming e ≡ true)
      → ((e : StoreError) → refused ≡ some e → is_unavailable e ≡ true)
      → conclude expired coming refused a ≡ (w', failed (dead_link why))
      → (a.served ≡ none) × (coming ≡ none) × (refused ≡ none) × (expired w' ≡ false)
  unfolding verdict
  conclude-dead (some e) refused a w' why f g h = ground (arith, h, f e refl)
  conclude-dead none (some e) a w' why f g h = ground (arith, h, g e refl)
  conclude-dead none none a w' why f g h = ground (arith, h)

  -- A release is only called dead, with a client that then gives it up, when every store of the pool was
  -- asked, none of them said it is coming, none could not be asked, and the clock had not run out.
  pub resolve_preferring-dead :
      (t : ResolveTarget) (stores : List (Store W)) (preferred : List Service) (w w' : W)
      → (why : String)
      → resolve_preferring expired t stores preferred w ≡ (w', failed (dead_link why))
      → let errors = (attempts t (ordered stores preferred) w).errors in
        (length errors ≡ length stores)
        × Each (λ e. is_coming e ≡ false) errors
        × Each (λ e. is_unavailable e ≡ false) errors
        × (expired w' ≡ false)
  resolve_preferring-dead t stores preferred w w' why h =
      let a = attempts t (ordered stores preferred) w in
      let (unserved, none_coming, none_refused, in_time) =
        conclude-dead (first is_coming a.errors) (first is_unavailable a.errors) a w' why
          (first-holds is_coming a.errors) (first-holds is_unavailable a.errors)
          (sym (resolve_preferring-attempts expired t stores preferred w) ∙ h) in
      (
        attempts_all t (ordered stores preferred) w unserved
            ∙ ap length (ordered-sort_by stores preferred).0
            ∙ length-sort_by (sooner preferred) stores,
        first-none is_coming a.errors none_coming,
        first-none is_unavailable a.errors none_refused,
        in_time,
      )

module _ {W : Type 0} (t : ResolveTarget) (Keeps : W → Type 0) where
  -- What a resolve by the store does not disturb.
  abbrev pub IsKeptBy : Store W → Type 0
  IsKeptBy st = (w : W) → Keeps w → Keeps (st.resolve t w).0

  resolve_held-Keeps :
      (holders : List Service) (stores : List (Store W)) (refused : Option StoreError) (w : W)
      → Each (λ st. mem_service st.service holders ≡ true → IsKeptBy st) stores
      → Keeps w
      → Keeps (resolve_held t holders stores refused w).0
  unfolding resolve_held
  resolve_held-Keeps holders [] refused w h k = k
  resolve_held-Keeps holders (st ∷ stores) refused w h k =
      elim (Bool-cases (mem_service st.service holders)) [
        | inr e ↦ rw (e, resolve_held) (resolve_held-Keeps holders stores refused w h.1 k)
        | inl e ↦
            let k' = h.0 e w k in
            let w' = (st.resolve t w).0 in
            elim (Resolved-cases (st.resolve t w).1) [
              | inl (l, e') ↦ rw (e, resolve_held, e') k'
              | inr (err, e') ↦
                  rw (e, resolve_held, e')
                    (resolve_held-Keeps holders stores (first_of refused (is_unavailable err) err)
                      w' h.1 k')
            ]
      ]

  -- A resolve that may only use the holders of a release disturbs nothing that their own resolves leave
  -- alone, whatever the other stores of the pool would do: they are not asked.
  pub resolve_cached_only-Keeps :
      (stores : List (Store W)) (holders : List Service) (w : W)
      → Each (λ st. mem_service st.service holders ≡ true → IsKeptBy st) stores
      → Keeps w
      → Keeps (resolve_cached_only t stores holders w).0
  unfolding resolve_cached_only
  resolve_cached_only-Keeps stores [] w h k = k
  resolve_cached_only-Keeps stores (svc ∷ holders) w h k =
      resolve_held-Keeps (svc ∷ holders) stores none w h k
