-- ===== src/Stores/Pool/Order.antt =====
-- The order in which the pool asks its stores.
use mathlib.Core.List.{append-nil, append_assoc, Perm}
use den_scout.Prelude.{
  ℕ, suc, Bool, true, false, not, ◌||◌, List, [], ◌∷◌, ◌++◌, ◌≡◌, refl, sym, ap, ap₂, subst, ◌∙◌,
  inl, inr, ltb, keep, keep_yes, keep_no, keep-Each, keep-keep, keep-none, keep-all, Each,
  Each-append, Each-keep, Each-map, everywhere, keep-agree, arith, Bool-cases, if◌then◌else◌,
}
use den_scout.Prelude.Sorting.{
  place_by, place_by_first, place_by-append, place_by-agree, sort_by, sort_by-Perm,
}
use den_scout.Stores.{Service, torbox, real_debrid, premiumize, same_service, Store}
use den_scout.Stores.Pool.{mem_service, order_from, of_service, each_service, ordered}

-- Where the caller names a service first; the number of services named, if nowhere.
unfoldable pub position : List Service → Service → ℕ
position [] s = 0
position (svc ∷ preferred) s = if same_service s svc then 0 else suc (position preferred s)

same_iff : (s svc : Service) → same_service s svc ≡ true → s ≡ svc
same_iff torbox torbox h = refl
same_iff real_debrid real_debrid h = refl
same_iff premiumize premiumize h = refl
same_iff torbox real_debrid h = ground (arith, h)
same_iff torbox premiumize h = ground (arith, h)
same_iff real_debrid torbox h = ground (arith, h)
same_iff real_debrid premiumize h = ground (arith, h)
same_iff premiumize torbox h = ground (arith, h)
same_iff premiumize real_debrid h = ground (arith, h)

pub same_refl : (s : Service) → same_service s s ≡ true
same_refl torbox = refl
same_refl real_debrid = refl
same_refl premiumize = refl

no_lead : (n : ℕ) → ltb n 0 ≡ false
no_lead n = ground arith

module _ {W : Type 0} where
  abbrev is_other : Service → Store W → Bool
  is_other svc st = not (same_service st.service svc)

  -- Of two stores, the one whose service the caller names earlier.
  abbrev pub sooner : List Service → Store W → Store W → Bool
  sooner preferred st other = ltb (position preferred st.service) (position preferred other.service)

  -- The stores of each service in turn, and then the others.
  unfoldable grouped : List Service → List (Store W) → List (Store W)
  grouped [] stores = stores
  grouped (svc ∷ preferred) stores =
      of_service svc stores ++ grouped preferred (keep (is_other svc) stores)

  abbrev IsNot : Service → Store W → Type 0
  IsNot svc st = same_service st.service svc ≡ false

  is_other-IsNot : (svc : Service) (st : Store W) → is_other svc st ≡ true → IsNot svc st
  is_other-IsNot svc st h = ground (arith, h)

  IsNot-is_other : (svc : Service) (st : Store W) → IsNot svc st → is_other svc st ≡ true
  IsNot-is_other svc st h = rw h refl

  is_same-no :
      (svc : Service) (st : Store W) → same_service st.service svc ≡ true → is_other svc st ≡ false
  is_same-no svc st h = rw h refl

  others-IsNot :
      (svc : Service) (stores : List (Store W)) → Each (IsNot svc) (keep (is_other svc) stores)
  others-IsNot svc stores =
      Each-map (λ st. is_other svc st ≡ true) (IsNot svc) (is_other-IsNot svc) _
        (keep-Each (is_other svc) stores)

  grouped-Each :
      (P : Store W → Type 0) (preferred : List Service) (stores : List (Store W))
      → Each P stores
      → Each P (grouped preferred stores)
  unfolding grouped
  grouped-Each P [] stores h = h
  grouped-Each P (svc ∷ preferred) stores h =
      Each-append P _ _ (Each-keep P _ stores h)
        (grouped-Each _ preferred _ (Each-keep P _ stores h))

  same_position :
      (svc : Service) (preferred : List Service) (st : Store W)
      → same_service st.service svc ≡ true
      → position (svc ∷ preferred) st.service ≡ 0
  unfolding position
  same_position svc preferred st h = rw h refl

  other_position :
      (svc : Service) (preferred : List Service) (st : Store W)
      → IsNot svc st
      → position (svc ∷ preferred) st.service ≡ suc (position preferred st.service)
  unfolding position
  other_position svc preferred st h = rw h refl

  first_sooner :
      (svc : Service) (preferred : List Service) (st : Store W)
      → IsNot svc st
      → (b : Store W) → same_service b.service svc ≡ true
      → sooner (svc ∷ preferred) b st ≡ true
  first_sooner svc preferred st h b k =
      rw (same_position svc preferred b k, other_position svc preferred st h) (ground arith)

  tail_sooner :
      (svc : Service) (preferred : List Service) (st : Store W)
      → IsNot svc st
      → (b : Store W) → IsNot svc b
      → sooner preferred b st ≡ sooner (svc ∷ preferred) b st
  tail_sooner svc preferred st h b k =
      rw (other_position svc preferred b k, other_position svc preferred st h) (ground arith)

  grouped-cons :
      (preferred : List Service) (st : Store W) (stores : List (Store W))
      → grouped preferred (st ∷ stores) ≡ place_by (sooner preferred) st (grouped preferred stores)
  unfolding grouped
  grouped-cons [] st stores =
      unfold position in sym (place_by_first (sooner []) st stores (everywhere (λ b. refl) stores))
  grouped-cons (svc ∷ preferred) st stores = elim (Bool-cases (same_service st.service svc)) [
    | inl e ↦
        rw
          (
            keep_yes (λ (s : Store W). same_service s.service svc) st stores e,
            keep_no (is_other svc) st stores (is_same-no svc st e),
          )
          (sym (
            place_by_first (sooner (svc ∷ preferred)) st _
              (everywhere (λ b. rw (same_position svc preferred st e) (no_lead _)) _)))
    | inr e ↦
        let rest = grouped preferred (keep (is_other svc) stores) in
        rw
          (
            keep_no (λ (s : Store W). same_service s.service svc) st stores e,
            keep_yes (is_other svc) st stores (IsNot-is_other svc st e),
            grouped-cons preferred st (keep (is_other svc) stores),
          )
          (ap (λ l. of_service svc stores ++ l)
              (place_by-agree (sooner preferred) (sooner (svc ∷ preferred)) st rest (
                Each-map (IsNot svc) _ (tail_sooner svc preferred st e) rest
                  (grouped-Each _ preferred _ (others-IsNot svc stores))))
            ∙ sym (
                place_by-append (sooner (svc ∷ preferred)) st (of_service svc stores) rest
                  (Each-map _ _ (first_sooner svc preferred st e) _ (keep-Each _ stores))))
  ]

  grouped-nil : (preferred : List Service) → grouped preferred [] ≡ []
  unfolding grouped
  grouped-nil [] = refl
  grouped-nil (svc ∷ preferred) = grouped-nil preferred

  grouped-sort_by :
      (preferred : List Service) (stores : List (Store W))
      → grouped preferred stores ≡ sort_by (sooner preferred) stores
  unfolding sort_by
  grouped-sort_by preferred [] = grouped-nil preferred
  grouped-sort_by preferred (st ∷ stores) =
      grouped-cons preferred st stores
      ∙ ap (place_by (sooner preferred) st) (grouped-sort_by preferred stores)

  -- A service that is named again changes nothing.
  grouped_absent :
      (acc : List Service) (svc : Service) (preferred : List Service) (stores : List (Store W))
      → Each (IsNot svc) stores
      → grouped (acc ++ svc ∷ preferred) stores ≡ grouped (acc ++ preferred) stores
  unfolding grouped
  grouped_absent [] svc preferred stores h =
      rw
        (
          keep-none (λ (s : Store W). same_service s.service svc) stores h,
          keep-all (is_other svc) stores (Each-map (IsNot svc) _ (IsNot-is_other svc) stores h),
        )
        refl
  grouped_absent (a ∷ acc) svc preferred stores h =
      ap (λ l. of_service a stores ++ l)
        (grouped_absent acc svc preferred _ (Each-keep (IsNot svc) (is_other a) stores h))

  grouped_again :
      (acc : List Service) (svc : Service) (preferred : List Service) (stores : List (Store W))
      → mem_service svc acc ≡ true
      → grouped (acc ++ svc ∷ preferred) stores ≡ grouped (acc ++ preferred) stores
  unfolding grouped mem_service
  grouped_again [] svc preferred stores h = ground (arith, h)
  grouped_again (a ∷ acc) svc preferred stores h = elim (Bool-cases (same_service a svc)) [
    | inl e ↦
        ap (λ l. of_service a stores ++ l)
          (grouped_absent acc svc preferred _ (
            subst (λ s. Each (IsNot s) (keep (is_other a) stores)) (same_iff a svc e)
              (others-IsNot a stores)))
    | inr e ↦
        ap (λ l. of_service a stores ++ l)
          (grouped_again acc svc preferred _ (ground (arith, e, h)))
  ]

  grouped-order_from :
      (order preferred : List Service) (stores : List (Store W))
      → grouped (order_from order preferred) stores ≡ grouped (order ++ preferred) stores
  unfolding order_from
  grouped-order_from order [] stores = ap (λ l. grouped l stores) (sym (append-nil order))
  grouped-order_from order (svc ∷ preferred) stores = elim (Bool-cases (mem_service svc order)) [
    | inl e ↦
        rw (e, order_from)
          (grouped-order_from order preferred stores
            ∙ sym (grouped_again order svc preferred stores e))
    | inr e ↦
        rw (e, order_from)
          (grouped-order_from (order ++ svc ∷ []) preferred stores
            ∙ ap (λ l. grouped l stores) (append_assoc order (svc ∷ []) preferred))
  ]

abbrev IsDistinct : List Service → Type 0
IsDistinct [] = Unit
IsDistinct (svc ∷ order) = (mem_service svc order ≡ false) × IsDistinct order

same_sym : (a b : Service) → same_service a b ≡ same_service b a
same_sym torbox torbox = refl
same_sym real_debrid real_debrid = refl
same_sym premiumize premiumize = refl
same_sym torbox real_debrid = refl
same_sym torbox premiumize = refl
same_sym real_debrid torbox = refl
same_sym real_debrid premiumize = refl
same_sym premiumize torbox = refl
same_sym premiumize real_debrid = refl

mem_service-append :
    (s svc : Service) (order : List Service)
    → mem_service s (order ++ svc ∷ []) ≡ (mem_service s order || same_service svc s)
unfolding mem_service
mem_service-append s svc [] = ground arith
mem_service-append s svc (a ∷ order) = ground (arith, mem_service-append s svc order)

append-IsDistinct :
    (order : List Service) (svc : Service)
    → IsDistinct order
    → mem_service svc order ≡ false
    → IsDistinct (order ++ svc ∷ [])
unfolding mem_service
append-IsDistinct [] svc h k = (refl, tt)
append-IsDistinct (a ∷ order) svc h k = (
  ground (arith, k, h.0, mem_service-append a svc order, same_sym a svc),
  append-IsDistinct order svc h.1 (ground (arith, k)),
)

order_from-IsDistinct :
    (order preferred : List Service) → IsDistinct order → IsDistinct (order_from order preferred)
unfolding order_from
order_from-IsDistinct order [] h = h
order_from-IsDistinct order (svc ∷ preferred) h = elim (Bool-cases (mem_service svc order)) [
  | inl e ↦ rw (e, order_from) (order_from-IsDistinct order preferred h)
  | inr e ↦
      rw (e, order_from)
        (order_from-IsDistinct (order ++ svc ∷ []) preferred (append-IsDistinct order svc h e))
]

module _ {W : Type 0} where
  abbrev is_unnamed : List Service → Store W → Bool
  is_unnamed order st = not (mem_service st.service order)

  same-is_other :
      (a svc : Service) (s : Store W)
      → same_service a svc ≡ false
      → same_service s.service a ≡ true
      → is_other svc s ≡ true
  same-is_other a svc s h e = rw (same_iff s.service a e, h) refl

  each_service-others :
      (order : List Service) (svc : Service) (stores : List (Store W))
      → mem_service svc order ≡ false
      → each_service order (keep (is_other svc) stores) ≡ each_service order stores
  unfolding each_service mem_service
  each_service-others [] svc stores h = refl
  each_service-others (a ∷ order) svc stores h =
      ap₂ (λ l r. l ++ r)
        (keep-keep (λ (s : Store W). same_service s.service a) (is_other svc)
          (λ s. same-is_other a svc s (ground (arith, h))) stores)
        (each_service-others order svc stores (ground (arith, h)))

  unnamed_agree :
      (svc : Service) (order : List Service) (s : Store W)
      → IsNot svc s
      → is_unnamed order s ≡ is_unnamed (svc ∷ order) s
  unfolding mem_service
  unnamed_agree svc order s h = rw (same_sym svc s.service, h) refl

  unnamed-is_other :
      (svc : Service) (order : List Service) (s : Store W)
      → is_unnamed (svc ∷ order) s ≡ true
      → is_other svc s ≡ true
  unfolding mem_service
  unnamed-is_other svc order s h = ground (arith, h, same_sym svc s.service)

  unnamed-others :
      (svc : Service) (order : List Service) (stores : List (Store W))
      → keep (is_unnamed (svc ∷ order)) stores
        ≡ keep (is_unnamed order) (keep (is_other svc) stores)
  unnamed-others svc order stores = sym (
      keep-agree (is_unnamed order) (is_unnamed (svc ∷ order)) _
        (Each-map (IsNot svc) _ (unnamed_agree svc order) _ (others-IsNot svc stores))
      ∙ keep-keep (is_unnamed (svc ∷ order)) (is_other svc) (unnamed-is_other svc order) stores)

  each_service-grouped :
      (order : List Service) (stores : List (Store W))
      → IsDistinct order
      → each_service order stores ++ keep (is_unnamed order) stores ≡ grouped order stores
  unfolding each_service grouped
  each_service-grouped [] stores h =
      unfold mem_service in keep-all _ stores (everywhere (λ s. refl) stores)
  each_service-grouped (svc ∷ order) stores h =
      append_assoc (of_service svc stores) (each_service order stores) _
      ∙ ap (λ l. of_service svc stores ++ l)
          (ap₂ (λ l r. l ++ r) (sym (each_service-others order svc stores h.0))
              (unnamed-others svc order stores)
            ∙ each_service-grouped order (keep (is_other svc) stores) h.1)

  same_order :
      (stores : List (Store W)) (preferred : List Service)
      → ordered stores preferred ≡ sort_by (sooner preferred) stores
  unfolding ordered
  same_order stores [] = unfold grouped in grouped-sort_by [] stores
  same_order stores (svc ∷ preferred) =
      each_service-grouped _ stores (order_from-IsDistinct [] (svc ∷ preferred) tt)
      ∙ grouped-order_from [] (svc ∷ preferred) stores
      ∙ grouped-sort_by (svc ∷ preferred) stores

  -- The pool asks its stores in the order of a stable sort by where the caller first names their service,
  -- the services that it does not name last; so no store is dropped or asked twice.
  pub ordered-sort_by :
      (stores : List (Store W)) (preferred : List Service)
      → (ordered stores preferred ≡ sort_by (sooner preferred) stores)
        × Perm (ordered stores preferred) stores
  ordered-sort_by stores preferred =
      let sorted = same_order stores preferred in
      (sorted, subst (λ l. Perm l stores) (sym sorted) (sort_by-Perm (sooner preferred) stores))
