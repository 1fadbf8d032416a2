-- ===== src/LinkMemo/Lookups.antt =====
-- The memo against a table that forgets nothing.
use mathlib.Core.Option
use den_scout.Prelude.{
  ℕ, suc, ◌+◌, ◌*◌, ◌||◌, ◌<◌, ◌≡◌, ◌≢◌, refl, sym, ap, subst, ◌∙◌, Bool, String, Option, none,
  some, List, [], ◌∷◌, ◌++◌, ◌⊎◌, inl, inr, arith, leb, ltb, length, str_eq, str_eq_iff,
  str_eq_refl, Option-cases, Bool-cases, if◌then◌else◌,
}
use den_scout.Lru.{
  find, erase, Distinct, find-key, find-erase, find-append, find-suffix, found-last, push-Distinct,
}
use den_scout.LinkMemo.{
  MemoLink, LinkMemo, key_of, get, trim, put, mark, mark_checked, minted, forget,
  link_memo_max_entries,
}
use den_scout.LinkMemo.Invariant.{
  IsValid, trim_lem, get-IsValid, put-IsValid, mark_checked-IsValid, erase-IsValid,
  mark_checked-find,
}

abbrev pub Table : Type 0
Table = String → Option MemoLink

pub data Call : Type 0 where
  gets : String → Call
  puts : String → String → Bool → Call
  marks : String → String → Call
  forgets : String → Call

abbrev pub unexpired : ℕ → Option MemoLink → Option MemoLink
unexpired now none = none
unexpired now (some e) = if leb e.expires now then none else some e

abbrev pub at_key : String → Option MemoLink → Table → Table
at_key key o t = λ k. if str_eq key k then o else t k

-- A link that is stored at a time lasts ten minutes.
abbrev pub stored : String → String → Bool → ℕ → MemoLink
stored key link checked now = record {
  key = key;
  link = link;
  checked = checked;
  expires = now + 600 * 1_000_000_000;
}

-- A check counts for the link that was checked, and is not taken back.
abbrev pub also_checked : String → Option MemoLink → Option MemoLink
also_checked link none = none
also_checked link (some e) = some (record e { checked = e.checked || str_eq e.link link })

unfoldable pub table_step : Table → ℕ → Call → Table × Option MemoLink
table_step t now (gets key) = (t, unexpired now (t key))
table_step t now (puts key link checked) = (at_key key (some (stored key link checked now)) t, none)
table_step t now (marks key link) = (at_key key (also_checked link (t key)) t, none)
table_step t now (forgets key) = (at_key key none t, none)

unfoldable pub memo_step : LinkMemo → ℕ → Call → LinkMemo × Option MemoLink
memo_step m now (gets key) = get m key now
memo_step m now (puts key link checked) = (put m key link checked now, none)
memo_step m now (marks key link) = (mark_checked m key link, none)
memo_step m now (forgets key) = (forget m key, none)

-- Each call with the clock's reading; the answers in order.
unfoldable pub table_run : Table → List (ℕ × Call) → List (Option MemoLink)
table_run t [] = []
table_run t ((now, c) ∷ cs) = let (t', a) = table_step t now c in a ∷ table_run t' cs

unfoldable pub memo_run : LinkMemo → List (ℕ × Call) → List (Option MemoLink)
memo_run m [] = []
memo_run m ((now, c) ∷ cs) = let (m', a) = memo_step m now c in a ∷ memo_run m' cs

-- Nothing, or the same.
abbrev pub MissOr : Option MemoLink → Option MemoLink → Type 0
MissOr o p = (o ≡ none) ⊎ (o ≡ p)

abbrev pub MissOrAll : List (Option MemoLink) → List (Option MemoLink) → Type 0
MissOrAll [] [] = Unit
MissOrAll (o ∷ os) (p ∷ ps) = MissOr o p × MissOrAll os ps
MissOrAll _ _ = ⊥

abbrev pub Sound : LinkMemo → Table → Type 0
Sound m t = (k : String) → MissOr (find key_of k m) (t k)

module _ (m : LinkMemo) (now : ℕ) where
  get-answer : (key : String) → (get m key now).1 ≡ unexpired now (find key_of key m)
  unfolding get
  get-answer key = ground arith

  -- A read changes no other answer.
  find-get :
      (key k : String)
      → (find key_of k (get m key now).0 ≡ none)
        ⊎ (find key_of k (get m key now).0 ≡ find key_of k m)
  unfolding get
  find-get key k = elim (Option-cases (find key_of key m)) [
    | inl e ↦ rw (e, get) (inr refl)
    | inr (x, e) ↦
        let hit : find key_of k (x ∷ []) ≡ (if str_eq key k then some x else none) =
          unfold find in ground (arith, find-key key_of key m x e) in
        rw (e, get)
          (ground (
            arith,
            str_eq_iff key k,
            find-erase key_of key k m,
            find-append key_of k (erase key_of key m) (x ∷ []),
            hit,
            e,
          ))
  ]

  find-put :
      (key link k : String) (checked : Bool)
      → IsValid m
      → MissOr
          (find key_of k (put m key link checked now))
          (if str_eq key k then some (minted key link checked now) else find key_of k m)
  unfolding put
  find-put key link k checked v = elim (Option-cases (find key_of key m)) [
    | inl e ↦
        let new = minted key link checked now in
        let (_, (ds, split)) = trim_lem link_memo_max_entries (m ++ new ∷ []) in
        let whole : Distinct key_of (m ++ new ∷ []) =
          unfold minted in push-Distinct key_of new m e v.distinct in
        rw (e, put)
          (elim (find-suffix key_of k ds (trim link_memo_max_entries (m ++ new ∷ []))
            (subst (Distinct key_of) split whole)) [
              | inl gone ↦ inl gone
              | inr same ↦ inr (same ∙ ap (find key_of k) (sym split) ∙ appended e new refl)
            ])
    | inr (x, e) ↦ rw (e, put) (inr (replaced (minted key link checked now) refl))
  ]
    where
      appended :
          find key_of key m ≡ none
          → (new : MemoLink) → new ≡ minted key link checked now
          → find key_of k (m ++ new ∷ []) ≡ (if str_eq key k then some new else find key_of k m)
      appended e new q =
          unfold find minted in
          ground (arith, str_eq_iff key k, find-append key_of k m (new ∷ []), e)

      replaced :
          (new : MemoLink)
          → new ≡ minted key link checked now
          → find key_of k (erase key_of key m ++ new ∷ [])
            ≡ (if str_eq key k then some new else find key_of k m)
      replaced new q =
          unfold find minted in
          ground (
            arith,
            str_eq_iff key k,
            find-append key_of k (erase key_of key m) (new ∷ []),
            find-erase key_of key k m,
          )

MissOr-trans : {o p q : Option MemoLink} → MissOr o p → MissOr p q → MissOr o q
MissOr-trans (inl e) _ = inl e
MissOr-trans (inr e) (inl f) = inl (e ∙ f)
MissOr-trans (inr e) (inr f) = inr (e ∙ f)

step-IsValid : (m : LinkMemo) (now : ℕ) (c : Call) → IsValid m → IsValid (memo_step m now c).0
unfolding memo_step forget
step-IsValid m now (gets key) v = get-IsValid m key now v
step-IsValid m now (puts key link checked) v = put-IsValid m key link checked now v
step-IsValid m now (marks key link) v = mark_checked-IsValid m key link v
step-IsValid m now (forgets key) v = erase-IsValid m key v

stored-minted :
    (key link : String) (checked : Bool) (now : ℕ)
    → minted key link checked now ≡ stored key link checked now
unfolding minted
stored-minted key link checked now = refl

also_checked-mark :
    (link : String) (o : Option MemoLink) → Option.map (mark link) o ≡ also_checked link o
unfolding mark
also_checked-mark link none = refl
also_checked-mark link (some e) = ground arith

step-Sound :
    (m : LinkMemo) (t : Table) (now : ℕ) (c : Call)
    → IsValid m
    → Sound m t
    → Sound (memo_step m now c).0 (table_step t now c).0
unfolding memo_step table_step forget
step-Sound m t now (gets key) v s k = MissOr-trans (find-get m now key k) (s k)
step-Sound m t now (puts key link checked) v s k =
    MissOr-trans (find-put m now key link k checked v)
      (ground (arith, s k, stored-minted key link checked now))
step-Sound m t now (marks key link) v s k =
    rw (mark_checked-find m key link k)
      (ground (arith, str_eq_iff key k, s k, s key, also_checked-mark link (find key_of k m)))
step-Sound m t now (forgets key) v s k = rw (find-erase key_of key k m) (ground (arith, s k))

step-MissOr :
    (m : LinkMemo) (t : Table) (now : ℕ) (c : Call)
    → Sound m t
    → MissOr (memo_step m now c).1 (table_step t now c).1
unfolding memo_step table_step
step-MissOr m t now (gets key) s =
    rw (get-answer m now key)
      (elim (s key) [ inl e ↦ inl (ap (unexpired now) e) | inr e ↦ inr (ap (unexpired now) e) ])
step-MissOr m t now (puts key link checked) s = inl refl
step-MissOr m t now (marks key link) s = inl refl
step-MissOr m t now (forgets key) s = inl refl

-- Over any history, each answer of the memo is a miss or what a table without a limit answers: a link
-- is only ever returned for the key that it was stored under last, unexpired, not forgotten since, and
-- marked as checked just when that link was.
pub memo_run-table_run :
    (m : LinkMemo) (t : Table) (cs : List (ℕ × Call))
    → IsValid m
    → Sound m t
    → MissOrAll (memo_run m cs) (table_run t cs)
unfolding memo_run table_run
memo_run-table_run m t [] v s = tt
memo_run-table_run m t ((now, c) ∷ cs) v s = (
  step-MissOr m t now c s,
  memo_run-table_run (memo_step m now c).0 (table_step t now c).0 cs (step-IsValid m now c v)
      (step-Sound m t now c v s),
)

-- The memo after a history.
unfoldable pub memo_after : LinkMemo → List (ℕ × Call) → LinkMemo
memo_after m [] = m
memo_after m ((now, c) ∷ cs) = memo_after (memo_step m now c).0 cs

-- Over any history the memo never holds more than its limit, nor two links under one key.
pub memo_after-IsValid :
    (m : LinkMemo) (cs : List (ℕ × Call)) → IsValid m → IsValid (memo_after m cs)
unfolding memo_after
memo_after-IsValid m [] v = v
memo_after-IsValid m ((now, c) ∷ cs) v =
    memo_after-IsValid (memo_step m now c).0 cs (step-IsValid m now c v)

trim-last :
    (most : ℕ) (x : MemoLink) (m : LinkMemo)
    → 0 < most
    → (q : LinkMemo) × (trim most (m ++ x ∷ []) ≡ q ++ x ∷ [])
unfolding trim
trim-last most x [] h = ([], ground arith)
trim-last most x (y ∷ m) h =
    let (q, e) = trim-last most x m h in
    elim (Bool-cases (ltb most (suc (length (m ++ x ∷ []))))) [
      | inl over ↦ rw over (q, e)
      | inr under ↦ rw under (y ∷ m, refl)
    ]

put-found :
    (m : LinkMemo) (key link : String) (checked : Bool) (now : ℕ)
    → find key_of key (put m key link checked now) ≢ none
unfolding put minted
put-found m key link checked now = elim (Option-cases (find key_of key m)) [
  | inl e ↦
      let (q, f) = trim-last link_memo_max_entries (minted key link checked now) m (omega arith) in
      rw (e, put, f) (found-last key_of (minted key link checked now) q)
  | inr (x, e) ↦ rw (e, put) (found-last key_of (minted key link checked now) (erase key_of key m))
]

-- A link just stored is found under its key until its ten minutes are over, and not from then on.
pub get-put_link :
    (m : LinkMemo) (key link : String) (checked : Bool) (now later : ℕ)
    → IsValid m
    → (get (put m key link checked now) key later).1 ≡ (
        if leb (minted key link checked now).expires later
        then none
        else some (minted key link checked now))
get-put_link m key link checked now later v =
    rw (get-answer (put m key link checked now) later key)
      (elim (find-put m now key link key checked v) [
        | inl gone ↦ absurd (put-found m key link checked now gone)
        | inr e ↦
            let hit : (if str_eq key key
                  then some (minted key link checked now)
                  else find key_of key m)
                ≡ some (minted key link checked now) =
              rw (str_eq_refl key) in
            ap (unexpired later) (e ∙ hit)
      ])
