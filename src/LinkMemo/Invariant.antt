-- ===== src/LinkMemo/Invariant.antt =====
-- The memo holds one link to a key, and never more than its limit.
use mathlib.Core.Option
use den_scout.Prelude.{
  str_eq, leb, if◌then◌else◌, ℕ, suc, ◌≤◌, ◌≡◌, refl, sym, ap, subst, Bool, String, some, [], ◌∷◌,
  ◌++◌, inl, inr, arith, ltb, length, length-append, str_eq_iff, str_eq_refl, Option-cases,
  Bool-cases,
}
use den_scout.Lru.{
  find, erase, Distinct, find-key, find-erase, erase-Distinct, push-Distinct, Distinct-suffix,
  length-erase_found,
}
use den_scout.LinkMemo.{
  MemoLink, LinkMemo, key_of, get, trim, put, mark_checked, mark, minted, link_memo_max_entries,
}

pub record IsValid (m : LinkMemo) : Type 0 where
  pub distinct : Distinct key_of m
  pub bounded : length m ≤ link_memo_max_entries

-- The loop ends at the limit, and drops from the back alone.
pub trim_lem :
    (most : ℕ) (m : LinkMemo)
    → (length (trim most m) ≤ most) × ((ds : LinkMemo) × (m ≡ ds ++ trim most m))
unfolding trim
trim_lem most [] = (omega arith, ([], refl))
trim_lem most (e ∷ m) =
    let (short, (ds, split)) = trim_lem most m in
    elim (Bool-cases (ltb most (suc (length m)))) [
      | inl over ↦ rw over (short, (e ∷ ds, ap (◌∷◌ e) split))
      | inr under ↦ rw under (ground arith, ([], refl))
    ]

-- An element taken out and put at the front.
pub moved :
    (x e : MemoLink) (m : LinkMemo)
    → IsValid m
    → find key_of x.key m ≡ some e
    → IsValid (erase key_of x.key m ++ x ∷ [])
moved x e m v h = record {
  distinct =
      push-Distinct key_of x (erase key_of x.key m)
        (rw (find-erase key_of x.key x.key m, str_eq_refl))
        (erase-Distinct key_of x.key m v.distinct);
  bounded = omega (
    arith,
    length-append (erase key_of x.key m) (x ∷ []),
    length-erase_found key_of x.key m e v.distinct h,
    v.bounded,
  );
}

length-erase_le : (k : String) (m : LinkMemo) → length (erase key_of k m) ≤ length m
unfolding erase
length-erase_le k [] = omega arith
length-erase_le k (e ∷ m) = ground (arith, length-erase_le k m)

pub erase-IsValid : (m : LinkMemo) (k : String) → IsValid m → IsValid (erase key_of k m)
erase-IsValid m k v = record {
  distinct = erase-Distinct key_of k m v.distinct;
  bounded = omega (arith, length-erase_le k m, v.bounded);
}

pub get-IsValid : (m : LinkMemo) (key : String) (now : ℕ) → IsValid m → IsValid (get m key now).0
unfolding get
get-IsValid m key now v = elim (Option-cases (find key_of key m)) [
  | inl e ↦ rw (e, get) v
  | inr (x, e) ↦
      let k : x.key ≡ key = find-key key_of key m x e in
      rw (e, get)
        (elim (Bool-cases (leb x.expires now)) [
          | inl old ↦ rw old (erase-IsValid m key v)
          | inr fresh ↦ rw fresh (
              subst (λ q. IsValid (erase key_of q m ++ x ∷ [])) k
                (moved x x m v (subst (λ q. find key_of q m ≡ some x) (sym k) e)))
        ])
]

pub put-IsValid :
    (m : LinkMemo) (key link : String) (checked : Bool) (now : ℕ)
    → IsValid m
    → IsValid (put m key link checked now)
unfolding put minted
put-IsValid m key link checked now v = elim (Option-cases (find key_of key m)) [
  | inl e ↦
      let (short, (ds, split)) =
        trim_lem link_memo_max_entries (m ++ minted key link checked now ∷ []) in
      rw (e, put)
        (record {
          distinct = Distinct-suffix key_of ds _ (
              subst (Distinct key_of) split
                (push-Distinct key_of (minted key link checked now) m e v.distinct));
          bounded = short;
        })
  | inr (x, e) ↦ rw (e, put) (moved (minted key link checked now) x m v e)
]

-- What is found once a link is marked.
pub mark_checked-find :
    (m : LinkMemo) (key link k : String)
    → find key_of k (mark_checked m key link)
      ≡ (if str_eq key k then Option.map (mark link) (find key_of k m) else find key_of k m)
unfolding find mark_checked mark
mark_checked-find [] key link k = ground arith
mark_checked-find (e ∷ m) key link k = ground (
  arith,
  str_eq_iff e.key key,
  str_eq_iff e.key k,
  str_eq_iff key k,
  mark_checked-find m key link k,
)

length-mark_checked :
    (m : LinkMemo) (key link : String) → length (mark_checked m key link) ≡ length m
unfolding mark_checked
length-mark_checked [] key link = refl
length-mark_checked (e ∷ m) key link = ground (arith, length-mark_checked m key link)

mark_checked-Distinct :
    (m : LinkMemo) (key link : String)
    → Distinct key_of m
    → Distinct key_of (mark_checked m key link)
unfolding mark_checked mark
mark_checked-Distinct [] key link d = tt
mark_checked-Distinct (e ∷ m) key link d = ground (
  arith,
  str_eq_iff key e.key,
  mark_checked-find m key link e.key,
  mark_checked-Distinct m key link d.1,
)

pub mark_checked-IsValid :
    (m : LinkMemo) (key link : String) → IsValid m → IsValid (mark_checked m key link)
mark_checked-IsValid m key link v = record {
  distinct = mark_checked-Distinct m key link v.distinct;
  bounded = omega (arith, length-mark_checked m key link, v.bounded);
}
