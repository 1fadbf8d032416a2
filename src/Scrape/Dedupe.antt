-- ===== src/Scrape/Dedupe.antt =====
-- One release to a hash, with everything that was said of it.
use den_scout.Prelude.{
  ℕ, zero, suc, ◌≡◌, ◌≢◌, refl, ap, ◌∙◌, Bool, true, false, String, Option, none, some, List, [],
  ◌∷◌, ◌++◌, inl, inr, str_eq, str_eq_iff, length, get_elem?, set, arith, Bool-cases, Option-cases,
  if◌then◌else◌,
}
use den_scout.Prelude.Assoc.{lookup}
use den_scout.Release.{RawStream}
use den_scout.Scrape.{merge, Deduped}

-- The release of a hash in a list, and its position.
unfoldable pub find : String → List RawStream → Option RawStream
find h [] = none
find h (s ∷ out) = if str_eq s.info_hash h then some s else find h out

abbrev up : Option ℕ → Option ℕ
up none = none
up (some n) = some (suc n)

unfoldable pub position : String → List RawStream → Option ℕ
position h [] = none
position h (s ∷ out) = if str_eq s.info_hash h then some 0 else up (position h out)

-- What is known of a hash after one more release of it.
abbrev pub absorb : Option RawStream → RawStream → Option RawStream
absorb none s = some s
absorb (some e) s = some (merge e s)

unfoldable pub absorb_all : Option RawStream → List RawStream → Option RawStream
absorb_all o [] = o
absorb_all o (s ∷ seeds) = absorb_all (absorb o s) seeds

abbrev pub has_hash : String → RawStream → Bool
has_hash h s = str_eq s.info_hash h

abbrev pub IsIndexed : Deduped → Type 0
IsIndexed d = (h : String) → lookup h d.index ≡ position h d.out

pub position-append :
    (h : String) (out : List RawStream) (s : RawStream)
    → position h out ≡ none
    → position h (out ++ s ∷ []) ≡ (if str_eq s.info_hash h then some (length out) else none)
unfolding position
position-append h [] s e = ground arith
position-append h (x ∷ out) s e = ground (arith, e, position-append h out s)

pub position-append_held :
    (h : String) (out : List RawStream) (s : RawStream)
    → position h out ≢ none
    → position h (out ++ s ∷ []) ≡ position h out
unfolding position
position-append_held h [] s e = absurd (e refl)
position-append_held h (x ∷ out) s e = ground (arith, e, position-append_held h out s)

pub find-append :
    (h : String) (out : List RawStream) (s : RawStream)
    → position s.info_hash out ≡ none
    → find h (out ++ s ∷ []) ≡ (if str_eq s.info_hash h then some s else find h out)
unfolding find position
find-append h [] s e = ground arith
find-append h (x ∷ out) s e = ground (
  arith,
  e,
  find-append h out s,
  str_eq_iff x.info_hash h,
  str_eq_iff x.info_hash s.info_hash,
  str_eq_iff s.info_hash h,
)

-- The release at the position of a hash is the one that is found for it.
position-first :
    (h : String) (x : RawStream) (out : List RawStream) (pos : ℕ)
    → str_eq x.info_hash h ≡ true
    → position h (x ∷ out) ≡ some pos
    → pos ≡ 0
unfolding position
position-first h x out pos e p = ground (arith, e, p)

position-later :
    (h : String) (x : RawStream) (out : List RawStream) (pos : ℕ)
    → str_eq x.info_hash h ≡ false
    → position h (x ∷ out) ≡ some pos
    → (n : ℕ) × (pos ≡ suc n) × (position h out ≡ some n)
unfolding position
position-later h x out pos e p = elim (Option-cases (position h out)) [
  | inl no_such ↦ ground (arith, e, p, no_such)
  | inr (n, found) ↦ (n, ground (arith, e, p, found), found)
]

pub position-found :
    (h : String) (out : List RawStream) (pos : ℕ)
    → position h out ≡ some pos
    → (e : RawStream) × (get_elem? out pos ≡ some e) × (e.info_hash ≡ h) × (find h out ≡ some e)
unfolding find
position-found h [] pos p = unfold position in ground (arith, p)
position-found h (x ∷ out) pos p = elim (Bool-cases (str_eq x.info_hash h)) [
  | inl e ↦ (
    x,
    ap (get_elem? (x ∷ out)) (position-first h x out pos e p),
    (str_eq_iff x.info_hash h).0 e,
    rw (e, find) refl,
  )
  | inr e ↦
      let (n, same, p') = position-later h x out pos e p in
      let (r, got, hash, found) = position-found h out n p' in
      (r, ap (get_elem? (x ∷ out)) same ∙ got, hash, rw (e, find) found)
]

pub set-position :
    (h : String) (out : List RawStream) (pos : ℕ) (e e' : RawStream)
    → get_elem? out pos ≡ some e
    → e'.info_hash ≡ e.info_hash
    → position h (set out pos e') ≡ position h out
unfolding position
set-position h [] pos e e' g same = refl
set-position h (x ∷ out) zero e e' g same = ground (arith, g, same)
set-position h (x ∷ out) (suc pos) e e' g same = ground (arith, set-position h out pos e e' g same)

pub set-find :
    (h h' : String) (out : List RawStream) (pos : ℕ) (e' : RawStream)
    → position h' out ≡ some pos
    → e'.info_hash ≡ h'
    → find h (set out pos e') ≡ (if str_eq h' h then some e' else find h out)
unfolding find
set-find h h' [] pos e' p same = unfold position in ground (arith, p)
set-find h h' (x ∷ out) pos e' p same = elim (Bool-cases (str_eq x.info_hash h')) [
  | inl e ↦
      let first = position-first h' x out pos e p in
      rw first (
        ground
          (arith, e, same, str_eq_iff x.info_hash h', str_eq_iff x.info_hash h, str_eq_iff h' h))
  | inr e ↦
      let (n, later, p') = position-later h' x out pos e p in
      rw later (
        ground (
          arith,
          e,
          set-find h h' out n e' p' same,
          str_eq_iff x.info_hash h',
          str_eq_iff x.info_hash h,
          str_eq_iff h' h,
        ))
]
