-- ===== src/Scrape/Merged.antt =====
-- The list that dedupe makes, by what was said of each hash.
use den_scout.Prelude.{
  ℕ, zero, suc, ◌≡◌, refl, sym, ap, ◌∙◌, Bool, true, false, ◌||◌, String, Option, none, some, List,
  [], ◌∷◌, ◌++◌, inl, inr, map, str_eq, str_eq_iff, length, get_elem?, set, keep, keep_yes, keep_no,
  arith, Bool-cases, Option-cases, if◌then◌else◌,
}
use den_scout.Prelude.Assoc.{lookup, insert, lookup-insert}
use den_scout.Release.{RawStream}
use den_scout.Scrape.{merge, Deduped, merge_at, take_in, take_all, dedupe}
use den_scout.Scrape.Dedupe.{
  find, position, absorb, absorb_all, has_hash, IsIndexed, position-append, position-append_held,
  find-append, position-found, set-position, set-find,
}

position-none : (h : String) (out : List RawStream) → position h out ≡ none → find h out ≡ none
unfolding position find
position-none h [] p = refl
position-none h (x ∷ out) p = ground (arith, p, position-none h out)

abbrev pub hash_of : RawStream → String
hash_of s = s.info_hash

unfoldable pub is_among : String → List String → Bool
is_among h [] = false
is_among h (g ∷ hashes) = str_eq g h || is_among h hashes

-- The hashes in the order in which they first come.
unfoldable pub first_hashes : List String → List RawStream → List String
first_hashes hashes [] = hashes
first_hashes hashes (s ∷ seeds) =
    first_hashes (if is_among s.info_hash hashes then hashes else hashes ++ s.info_hash ∷ []) seeds

-- What one more release does to the list.
record IsStep (s : RawStream) (before after : Deduped) : Type 0 where
  indexed : IsIndexed after
  found :
      (h : String)
      → find h after.out
        ≡ (if str_eq s.info_hash h then absorb (find h before.out) s else find h before.out)
  ordered : map hash_of after.out ≡ (
      if is_among s.info_hash (map hash_of before.out)
      then map hash_of before.out
      else map hash_of before.out ++ s.info_hash ∷ [])

is_among-position :
    (h : String) (out : List RawStream)
    → is_among h (map hash_of out)
      ≡ (elim (position h out) as (λ o. Bool) [ none ↦ false | some n ↦ true ])
unfolding is_among position
is_among-position h [] = refl
is_among-position h (x ∷ out) = ground (arith, is_among-position h out)

map-append :
    (out : List RawStream) (s : RawStream)
    → map hash_of (out ++ s ∷ []) ≡ map hash_of out ++ s.info_hash ∷ []
map-append [] s = refl
map-append (x ∷ out) s = ap (λ l. x.info_hash ∷ l) (map-append out s)

map-set :
    (out : List RawStream) (pos : ℕ) (e e' : RawStream)
    → get_elem? out pos ≡ some e
    → e'.info_hash ≡ e.info_hash
    → map hash_of (set out pos e') ≡ map hash_of out
map-set [] pos e e' g same = refl
map-set (x ∷ out) zero e e' g same = ground (arith, g, same)
map-set (x ∷ out) (suc pos) e e' g same = ap (λ l. x.info_hash ∷ l) (map-set out pos e e' g same)

new_position :
    (s : RawStream) (d : Deduped)
    → IsIndexed d
    → position s.info_hash d.out ≡ none
    → (h : String)
    → lookup h (insert s.info_hash (length d.out) d.index) ≡ position h (d.out ++ s ∷ [])
new_position s d v absent h = elim (Option-cases (position h d.out)) [
  | inl e ↦
      lookup-insert s.info_hash h (length d.out) d.index
      ∙ ground (arith, e, v h, position-append h d.out s e)
  | inr (n, e) ↦
      lookup-insert s.info_hash h (length d.out) d.index
      ∙ ground (
        arith,
        e,
        v h,
        absent,
        str_eq_iff s.info_hash h,
        position-append_held h d.out s (λ no_such. ground (arith, e, no_such)),
      )
]

-- A hash that is new.
new-IsStep :
    (s : RawStream) (d : Deduped)
    → IsIndexed d
    → lookup s.info_hash d.index ≡ none
    → IsStep s d
        (record { index = insert s.info_hash (length d.out) d.index; out = d.out ++ s ∷ [] })
new-IsStep s d v e =
    let absent : position s.info_hash d.out ≡ none = sym (v s.info_hash) ∙ e in
    record {
      indexed = λ h. new_position s d v absent h;
      found = λ h. ground (
        arith,
        find-append h d.out s absent,
        position-none s.info_hash d.out absent,
        str_eq_iff s.info_hash h,
      );
      ordered = ground (arith, map-append d.out s, is_among-position s.info_hash d.out, absent);
    }

merge_at-set :
    (pos : ℕ) (s e : RawStream) (out : List RawStream)
    → get_elem? out pos ≡ some e
    → merge_at pos s out ≡ set out pos (merge e s)
unfolding merge_at
merge_at-set pos s e out g = rw (g, merge_at) refl

merge-hash : (e s : RawStream) → (merge e s).info_hash ≡ e.info_hash
unfolding merge
merge-hash e s = refl

-- A hash that is held.
held-IsStep :
    (s : RawStream) (d : Deduped) (pos : ℕ)
    → IsIndexed d
    → lookup s.info_hash d.index ≡ some pos
    → IsStep s d (record d { out = merge_at pos s d.out })
held-IsStep s d pos v e =
    let at : position s.info_hash d.out ≡ some pos = sym (v s.info_hash) ∙ e in
    let (r, got, hash, found) = position-found s.info_hash d.out pos at in
    let same = merge_at-set pos s r d.out got in
    let kept = merge-hash r s in
    record {
      indexed = λ h.
          v h ∙ sym (set-position h d.out pos r (merge r s) got kept) ∙ ap (position h) (sym same);
      found = λ h.
          ap (find h) same
          ∙ set-find h s.info_hash d.out pos (merge r s) at (kept ∙ hash)
          ∙ ground (arith, found, str_eq_iff s.info_hash h);
      ordered =
          ap (map hash_of) same
          ∙ map-set d.out pos r (merge r s) got kept
          ∙ ground (arith, is_among-position s.info_hash d.out, at);
    }

take_in-IsStep : (s : RawStream) (d : Deduped) → IsIndexed d → IsStep s d (take_in s d)
unfolding take_in
take_in-IsStep s d v = elim (Option-cases (lookup s.info_hash d.index)) [
  | inl e ↦ rw (e, take_in) (new-IsStep s d v e)
  | inr (pos, e) ↦ rw (e, take_in) (held-IsStep s d pos v e)
]

kept_or_not :
    (s : RawStream) (seeds : List RawStream) (o : Option RawStream) (h : String)
    → absorb_all (if str_eq s.info_hash h then absorb o s else o) (keep (has_hash h) seeds)
      ≡ absorb_all o (keep (has_hash h) (s ∷ seeds))
unfolding absorb_all
kept_or_not s seeds o h = elim (Bool-cases (str_eq s.info_hash h)) [
  | inl e ↦ rw (keep_yes (has_hash h) s seeds e, e) refl
  | inr e ↦ rw (keep_no (has_hash h) s seeds e, e) refl
]

nothing-IsIndexed : IsIndexed (record { index = []; out = [] })
unfolding lookup position
nothing-IsIndexed h = refl

take_all-found :
    (seeds : List RawStream) (d : Deduped)
    → IsIndexed d
    → (h : String)
    → find h (take_all seeds d).out ≡ absorb_all (find h d.out) (keep (has_hash h) seeds)
unfolding take_all absorb_all
take_all-found [] d v h = refl
take_all-found (s ∷ seeds) d v h =
    let step = take_in-IsStep s d v in
    take_all-found seeds (take_in s d) step.indexed h
    ∙ ap (λ o. absorb_all o (keep (has_hash h) seeds)) (step.found h)
    ∙ kept_or_not s seeds (find h d.out) h

take_all-ordered :
    (seeds : List RawStream) (d : Deduped)
    → IsIndexed d
    → map hash_of (take_all seeds d).out ≡ first_hashes (map hash_of d.out) seeds
unfolding take_all first_hashes
take_all-ordered [] d v = refl
take_all-ordered (s ∷ seeds) d v =
    let step = take_in-IsStep s d v in
    take_all-ordered seeds (take_in s d) step.indexed ∙ ap (λ l. first_hashes l seeds) step.ordered

-- The list has one release to a hash, in the order in which the hashes first came: the first release of the
-- hash, with each later one of it merged in, in turn.
pub dedupe-merged :
    (seeds : List RawStream)
    → (map hash_of (dedupe seeds) ≡ first_hashes [] seeds)
      × ((h : String) → find h (dedupe seeds) ≡ absorb_all none (keep (has_hash h) seeds))
unfolding dedupe find
dedupe-merged seeds =
    let nothing : Deduped = record { index = []; out = [] } in
    (
      take_all-ordered seeds nothing nothing-IsIndexed,
      take_all-found seeds nothing nothing-IsIndexed,
    )
