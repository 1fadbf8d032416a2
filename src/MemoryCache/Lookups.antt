-- ===== src/MemoryCache/Lookups.antt =====
-- What a read answers after a write.
use Prim.Native.String.{len}
use den_scout.Prelude.{
  ℕ, ◌+◌, ◌≤◌, ◌<◌, ◌≡◌, ◌≢◌, refl, sym, ap, ◌∙◌, String, Option, none, some, List, [], ◌∷◌, ◌++◌,
  ◌⊎◌, inl, inr, arith, ltb, length, if◌then◌else◌, str_eq, str_eq_refl, str_eq_iff, Option-cases,
}
use den_scout.Lru.{find, erase, find-erase, find-append, found-last, find-suffix}
use den_scout.MemoryCache.{CacheEntry, MemoryCache, key_of, get, put, store, entry, move_to_front}
use den_scout.MemoryCache.Bytes.{total, total-append, length-suffix}
use den_scout.MemoryCache.Invariant.{IsValid, store_lem, put-Evicted}

-- The answer of a read, from what is found under the key.
abbrev pub answer : ℕ → Option CacheEntry → Option String
answer now none = none
answer now (some e) = if ltb e.expires now then none else some e.value

pub get-answer :
    (c : MemoryCache) (k : String) (now : ℕ) → (get c k now).1 ≡ answer now (find key_of k c.ll)
unfolding get
get-answer c k now = ground arith

-- What is found once an entry is stored, before the eviction.
store-find :
    (c : MemoryCache) (x : CacheEntry) (k : String)
    → find key_of k (store c x).0 ≡ (if str_eq x.key k then some x else find key_of k c.ll)
unfolding store find move_to_front
store-find c x k = ground (
  arith,
  find-append key_of k c.ll (x ∷ []),
  find-append key_of k (erase key_of x.key c.ll) (x ∷ []),
  find-erase key_of x.key k c.ll,
  str_eq_iff x.key k,
)

store-front :
    (c : MemoryCache) (x : CacheEntry) → (pre : List CacheEntry) × ((store c x).0 ≡ pre ++ x ∷ [])
unfolding store move_to_front
store-front c x = elim (Option-cases (find key_of x.key c.ll)) [
  | inl e ↦ (c.ll, rw (e, store))
  | inr (y, e) ↦ (erase key_of x.key c.ll, rw (e, store))
]

-- A nonempty end of a list ends with the list's last element.
last-suffix :
    (x : CacheEntry) (pre ds r : List CacheEntry)
    → pre ++ x ∷ [] ≡ ds ++ r
    → 1 ≤ length r
    → (q : List CacheEntry) × (r ≡ q ++ x ∷ [])
last-suffix x pre [] r h n = (pre, sym h)
last-suffix x [] (d ∷ ds) r h n = absurd (omega (arith, ap length h, length-suffix ds r))
last-suffix x (p ∷ pre) (d ∷ ds) r h n = last-suffix x pre ds r (cc) n

module _ (c : MemoryCache) (key value : String) (ttl now : ℕ) (v : IsValid c) where
  abbrev fresh : CacheEntry
  unfolding entry
  fresh = entry key value ttl now

  abbrev after : MemoryCache
  after = put c key value ttl now

  -- What is found after the eviction: nothing, or what was stored.
  find-after :
      (k : String)
      → (find key_of k after.ll ≡ none)
        ⊎ (find key_of k after.ll ≡ (if str_eq key k then some fresh else find key_of k c.ll))
  unfolding entry
  find-after k =
      let r = put-Evicted c key value ttl now v in
      elim (find-suffix key_of k r.dropped after.ll
        (rw r.suffix at ((store_lem c (entry key value ttl now) v).1))) [
          | inl e ↦ inl e
          | inr e ↦
              inr (e ∙ ap (find key_of k) (sym r.suffix) ∙ store-find c (entry key value ttl now) k)
        ]

  ends-fresh :
      1 ≤ length after.ll → (q : List CacheEntry) × (after.ll ≡ q ++ entry key value ttl now ∷ [])
  ends-fresh n =
      let r = put-Evicted c key value ttl now v in
      let (pre, e) = store-front c (entry key value ttl now) in
      last-suffix (entry key value ttl now) pre r.dropped after.ll (sym e ∙ r.suffix) n

  -- Under another key a read answers after a write as it did before, or the entry was evicted.
  pub get-put_other :
      (k : String) (later : ℕ)
      → key ≢ k
      → ((get (put c key value ttl now) k later).1 ≡ none)
        ⊎ ((get (put c key value ttl now) k later).1 ≡ (get c k later).1)
  get-put_other k later h =
      rw (get-answer after k later, get-answer c k later)
        (elim (find-after k) [
          | inl e ↦ inl (ap (answer later) e)
          | inr e ↦ inr (ap (answer later) (e ∙ ground (arith, str_eq_iff key k)))
        ])

  -- A value that fits is read back until its lifetime has passed, and not after.
  pub get-put :
      (later : ℕ)
      → len key + len value ≤ c.max_bytes
      → (get (put c key value ttl now) key later).1
        ≡ (if ltb (now + ttl) later then none else some value)
  unfolding entry
  get-put later h = rw (get-answer after key later) (elim (find-after key) [
    | inl e ↦
        let (q, f) = ends-fresh (
          (put-Evicted c key value ttl now v).longest (store-front c (entry key value ttl now)).0
            (entry key value ttl now ∷ []) (store-front c (entry key value ttl now)).1
            (omega arith)) in
        absurd (found-last key_of (entry key value ttl now) q (rw f at e))
    | inr e ↦
        let hit : (if str_eq key key then some fresh else find key_of key c.ll) ≡ some fresh =
          rw (str_eq_refl key) in
        ap (answer later) (e ∙ hit)
  ])

  -- A value too large for the whole cache empties it.
  pub put-oversized : c.max_bytes < len key + len value → (put c key value ttl now).ll ≡ []
  unfolding entry
  put-oversized h = empty after.ll refl
    where
      empty : (r : List CacheEntry) → after.ll ≡ r → after.ll ≡ []
      empty [] e = e
      empty (x ∷ r) e =
          let (q, f) = ends-fresh (rw e (omega arith)) in
          let sum = (put-Evicted c key value ttl now v) in
          absurd (
            omega (
              arith,
              sum.counted,
              sum.fits,
              ap total f,
              total-append q (entry key value ttl now ∷ []),
            ))
