-- ===== src/MemoryCache/Invariant.antt =====
-- The cache counts its bytes exactly and never holds more than its budget.
use den_scout.Prelude.{
  ℕ, ◌+◌, ◌≤◌, ◌≡◌, refl, sym, subst, String, some, List, [], ◌∷◌, inl, inr, arith, ltb,
  str_eq_refl, Bool-cases, Option-cases,
}
use den_scout.Lru.{
  find, erase, Distinct, find-erase, find-key, erase-Distinct, push-Distinct, Distinct-suffix,
}
use den_scout.MemoryCache.{
  CacheEntry, MemoryCache, key_of, get, put, store, entry, remove, move_to_front, new_memory_cache,
}
use den_scout.MemoryCache.Bytes.{total, total-append, total-erase, Evicted, evict-Evicted}

pub record IsValid (c : MemoryCache) : Type 0 where
  pub counted : c.bytes ≡ total c.ll
  pub bounded : c.bytes ≤ c.max_bytes
  pub distinct : Distinct key_of c.ll

pub new-IsValid : (max_bytes : ℕ) → IsValid (new_memory_cache max_bytes)
unfolding new_memory_cache
new-IsValid max_bytes = record { counted = refl; bounded = omega arith; distinct = tt }

-- An element renewed or touched under its key.
pub moved :
    (x e : CacheEntry) (ll : List CacheEntry)
    → Distinct key_of ll
    → find key_of x.key ll ≡ some e
    → (total (move_to_front x ll) + e.size ≡ total ll + x.size)
      × Distinct key_of (move_to_front x ll)
unfolding move_to_front
moved x e ll d h = (
  omega (arith, total-append (erase key_of x.key ll) (x ∷ []), total-erase x.key ll e d h),
  push-Distinct key_of x (erase key_of x.key ll)
      (rw (find-erase key_of x.key x.key ll, str_eq_refl)) (erase-Distinct key_of x.key ll d),
)

-- A read, which may drop an expired entry, keeps the cache valid.
pub get-IsValid : (c : MemoryCache) (key : String) (now : ℕ) → IsValid c → IsValid (get c key now).0
unfolding get remove
get-IsValid c key now v = elim (Option-cases (find key_of key c.ll)) [
  | inl e ↦ rw (e, get) v
  | inr (x, e) ↦
      let k : x.key ≡ key = find-key key_of key c.ll x e in
      let e' : find key_of x.key c.ll ≡ some x =
        subst (λ q. find key_of q c.ll ≡ some x) (sym k) e in
      let gone = total-erase x.key c.ll x v.distinct e' in
      let (sum, one) = moved x x c.ll v.distinct e' in
      rw (e, get)
        (elim (Bool-cases (ltb x.expires now)) [
          | inl old ↦ rw old (record {
            counted = omega (arith, gone, v.counted);
            bounded = omega (arith, v);
            distinct = erase-Distinct key_of x.key c.ll v.distinct;
          })
          | inr fresh ↦ rw fresh (record {
            counted = omega (arith, sum, v.counted);
            bounded = v.bounded;
            distinct = one;
          })
        ])
]

pub store_lem :
    (c : MemoryCache) (x : CacheEntry)
    → IsValid c
    → ((store c x).1 ≡ total (store c x).0) × Distinct key_of (store c x).0
unfolding store
store_lem c x v = elim (Option-cases (find key_of x.key c.ll)) [
  | inl e ↦
      rw (e, store)
        (
          omega (arith, total-append c.ll (x ∷ []), v.counted),
          push-Distinct key_of x c.ll e v.distinct,
        )
  | inr (y, e) ↦
      let (sum, one) = moved x y c.ll v.distinct e in
      rw (e, store) (omega (arith, sum, v.counted), one)
]

-- The part of the stored list that the eviction leaves, counted and within the budget.
pub put-Evicted :
    (c : MemoryCache) (key value : String) (ttl now : ℕ)
    → IsValid c
    → let c' = put c key value ttl now in
      Evicted c.max_bytes (store c (entry key value ttl now)).0 (c'.ll, c'.bytes)
unfolding put
put-Evicted c key value ttl now v =
    evict-Evicted c.max_bytes _ _ (store_lem c (entry key value ttl now) v).0

-- A write keeps the cache valid: counted exactly, within its bytes, and one entry to a key.
pub put-IsValid :
    (c : MemoryCache) (key value : String) (ttl now : ℕ)
    → IsValid c
    → IsValid (put c key value ttl now)
put-IsValid c key value ttl now v =
    let r = put-Evicted c key value ttl now v in
    record {
      counted = r.counted;
      bounded = unfold put in r.fits;
      distinct =
          Distinct-suffix key_of r.dropped _
            (rw r.suffix at ((store_lem c (entry key value ttl now) v).1));
    }
