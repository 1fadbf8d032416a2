-- ===== src/MemoryCache/Bytes.antt =====
-- The byte count, and what the eviction loop leaves.
use den_scout.Prelude.{
  ℕ, ◌+◌, ◌-◌, ◌≤◌, ◌≡◌, refl, sym, ap, String, some, List, [], ◌∷◌, ◌++◌, ◌⊎◌, inl, inr, arith,
  ltb, length, str_eq_iff, Bool-cases,
}
use den_scout.Lru.{find, erase, Distinct, erase-missing}
use den_scout.MemoryCache.{CacheEntry, key_of, evict}

abbrev pub total : List CacheEntry → ℕ
total [] = 0
total (e ∷ es) = e.size + total es

pub total-append : (xs ys : List CacheEntry) → total (xs ++ ys) ≡ total xs + total ys
total-append [] ys = omega arith
total-append (x ∷ xs) ys = omega (arith, total-append xs ys)

pub total-erase :
    (k : String) (xs : List CacheEntry) (e : CacheEntry)
    → Distinct key_of xs
    → find key_of k xs ≡ some e
    → total (erase key_of k xs) + e.size ≡ total xs
unfolding find erase
total-erase k [] e d h = cc
total-erase k (x ∷ xs) e d h =
    ground (arith, str_eq_iff x.key k, erase-missing key_of k xs, total-erase k xs e d.1)

-- What is left fits or is nothing, is counted exactly, and is the end of the list that was given.
pub record Evicted (max_bytes : ℕ) (ll : List CacheEntry) (r : List CacheEntry × ℕ) : Type 0 where
  pub counted : r.1 ≡ total r.0
  pub fits : r.1 ≤ max_bytes
  pub dropped : List CacheEntry
  pub suffix : ll ≡ dropped ++ r.0
  pub longest :
      (ds zs : List CacheEntry) → ll ≡ ds ++ zs → total zs ≤ max_bytes → length zs ≤ length r.0

pub length-suffix : (ds zs : List CacheEntry) → length zs ≤ length (ds ++ zs)
length-suffix [] zs = omega arith
length-suffix (d ∷ ds) zs = omega (arith, length-suffix ds zs)

tail-eq :
    (e : CacheEntry) (ll ds zs : List CacheEntry)
    → e ∷ ll ≡ ds ++ zs
    → ((ds ≡ []) × (zs ≡ e ∷ ll)) ⊎ ((ds' : List CacheEntry) × (ll ≡ ds' ++ zs))
tail-eq e ll [] zs h = inl (refl, sym h)
tail-eq e ll (d ∷ ds) zs h = inr (ds, cc)

pub evict-Evicted :
    (max_bytes : ℕ) (ll : List CacheEntry) (bytes : ℕ)
    → bytes ≡ total ll
    → Evicted max_bytes ll (evict max_bytes ll bytes)
unfolding evict
evict-Evicted m [] bytes h = record {
  counted = h;
  fits = omega arith;
  dropped = [];
  suffix = refl;
  longest = λ ds zs e f. omega (arith, ap length e, length-suffix ds zs);
}
evict-Evicted m (e ∷ ll) bytes h =
    let ih = evict-Evicted m ll (bytes - e.size) (omega arith) in
    elim (Bool-cases (ltb m bytes)) [
      | inl over ↦ rw over (record {
        counted = ih.counted;
        fits = ih.fits;
        dropped = e ∷ ih.dropped;
        suffix = ap (◌∷◌ e) ih.suffix;
        longest = λ ds zs q f. elim (tail-eq e ll ds zs q) [
          | inl p ↦ absurd (ground (arith, ap total p.1))
          | inr p ↦ ih.longest p.0 zs p.1 f
        ];
      })
      | inr under ↦ rw under (record {
        counted = h;
        fits = ground arith;
        dropped = [];
        suffix = refl;
        longest = λ ds zs q f. omega (arith, ap length q, length-suffix ds zs);
      })
    ]
