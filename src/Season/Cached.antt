-- ===== src/Season/Cached.antt =====
-- The map of compiled patterns changes no answer, and stays small.
use den_scout.Prelude.{
  ℕ, ◌≤◌, ◌≡◌, refl, ap₂, some, List, [], ◌∷◌, inl, inr, leb, length, map, arith, Bool-cases,
  Option-cases,
}
use den_scout.Pattern.{Re}
use den_scout.Season.{PatternCache, episode_pattern_cap, cached, cached_episode_patterns}
use den_scout.Season.Patterns.{episode_patterns}

-- Each entry holds the patterns of its key, and there are at most 512.
abbrev AreTrue : PatternCache → Type 0
AreTrue [] = Unit
AreTrue (((season, episode), patterns) ∷ cache) =
    (patterns ≡ episode_patterns season episode) × AreTrue cache

pub record IsSound (cache : PatternCache) : Type 0 where
  pub entries : AreTrue cache
  pub small : length cache ≤ episode_pattern_cap

cached-AreTrue :
    (season episode : ℕ) (cache : PatternCache) (patterns : List Re)
    → AreTrue cache
    → cached season episode cache ≡ some patterns
    → patterns ≡ episode_patterns season episode
unfolding cached
cached-AreTrue season episode [] patterns v h = ground (arith, h)
cached-AreTrue season episode (((s, e), held) ∷ cache) patterns v h =
    ground (arith, h, v.0, cached-AreTrue season episode cache patterns v.1)

-- The set of patterns is what compiling it anew gives, and the map that is left is as sound.
pub cached_episode_patterns-IsSound :
    (season episode : ℕ) (cache : PatternCache)
    → IsSound cache
    → ((cached_episode_patterns season episode cache).1 ≡ episode_patterns season episode)
      × IsSound (cached_episode_patterns season episode cache).0
unfolding cached_episode_patterns
cached_episode_patterns-IsSound season episode cache v =
    elim (Option-cases (cached season episode cache)) [
      | inr (patterns, e) ↦
          rw (e, cached_episode_patterns)
            (cached-AreTrue season episode cache patterns v.entries e, v)
      | inl e ↦
          rw (e, cached_episode_patterns)
            (
              refl,
              elim (Bool-cases (leb 512 (length cache))) [
                | inl full ↦ rw full (record { entries = (refl, tt); small = omega arith })
                | inr room ↦
                    rw room (record { entries = (refl, v.entries); small = ground (arith, room) })
              ],
            )
    ]

-- One read after another.
unfoldable pub read_each : List (ℕ × ℕ) → PatternCache → PatternCache × List (List Re)
read_each [] cache = (cache, [])
read_each ((season, episode) ∷ asks) cache =
    let (cache', patterns) = cached_episode_patterns season episode cache in
    let (cache2, rest) = read_each asks cache' in (cache2, patterns ∷ rest)

abbrev pub compiled : ℕ × ℕ → List Re
compiled (season, episode) = episode_patterns season episode

-- Over any sequence of episodes, the map that is kept for the process answers each as if its patterns were
-- compiled for it, and never holds more than 512 sets.
pub read_each-compiled :
    (asks : List (ℕ × ℕ)) (cache : PatternCache)
    → IsSound cache
    → ((read_each asks cache).1 ≡ map compiled asks)
      × (length (read_each asks cache).0 ≤ episode_pattern_cap)
unfolding read_each
read_each-compiled [] cache v = (refl, v.small)
read_each-compiled ((season, episode) ∷ asks) cache v =
    let (same, v') = cached_episode_patterns-IsSound season episode cache v in
    let (rest, small) = read_each-compiled asks _ v' in (ap₂ (λ p ps. p ∷ ps) same rest, small)
