-- ===== src/Season/Ranges.antt =====
-- internal/scout/season.go: a label of several episodes, and the episodes that it holds.
--
-- The label is found by its pattern, with the captures of a backtracking match: the longest way first, and
-- then shorter ones. A continuation says what is made of the rest of the text, or that it does not match.
use den_scout.Prelude.{
  ℕ, zero, suc, ◌-◌, ◌^◌, Bool, true, false, not, ◌&&◌, ◌||◌, Option, none, some, List, [], ◌∷◌,
  ◌++◌, ltb, leb, ◌==◌, length, take,
}
use den_scout.Pattern.{Text, in_class, in_next, digit_class, separator_class}
use den_scout.StreamId.{number_below}

abbrev or_try {ℓ} : {B : Type ℓ} → Option B → Option B → Option B
or_try a b = elim a [ some x ↦ some x | none ↦ b ]

module _ {ℓ} {B : Type ℓ} where
  -- `[class]*`.
  unfoldable pub any_number : List (ℕ × ℕ) → Text → (Text → Option B) → Option B
  unfolding in_class
  any_number cls [] k = k []
  any_number cls (c ∷ s) k = elim (in_class cls c) [
    | true ↦ elim (any_number cls s k) [ some x ↦ some x | none ↦ k (c ∷ s) ]
    | false ↦ k (c ∷ s)
  ]

  -- Up to `most` digits more behind those that are taken, and `\d{1,n}`.
  unfoldable pub more_digits : ℕ → Text → Text → (Text → Text → Option B) → Option B
  unfolding in_class
  more_digits zero taken s k = k taken s
  more_digits (suc most) taken [] k = k taken []
  more_digits (suc most) taken (c ∷ s) k = elim (in_class digit_class c) [
    | true ↦ elim (more_digits most (taken ++ c ∷ []) s k) [
      | some x ↦ some x
      | none ↦ k taken (c ∷ s)
    ]
    | false ↦ k taken (c ∷ s)
  ]

  unfoldable pub some_digits : ℕ → Text → (Text → Text → Option B) → Option B
  unfolding more_digits
  some_digits most [] k = none
  some_digits most (c ∷ s) k = elim (in_class digit_class c) [
    | true ↦ more_digits (most - 1) (c ∷ []) s k
    | false ↦ none
  ]

  unfoldable pub this_char : ℕ → Text → (Text → Option B) → Option B
  this_char d [] k = none
  this_char d (c ∷ s) k = elim (c == d) [ true ↦ k s | false ↦ none ]

  -- `[ ._-]*e(\d{1,3})`, and `-(\d{1,3})`.
  unfoldable pub marked_element : Text → (Text → Text → Option B) → Option B
  unfolding any_number this_char some_digits
  marked_element s k =
      any_number separator_class s (λ r. this_char b'e' r (λ r'. some_digits 3 r' k))

  unfoldable pub bare_element : Text → (Text → Text → Option B) → Option B
  unfolding this_char some_digits
  bare_element s k = this_char b'-' s (λ r. some_digits 3 r k)

  -- The chain `(?:[ ._-]*e\d{1,3}|-\d{1,3})*`. Each element is a character at least.
  unfoldable pub chain_from : ℕ → Text → (Text → Option B) → Option B
  unfolding marked_element bare_element
  chain_from zero s k = k s
  chain_from (suc fuel) s k = elim (marked_element s (λ ds r. chain_from fuel r k)) [
    | some x ↦ some x
    | none ↦ elim (bare_element s (λ ds r. chain_from fuel r k)) [ some x ↦ some x | none ↦ k s ]
  ]

-- chainedEpisode.
pub record ChainedEpisode : Type 0 where
  pub value : ℕ
  pub digits : ℕ
  pub marked : Bool

-- A number that is not negative and fits an int: atoiOK of digits.
abbrev pub atoi_ok : Text → Option ℕ
atoi_ok s = number_below (2 ^ 63) s

-- One element at the front, as episodeChainRe matches it, and the rest.
unfoldable pub element_here : Text → Option ((Bool × Text) × Text)
unfolding marked_element bare_element
element_here s = elim (marked_element {B = (Bool × Text) × Text} s (λ ds r. some ((true, ds), r))) [
  | some x ↦ some x
  | none ↦ bare_element s (λ ds r. some ((false, ds), r))
]

abbrev chained : Bool × Text → List ChainedEpisode → List ChainedEpisode
chained (marked, ds) rest = elim (atoi_ok ds) [
  | none ↦ rest
  | some v ↦ record { value = v; digits = length ds; marked = marked } ∷ rest
]

-- The matches of episodeChainRe from left to right; `skip` counts what belongs to the last one.
unfoldable pub episode_chain_from : ℕ → Text → List ChainedEpisode
unfolding element_here number_below
episode_chain_from skip [] = []
episode_chain_from (suc skip) (c ∷ s) = episode_chain_from skip s
episode_chain_from zero (c ∷ s) = elim (element_here (c ∷ s)) [
  | none ↦ episode_chain_from zero s
  | some (found, rest) ↦ chained found (episode_chain_from (length s - length rest) s)
]

unfoldable pub episode_chain : Text → List ChainedEpisode
unfolding episode_chain_from
episode_chain tail = episode_chain_from zero tail

-- The captures of episodeRangeRe, and what stands behind the match.
pub record RangeLabel : Type 0 where
  pub season : Text
  pub first : Text
  pub tail : Text
  pub rest : Text

-- `[\da-z]`.
abbrev lower_alphanumeric : List (ℕ × ℕ)
lower_alphanumeric = (48, 57) ∷ (97, 122) ∷ []

abbrev ended : Text → Text → Text → Text → Option RangeLabel
ended season first s rest = elim (in_next lower_alphanumeric rest) [
  | true ↦ none
  | false ↦ some (record {
    season = season;
    first = first;
    tail = take (length s - length rest) s;
    rest = rest;
  })
]

-- A label at the front of a text.
unfoldable pub range_here : Text → Option RangeLabel
unfolding any_number some_digits this_char chain_from in_next
range_here s = this_char b's' s (λ s1. any_number ((48, 48) ∷ []) s1 (λ s2.
    some_digits 2 s2 (λ season s3. any_number separator_class s3 (λ s4.
      this_char b'e' s4
        (λ s5. some_digits 3 s5 (λ first s6. chain_from (length s6) s6 (ended season first s6)))))))

unfoldable pub range_labels_from : ℕ → Text → List RangeLabel
unfolding range_here
range_labels_from skip [] = []
range_labels_from (suc skip) (c ∷ s) = range_labels_from skip s
range_labels_from zero (c ∷ s) = elim (range_here (c ∷ s)) [
  | none ↦ range_labels_from zero s
  | some label ↦ label ∷ range_labels_from (length s - length label.rest) s
]

-- An element without an `e` that is not written like the first number.
unfoldable pub is_malformed : ℕ → List ChainedEpisode → Bool
is_malformed width [] = false
is_malformed width (c ∷ chain) = not c.marked && not (c.digits == width) || is_malformed width chain

unfoldable pub is_listed : ℕ → List ChainedEpisode → Bool
is_listed episode [] = false
is_listed episode (c ∷ chain) = c.value == episode || is_listed episode chain

-- One more element is a range, and several are a list.
unfoldable pub chain_holds : ℕ → ℕ → List ChainedEpisode → Bool
unfolding is_listed
chain_holds first episode [] = false
chain_holds first episode (c ∷ []) =
    ltb first c.value
    && leb first episode
    && leb episode c.value
    && (c.marked || leb (c.value - first) 12)
chain_holds first episode (c ∷ d ∷ chain) = first == episode || is_listed episode (c ∷ d ∷ chain)

unfoldable pub label_holds : RangeLabel → ℕ → ℕ → Bool
unfolding number_below episode_chain is_malformed chain_holds
label_holds label season episode = elim (atoi_ok label.season) [
  | none ↦ false
  | some got ↦ elim (atoi_ok label.first) [
    | none ↦ false
    | some first ↦
        let chain = episode_chain label.tail in
        got == season
        && not (is_malformed (length label.first) chain)
        && chain_holds first episode chain
  ]
]

unfoldable pub one_holds : List RangeLabel → ℕ → ℕ → Bool
unfolding label_holds
one_holds [] season episode = false
one_holds (label ∷ labels) season episode =
    label_holds label season episode || one_holds labels season episode

unfoldable pub range_holds_episode : Text → ℕ → ℕ → Bool
unfolding range_labels_from one_holds
range_holds_episode name season episode = one_holds (range_labels_from zero name) season episode
