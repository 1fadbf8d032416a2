-- ===== src/Stores/Pool/Detail.antt =====
-- internal/scout/stores.go: StatusDetail, which asks the stores of one viewer how a download fares.
use den_scout.Prelude.{
  ℕ, suc, ◌+◌, ◌-◌, ◌/◌, Bool, true, false, ◌&&◌, ◌||◌, Option, none, some, List, [], ◌∷◌, ◌++◌,
  leb, length, if◌then◌else◌,
}
use den_scout.Stores.{
  ResolveTarget, StoreStatus, StatusAnswer, status_no, status_downloading, status_unknown, Store,
}

-- What the state says of the caller's context: the time, and whether the caller went away.
pub record Clock (W : Type 0) : Type 0 where
  pub now : W → ℕ
  pub cancelled : W → Bool

module _ {W : Type 0} (clock : Clock W) where
  abbrev pub passed : Option ℕ → W → Bool
  passed none w = false
  passed (some deadline) w = leb deadline (clock.now w)

  -- `ctx.Err() != nil`.
  abbrev pub ctx_err : Option ℕ → W → Bool
  ctx_err deadline w = clock.cancelled w || passed deadline w

  -- The deadline of a store's slice, of the stores that are still to be asked.
  abbrev pub share : Option ℕ → ℕ → W → Option ℕ
  share none waiting w = none
  share (some deadline) waiting w = some (clock.now w + (deadline - clock.now w) / waiting)

abbrev pub no_status : StoreStatus
no_status = record {
  progress = 0;
  eta_seconds = none;
  bytes_per_second = none;
  state = "";
  seeds = none;
  peers = none;
  service = none;
}

abbrev of_status : Option StoreStatus → StoreStatus × StatusAnswer
of_status none = (no_status, status_no)
of_status (some status) = (status, status_downloading)

abbrev pub has_deadline : Option ℕ → Bool
has_deadline none = false
has_deadline (some deadline) = true

-- One store's answer, three-valued where the store can give one.
unfoldable pub answer_of :
    {W : Type 0} → ResolveTarget → Store W → Option ℕ → W → W × (StoreStatus × StatusAnswer)
answer_of t st slice w = elim st.status_answer [
  | some ask ↦ ask slice t w
  | none ↦ let (w', status) = st.status slice t w in (w', of_status status)
]

abbrev pub is_downloading : StatusAnswer → Bool
is_downloading status_downloading = true
is_downloading _ = false

-- Whether a store that is not downloading has failed to answer: by its own word, or cut short.
abbrev pub is_unsure : StatusAnswer → Bool → Bool
is_unsure status_unknown cut = true
is_unsure _ cut = cut

module _ {W : Type 0} (clock : Clock W) (t : ResolveTarget) (deadline : Option ℕ) where
  unfoldable pub status_from :
      List (Store W) → List (Store W) → W → W × (Option StoreStatus × List (Store W))
  unfolding answer_of
  status_from [] unknown w = (w, (none, unknown))
  status_from (st ∷ stores) unknown w = elim (has_deadline deadline && ctx_err clock deadline w) [
    | true ↦ (w, (none, unknown ++ st ∷ stores))
    | false ↦
        let slice = share clock deadline (suc (length stores)) w in
        let (w', (status, answer)) = answer_of t st slice w in
        elim (is_downloading answer) [
          | true ↦ (w', (some (record status { service = some st.service }), []))
          | false ↦
              let unsure = is_unsure answer (ctx_err clock slice w' || ctx_err clock deadline w') in
              status_from stores (if unsure then unknown ++ st ∷ [] else unknown) w'
        ]
  ]

  -- none in place of ok = false.
  unfoldable pub status_detail : List (Store W) → W → W × (Option StoreStatus × List (Store W))
  unfolding status_from
  status_detail stores w = status_from stores [] w
