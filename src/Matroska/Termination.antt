-- ===== src/Matroska/Termination.antt =====
-- The walk ends, whatever the bytes are.
use den_scout.Prelude.{
  ℕ, zero, suc, ◌+◌, ◌-◌, ◌≤◌, ◌≡◌, refl, Bool, true, false, ◌||◌, some, [], ◌∷◌, ltb, leb, ◌==◌,
  length, take, drop, length-drop, length-take, ap, ◌∙◌, sym, subst, Option-cases, Bool-cases, inl,
  inr, arith, if◌then◌else◌,
}
use den_scout.Matroska.{
  Bytes, Size, Walk, found, absent, out_of_fuel, panicked, slice, found_in, find_tracks_of,
  segment_end, id_segment, id_tracks, read_id, read_size_at, find_tracks_in, find_tracks_payload,
}

read_id-width : (buf : Bytes) (id n : ℕ) → read_id buf ≡ some (id, n) → 1 ≤ n
unfolding read_id
read_id-width [] id n h = ground arith
read_id-width (b ∷ buf) id n h = ground (arith, h)

drop_nil : (m : ℕ) → drop {A = ℕ} m [] ≡ []
drop_nil zero = refl
drop_nil (suc m) = refl

zero_add : (k : ℕ) → k ≡ 0 + k
zero_add k = omega arith

suc_add : (m k : ℕ) → suc (m + k) ≡ suc m + k
suc_add m k = omega arith

drop-drop : (m k : ℕ) (l : Bytes) → drop k (drop m l) ≡ drop (m + k) l
drop-drop zero k l = ap (λ (j : ℕ). drop j l) (zero_add k)
drop-drop (suc m) k [] = drop_nil k ∙ sym (drop_nil (suc m + k))
drop-drop (suc m) k (b ∷ l) = drop-drop m k l ∙ ap (λ (j : ℕ). drop j (b ∷ l)) (suc_add m k)

take_within : (m k n : ℕ) (l : Bytes) → k + n ≤ m → take n (drop k (take m l)) ≡ take n (drop k l)
take_within m k zero l h = refl
take_within zero k (suc n) l h = absurd (no_room k n h)
  where
    no_room : (k n : ℕ) → k + suc n ≤ 0 → ⊥
    no_room k n h = omega arith
take_within (suc m) zero (suc n) [] h = refl
take_within (suc m) zero (suc n) (b ∷ l) h = ap (λ r. b ∷ r) (take_within m zero n l (omega arith))
take_within (suc m) (suc k) (suc n) [] h = refl
take_within (suc m) (suc k) (suc n) (b ∷ l) h = take_within m k (suc n) l (omega arith)

-- A walk that ended: with nothing, or with a slice inside the buffer.
abbrev pub EndsIn : Bytes → Walk → Type 0
EndsIn buf (found p) = (k : ℕ) × (n : ℕ) × (p ≡ take n (drop k buf)) × (k + n ≤ length buf)
EndsIn buf absent = Unit
EndsIn buf out_of_fuel = ⊥
EndsIn buf panicked = ⊥

EndsIn-drop :
    (m : ℕ) (buf : Bytes) (w : Walk) → m ≤ length buf → EndsIn (drop m buf) w → EndsIn buf w
EndsIn-drop m buf (found p) h (k, n, e, v) =
    (m + k, n, e ∙ ap (take n) (drop-drop m k buf), omega (arith, h, v, length-drop m buf))
EndsIn-drop m buf absent h v = tt
EndsIn-drop m buf out_of_fuel h v = v
EndsIn-drop m buf panicked h v = v

EndsIn-take : (m : ℕ) (buf : Bytes) (w : Walk) → EndsIn (take m buf) w → EndsIn buf w
EndsIn-take m buf (found p) (k, n, e, v) = (
  k,
  n,
  e ∙ take_within m k n buf (omega (arith, v, length-take m buf)),
  omega (arith, v, length-take m buf),
)
EndsIn-take m buf absent v = tt
EndsIn-take m buf out_of_fuel v = v
EndsIn-take m buf panicked v = v

read_size_at-width : (buf : Bytes) (s : Size) → read_size_at buf ≡ some s → s.width ≤ length buf
unfolding read_size_at
read_size_at-width [] s h = ground arith
read_size_at-width (b ∷ buf) s h = ground (arith, h)

read_id-length : (buf : Bytes) (id n : ℕ) → read_id buf ≡ some (id, n) → n ≤ length buf
unfolding read_id
read_id-length [] id n h = ground arith
read_id-length (b ∷ buf) id n h = ground (arith, h)

-- What the body of an element is in the buffer.
body-length :
    (buf : Bytes) (id n : ℕ) (s : Size)
    → read_id buf ≡ some (id, n)
    → read_size_at (drop n buf) ≡ some s
    → (drop s.width (drop n buf) ≡ drop (n + s.width) buf)
      × (n + s.width ≤ length buf)
      × (suc (length (drop s.width (drop n buf))) ≤ length buf)
body-length buf id n s e d = (
  drop-drop n s.width buf,
  omega (arith, read_id-length buf id n e, read_size_at-width (drop n buf) s d, length-drop n buf),
  omega (
    arith,
    read_id-width buf id n e,
    read_id-length buf id n e,
    read_size_at-width (drop n buf) s d,
    length-drop n buf,
    length-drop s.width (drop n buf),
  ),
)

EndsIn-body :
    (buf : Bytes) (id n : ℕ) (s : Size) (w : Walk)
    → read_id buf ≡ some (id, n)
    → read_size_at (drop n buf) ≡ some s
    → EndsIn (drop s.width (drop n buf)) w
    → EndsIn buf w
EndsIn-body buf id n s w e d v =
    let (same, fits, shorter) = body-length buf id n s e d in
    EndsIn-drop (n + s.width) buf w fits (subst (λ (l : Bytes). EndsIn l w) same v)

-- One element: nothing where its size is unknown or too large, else its payload or what follows it.
element-EndsIn :
    (buf : Bytes) (bad is_tracks : Bool) (payload w : Walk)
    → (bad ≡ false → EndsIn buf payload)
    → (bad ≡ false → EndsIn buf w)
    → EndsIn buf (if bad then absent else if is_tracks then payload else w)
element-EndsIn buf true is_tracks payload w v v' = tt
element-EndsIn buf false true payload w v v' = v refl
element-EndsIn buf false false payload w v v' = v' refl

-- A slice that is in range.
slice_lem :
    (lo hi : ℕ) (buf : Bytes)
    → lo ≤ hi
    → hi ≤ length buf
    → slice lo hi buf ≡ some (take (hi - lo) (drop lo buf))
unfolding slice
slice_lem lo hi buf h h' = ground (arith, h, h')

slice-EndsIn :
    (lo hi : ℕ) (buf : Bytes) → lo ≤ hi → hi ≤ length buf → EndsIn buf (found_in (slice lo hi buf))
slice-EndsIn lo hi buf h h' =
    rw (slice_lem lo hi buf h h') (lo, hi - lo, refl, omega (arith, h, h'))

find_tracks_in-EndsIn :
    (fuel : ℕ) (buf : Bytes) → length buf ≤ fuel → EndsIn buf (find_tracks_in fuel buf)
unfolding find_tracks_in
find_tracks_in-EndsIn fuel [] h = tt
find_tracks_in-EndsIn zero (b ∷ buf) h = elim h [ ]
find_tracks_in-EndsIn (suc fuel) (b ∷ buf) h = elim (Option-cases (read_id (b ∷ buf))) [
  | inl e ↦ rw (e, find_tracks_in) tt
  | inr ((id, n), e) ↦ elim (Option-cases (read_size_at (drop n (b ∷ buf)))) [
    | inl d ↦ rw (e, find_tracks_in, d) tt
    | inr (s, d) ↦
        let body = drop s.width (drop n (b ∷ buf)) in
        let (same, fits, shorter) = body-length (b ∷ buf) id n s e d in
        let rest =
          find_tracks_in-EndsIn fuel (drop s.size body)
            (omega (arith, h, shorter, length-drop s.size body)) in
        let in_range : (s.unknown || ltb (length body) s.size) ≡ false → s.size ≤ length body =
          λ q. ground (arith, q) in
        rw (e, find_tracks_in, d)
          (element-EndsIn (b ∷ buf) (s.unknown || ltb (length body) s.size) (id == id_tracks)
            (found_in (slice (n + s.width) (n + s.width + s.size) (b ∷ buf)))
            (find_tracks_in fuel (drop s.size body))
            (λ q. slice-EndsIn (n + s.width) (n + s.width + s.size) (b ∷ buf) (omega arith) (
              omega (arith, in_range q, fits, ap length same, length-drop (n + s.width) (b ∷ buf))))
            (λ q. EndsIn-body (b ∷ buf) id n s _ e d (EndsIn-drop s.size body _ (in_range q) rest)))
  ]
]

drop_past : (m : ℕ) (l : Bytes) → length l ≤ m → drop m l ≡ []
drop_past zero [] h = refl
drop_past (suc m) [] h = refl
drop_past zero (b ∷ l) h = elim h [ ]
drop_past (suc m) (b ∷ l) h = drop_past m l (omega arith)

-- The position may pass the end: nothing is found from there.
EndsIn-past :
    (m : ℕ) (buf : Bytes) (w : Walk)
    → (length buf ≤ m → w ≡ absent)
    → EndsIn (drop m buf) w
    → EndsIn buf w
EndsIn-past m buf w past v = elim (Bool-cases (leb m (length buf))) [
  | inl e ↦ EndsIn-drop m buf w (ground (arith, e)) v
  | inr e ↦ subst (EndsIn buf) (sym (past (ground (arith, e)))) tt
]

segment_end-range :
    (s : Size) (body len : ℕ)
    → body ≤ len
    → (body ≤ segment_end s body len) × (segment_end s body len ≤ len)
segment_end-range s body len h = ground (arith, h)

-- The part of a segment that the head holds is walked to its end.
segment-EndsIn :
    (fuel : ℕ) (buf : Bytes) (s : Size) (body : ℕ)
    → body ≤ length buf
    → length buf ≤ fuel + body
    → EndsIn buf (find_tracks_of fuel (slice body (segment_end s body (length buf)) buf))
unfolding find_tracks_of
segment-EndsIn fuel buf s body h enough =
    let end = segment_end s body (length buf) in
    let (low, high) = segment_end-range s body (length buf) h in
    rw (slice_lem body end buf low high) (
      EndsIn-drop body buf _ h (
        EndsIn-take (end - body) (drop body buf) _ (
          find_tracks_in-EndsIn fuel (take (end - body) (drop body buf)) (
            omega
              (arith, enough, h, length-drop body buf, length-take (end - body) (drop body buf))))))

find_tracks_payload-past :
    (fuel m : ℕ) (buf : Bytes) → length buf ≤ m → find_tracks_payload fuel (drop m buf) ≡ absent
unfolding find_tracks_payload
find_tracks_payload-past fuel m buf h = rw (drop_past m buf h) refl

choose-EndsIn :
    (body : Bytes) (is_segment unknown : Bool) (inner rest : Walk)
    → EndsIn body inner
    → EndsIn body rest
    → EndsIn body (if is_segment then inner else if unknown then absent else rest)
choose-EndsIn body true unknown inner rest v w = v
choose-EndsIn body false true inner rest v w = tt
choose-EndsIn body false false inner rest v w = w

-- On any bytes at all, the walk over the head of a file ends within as many turns as there are bytes, and
-- what it finds is a slice of the head: neither a slice that it takes nor one that it walks is out of range,
-- where Go would panic.
pub find_tracks_payload-EndsIn :
    (fuel : ℕ) (buf : Bytes) → length buf ≤ fuel → EndsIn buf (find_tracks_payload fuel buf)
unfolding find_tracks_payload
find_tracks_payload-EndsIn fuel [] h = tt
find_tracks_payload-EndsIn zero (b ∷ buf) h = elim h [ ]
find_tracks_payload-EndsIn (suc fuel) (b ∷ buf) h = elim (Option-cases (read_id (b ∷ buf))) [
  | inl e ↦ rw (e, find_tracks_payload) tt
  | inr ((id, n), e) ↦ elim (Option-cases (read_size_at (drop n (b ∷ buf)))) [
    | inl d ↦ rw (e, find_tracks_payload, d) tt
    | inr (s, d) ↦
        let body = drop s.width (drop n (b ∷ buf)) in
        let (same, fits, shorter) = body-length (b ∷ buf) id n s e d in
        let rest =
          find_tracks_payload-EndsIn fuel (drop s.size body)
            (omega (arith, h, shorter, length-drop s.size body)) in
        rw (e, find_tracks_payload, d)
          (choose-EndsIn (b ∷ buf) (id == id_segment) s.unknown _
            (find_tracks_payload fuel (drop s.size body))
            (segment-EndsIn (length body) (b ∷ buf) s (n + s.width) fits
              (omega (arith, ap length same, length-drop (n + s.width) (b ∷ buf))))
            (EndsIn-body (b ∷ buf) id n s _ e d (
              EndsIn-past s.size body (find_tracks_payload fuel (drop s.size body))
                (find_tracks_payload-past fuel s.size body) rest)))
  ]
]
