-- ===== src/Stores/Pool/Truth.antt =====
-- What the pool concludes from the replies of its stores.
use mathlib.Core.List.{append-nil, append_assoc}
use den_scout.Prelude.{
  ℕ, zero, suc, ◌+◌, ◌≤◌, ◌<◌, Bool, true, false, not, ◌&&◌, ◌||◌, String, Option, none, some, List,
  [], ◌∷◌, ◌++◌, ◌≡◌, refl, sym, ◌∙◌, ltb, ◌==◌, length, Each, is_nil, str_eq_iff, arith,
  if◌then◌else◌,
}
use den_scout.Prelude.Assoc.{lookup, insert, IsMap, lookup-insert, insert-IsMap}
use den_scout.Stores.{Service}
use den_scout.Stores.Pool.{
  Holders, holders_of, count_of, held_by, is_some_true, is_known, is_cache_truth_service,
  note_holders, note_answers, Tally, note_reply, note_replies, mark_known, no_tally, truth_of,
}

abbrev pub Replies : Type 0
Replies = List (Service × List (String × Bool))

abbrev pub AreMaps : Replies → Type 0
AreMaps [] = Unit
AreMaps ((svc, m) ∷ replies) = IsMap m × AreMaps replies

abbrev is_there : Option Bool → Bool
is_there none = false
is_there (some b) = true

abbrev pub says : String → List (String × Bool) → Bool
says hash m = is_some_true (lookup hash m)

abbrev pub has_answered : String → List (String × Bool) → Bool
has_answered hash m = is_there (lookup hash m)

-- The services that say they hold a hash, in the order of the stores.
unfoldable pub sayers : String → Replies → List Service
sayers hash [] = []
sayers hash ((svc, m) ∷ replies) =
    if says hash m then svc ∷ sayers hash replies else sayers hash replies

-- How many of the stores that can tell have answered for a hash, have answered anything, and are there.
unfoldable pub votes : String → Replies → ℕ
votes hash [] = 0
votes hash ((svc, m) ∷ replies) =
    if is_cache_truth_service svc && has_answered hash m
    then suc (votes hash replies)
    else votes hash replies

unfoldable pub truth_stores : Replies → ℕ
truth_stores [] = 0
truth_stores ((svc, m) ∷ replies) =
    if is_cache_truth_service svc then suc (truth_stores replies) else truth_stores replies

unfoldable pub heard : Replies → ℕ
heard [] = 0
heard ((svc, m) ∷ replies) =
    if is_cache_truth_service svc && not (length m == 0) then suc (heard replies) else heard replies

abbrev at_holders : String → Holders → List Service
at_holders hash holders = holders_of (lookup hash holders)

lookup-note_holders :
    (svc : Service) (hash : String) (m : List (String × Bool)) (holders : Holders)
    → IsMap m
    → at_holders hash (note_holders svc m holders)
      ≡ (if says hash m then at_holders hash holders ++ svc ∷ [] else at_holders hash holders)
unfolding note_holders lookup
lookup-note_holders svc hash [] holders v = refl
lookup-note_holders svc hash ((j, true) ∷ m) holders v =
    lookup-note_holders svc hash m (insert j (at_holders j holders ++ svc ∷ []) holders) v.1
    ∙ ground (
      arith,
      v.0,
      str_eq_iff j hash,
      lookup-insert j hash (at_holders j holders ++ svc ∷ []) holders,
    )
lookup-note_holders svc hash ((j, false) ∷ m) holders v =
    lookup-note_holders svc hash m holders v.1 ∙ ground (arith, v.0, str_eq_iff j hash)

lookup-note_answers :
    (hash : String) (m : List (String × Bool)) (answers : List (String × ℕ))
    → IsMap m
    → lookup hash (note_answers m answers) ≡ (
        if has_answered hash m
        then some (suc (count_of (lookup hash answers)))
        else lookup hash answers)
unfolding note_answers lookup
lookup-note_answers hash [] answers v = refl
lookup-note_answers hash ((j, b) ∷ m) answers v =
    lookup-note_answers hash m (insert j (suc (count_of (lookup j answers))) answers) v.1
    ∙ ground (
      arith,
      v.0,
      str_eq_iff j hash,
      lookup-insert j hash (suc (count_of (lookup j answers))) answers,
    )

note_answers-IsMap :
    (m : List (String × Bool)) (answers : List (String × ℕ))
    → IsMap answers
    → IsMap (note_answers m answers)
unfolding note_answers
note_answers-IsMap [] answers v = v
note_answers-IsMap ((j, b) ∷ m) answers v =
    note_answers-IsMap m _ (insert-IsMap j (suc (count_of (lookup j answers))) answers v)

-- A count that so many votes are added to.
abbrev add_votes : Option ℕ → ℕ → Option ℕ
add_votes o zero = o
add_votes o (suc n) = some (count_of o + suc n)

-- What the tally holds after the replies, by what it held before.
record IsTallyOf (hash : String) (replies : Replies) (before after : Tally) : Type 0 where
  held : at_holders hash after.holders ≡ at_holders hash before.holders ++ sayers hash replies
  voted : lookup hash after.answers ≡ add_votes (lookup hash before.answers) (votes hash replies)
  counted : after.stores ≡ before.stores + truth_stores replies
  listened : after.answered ≡ before.answered + heard replies
  map_kept : IsMap before.answers → IsMap after.answers

note_reply-IsTallyOf :
    (hash : String) (svc : Service) (m : List (String × Bool)) (tally : Tally)
    → IsMap m
    → IsTallyOf hash ((svc, m) ∷ []) tally (note_reply svc m tally)
unfolding note_reply sayers votes truth_stores heard
note_reply-IsTallyOf hash svc [] tally v =
    unfold note_holders lookup in
    record {
      held = ground (arith, append-nil (at_holders hash tally.holders));
      voted = ground arith;
      counted = ground arith;
      listened = ground arith;
      map_kept = λ k. ground (arith, k);
    }
note_reply-IsTallyOf hash svc ((j, b) ∷ m) tally v = record {
  held = ground (
    arith,
    append-nil (at_holders hash tally.holders),
    lookup-note_holders svc hash ((j, b) ∷ m) tally.holders v,
  );
  voted = ground (arith, lookup-note_answers hash ((j, b) ∷ m) tally.answers v);
  counted = ground arith;
  listened = ground arith;
  map_kept = λ k. ground (arith, k, note_answers-IsMap ((j, b) ∷ m) tally.answers k);
}

add_votes-suc : (o : Option ℕ) (n : ℕ) → add_votes (some (suc (count_of o))) n ≡ add_votes o (suc n)
add_votes-suc o zero = ground arith
add_votes-suc o (suc n) = ground arith

join :
    (hash : String) (svc : Service) (m : List (String × Bool)) (replies : Replies) (a b c : Tally)
    → IsTallyOf hash ((svc, m) ∷ []) a b
    → IsTallyOf hash replies b c
    → IsTallyOf hash ((svc, m) ∷ replies) a c
unfolding sayers votes truth_stores heard
join hash svc m replies a b c v w = record {
  held = ground (
    arith,
    v.held,
    w.held,
    append_assoc (at_holders hash a.holders) (svc ∷ []) (sayers hash replies),
    append-nil (at_holders hash a.holders),
  );
  voted =
      ground (arith, v.voted, w.voted, add_votes-suc (lookup hash a.answers) (votes hash replies));
  counted = ground (arith, v.counted, w.counted);
  listened = ground (arith, v.listened, w.listened);
  map_kept = λ k. w.map_kept (v.map_kept k);
}

note_replies-IsTallyOf :
    (hash : String) (replies : Replies) (tally : Tally)
    → AreMaps replies
    → IsTallyOf hash replies tally (note_replies replies tally)
unfolding note_replies
note_replies-IsTallyOf hash [] tally v =
    unfold sayers votes truth_stores heard in
    record {
      held = sym (append-nil (at_holders hash tally.holders));
      voted = refl;
      counted = omega arith;
      listened = omega arith;
      map_kept = λ k. k;
    }
note_replies-IsTallyOf hash ((svc, m) ∷ replies) tally v =
    join hash svc m replies tally (note_reply svc m tally) _
      (note_reply-IsTallyOf hash svc m tally v.0)
      (note_replies-IsTallyOf hash replies (note_reply svc m tally) v.1)

-- The test of a hash that is known, by its holders and its number of answers.
abbrev is_settled : ℕ → Holders → String → Option ℕ → Bool
is_settled stores holders hash none = false
is_settled stores holders hash (some n) = not (is_nil (at_holders hash holders)) || n == stores

lookup-mark_known :
    (hash : String) (stores : ℕ) (holders : Holders) (answers : List (String × ℕ))
    → IsMap answers
    → is_some_true (lookup hash (mark_known stores holders answers))
      ≡ is_settled stores holders hash (lookup hash answers)
unfolding mark_known lookup
lookup-mark_known hash stores holders [] v = refl
lookup-mark_known hash stores holders ((j, n) ∷ answers) v =
    ground (arith, v.0, str_eq_iff j hash, lookup-mark_known hash stores holders answers v.1)

settled_votes :
    (hash : String) (replies : Replies) (tally : Tally)
    → IsTallyOf hash replies no_tally tally
    → is_settled tally.stores tally.holders hash (lookup hash tally.answers) ≡ (
        ltb 0 (votes hash replies)
        && (not (is_nil (sayers hash replies)) || votes hash replies == truth_stores replies))
unfolding lookup
settled_votes hash replies tally t = ground (arith, t.held, t.voted, t.counted)

-- What the replies of the stores, in their order, say of a hash. It is held by the services that say so.
-- It is known if a store that can tell has answered for it, and either some store says it holds it or every
-- store that can tell has answered for it. The truth is complete if each of those stores has answered
-- anything, and is there at all if one has.
pub truth_of-account :
    (hash : String) (replies : Replies)
    → AreMaps replies
    → let (truth, heard_any) = truth_of replies in
      (held_by truth hash ≡ sayers hash replies)
      × (is_known truth hash ≡ (
          ltb 0 (votes hash replies)
          && (not (is_nil (sayers hash replies)) || votes hash replies == truth_stores replies)))
      × (truth.complete ≡ (heard replies == truth_stores replies))
      × (heard_any ≡ ltb 0 (heard replies))
unfolding truth_of held_by is_known lookup
truth_of-account hash replies v =
    let t : IsTallyOf hash replies no_tally (note_replies replies no_tally) =
      note_replies-IsTallyOf hash replies no_tally v in
    let tally = note_replies replies no_tally in
    let known = lookup-mark_known hash tally.stores tally.holders tally.answers (t.map_kept tt) in
    (
      t.held,
      known ∙ settled_votes hash replies tally t,
      ground (arith, t.listened, t.counted),
      ground (arith, t.listened),
    )

votes_le : (hash : String) (replies : Replies) → votes hash replies ≤ truth_stores replies
unfolding votes truth_stores
votes_le hash [] = omega arith
votes_le hash ((svc, m) ∷ replies) = ground (arith, votes_le hash replies)

-- A store that can tell has said no.
abbrev pub SaysNo : String → Service × List (String × Bool) → Type 0
SaysNo hash (svc, m) = is_cache_truth_service svc ≡ true → lookup hash m ≡ some false

all_say_no :
    (hash : String) (replies : Replies)
    → sayers hash replies ≡ []
    → votes hash replies ≡ truth_stores replies
    → Each (SaysNo hash) replies
unfolding votes truth_stores sayers
all_say_no hash [] none_says all_vote = tt
all_say_no hash ((svc, m) ∷ replies) none_says all_vote = (
  λ truth. ground (arith, truth, none_says, all_vote, votes_le hash replies),
  all_say_no hash replies (ground (arith, none_says))
      (ground (arith, all_vote, votes_le hash replies)),
)

-- A hash that is known and that no store holds has been refused by every store that can tell, one of them
-- at least: no answer is never taken for a no.
pub truth_of-no :
    (hash : String) (replies : Replies)
    → AreMaps replies
    → is_known (truth_of replies).0 hash ≡ true
    → held_by (truth_of replies).0 hash ≡ []
    → Each (SaysNo hash) replies × (0 < truth_stores replies)
truth_of-no hash replies v known held =
    let a = truth_of-account hash replies v in
    let none_says = sym a.0 ∙ held in
    let settled = sym a.1 ∙ known in
    (
      all_say_no hash replies none_says (ground (arith, settled, none_says)),
      ground (arith, settled, votes_le hash replies),
    )
