-- ===== src/LinkMemo.antt =====
-- internal/scout/linkmemo.go: minted playback links, remembered for minutes.
--
-- Each method holds the mutex throughout. The zero value is the empty list. `linkMemoKey` is not here:
-- keys are texts.
pub mod Invariant
pub mod Lookups
mod Tests
use den_scout.Prelude.{
  ℕ, suc, ◌+◌, ◌*◌, Bool, true, false, String, Option, none, some, List, [], ◌∷◌, ◌++◌, ltb, leb,
  length, str_eq, if◌then◌else◌,
}
use den_scout.AddBudget.{minute}
use den_scout.Lru.{find, erase}

abbrev pub link_memo_ttl : ℕ
link_memo_ttl = 10 * minute

abbrev pub link_memo_max_entries : ℕ
link_memo_max_entries = 256

pub record MemoLink : Type 0 where
  pub key : String
  pub link : String
  pub checked : Bool
  pub expires : ℕ

abbrev pub key_of : MemoLink → String
key_of e = e.key

-- Oldest first, as in Lru.
abbrev pub LinkMemo : Type 0
LinkMemo = List MemoLink

unfoldable pub get : LinkMemo → String → ℕ → LinkMemo × Option MemoLink
get m key now = elim (find key_of key m) [
  | none ↦ (m, none)
  | some e ↦
      if leb e.expires now
      then (erase key_of key m, none)
      else (erase key_of key m ++ e ∷ [], some e)
]

-- `for m.ll.Len() > linkMemoMaxEntries { remove(m.ll.Back()) }`.
unfoldable pub trim : ℕ → LinkMemo → LinkMemo
trim most [] = []
trim most (e ∷ m) = let rest = trim most m in if ltb most (suc (length m)) then rest else e ∷ m

unfoldable pub minted : String → String → Bool → ℕ → MemoLink
minted key link checked now = record {
  key = key;
  link = link;
  checked = checked;
  expires = now + link_memo_ttl;
}

unfoldable pub put : LinkMemo → String → String → Bool → ℕ → LinkMemo
put m key link checked now = elim (find key_of key m) [
  | none ↦ trim link_memo_max_entries (m ++ minted key link checked now ∷ [])
  | some _ ↦ erase key_of key m ++ minted key link checked now ∷ []
]

-- `if e.link == link { e.checked = true }`.
unfoldable pub mark : String → MemoLink → MemoLink
mark link e = if str_eq e.link link then record e { checked = true } else e

-- The element is changed where it stands.
unfoldable pub mark_checked : LinkMemo → String → String → LinkMemo
mark_checked [] key link = []
mark_checked (e ∷ m) key link =
    if str_eq e.key key then mark link e ∷ m else e ∷ mark_checked m key link

unfoldable pub forget : LinkMemo → String → LinkMemo
forget m key = erase key_of key m
