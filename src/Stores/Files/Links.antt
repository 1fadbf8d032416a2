-- ===== src/Stores/Files/Links.antt =====
-- Which of Real-Debrid's links belongs to a file.
use den_scout.Prelude.{
  ℕ, suc, ◌≡◌, ◌≢◌, refl, sym, ap, subst, ◌∙◌, Bool, true, false, not, String, some, List, [], ◌∷◌,
  ◌++◌, inl, inr, map, length, length-append, get_elem?, keep, keep_yes, keep_no, Each, IsIn,
  IsIn-cons, here, there, ◌==◌, ==_iff, arith, Bool-cases,
}
use mathlib.Core.List.{append_assoc}
use den_scout.Stores.Files.{RdFile, RdInfo, rd_link_from, rd_link_for}

abbrev pub is_selected : RdFile → Bool
is_selected f = not (f.selected == 0)

-- No id stands twice.
abbrev pub AreDistinct : List RdFile → Type 0
AreDistinct [] = Unit
AreDistinct (f ∷ files) = Each (λ (g : RdFile). g.id ≢ f.id) files × AreDistinct files

module _ (links : List String) (pos : ℕ) (f : RdFile) (files : List RdFile) (id : ℕ) where
  skipped :
      (f.selected == 0) ≡ true
      → rd_link_from links pos (f ∷ files) id ≡ rd_link_from links pos files id
  unfolding rd_link_from
  skipped e = rw e refl

  found_here :
      (f.selected == 0) ≡ false
      → (f.id == id) ≡ true
      → rd_link_from links pos (f ∷ files) id ≡ get_elem? links pos
  unfolding rd_link_from
  found_here e own = rw (e, own) refl

  passed :
      (f.selected == 0) ≡ false
      → (f.id == id) ≡ false
      → rd_link_from links pos (f ∷ files) id ≡ rd_link_from links (suc pos) files id
  unfolding rd_link_from
  passed e differs = rw (e, differs) refl

module _ (link_of : RdFile → String) where
  get_elem?-middle :
      (before after : List String) (l : String)
      → get_elem? (before ++ l ∷ after) (length before) ≡ some l
  get_elem?-middle [] after l = refl
  get_elem?-middle (b ∷ before) after l = get_elem?-middle before after l

  id_differs :
      (f : RdFile) {g : RdFile} (files : List RdFile)
      → Each (λ (h : RdFile). h.id ≢ f.id) files
      → IsIn g files
      → f.id ≢ g.id
  id_differs f [] v h e = elim h [ ]
  id_differs f (x ∷ files) v here e = v.0 (sym e)
  id_differs f (x ∷ files) v (there h) e = id_differs f files v.1 h e

  IsIn-unkeep : {g : RdFile} (files : List RdFile) → IsIn g (keep is_selected files) → IsIn g files
  IsIn-unkeep [] h = h
  IsIn-unkeep (f ∷ files) h = elim (Bool-cases (is_selected f)) [
    | inl e ↦ elim (IsIn-cons (rw (keep_yes is_selected f files e) at h)) [
      | inl same ↦ rw same here
      | inr later ↦ there (IsIn-unkeep files later)
    ]
    | inr e ↦ there (IsIn-unkeep files (rw (keep_no is_selected f files e) at h))
  ]

  shift :
      (before : List String) (l : String) (links : List String) (files : List RdFile) (f : RdFile)
      → rd_link_from ((before ++ l ∷ []) ++ links) (length (before ++ l ∷ [])) files f.id
        ≡ some (link_of f)
      → rd_link_from (before ++ l ∷ links) (suc (length before)) files f.id ≡ some (link_of f)
  shift before l links files f h =
      let longer : length (before ++ l ∷ []) ≡ suc (length before) =
        omega (arith, length-append before (l ∷ [])) in
      rw (← append_assoc before (l ∷ []) links, ← longer) h

  rd_link_from-selected :
      (before : List String) (files : List RdFile) (f : RdFile)
      → AreDistinct files
      → IsIn f (keep is_selected files)
      → rd_link_from (before ++ map link_of (keep is_selected files)) (length before) files f.id
        ≡ some (link_of f)
  rd_link_from-selected before [] f v h = elim h [ ]
  rd_link_from-selected before (g ∷ files) f v h = elim (Bool-cases (g.selected == 0)) [
    | inl e ↦
        let unselected : is_selected g ≡ false = rw e refl in
        let kept = keep_no is_selected g files unselected in
        skipped _ (length before) g files f.id e
        ∙ ap (λ l. rd_link_from (before ++ map link_of l) (length before) files f.id) kept
        ∙ rd_link_from-selected before files f v.1 (subst (IsIn f) kept h)
    | inr e ↦
        let selected : is_selected g ≡ true = rw e refl in
        let kept = keep_yes is_selected g files selected in
        let links = map link_of (keep is_selected files) in
        elim (IsIn-cons (subst (IsIn f) kept h)) [
          | inl same ↦
              let own : (g.id == f.id) ≡ true = (==_iff g.id f.id).1 (ap (λ x. x.id) (sym same)) in
              found_here _ (length before) g files f.id e own
              ∙ ap (λ l. get_elem? (before ++ map link_of l) (length before)) kept
              ∙ get_elem?-middle before links (link_of g)
              ∙ ap (λ x. some (link_of x)) (sym same)
          | inr later ↦
              let other = id_differs g files v.0 (IsIn-unkeep files later) in
              let differs : (g.id == f.id) ≡ false = ground (arith, other) in
              passed _ (length before) g files f.id e differs
              ∙ ap (λ l. rd_link_from (before ++ map link_of l) (suc (length before)) files f.id)
                  kept
              ∙ shift before (link_of g) links files f
                  (rd_link_from-selected (before ++ link_of g ∷ []) files f v.1 later)
        ]
  ]

  -- Real-Debrid lists the links of the selected files, in the order of the files. The link that is picked
  -- for a selected file is then the one of that very file, however many others are selected.
  pub rd_link_for-selected :
      (info : RdInfo) (f : RdFile)
      → info.links ≡ map link_of (keep is_selected info.files)
      → AreDistinct info.files
      → IsIn f (keep is_selected info.files)
      → rd_link_for info f.id ≡ some (link_of f)
  unfolding rd_link_for
  rd_link_for-selected info f e v h = rw e (rd_link_from-selected [] info.files f v h)
