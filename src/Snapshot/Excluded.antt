-- ===== src/Snapshot/Excluded.antt =====
-- What `_is_excluded` leaves out of a snapshot, below a directory.
use mathlib.Core.Path.{subst}
use tinyllama_inference_engi.Prelude.{
  ◌≡◌, refl, sym, ◌⊎◌, inl, inr, Bool, true, ◌||◌, List, [], ◌∷◌, ◌++◌, map, arith, Bool-cases, any,
  Text, same_sound, same_refl,
}
use tinyllama_inference_engi.Snapshot.{
  Parts, one_of, is_excluded, excluded_roots, excluded_directory_names, excluded_subtrees,
  same_parts, parents, but_last,
}

-- A file below one of the directories that are left out, wherever they may stand
abbrev pub Below : Parts → Type 0
Below path =
    ((root : Text) × (rest : Parts) × (path ≡ root ∷ rest) × (one_of excluded_roots root ≡ true))
    ⊎ (((front : Parts) × (dir : Text) × (next : Text) × (rest : Parts) × (path
            ≡ front ++ (dir ∷ next ∷ rest))
          × (one_of excluded_directory_names dir ≡ true))
        ⊎ ((subtree : Parts) × (rest : Parts) × (path ≡ subtree ++ rest)
            × (any (same_parts subtree) excluded_subtrees ≡ true)))

but_last-append :
    (front : Parts) (dir next : Text) (rest : Parts)
    → (p : Text → Bool) → p dir ≡ true
    → any p (but_last (front ++ (dir ∷ next ∷ rest))) ≡ true
unfolding but_last
but_last-append [] dir next rest p h = rw h refl
but_last-append (f ∷ []) dir next rest p h = ground (arith, but_last-append [] dir next rest p h)
but_last-append (f ∷ g ∷ front) dir next rest p h =
    ground (arith, but_last-append (g ∷ front) dir next rest p h)

same_parts_refl : (ps : Parts) → same_parts ps ps ≡ true
unfolding same_parts
same_parts_refl [] = refl
same_parts_refl (p ∷ ps) = rw (same_refl p, same_parts_refl ps) refl

same_parts_sound : (ps qs : Parts) → same_parts ps qs ≡ true → ps ≡ qs
unfolding same_parts
same_parts_sound [] [] h = refl
same_parts_sound [] (q ∷ qs) h = cc
same_parts_sound (p ∷ ps) [] h = cc
same_parts_sound (p ∷ ps) (q ∷ qs) h = ground (arith, same_sound p q, same_parts_sound ps qs)

-- `subtree` among the parents of `path`, or the path itself
abbrev under_subtree : Parts → Parts → Bool
under_subtree path subtree = same_parts path subtree || any (same_parts subtree) (parents path)

any-cons :
    (q : Text) (s : Parts) (l : List Parts)
    → any (same_parts (q ∷ s)) (map (λ t. q ∷ t) l) ≡ any (same_parts s) l
unfolding same_parts
any-cons q s [] = refl
any-cons q s (t ∷ l) = rw (same_refl q, any-cons q s l) refl

under_subtree-append : (subtree rest : Parts) → under_subtree (subtree ++ rest) subtree ≡ true
unfolding parents same_parts
under_subtree-append [] [] = refl
under_subtree-append [] (p ∷ rest) = refl
under_subtree-append (q ∷ s) rest =
    rw (same_refl q, any-cons q s (parents (s ++ rest))) (under_subtree-append s rest)

any-member :
    (f : Parts → Bool) (s : Parts) (l : List Parts)
    → any (same_parts s) l ≡ true
    → f s ≡ true
    → any f l ≡ true
any-member f s [] h k = cc
any-member f s (t ∷ l) h k = elim (Bool-cases (same_parts s t)) [
  | inl e ↦ rw (← same_parts_sound s t e, k) refl
  | inr e ↦ ground (arith, any-member f s l (rw e at h) k)
]

-- Every path at or below an excluded root or subtree, or below a directory with an excluded name,
-- is excluded.
pub is_excluded-Below : (path : Parts) → Below path → is_excluded path ≡ true
unfolding is_excluded
is_excluded-Below [] (inl (root, rest, e, h)) = cc
is_excluded-Below [] (inr (inl ([], dir, next, rest, e, h))) = cc
is_excluded-Below [] (inr (inl (f ∷ front, dir, next, rest, e, h))) = cc
is_excluded-Below [] (inr (inr ([], rest, e, h))) = cc
is_excluded-Below [] (inr (inr (q ∷ s, rest, e, h))) = cc
is_excluded-Below (p ∷ ps) (inl (root, rest, e, h)) =
    let same_root : p ≡ root = cc in rw (same_root, h) refl
is_excluded-Below (p ∷ ps) (inr (inl (front, dir, next, rest, e, h))) =
    let found : any (one_of excluded_directory_names) (but_last (p ∷ ps)) ≡ true =
      subst (λ q. any (one_of excluded_directory_names) (but_last q) ≡ true) (sym e)
        (but_last-append front dir next rest (one_of excluded_directory_names) h) in
    ground (arith, found)
is_excluded-Below (p ∷ ps) (inr (inr (s, rest, e, h))) =
    let under : under_subtree (p ∷ ps) s ≡ true =
      subst (λ q. under_subtree q s ≡ true) (sym e) (under_subtree-append s rest) in
    let found : any (under_subtree (p ∷ ps)) excluded_subtrees ≡ true =
      any-member (under_subtree (p ∷ ps)) s excluded_subtrees h under in
    ground (arith, found)
