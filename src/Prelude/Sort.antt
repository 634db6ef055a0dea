-- ===== src/Prelude/Sort.antt =====
-- `sorted` on texts and on dict items by key: by code points, and stable.
use Prim.Native.Nat.{suc, ◌+◌}
use mathlib.Core.Path.{◌≡◌, refl, ap, ◌∙◌}
use mathlib.Core.Bool.{Bool, true, false, ◌&&◌, ◌||◌}
use mathlib.Core.List.{List, [], ◌∷◌}
use native.Mathlib.Omega.{arith}
use tinyllama_inference_engi.Prelude.Tests.{ltb, ◌==◌, if◌then◌else◌}
use tinyllama_inference_engi.Prelude.Lists.{length}
use tinyllama_inference_engi.Prelude.Codes.{Text, same}
use tinyllama_inference_engi.Prelude.Strings.{count}

abbrev pub lex_lt : Text → Text → Bool
lex_lt [] [] = false
lex_lt [] (d ∷ t) = true
lex_lt (c ∷ s) [] = false
lex_lt (c ∷ s) (d ∷ t) = ltb c d || (c == d && lex_lt s t)

module _ {V : Type 0} where
  unfoldable pub insert_by_key : Text × V → List (Text × V) → List (Text × V)
  insert_by_key e [] = e ∷ []
  insert_by_key e (f ∷ rest) = if lex_lt f.0 e.0 then f ∷ insert_by_key e rest else e ∷ f ∷ rest

  unfoldable pub sort_by_key : List (Text × V) → List (Text × V)
  unfolding insert_by_key
  sort_by_key [] = []
  sort_by_key (e ∷ rest) = insert_by_key e (sort_by_key rest)

  length-insert_by_key :
      (e : Text × V) (l : List (Text × V)) → length (insert_by_key e l) ≡ suc (length l)
  unfolding insert_by_key
  length-insert_by_key e [] = refl
  length-insert_by_key e (f ∷ rest) = ground (arith, length-insert_by_key e rest)

  pub length-sort_by_key : (l : List (Text × V)) → length (sort_by_key l) ≡ length l
  unfolding sort_by_key
  length-sort_by_key [] = refl
  length-sort_by_key (e ∷ rest) =
      omega (arith, length-insert_by_key e (sort_by_key rest), length-sort_by_key rest)

-- `sorted(texts)`
unfoldable pub insert_text : Text → List Text → List Text
insert_text t [] = t ∷ []
insert_text t (s ∷ rest) =
    let later = insert_text t rest in if lex_lt s t then s ∷ later else t ∷ s ∷ rest

unfoldable pub sort_texts : List Text → List Text
unfolding insert_text
sort_texts [] = []
sort_texts (t ∷ rest) = insert_text t (sort_texts rest)

count-insert_text : (x t : Text) (l : List Text) → count x (insert_text t l) ≡ count x (t ∷ l)
unfolding insert_text count
count-insert_text x t [] = refl
count-insert_text x t (s ∷ rest) = ground (arith, count-insert_text x t rest)

-- Sorting keeps how often each text occurs.
pub count-sort_texts : (x : Text) (l : List Text) → count x (sort_texts l) ≡ count x l
unfolding sort_texts count
count-sort_texts x [] = refl
count-sort_texts x (t ∷ rest) =
    count-insert_text x t (sort_texts rest)
    ∙ ap (λ n. (if same t x then 1 else 0) + n) (count-sort_texts x rest)
