-- ===== src/Snapshot/Tree.antt =====
-- What the digest of `tree_sha256` covers: one line for each file, from which the records can be
-- read back.
use mathlib.Core.Path.{subst}
use tinyllama_inference_engi.Prelude.{
  ℕ, zero, suc, ◌+◌, ◌-◌, ◌*◌, ◌/◌, ◌<◌, ◌≡◌, refl, sym, ap, ◌∙◌, ◌≢◌, ◌⊎◌, inl, inr, true, false,
  List, [], ◌∷◌, ◌++◌, append-nil, append_assoc, arith, ltb, Bool-cases, All, All-append, Bytes,
  Text, same, same_sound, same_iff,
}
use tinyllama_inference_engi.Prelude.Sort.{sort_by_key, insert_by_key, lex_lt}
use tinyllama_inference_engi.Result.{Result, ok, ◌>>=◌, >>=-eq-ok}
use tinyllama_inference_engi.Format.Hex.{to_hex, from_hex, from_hex-to_hex}
use tinyllama_inference_engi.Format.Utf8.{encode, decode-encode, encode-nonzero}
use tinyllama_inference_engi.Format.Numpy.{Hash}
use tinyllama_inference_engi.Assets.Digest.{HasTaken, HasTaken-new, HasTaken-update}
use tinyllama_inference_engi.Assets.Verify.{FileRecord}
use tinyllama_inference_engi.Snapshot.{decimal, digits, ascii, update_tree, tree_sha256}

-- The line of a file, before what follows
abbrev line : Bytes → ℕ → Bytes → Bytes → Bytes
line encoded size sha rest = encoded ++ (0 ∷ (decimal size ++ (0 ∷ (sha ++ (10 ∷ rest)))))

unfoldable pub tree_bytes : List (Text × FileRecord) → Result Bytes
tree_bytes [] = ok []
tree_bytes ((file, r) ∷ rest) = do
  encoded ← encode file
  sha ← ascii r.sha256
  more ← tree_bytes rest
  ok (line encoded r.size sha more)

-- The number that digits stand for
value : ℕ → Text → ℕ
value n [] = n
value n (c ∷ t) = value (10 * n + (c - 48)) t

value-append : (n c : ℕ) (t : Text) → value n (t ++ c ∷ []) ≡ 10 * value n t + (c - 48)
unfolding value
value-append n c [] = refl
value-append n c (d ∷ t) = value-append (10 * n + (d - 48)) c t

value-digits : (fuel n : ℕ) → n < fuel → value 0 (digits fuel n) ≡ n
unfolding value digits
value-digits zero n h = absurd (omega arith)
value-digits (suc fuel) n h = elim (Bool-cases (ltb n 10)) [
  | inl small ↦ rw small (ground arith)
  | inr large ↦
      let ih : n / 10 < fuel → value 0 (digits fuel (n / 10)) ≡ n / 10 =
        value-digits fuel (n / 10) in
      rw (large, value-append) (ground (arith, ih))
]

nonzero-digits : (fuel n : ℕ) → All (λ c. 0 < c) (digits fuel n)
unfolding digits
nonzero-digits zero n = tt
nonzero-digits (suc fuel) n = elim (Bool-cases (ltb n 10)) [
  | inl small ↦ rw small (omega arith, tt)
  | inr large ↦
      rw large
        (All-append _ (digits fuel (n / 10)) _ (nonzero-digits fuel (n / 10)) (omega arith, tt))
]

nonzero-decimal : (n : ℕ) → All (λ c. 0 < c) (decimal n)
unfolding decimal
nonzero-decimal n = nonzero-digits (suc n) n

decimal-injective : (m n : ℕ) → decimal m ≡ decimal n → m ≡ n
unfolding decimal
decimal-injective m n e =
    sym (value-digits (suc m) m (omega arith))
    ∙ ap (value 0) e
    ∙ value-digits (suc n) n (omega arith)

-- Two texts that do not hold the separator, each before a separator
split :
    (s : ℕ) (x y u v : Bytes)
    → All (λ c. c ≢ s) x
    → All (λ c. c ≢ s) y
    → x ++ s ∷ u ≡ y ++ s ∷ v
    → (x ≡ y) × (u ≡ v)
split s [] [] u v a b e = (refl, cc)
split s [] (c ∷ y) u v a b e = absurd (b.0 cc)
split s (c ∷ x) [] u v a b e = absurd (a.0 cc)
split s (c ∷ x) (d ∷ y) u v a b e =
    let (p, q) = split s x y u v a.1 b.1 cc in (ground (arith, p), q)

nonzero : (t : Bytes) → All (λ c. 0 < c) t → All (λ c. c ≢ 0) t
nonzero [] h = tt
nonzero (c ∷ t) h = (λ e. omega (arith, e, h.0), nonzero t h.1)

-- No name holds a NUL, and no digest a line feed.
abbrev pub Lines : List (Text × FileRecord) → Type 0
Lines [] = Unit {0}
Lines ((file, r) ∷ rest) = All (λ c. 0 < c) file × All (λ c. c ≢ 10) r.sha256 × Lines rest

record_eq : (r s : FileRecord) → r.size ≡ s.size → r.sha256 ≡ s.sha256 → r ≡ s
record_eq r s a b =
    let e : Path FileRecord (record { size = r.size; sha256 = r.sha256 })
        (record { size = s.size; sha256 = s.sha256 }) =
      rw (a, b) refl in
    e

ascii-eq : (t : Text) (b : Bytes) → ascii t ≡ ok b → t ≡ b
ascii-eq t b e = ground arith

encode-injective : (s t : Text) (b : Bytes) → encode s ≡ ok b → encode t ≡ ok b → s ≡ t
encode-injective s t b e f =
    let h : ok s ≡ ok t = sym (decode-encode s b e) ∙ decode-encode t b f in cc

nonempty-line : (x : Bytes) (n : ℕ) (a m : Bytes) → line x n a m ≢ []
nonempty-line [] n a m e = cc
nonempty-line (c ∷ x) n a m e = cc

tree_bytes-nonempty :
    (f : Text) (r : FileRecord) (fs : List (Text × FileRecord)) → tree_bytes ((f, r) ∷ fs) ≢ ok []
unfolding tree_bytes
tree_bytes-nonempty f r fs e =
    let (x, hx, e1) = >>=-eq-ok (encode f) _ e in
    let (a, ha, e2) = >>=-eq-ok (ascii r.sha256) _ e1 in
    let (m, hm, e3) = >>=-eq-ok (tree_bytes fs) _ e2 in nonempty-line x r.size a m cc

-- Files that have no NUL in their names are determined by the bytes that are digested.
pub tree_bytes-injective :
    (fs gs : List (Text × FileRecord)) (b : Bytes)
    → Lines fs
    → Lines gs
    → tree_bytes fs ≡ ok b
    → tree_bytes gs ≡ ok b
    → fs ≡ gs
unfolding tree_bytes
tree_bytes-injective [] [] b hf hg ef eg = refl
tree_bytes-injective [] ((g, r) ∷ gs) b hf hg ef eg =
    absurd (tree_bytes-nonempty g r gs (eg ∙ sym ef))
tree_bytes-injective ((f, r) ∷ fs) [] b hf hg ef eg =
    absurd (tree_bytes-nonempty f r fs (ef ∙ sym eg))
tree_bytes-injective ((f, r) ∷ fs) ((g, s) ∷ gs) b hf hg ef eg =
    let (x, hx, ef1) = >>=-eq-ok (encode f) _ ef in
    let (a, ha, ef2) = >>=-eq-ok (ascii r.sha256) _ ef1 in
    let (m, hm, ef3) = >>=-eq-ok (tree_bytes fs) _ ef2 in
    let (y, hy, eg1) = >>=-eq-ok (encode g) _ eg in
    let (c, hc, eg2) = >>=-eq-ok (ascii s.sha256) _ eg1 in
    let (n, hn, eg3) = >>=-eq-ok (tree_bytes gs) _ eg2 in
    let whole : line x r.size a m ≡ line y s.size c n = cc in
    let (p, e1) =
      split 0 x y _ _ (nonzero x (encode-nonzero f x hf.0 hx))
        (nonzero y (encode-nonzero g y hg.0 hy)) whole in
    let (q, e2) =
      split 0 (decimal r.size) (decimal s.size) _ _ (nonzero _ (nonzero-decimal r.size))
        (nonzero _ (nonzero-decimal s.size)) e1 in
    let a_lines : All (λ c. c ≢ 10) a = rw (← ascii-eq r.sha256 a ha) hf.1 in
    let c_lines : All (λ c. c ≢ 10) c = rw (← ascii-eq s.sha256 c hc) hg.1 in
    let (t, e3) = split 10 a c m n a_lines c_lines e2 in
    let names : f ≡ g = encode-injective f g y (hx ∙ ap ok p) hy in
    let records : r ≡ s =
      record_eq r s (decimal-injective r.size s.size q)
        (ascii-eq r.sha256 a ha ∙ t ∙ sym (ascii-eq s.sha256 c hc)) in
    let others : fs ≡ gs = tree_bytes-injective fs gs n hf.2 hg.2 (hm ∙ ap ok e3) hn in cc

tree_bytes-line :
    (f : Text) (r : FileRecord) (fs : List (Text × FileRecord)) (x a m : Bytes)
    → encode f ≡ ok x
    → ascii r.sha256 ≡ ok a
    → tree_bytes fs ≡ ok m
    → tree_bytes ((f, r) ∷ fs) ≡ ok (line x r.size a m)
unfolding tree_bytes
tree_bytes-line f r fs x a m hx ha hm = rw (hx, ha, hm) refl

same-ne : (b c : Bytes) → same b c ≡ false → b ≢ c
same-ne b c h e = let k : same b c ≡ true = (same_iff b c).1 e in cc

line-append :
    (before x d a m : Bytes)
    → ((((((before ++ x) ++ 0 ∷ []) ++ d) ++ 0 ∷ []) ++ a) ++ 10 ∷ []) ++ m
      ≡ before ++ (x ++ (0 ∷ (d ++ (0 ∷ (a ++ (10 ∷ m))))))
line-append before x d a m = simp append_assoc

Lines-insert :
    (f : Text × FileRecord) (fs : List (Text × FileRecord))
    → Lines (f ∷ [])
    → Lines fs
    → Lines (insert_by_key f fs)
unfolding insert_by_key
Lines-insert f [] h k = h
Lines-insert f (g ∷ gs) h k = elim (Bool-cases (lex_lt g.0 f.0)) [
  | inl l ↦ rw l (k.0, k.1, Lines-insert f gs h k.2)
  | inr l ↦ rw l (h.0, h.1, k)
]

Lines-sort : (fs : List (Text × FileRecord)) → Lines fs → Lines (sort_by_key fs)
unfolding sort_by_key
Lines-sort [] h = tt
Lines-sort (f ∷ fs) h = Lines-insert f (sort_by_key fs) (h.0, h.1, tt) (Lines-sort fs h.2)

module _ (hash : Hash) where
  open hash use {sha256, Hasher, new, update, digest}

  update_tree-HasTaken :
      (files : List (Text × FileRecord)) (h : Hasher) (before : Bytes) (r : Hasher)
      → HasTaken hash h before
      → update_tree hash h files ≡ ok r
      → (b : Bytes) × (tree_bytes files ≡ ok b) × HasTaken hash r (before ++ b)
  unfolding tree_bytes update_tree
  update_tree-HasTaken [] h before r t e =
      let eq : h ≡ r = cc in ([], refl, rw (append-nil, ← eq) t)
  update_tree-HasTaken ((f, r) ∷ fs) h before last t e =
      let (x, hx, e1) = >>=-eq-ok (encode f) _ e in
      let (a, ha, e2) = >>=-eq-ok (ascii r.sha256) _ e1 in
      let d : Bytes = decimal r.size in
      let t1 = HasTaken-update hash h before x t in
      let t2 = HasTaken-update hash _ _ (0 ∷ []) t1 in
      let t3 = HasTaken-update hash _ _ d t2 in
      let t4 = HasTaken-update hash _ _ (0 ∷ []) t3 in
      let t5 = HasTaken-update hash _ _ a t4 in
      let t6 = HasTaken-update hash _ _ (10 ∷ []) t5 in
      let (m, hm, done) =
        update_tree-HasTaken fs
          (update (update (update (update (update (update h x) (0 ∷ [])) d) (0 ∷ [])) a) (10 ∷ []))
          ((((((before ++ x) ++ 0 ∷ []) ++ d) ++ 0 ∷ []) ++ a) ++ 10 ∷ []) last t6 e2 in
      (
        line x r.size a m,
        tree_bytes-line f r fs x a m hx ha hm,
        subst (λ b. HasTaken hash last b) (line-append before x d a m) done,
      )

  -- The lines of two sets of records are different byte strings with one SHA-256.
  pub record Collision (fs gs : List (Text × FileRecord)) : Type 0 where
    pub one : Bytes
    pub other : Bytes
    pub one_of : tree_bytes (sort_by_key fs) ≡ ok one
    pub other_of : tree_bytes (sort_by_key gs) ≡ ok other
    pub differ : one ≢ other
    pub digests : sha256 one ≡ sha256 other

  to_hex-injective : (x y : Bytes) → to_hex (sha256 x) ≡ to_hex (sha256 y) → sha256 x ≡ sha256 y
  to_hex-injective x y e =
      let h : ok (sha256 x) ≡ ok (sha256 y) =
        sym (from_hex-to_hex (sha256 x) (hash.sha256-IsByte x))
        ∙ ap from_hex e
        ∙ from_hex-to_hex (sha256 y) (hash.sha256-IsByte y) in
      cc

  tree_sha256-lines :
      (fs : List (Text × FileRecord)) (t : Text)
      → tree_sha256 hash fs ≡ ok t
      → (b : Bytes) × (tree_bytes (sort_by_key fs) ≡ ok b) × (to_hex (sha256 b) ≡ t)
  unfolding tree_sha256
  tree_sha256-lines fs t e =
      let (h, hh, e') = >>=-eq-ok (update_tree hash new (sort_by_key fs)) _ e in
      let (b, hb, taken) = update_tree-HasTaken (sort_by_key fs) new [] h (HasTaken-new hash) hh in
      (b, hb, ap to_hex (sym taken.result) ∙ cc)

  -- Two sets of records with one tree digest are the same, in the order of their names, or else
  -- the lines of these two sets are different byte strings with one SHA-256. No name may hold a NUL, and no recorded
  -- digest a line feed.
  pub tree_sha256-determines :
      (fs gs : List (Text × FileRecord)) (t : Text)
      → Lines fs
      → Lines gs
      → tree_sha256 hash fs ≡ ok t
      → tree_sha256 hash gs ≡ ok t
      → (sort_by_key fs ≡ sort_by_key gs) ⊎ Collision fs gs
  tree_sha256-determines fs gs t hf hg ef eg =
      let (b, hb, tb) = tree_sha256-lines fs t ef in
      let (c, hc, tc) = tree_sha256-lines gs t eg in
      elim (Bool-cases (same b c)) [
        | inl equal ↦ inl (
            tree_bytes-injective (sort_by_key fs) (sort_by_key gs) c (Lines-sort fs hf)
              (Lines-sort gs hg) (hb ∙ ap ok (same_sound b c equal)) hc)
        | inr other ↦ inr (record {
          one = b;
          other = c;
          one_of = hb;
          other_of = hc;
          differ = same-ne b c other;
          digests = to_hex-injective b c (tb ∙ sym tc);
        })
      ]
