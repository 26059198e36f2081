-- ===== src/Natural/Laws.antt =====
-- crates/pkdump-core/src/natural.rs: `natural_cmp` is a total preorder, and runs of digits count by
-- their value.
use Prim.Native.Nat.{compare, Ordering}
use pokedumpster.Base.{
  Text, ℕ, ◌≡◌, refl, ◌∙◌, sym, subst, List, [], ◌∷◌, ◌++◌, length, arith, is_ascii_digit, false,
  true, ap, append_assoc, append-nil, ◌≤◌,
}
use pokedumpster.Base.Digits.{
  AreDigits, value, strip_zeros, compare_digits, compare_digits-value, value-strip_zeros,
  strip_zeros-AreDigits, strip_zeros-IsUnpadded,
}
use pokedumpster.Base.Order.{lex, then_with, reverse, IsOrder, compare-IsOrder, lex-IsOrder}
use pokedumpster.Natural.{
  Chunk, digits, text, compare_chunk, zip_compare, chunks, natural_cmp, grow, push_char,
  chunks_from,
}

-- The order on runs of digits, by length and then by text.
compare_digits-IsOrder : IsOrder compare_digits
unfolding compare_digits
compare_digits-IsOrder =
    let n = compare-IsOrder in
    let o = lex-IsOrder compare-IsOrder in
    record {
      cmp_refl = λ a. ground (arith, n.cmp_refl (length a), o.cmp_refl a);
      cmp_flip = λ a b. ground (arith, n.cmp_flip (length a) (length b), o.cmp_flip a b);
      cmp_trans = λ a b c h k. ground (arith, o.cmp_trans a b c);
      cmp_congr = λ a b c h. ground (arith, o.cmp_congr a b c);
    }

chunk_refl : (a : Chunk) → compare_chunk a a ≡ Ordering.eq
unfolding compare_chunk
chunk_refl (digits p) = compare_digits-IsOrder.cmp_refl (strip_zeros p)
chunk_refl (text p) = (lex-IsOrder compare-IsOrder).cmp_refl p

chunk_flip : (a b : Chunk) → compare_chunk b a ≡ reverse (compare_chunk a b)
unfolding compare_chunk
chunk_flip (digits p) (digits q) = compare_digits-IsOrder.cmp_flip (strip_zeros p) (strip_zeros q)
chunk_flip (text p) (text q) = (lex-IsOrder compare-IsOrder).cmp_flip p q
chunk_flip (digits p) (text q) = refl
chunk_flip (text p) (digits q) = refl

chunk_trans :
    (a b c : Chunk)
    → compare_chunk a b ≡ Ordering.lt
    → compare_chunk b c ≡ Ordering.lt
    → compare_chunk a c ≡ Ordering.lt
unfolding compare_chunk
chunk_trans (digits p) (digits q) (digits r) =
    compare_digits-IsOrder.cmp_trans (strip_zeros p) (strip_zeros q) (strip_zeros r)
chunk_trans (text p) (text q) (text r) = (lex-IsOrder compare-IsOrder).cmp_trans p q r
chunk_trans (digits p) b (text r) = λ h k. refl
chunk_trans (text p) (digits q) c = λ h k. cc
chunk_trans (text p) (text q) (digits r) = λ h k. cc
chunk_trans (digits p) (text q) (digits r) = λ h k. cc

chunk_congr :
    (a b c : Chunk) → compare_chunk a b ≡ Ordering.eq → compare_chunk a c ≡ compare_chunk b c
unfolding compare_chunk
chunk_congr (digits p) (digits q) (digits r) =
    compare_digits-IsOrder.cmp_congr (strip_zeros p) (strip_zeros q) (strip_zeros r)
chunk_congr (text p) (text q) (text r) = (lex-IsOrder compare-IsOrder).cmp_congr p q r
chunk_congr (digits p) (digits q) (text r) = λ h. refl
chunk_congr (text p) (text q) (digits r) = λ h. refl
chunk_congr (digits p) (text q) c = λ h. cc
chunk_congr (text p) (digits q) c = λ h. cc

compare_chunk-IsOrder : IsOrder compare_chunk
compare_chunk-IsOrder = record {
  cmp_refl = chunk_refl;
  cmp_flip = chunk_flip;
  cmp_trans = chunk_trans;
  cmp_congr = chunk_congr;
}

-- Comparing the zipped chunks and then the counts is the lexicographic order.
zip_compare-lex :
    (xs ys : List Chunk)
    → then_with (zip_compare xs ys) (compare (length xs) (length ys)) ≡ lex compare_chunk xs ys
unfolding zip_compare lex
zip_compare-lex [] [] = refl
zip_compare-lex [] (y ∷ ys) = ground arith
zip_compare-lex (x ∷ xs) [] = ground arith
zip_compare-lex (x ∷ xs) (y ∷ ys) = ground (arith, zip_compare-lex xs ys)

module _ (to_lowercase : ℕ → Text) where
  natural_cmp-lex :
      (a b : Text)
      → natural_cmp to_lowercase a b
        ≡ lex compare_chunk (chunks to_lowercase a) (chunks to_lowercase b)
  unfolding natural_cmp
  natural_cmp-lex a b = zip_compare-lex (chunks to_lowercase a) (chunks to_lowercase b)

  -- `natural_cmp` is a total preorder, as a sort needs it: a name equals itself, the order of two
  -- names turns round with them, `Less` is transitive, and equal names compare alike with others.
  pub natural_cmp-IsOrder : IsOrder (natural_cmp to_lowercase)
  natural_cmp-IsOrder =
      let o = lex-IsOrder compare_chunk-IsOrder in
      let f = chunks to_lowercase in
      record {
        cmp_refl = λ a. rw natural_cmp-lex (o.cmp_refl (f a));
        cmp_flip = λ a b.
            natural_cmp-lex b a ∙ o.cmp_flip (f a) (f b) ∙ ap reverse (sym (natural_cmp-lex a b));
        cmp_trans = λ a b c h k.
            natural_cmp-lex a c
            ∙ o.cmp_trans (f a) (f b) (f c) (sym (natural_cmp-lex a b) ∙ h)
                (sym (natural_cmp-lex b c) ∙ k);
        cmp_congr = λ a b c h.
            natural_cmp-lex a c
            ∙ o.cmp_congr (f a) (f b) (f c) (sym (natural_cmp-lex a b) ∙ h)
            ∙ sym (natural_cmp-lex b c);
      }

  -- The last chunk, if there is one, is text.
  abbrev EndsInText : List Chunk → Type 0
  EndsInText [] = Unit
  EndsInText (digits d ∷ []) = ⊥
  EndsInText (text t ∷ []) = Unit
  EndsInText (c ∷ d ∷ cs) = EndsInText (d ∷ cs)

  chunks_from-append :
      (out : List Chunk) (s t : Text)
      → chunks_from to_lowercase out (s ++ t)
        ≡ chunks_from to_lowercase (chunks_from to_lowercase out s) t
  unfolding chunks_from
  chunks_from-append out [] t = refl
  chunks_from-append out (c ∷ s) t = chunks_from-append (push_char to_lowercase out c) s t

  push_char-EndsInText :
      (out : List Chunk) (c : ℕ)
      → is_ascii_digit c ≡ false
      → EndsInText (push_char to_lowercase out c)
  unfolding push_char
  push_char-EndsInText [] c h = rw h tt
  push_char-EndsInText (digits d ∷ []) c h = rw h tt
  push_char-EndsInText (text t ∷ []) c h = rw h tt
  push_char-EndsInText (x ∷ digits d ∷ []) c h = rw h tt
  push_char-EndsInText (x ∷ text t ∷ []) c h = rw h tt
  push_char-EndsInText (x ∷ y ∷ z ∷ cs) c h = push_char-EndsInText (y ∷ z ∷ cs) c h

  push_char-append :
      (xs : List Chunk) (x : Chunk) (c : ℕ)
      → push_char to_lowercase (xs ++ (x ∷ [])) c ≡ xs ++ grow to_lowercase x c
  unfolding push_char
  push_char-append [] x c = refl
  push_char-append (y ∷ []) x c = refl
  push_char-append (y ∷ z ∷ ys) x c = ap (◌∷◌ y) (push_char-append (z ∷ ys) x c)

  push_char-digit :
      (out : List Chunk) (c : ℕ)
      → EndsInText out
      → is_ascii_digit c ≡ true
      → push_char to_lowercase out c ≡ out ++ (digits (c ∷ []) ∷ [])
  unfolding push_char
  push_char-digit [] c t h = rw h
  push_char-digit (digits d ∷ []) c t h = absurd t
  push_char-digit (text s ∷ []) c t h = rw h
  push_char-digit (x ∷ y ∷ cs) c t h = ap (◌∷◌ x) (push_char-digit (y ∷ cs) c t h)

  chunks_from-digits :
      (out : List Chunk) (p d : Text)
      → AreDigits d
      → chunks_from to_lowercase (out ++ (digits p ∷ [])) d ≡ out ++ (digits (p ++ d) ∷ [])
  unfolding chunks_from
  chunks_from-digits out p [] h = simp append-nil
  chunks_from-digits out p (c ∷ d) h =
      rw (push_char-append out (digits p) c)
        (unfold grow in rw h.0 (chunks_from-digits out (p ++ (c ∷ [])) d h.1 ∙ simp append_assoc))

  -- A run of digits behind a character that is none is the last chunk.
  chunks-run :
      (p : Text) (c d : ℕ) (ds : Text)
      → is_ascii_digit c ≡ false
      → AreDigits (d ∷ ds)
      → chunks to_lowercase (p ++ (c ∷ d ∷ ds))
        ≡ chunks to_lowercase (p ++ (c ∷ [])) ++ (digits (d ∷ ds) ∷ [])
  unfolding chunks chunks_from
  chunks-run p c d ds h k =
      let before = chunks_from to_lowercase [] (p ++ (c ∷ [])) in
      let last : before ≡ push_char to_lowercase (chunks_from to_lowercase [] p) c =
        chunks_from-append [] p (c ∷ []) in
      let ends : EndsInText before =
        subst EndsInText (sym last) (push_char-EndsInText (chunks_from to_lowercase [] p) c h) in
      ap (chunks_from to_lowercase []) (sym (append_assoc p (c ∷ []) (d ∷ ds)))
      ∙ chunks_from-append [] (p ++ (c ∷ [])) (d ∷ ds)
      ∙ rw (push_char-digit before d ends k.0) (chunks_from-digits before (d ∷ []) ds k.1)

compare_chunk-digits :
    (p q : Text)
    → AreDigits p
    → AreDigits q
    → compare_chunk (digits p) (digits q) ≡ compare (value p) (value q)
unfolding compare_chunk
compare_chunk-digits p q hp hq =
    compare_digits-value (strip_zeros p) (strip_zeros q) (strip_zeros-AreDigits p hp)
      (strip_zeros-AreDigits q hq) (strip_zeros-IsUnpadded p) (strip_zeros-IsUnpadded q)
    ∙ rw (value-strip_zeros p, value-strip_zeros q)

lex-one : (x y : Chunk) → lex compare_chunk (x ∷ []) (y ∷ []) ≡ compare_chunk x y
unfolding lex
lex-one x y = ground arith

lex-append :
    (xs ys zs : List Chunk) → lex compare_chunk (xs ++ ys) (xs ++ zs) ≡ lex compare_chunk ys zs
unfolding lex
lex-append [] ys zs = refl
lex-append (x ∷ xs) ys zs = rw (chunk_refl x) (lex-append xs ys zs)

-- Two names that agree up to a character that is no digit, and end in runs of digits, compare as the
-- numbers that the runs stand for, whatever zeros stand in front.
pub natural_cmp-numbers :
    (to_lowercase : ℕ → Text) (p : Text) (c : ℕ) (d e : Text)
    → is_ascii_digit c ≡ false
    → AreDigits d
    → AreDigits e
    → 1 ≤ length d
    → 1 ≤ length e
    → natural_cmp to_lowercase (p ++ (c ∷ d)) (p ++ (c ∷ e)) ≡ compare (value d) (value e)
natural_cmp-numbers low p c [] e h hd he ld le = absurd (omega arith)
natural_cmp-numbers low p c (x ∷ d) [] h hd he ld le = absurd (omega arith)
natural_cmp-numbers low p c (x ∷ d) (y ∷ e) h hd he ld le =
    natural_cmp-lex low _ _
    ∙ rw (chunks-run low p c x d h hd, chunks-run low p c y e h he, lex-append, lex-one)
        (compare_chunk-digits (x ∷ d) (y ∷ e) hd he)
