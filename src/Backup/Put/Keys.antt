-- ===== src/Backup/Put/Keys.antt =====
-- crates/pkdump-lakejobs/src/nessie_backup.rs: the keys of a backup's objects are read back.
use pokedumpster.Base.{
  Text, codes, equal, equal_iff, is_ascii_digit, ℕ, zero, suc, ◌+◌, ◌≡◌, refl, sym, ap, ◌∙◌, subst,
  some, [], ◌∷◌, ◌++◌, Bool, true, false, not, ◌&&◌, ◌==◌, length, take, drop, all, arith,
}
use pokedumpster.Backup.Ids.{prefix, key_parts, id_is_valid, three}
use pokedumpster.Backup.Verify.{object_key}

-- No `/` in it.
abbrev pub is_part : Text → Bool
is_part s = all (λ c. not (c == b'/')) s

is_part-digits : (s : Text) → all is_ascii_digit s ≡ true → is_part s ≡ true
unfolding all is_ascii_digit
is_part-digits [] h = refl
is_part-digits (c ∷ s) h = ground (arith, is_part-digits s)

is_part-split :
    (n : ℕ) (s : Text) → is_part (take n s) ≡ true → is_part (drop n s) ≡ true → is_part s ≡ true
unfolding all
is_part-split zero s h k = k
is_part-split (suc n) [] h k = refl
is_part-split (suc n) (c ∷ s) h k = ground (arith, is_part-split n s)

drop-drop : (n m k : ℕ) (s : Text) → k ≡ n + m → drop m (drop n s) ≡ drop k s
drop-drop zero m k s h = ap (λ i. drop i s) (let e : m ≡ k = omega arith in e)
drop-drop (suc n) zero (suc k) [] h = refl
drop-drop (suc n) (suc m) (suc k) [] h = refl
drop-drop (suc n) m zero s h = absurd (omega arith)
drop-drop (suc n) m (suc k) (c ∷ s) h = drop-drop n m k s (omega arith)

both : (a b : Bool) → (a && b) ≡ true → (a ≡ true) × (b ≡ true)
both true b h = (refl, h)
both false b h = absurd (let t : false ≡ true = h in cc)

id_is_valid-is_part : (id : Text) → id_is_valid id ≡ true → is_part id ≡ true
unfolding id_is_valid all
id_is_valid-is_part id h =
    let (h3, second) =
      both
        ((length id == 16)
          && equal (take 1 (drop 8 id)) (codes "T")
          && equal (drop 15 id) (codes "Z")
          && all is_ascii_digit (take 8 id))
        (all is_ascii_digit (take 6 (drop 9 id))) h in
    let (h2, first) =
      both
        ((length id == 16)
          && equal (take 1 (drop 8 id)) (codes "T")
          && equal (drop 15 id) (codes "Z"))
        (all is_ascii_digit (take 8 id)) h3 in
    let (h1, zone) =
      both ((length id == 16) && equal (take 1 (drop 8 id)) (codes "T"))
        (equal (drop 15 id) (codes "Z")) h2 in
    let (sized, mark) = both (length id == 16) (equal (take 1 (drop 8 id)) (codes "T")) h1 in
    let is_end : (s u : Text) → equal s u ≡ true → is_part u ≡ true → is_part s ≡ true =
      λ s u e p. subst (λ v. is_part v ≡ true) (sym ((equal_iff s u).0 e)) p in
    is_part-split 8 id (is_part-digits (take 8 id) first) (
      is_part-split 1 (drop 8 id) (is_end (take 1 (drop 8 id)) (codes "T") mark refl) (
        subst (λ v. is_part v ≡ true) (sym (drop-drop 8 1 9 id refl))
          (is_part-split 6 (drop 9 id) (is_part-digits (take 6 (drop 9 id)) second) (
            subst (λ v. is_part v ≡ true) (sym (drop-drop 9 6 15 id refl))
              (is_end (drop 15 id) (codes "Z") zone refl)))))

key_parts-append :
    (s rest : Text) → is_part s ≡ true → key_parts (s ++ (b'/' ∷ rest)) ≡ s ∷ key_parts rest
unfolding key_parts all
key_parts-append [] rest h = refl
key_parts-append (c ∷ s) rest h =
    rw (key_parts-append s rest (ground arith), let e : (c == b'/') ≡ false = ground arith in e)
      refl

pub object_key-three :
    (id name : Text)
    → id_is_valid id ≡ true
    → key_parts name ≡ name ∷ []
    → three (key_parts (object_key id name)) ≡ some (id, name)
unfolding all
object_key-three id name h k = ap three (
    key_parts-append prefix (id ++ (codes "/" ++ name)) refl
    ∙ ap (λ ps. prefix ∷ ps)
        (key_parts-append id name (id_is_valid-is_part id h) ∙ ap (λ ps. id ∷ ps) k))
