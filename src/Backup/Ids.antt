-- ===== src/Backup/Ids.antt =====
-- crates/pkdump-lakejobs/src/nessie_backup.rs: the ids of the complete backups. A `BTreeSet` is a list
-- in the order of its texts, each once.
use Prim.Native.Nat.{Ordering, compare}
use pokedumpster.Base.{
  Text, codes, equal, is_ascii_digit, ℕ, Option, none, some, List, [], ◌∷◌, Bool, ◌&&◌, ◌==◌,
  if◌then◌else◌, length, take, drop, all,
}
use pokedumpster.Base.Order.{lex}
use pokedumpster.Backup.Store.{Store, Result, ok, ◌>>=◌}

abbrev pub prefix : Text
prefix = codes "nessie"

abbrev pub export : Text
export = codes "export.zip"

abbrev pub manifest : Text
manifest = codes "manifest.json"

abbrev pub cons_head : ℕ → List Text → List Text
cons_head c [] = (c ∷ []) ∷ []
cons_head c (p ∷ ps) = (c ∷ p) ∷ ps

-- `split('/')`.
unfoldable pub key_parts : Text → List Text
key_parts [] = [] ∷ []
key_parts (c ∷ cs) = let rest = key_parts cs in if c == b'/' then [] ∷ rest else cons_head c rest

-- Eight digits, `T`, six digits and `Z`, all of them one byte each.
unfoldable pub id_is_valid : Text → Bool
unfolding all is_ascii_digit equal
id_is_valid id =
    length id == 16
    && equal (take 1 (drop 8 id)) (codes "T")
    && equal (drop 15 id) (codes "Z")
    && all is_ascii_digit (take 8 id)
    && all is_ascii_digit (take 6 (drop 9 id))

abbrev pub text_order : Text → Text → Ordering
text_order = lex compare

abbrev pub placed : Ordering → Text → Text → List Text → List Text → List Text
placed Ordering.lt x y ys later = x ∷ y ∷ ys
placed Ordering.eq x y ys later = y ∷ ys
placed Ordering.gt x y ys later = y ∷ later

-- `BTreeSet::insert`.
unfoldable pub insert : Text → List Text → List Text
unfolding lex
insert x [] = x ∷ []
insert x (y ∷ ys) = placed (text_order x y) x y ys (insert x ys)

-- A key of three parts, by the second and the third.
abbrev pub three : List Text → Option (Text × Text)
three (a ∷ id ∷ name ∷ []) = some (id, name)
three _ = none

abbrev pub complete_id : Option (Text × Text) → List Text → List Text
complete_id none ids = ids
complete_id (some (id, name)) ids =
    if equal name manifest && id_is_valid id then insert id ids else ids

unfoldable pub collect_ids : List Text → List Text → List Text
unfolding key_parts equal id_is_valid insert
collect_ids [] ids = ids
collect_ids (k ∷ ks) ids = collect_ids ks (complete_id (three (key_parts k)) ids)

module _ {S : Type 0} (store : Store S) where
  -- The ids with a manifest, the oldest first.
  unfoldable pub backup_ids : S → Result (List Text)
  unfolding collect_ids
  backup_ids s = do ks ← store.keys s prefix; ok (collect_ids ks [])
