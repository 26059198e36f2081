-- ===== src/Backup/Prune.antt =====
-- crates/pkdump-lakejobs/src/nessie_backup.rs: `prune`.
use Prim.Native.Nat.{Ordering}
use pokedumpster.Base.Order.{lex}
use pokedumpster.Base.{
  Text, codes, equal, includes, ℕ, zero, suc, ◌-◌, ◌≡◌, refl, Option, none, some, List, [], ◌∷◌,
  ◌++◌, Bool, true, false, ◌&&◌, ◌||◌, not, if◌then◌else◌, length, take, drop, ltb,
}
use pokedumpster.Backup.Store.{Store, Result, ok, err, ◌>>=◌, Bytes}
use pokedumpster.Backup.Ids.{prefix, key_parts, id_is_valid, three, insert, backup_ids, text_order}
pub mod Safe
pub mod Loop
pub mod Newest

-- `last`.
unfoldable pub last : List Text → Option Text
last [] = none
last (x ∷ []) = some x
last (x ∷ y ∷ xs) = last (y ∷ xs)

abbrev pub is_before : Ordering → Bool
is_before Ordering.lt = true
is_before _ = false

abbrev pub older_than : Text → Option Text → Bool
older_than id none = false
older_than id (some newest) = is_before (text_order id newest)

-- The backups that are too many.
unfoldable pub too_many : List Text → ℕ → List Text
too_many ids keep = if ltb keep (length ids) then take (length ids - keep) ids else []

-- The test of a key's id, of the complete ids and the doomed ones so far.
abbrev pub is_doomed : List Text → List Text → Text → Bool
is_doomed ids doomed id = includes doomed id || (not (includes ids id) && older_than id (last ids))

module _ {S : Type 0} (store : Store S) where
  abbrev pub Pruning : Type 0
  Pruning = Result (List Text) × S

  -- What one key does: the doomed ids and the store after it, or the error of the deletion.
  abbrev pub deleted : Text → List Text → Result (Unit {0}) × S → Pruning
  deleted id doomed (ok u, s) = (ok (insert id doomed), s)
  deleted id doomed (err e, s) = (err e, s)

  abbrev pub prune_part : List Text → List Text → Text → S → Option (Text × Text) → Pruning
  prune_part ids doomed k s none = (ok doomed, s)
  prune_part ids doomed k s (some (id, name)) =
      if id_is_valid id && is_doomed ids doomed id
      then deleted id doomed (store.delete s k)
      else (ok doomed, s)

  -- The loop over the keys.
  unfoldable pub prune_keys : List Text → List Text → Pruning → Pruning
  unfolding key_parts id_is_valid includes insert last lex
  prune_keys ids [] (doomed, s) = (doomed, s)
  prune_keys ids (k ∷ ks) (ok doomed, s) =
      prune_keys ids ks (prune_part ids doomed k s (three (key_parts k)))
  prune_keys ids (k ∷ ks) (err e, s) = (err e, s)

  abbrev pub prune_listed : List Text → List Text → S → Result (List Text) → Pruning
  prune_listed ids doomed s (ok ks) = prune_keys ids ks (ok doomed, s)
  prune_listed ids doomed s (err e) = (err e, s)

  abbrev pub prune_ids : ℕ → S → Result (List Text) → Pruning
  prune_ids keep s (ok ids) = prune_listed ids (too_many ids keep) s (store.keys s prefix)
  prune_ids keep s (err e) = (err e, s)

  -- The ids removed.
  unfoldable pub prune : S → ℕ → Pruning
  unfolding backup_ids too_many prune_keys
  prune s keep = prune_ids keep s (backup_ids store s)
