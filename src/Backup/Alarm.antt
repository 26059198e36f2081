-- ===== src/Backup/Alarm.antt =====
-- crates/pkdump-lakejobs/src/nessie_backup.rs: `check`, the alarm.
use pokedumpster.Base.{Text, codes, ℕ, Option, none, some, ◌++◌, Bool, if◌then◌else◌}
use pokedumpster.Backup.Store.{Store, Result, ok, err, ◌>>=◌, Bytes}
use pokedumpster.Backup.Ids.{backup_ids}
use pokedumpster.Backup.Prune.{last}
use pokedumpster.Backup.Verify.{Codec, Manifest, parse_id, verify_backup}

abbrev pub exit_ok : ℕ
exit_ok = 0

abbrev pub exit_stale : ℕ
exit_stale = 3

abbrev pub exit_corrupt : ℕ
exit_corrupt = 4

-- The hours since a date, in the `f64` of the program, their comparison and their two formats.
pub record Hours (Date F : Type 0) : Type 0 where
  pub since : Date → F
  pub exceeds : F → F → Bool
  pub to_one_decimal : F → Text
  pub shown : F → Text

module _ {Date F : Type 0} (codec : Codec Date) (hours : Hours Date F) (limit : F) where
  abbrev pub judge : Text → Date → ℕ × Text
  judge newest date =
      if hours.exceeds (hours.since date) limit
      then (
        exit_stale,
        codes "newest backup "
            ++ newest
            ++ codes " is "
            ++ hours.to_one_decimal (hours.since date)
            ++ codes "h old (limit "
            ++ hours.shown limit
            ++ codes "h)",
      )
      else (
        exit_ok,
        codes "newest backup "
            ++ newest
            ++ codes " is "
            ++ hours.to_one_decimal (hours.since date)
            ++ codes "h old and verifies",
      )

  abbrev pub check_verified : Text → Result (Manifest × Bytes) → Result (ℕ × Text)
  check_verified newest (err e) =
      ok (exit_corrupt, codes "newest backup " ++ newest ++ codes " cannot be verified: " ++ e)
  check_verified newest (ok v) = do date ← parse_id codec newest; ok (judge newest date)

  module _ {S : Type 0} (store : Store S) where
    abbrev pub check_newest : S → Option Text → Result (ℕ × Text)
    check_newest s none = ok (exit_stale, codes "no Nessie backup exists")
    check_newest s (some newest) = check_verified newest (verify_backup codec store s newest)

    -- The exit status, and why.
    unfoldable pub check : S → Result (ℕ × Text)
    unfolding backup_ids last verify_backup parse_id
    check s = do ids ← backup_ids store s; check_newest s (last ids)
