-- ===== src/Tenants/Relocate.antt =====
-- crates/pkdump-db/src/tenants.rs: `relocate` with its checkpoint, its roll-back and its treatment of
-- the Litestream directory, and `adopt` and `revert` above it.
use pokedumpster.Base.{Text, codes, equal, ℕ, not, Option, none, some, ltb, ◌==◌, if◌then◌else◌}
use pokedumpster.Tenants.Disk.{
  env, not_found, conflict, Result, ok, err, ◌>>=◌, System, Disk, exists, write, rename, remove,
  litestream_dir, sidecar,
}

-- What a move does with the Litestream directory.
pub data Litestream : Type 0 where
  carry reset : Litestream

abbrev pub MoveResult : Type 0 → Type 0
MoveResult B = Result Text × Disk B

module _ {B : Type 0} (sys : System B) where
  -- A write-ahead log with frames left in it.
  abbrev pub wal_left : Text → Option ℕ → Result Unit
  wal_left wal none = ok tt
  wal_left wal (some n) = if ltb 0 n then err (conflict wal) else ok tt

  abbrev pub metadata_of : Text → Option B → Option ℕ
  metadata_of p none = none
  metadata_of p (some b) = sys.metadata p b

  -- The files of a database once a checkpoint was tried and the connection closed.
  abbrev pub files_after : Text → Disk B → Option B → Disk B
  files_after path d none = d
  files_after path d (some b) =
      let log = d (sidecar path (codes "-wal")) in
      write (sidecar path (codes "-wal")) (sys.log_left path b log) (
        write (sidecar path (codes "-shm")) (sys.shm_left path b (d (sidecar path (codes "-shm"))))
          (write path (some (sys.folded path b log)) d))

  unfoldable pub checkpointed : Text → Disk B → Disk B
  unfolding sidecar equal
  checkpointed path d = files_after path d (d path)

  -- What is said of the checkpoint, given the disk that it leaves.
  abbrev pub checkpoint_result : Text → Disk B → Result Unit
  checkpoint_result path e = sys.wal_checkpoint path >>= λ busy.
      if not (busy == 0)
      then err (conflict path)
      else (let wal = sidecar path (codes "-wal") in wal_left wal (metadata_of wal (e wal)))

  unfoldable pub checkpoint_and_close : Text → Disk B → Result Unit × Disk B
  unfolding sidecar checkpointed
  checkpoint_and_close path d = let e = checkpointed path d in (checkpoint_result path e, e)

  -- `let _ = remove_file(path)`: a failure is ignored.
  unfoldable pub try_remove : Text → Disk B → Disk B
  unfolding remove
  try_remove p d = if sys.remove_file_fails p then d else remove p d

  abbrev pub left_of : Text → Option B → Option B
  left_of p none = none
  left_of p (some b) = sys.dir_left p b

  -- A `remove_dir_all` that fails on the way.
  unfoldable pub remove_partly : Text → Disk B → Disk B
  unfolding equal
  remove_partly p d = write p (left_of p (d p)) d

  -- `let _ = remove_dir_all(path)`.
  unfoldable pub try_remove_dir : Text → Disk B → Disk B
  unfolding remove remove_partly
  try_remove_dir p d = if sys.remove_dir_fails p then remove_partly p d else remove p d

  unfoldable pub remove_sidecars : Text → Disk B → Disk B
  unfolding try_remove sidecar
  remove_sidecars path d =
      try_remove (sidecar path (codes "-shm")) (try_remove (sidecar path (codes "-wal")) d)

  -- Puts the database back. A failure of this is ignored.
  unfoldable pub move_back : Text → Text → Disk B → Disk B
  unfolding rename
  move_back from to d = if sys.rename_fails to from then d else rename to from d

  abbrev pub finish_move : Text → Text → Disk B → MoveResult B
  finish_move from to d = (ok to, remove_sidecars from d)

  -- The Litestream directory, behind the rename of the database.
  unfoldable pub settle : Litestream → Text → Text → Disk B → MoveResult B
  unfolding rename remove remove_partly remove_sidecars move_back litestream_dir
  settle carry from to d =
      if exists d (litestream_dir from)
      then (if sys.rename_fails (litestream_dir from) (litestream_dir to)
          then (err (env (litestream_dir from)), move_back from to d)
          else finish_move from to (rename (litestream_dir from) (litestream_dir to) d))
      else finish_move from to d
  settle reset from to d =
      if exists d (litestream_dir from)
      then (if sys.remove_dir_fails (litestream_dir from)
          then (
            err (env (litestream_dir from)),
            move_back from to (remove_partly (litestream_dir from) d),
          )
          else finish_move from to (remove (litestream_dir from) d))
      else finish_move from to d

  -- From the checkpoint on.
  unfoldable pub move_file : Litestream → Text → Text → Result Unit × Disk B → MoveResult B
  unfolding rename settle
  move_file mode from to (err e, d) = (err e, d)
  move_file mode from to (ok t, d) =
      if sys.create_dir_fails to
      then (err (env to), d)
      else if sys.rename_fails from to
      then (err (env from), d)
      else settle mode from to (rename from to d)

  unfoldable pub relocate : Litestream → Text → Text → Disk B → MoveResult B
  unfolding move_file checkpoint_and_close litestream_dir
  relocate mode from to d =
      if not (exists d from)
      then (err (not_found from), d)
      else if exists d to
      then (err (conflict to), d)
      else if exists d (litestream_dir to)
      then (err (conflict (litestream_dir to)), d)
      else move_file mode from to (checkpoint_and_close from d)

  -- `adopt` and `revert`, given the two paths of a tenant.
  unfoldable pub adopt : Text → Text → Disk B → MoveResult B
  adopt legacy path d = relocate carry legacy path d

  unfoldable pub revert : Text → Text → Disk B → MoveResult B
  revert legacy path d = relocate carry path legacy d
