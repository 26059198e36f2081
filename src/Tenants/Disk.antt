-- ===== src/Tenants/Disk.antt =====
-- crates/pkdump-db/src/tenants.rs: what the moves use of the file system, and the names that they
-- derive from a path. A disk gives the contents of each path, a directory being one entry.
use pokedumpster.Base.{
  Text, codes, equal, rsplit_once, ℕ, Bool, Option, none, some, ◌++◌, is_some, if◌then◌else◌,
}

-- `DbError`, with the path that its message names.
pub data DbError : Type 0 where
  env : Text → DbError
  not_found : Text → DbError
  conflict : Text → DbError
  sqlite : Text → DbError

pub data Result (A : Type 0) : Type 0 where
  ok : A → Result A
  err : DbError → Result A

infixl 5 ◌>>=◌
abbrev pub ◌>>=◌ : {A B : Type 0} → Result A → (A → Result B) → Result B
ok a >>= f = f a
err e >>= f = err e

-- Which calls fail, and what SQLite and the file system do to an entry: `folded`, `log_left` and
-- `shm_left` are the database, its log and its index once a checkpoint was tried and the connection
-- closed, and `dir_left` is what a `remove_dir_all` that fails leaves of a directory. `metadata` is the
-- length of a file.
pub record System (B : Type 0) : Type 0 where
  pub create_dir_fails : Text → Bool
  pub rename_fails : Text → Text → Bool
  pub remove_dir_fails : Text → Bool
  pub dir_left : Text → B → Option B
  pub remove_file_fails : Text → Bool
  pub wal_checkpoint : Text → Result ℕ
  pub folded : Text → B → Option B → B
  pub log_left : Text → B → Option B → Option B
  pub shm_left : Text → B → Option B → Option B
  pub metadata : Text → B → Option ℕ

abbrev pub Disk : Type 0 → Type 0
Disk B = Text → Option B

module _ {B : Type 0} where
  -- `Path::exists`.
  abbrev pub exists : Disk B → Text → Bool
  exists d p = is_some (d p)

  abbrev pub write : Text → Option B → Disk B → Disk B
  write p v d q = if equal p q then v else d q

  -- `rename(2)`.
  unfoldable pub rename : Text → Text → Disk B → Disk B
  rename from to d = write from none (write to (d from) d)

  -- `remove_file` and `remove_dir_all`.
  unfoldable pub remove : Text → Disk B → Disk B
  remove p d = write p none d

-- `Path::parent` and `Path::file_name` around the last separator.
abbrev pub hidden : Text → Option (Text × Text) → Text
hidden path none = codes "." ++ (path ++ codes "-litestream")
hidden path (some (parent, name)) = parent ++ (codes "/." ++ (name ++ codes "-litestream"))

unfoldable pub litestream_dir : Text → Text
litestream_dir path = hidden path (rsplit_once b'/' path)

unfoldable pub sidecar : Text → Text → Text
sidecar path suffix = path ++ suffix
