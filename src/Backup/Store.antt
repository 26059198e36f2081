-- ===== src/Backup/Store.antt =====
-- crates/pkdump-lakejobs/src/nessie_backup.rs: the interface of a store of objects, over its contents
-- `S`. The stores behind it are another repository's.
use pokedumpster.Base.{Text, ℕ, List, ◌≡◌, ◌≢◌, Option, none, some}

abbrev pub Bytes : Type 0
Bytes = List ℕ

-- The message.
abbrev pub BackupError : Type 0
BackupError = Text

pub data Result (A : Type 0) : Type 0 where
  ok : A → Result A
  err : BackupError → Result A

infixl 5 ◌>>=◌
abbrev pub ◌>>=◌ : {A B : Type 0} → Result A → (A → Result B) → Result B
ok a >>= f = f a
err e >>= f = err e

pub record Store (S : Type 0) : Type 0 where
  pub put : S → Text → Bytes → Result (Unit {0}) × S
  pub get : S → Text → Result Bytes
  pub keys : S → Text → Result (List Text)
  pub delete : S → Text → Result (Unit {0}) × S

-- A write or a deletion that succeeds is seen under its key, and a call on a key leaves the other
-- objects alone, whether it succeeds or fails.
pub record IsStore {S : Type 0} (store : Store S) (holds : S → Text → Option Bytes) : Type 0 where
  pub holds-delete :
      (s : S) (k other : Text) → other ≢ k → holds (store.delete s k).1 other ≡ holds s other
  pub holds-deleted :
      (s : S) (k : Text) → (store.delete s k).0 ≡ ok tt → holds (store.delete s k).1 k ≡ none
  pub holds-put :
      (s : S) (k : Text) (data' : Bytes) (other : Text)
      → other ≢ k
      → holds (store.put s k data').1 other ≡ holds s other
  pub holds-written :
      (s : S) (k : Text) (data' : Bytes)
      → (store.put s k data').0 ≡ ok tt
      → holds (store.put s k data').1 k ≡ some data'
