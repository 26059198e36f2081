-- ===== src/Tenants/Kept.antt =====
-- crates/pkdump-db/src/tenants.rs: what `relocate` leaves on the disk.
use pokedumpster.Base.{
  Text, codes, equal, equal_iff, equal_refl, subst, ◌≡◌, refl, sym, ap, ◌∙◌, ◌⊎◌, inl, inr, false,
  Option, none, some, is_some, arith, Bool-cases,
}
use pokedumpster.Tenants.Disk.{
  DbError, ok, err, System, Disk, rename, remove, litestream_dir, sidecar,
}
use pokedumpster.Tenants.Relocate.{
  Litestream, carry, reset, MoveResult, remove_sidecars, try_remove, try_remove_dir, move_back,
  checkpointed, files_after, left_of, remove_partly, wal_left, metadata_of,
}
use pokedumpster.Tenants.Names.{
  IsNoSidecar, litestream_dir-differ, sidecar-differ, equal-swap, IsApart, exists-differ,
}

module _ {B : Type 0} (sys : System B) where
  try_remove-apart : (q p : Text) (d : Disk B) → equal q p ≡ false → try_remove sys q d p ≡ d p
  unfolding try_remove remove
  try_remove-apart q p d h = elim (Bool-cases (sys.remove_file_fails q)) [
    | inl f ↦ rw f refl
    | inr f ↦ rw (f, h) refl
  ]

  pub remove_sidecars-apart :
      (from p : Text) (d : Disk B) → IsNoSidecar from p → remove_sidecars sys from d p ≡ d p
  unfolding remove_sidecars
  remove_sidecars-apart from p d h =
      try_remove-apart (sidecar from (codes "-shm")) p _ h.1
      ∙ try_remove-apart (sidecar from (codes "-wal")) p d h.0

  pub rename-to :
      (from to : Text) (d : Disk B) → equal from to ≡ false → rename from to d to ≡ d from
  unfolding rename
  rename-to from to d h = rw (h, equal_refl to) refl

  pub rename-apart :
      (from to p : Text) (d : Disk B)
      → equal from p ≡ false
      → equal to p ≡ false
      → rename from to d p ≡ d p
  unfolding rename
  rename-apart from to p d h k = rw (h, k) refl

  pub remove-apart : (q p : Text) (d : Disk B) → equal q p ≡ false → remove q d p ≡ d p
  unfolding remove
  remove-apart q p d h = rw h refl

  try_remove-none : (q p : Text) (d : Disk B) → d p ≡ none → try_remove sys q d p ≡ none
  unfolding try_remove remove
  try_remove-none q p d h = elim (Bool-cases (sys.remove_file_fails q)) [
    | inl f ↦ rw f h
    | inr f ↦ rw f (elim (Bool-cases (equal q p)) [ inl e ↦ rw e refl | inr e ↦ rw e h ])
  ]

  left_of-none : (q : Text) (o : Option B) → o ≡ none → left_of sys q o ≡ none
  left_of-none q o h = ap (left_of sys q) h

  pub remove_partly-apart :
      (q p : Text) (d : Disk B) → equal q p ≡ false → remove_partly sys q d p ≡ d p
  unfolding remove_partly
  remove_partly-apart q p d h = rw h refl

  pub remove_partly-same : (q : Text) (d : Disk B) → remove_partly sys q d q ≡ left_of sys q (d q)
  unfolding remove_partly
  remove_partly-same q d = rw (equal_refl q) refl

  pub try_remove_dir-none : (q p : Text) (d : Disk B) → d p ≡ none → try_remove_dir sys q d p ≡ none
  unfolding try_remove_dir remove
  try_remove_dir-none q p d h = elim (Bool-cases (sys.remove_dir_fails q)) [
    | inl f ↦ rw f (elim (Bool-cases (equal q p)) [
      | inl e ↦
          subst (λ x. remove_partly sys q d x ≡ none) ((equal_iff q p).0 e)
            (remove_partly-same q d ∙ left_of-none q (d q) (ap d ((equal_iff q p).0 e) ∙ h))
      | inr e ↦ remove_partly-apart q p d e ∙ h
    ])
    | inr f ↦ rw f (elim (Bool-cases (equal q p)) [ inl e ↦ rw e refl | inr e ↦ rw e h ])
  ]

  pub remove_sidecars-none :
      (from p : Text) (d : Disk B) → d p ≡ none → remove_sidecars sys from d p ≡ none
  unfolding remove_sidecars
  remove_sidecars-none from p d h = try_remove-none _ p _ (try_remove-none _ p d h)

  pub rename-gone : (from to : Text) (d : Disk B) → rename from to d from ≡ none
  unfolding rename
  rename-gone from to d = rw (equal_refl from) refl

  -- The Litestream directory under the new name.
  abbrev pub carried : Litestream → Option B → Option B
  carried carry o = o
  carried reset o = none

  -- The Litestream directory of a move that failed: a removal may have got some way.
  abbrev pub IsSpared : Litestream → Text → Option B → Option B → Type 0
  IsSpared carry p o x = x ≡ o
  IsSpared reset p o x = (x ≡ o) ⊎ (x ≡ left_of sys p o)

  module _ (from to : Text) (d : Disk B) (b : B) where
    -- The database as its checkpoint leaves it, and its log.
    abbrev pub settled : B
    settled = sys.folded from b (d (sidecar from (codes "-wal")))

    abbrev pub log_after : Option B
    log_after = sys.log_left from b (d (sidecar from (codes "-wal")))

    -- The database as it was, or as its checkpoint leaves it.
    abbrev pub Holds : Option B → Type 0
    Holds o = (o ≡ some b) ⊎ (o ≡ some settled)

    abbrev pub Kept : Disk B → Type 0
    Kept e = Holds (e from) ⊎ Holds (e to)

    -- A move that succeeds takes the database as its checkpoint leaves it, with no frames seen in the log,
    -- and its Litestream directory as the mode says. One that fails leaves the database under one of its
    -- names; unless moving it back fails too, that is the old one, nothing of it is under the new name, and
    -- the Litestream directory is there or what a removal that failed has left of it.
    abbrev pub Ensures : Litestream → MoveResult B → Type 0
    Ensures mode (ok p, e) =
        (p ≡ to)
        × (e to ≡ some settled)
        × (e from ≡ none)
        × (e (litestream_dir to) ≡ carried mode (d (litestream_dir from)))
        × (e (litestream_dir from) ≡ none)
        × (wal_left sys (sidecar from (codes "-wal"))
              (metadata_of sys (sidecar from (codes "-wal")) log_after)
            ≡ ok tt)
    Ensures mode (err x, e) =
        Kept e
        × (sys.rename_fails to from ≡ false
            → Holds (e from)
              × (e to ≡ d to)
              × (e (litestream_dir to) ≡ d (litestream_dir to))
              × IsSpared mode (litestream_dir from) (d (litestream_dir from))
                  (e (litestream_dir from)))

    module _ (hb : d from ≡ some b) where
      checkpointed-files : checkpointed sys from d ≡ files_after sys from d (some b)
      unfolding checkpointed
      checkpointed-files = ap (files_after sys from d) hb

      pub checkpointed-from : checkpointed sys from d from ≡ some settled
      checkpointed-from =
          ap (λ e. e from) checkpointed-files
          ∙ rw
              (
                sidecar-differ from (codes "-wal") (omega arith),
                sidecar-differ from (codes "-shm") (omega arith),
                equal_refl from,
              )
              refl

      pub checkpointed-log : checkpointed sys from d (sidecar from (codes "-wal")) ≡ log_after
      checkpointed-log =
          ap (λ e. e (sidecar from (codes "-wal"))) checkpointed-files
          ∙ rw (equal_refl (sidecar from (codes "-wal"))) refl

      pub checkpointed-apart :
          (q : Text) → IsNoSidecar from q → equal from q ≡ false → checkpointed sys from d q ≡ d q
      checkpointed-apart q h k = ap (λ e. e q) checkpointed-files ∙ rw (h.0, h.1, k) refl

      -- The database is put back by a rename.
      pub move_back-Ensures :
          (mode : Litestream) (x : DbError) (e : Disk B)
          → IsApart from to
          → d to ≡ none
          → d (litestream_dir to) ≡ none
          → e to ≡ some settled
          → e from ≡ none
          → e (litestream_dir to) ≡ none
          → IsSpared mode (litestream_dir from) (d (litestream_dir from)) (e (litestream_dir from))
          → Ensures mode (err x, move_back sys from to e)
      unfolding move_back
      move_back-Ensures mode x e apart hto hls ht hf hd spared =
          let from_to = exists-differ d from to (ap is_some hb) (ap is_some hto) in
          let from_dir =
            exists-differ d from (litestream_dir to) (ap is_some hb) (ap is_some hls) in
          elim (Bool-cases (sys.rename_fails to from)) [
            | inl f ↦ rw f (inr (inr ht), λ k. absurd (ground arith))
            | inr f ↦ rw f (
              inl (inr (rename-to to from e (equal-swap from to from_to) ∙ ht)),
              λ k. (
                inr (rename-to to from e (equal-swap from to from_to) ∙ ht),
                rename-gone to from e ∙ sym hto,
                rename-apart to from (litestream_dir to) e
                      (equal-swap (litestream_dir to) to (litestream_dir-differ to)) from_dir
                    ∙ (hd ∙ sym hls),
                subst (IsSpared mode (litestream_dir from) (d (litestream_dir from)))
                    (sym (
                      rename-apart to from (litestream_dir from) e
                        (equal-swap (litestream_dir from) to apart.2)
                        (equal-swap (litestream_dir from) from (litestream_dir-differ from))))
                    spared,
              ),
            )
          ]
