-- ===== src/Tenants/Moves.antt =====
-- crates/pkdump-db/src/tenants.rs: `relocate` moves a database whole or leaves it where it was.
use pokedumpster.Base.{
  Text, codes, ◌≡◌, refl, ap, ◌∙◌, subst, false, none, some, is_some, Bool-cases, Option, inl, inr,
}
use pokedumpster.Tenants.Disk.{
  DbError, env, conflict, ok, err, System, Disk, exists, litestream_dir, sidecar,
}
use pokedumpster.Tenants.Names.{
  litestream_dir-differ, dir_no_sidecar, equal-swap, IsApart, exists-differ,
}
use pokedumpster.Tenants.Kept.{
  Ensures, IsSpared, Holds, settled, checkpointed-from, checkpointed-log, checkpointed-apart,
}
use pokedumpster.Tenants.Relocate.{
  Litestream, carry, reset, MoveResult, move_file, relocate, checkpointed, checkpoint_result,
  checkpoint_and_close, wal_left, metadata_of, adopt, revert,
}
use pokedumpster.Tenants.Settle.{exists-none, checked, quiet_log, settle-Ensures}

module _ {B : Type 0} (sys : System B) (from to : Text) (d : Disk B) (b : B)
    (apart : IsApart from to) where
  IsSpared-as_is : (mode : Litestream) (p : Text) (o x : Option B) → x ≡ o → IsSpared sys mode p o x
  IsSpared-as_is carry p o x h = h
  IsSpared-as_is reset p o x h = inl h

  -- A move that was refused before its rename, on the disk that it found or that its checkpoint left.
  refused :
      (mode : Litestream) (x : DbError) (e : Disk B)
      → Holds sys from to d b (e from)
      → e to ≡ d to
      → e (litestream_dir to) ≡ d (litestream_dir to)
      → e (litestream_dir from) ≡ d (litestream_dir from)
      → Ensures sys from to d b mode (err x, e)
  refused mode x e h k l m =
      (inl h, λ t. (h, k, l, IsSpared-as_is mode (litestream_dir from) _ _ m))

  module _ (hb : d from ≡ some b) (hto : exists d to ≡ false)
      (hls : exists d (litestream_dir to) ≡ false) where
    refused_late :
        (mode : Litestream) (x : DbError)
        → Ensures sys from to d b mode (err x, checkpointed sys from d)
    refused_late mode x =
        refused mode x (checkpointed sys from d) (inr (checkpointed-from sys from to d b hb))
          (checkpointed-apart sys from to d b hb to apart.0
            (exists-differ d from to (ap is_some hb) hto))
          (checkpointed-apart sys from to d b hb (litestream_dir to) apart.1
            (exists-differ d from (litestream_dir to) (ap is_some hb) hls))
          (checkpointed-apart sys from to d b hb (litestream_dir from)
            (dir_no_sidecar from (codes "-wal") refl, dir_no_sidecar from (codes "-shm") refl)
            (equal-swap (litestream_dir from) from (litestream_dir-differ from)))

    move_file-Ensures :
        (mode : Litestream)
        → Ensures sys from to d b mode
            (move_file sys mode from to (checkpoint_and_close sys from d))
    unfolding move_file checkpoint_and_close
    move_file-Ensures mode = elim (checked (checkpoint_result sys from (checkpointed sys from d))) [
      | inl (x, g) ↦ rw g (refused_late mode x)
      | inr g ↦ rw g (elim (Bool-cases (sys.create_dir_fails to)) [
        | inl c ↦ rw c (refused_late mode (env to))
        | inr c ↦ elim (Bool-cases (sys.rename_fails from to)) [
          | inl r ↦ rw (c, r) (refused_late mode (env from))
          | inr r ↦
              rw (c, r)
                (settle-Ensures sys from to d b hb (exists-none d to hto)
                  (exists-none d (litestream_dir to) hls) apart
                  (subst
                    (λ o.
                      wal_left sys (sidecar from (codes "-wal"))
                        (metadata_of sys (sidecar from (codes "-wal")) o)
                      ≡ ok tt)
                    (checkpointed-log sys from to d b hb)
                    (quiet_log sys from (checkpointed sys from d) g))
                  mode)
        ]
      ])
    ]

  -- Of a database that is there, `relocate` moves the file, as the checkpoint leaves it, to the new name,
  -- with no frames seen in the log that is left behind, and with its Litestream directory or without as the
  -- mode says. Or it fails and leaves the file, as it was or as the checkpoint leaves it, under one of the
  -- names; unless moving it back fails too, that is the old name, the new name and its directory are as
  -- they were, and so is the old directory but for a removal that failed on the way. The new name and its
  -- directory must not be among what belongs to the old name.
  pub relocate-Ensures :
      (mode : Litestream)
      → d from ≡ some b
      → Ensures sys from to d b mode (relocate sys mode from to d)
  unfolding relocate
  relocate-Ensures mode hb = rw (ap is_some hb) (elim (Bool-cases (exists d to)) [
    | inl e ↦ rw e (refused mode (conflict to) d (inl hb) refl refl refl)
    | inr e ↦ elim (Bool-cases (exists d (litestream_dir to))) [
      | inl f ↦ rw (e, f) (refused mode (conflict (litestream_dir to)) d (inl hb) refl refl refl)
      | inr f ↦ rw (e, f) (move_file-Ensures hb e f mode)
    ]
  ])

-- What a move that succeeded ensures.
ensured :
    {B : Type 0} (sys : System B) (mode : Litestream) (from to p : Text) (d : Disk B) (b : B)
    (r : MoveResult B)
    → Ensures sys from to d b mode r
    → r.0 ≡ ok p
    → Ensures sys from to d b mode (ok p, r.1)
ensured sys mode from to p d b (ok q, e) h k = subst (λ r. Ensures sys from to d b mode (r, e)) k h
ensured sys mode from to p d b (err x, e) h k = cc

-- `revert` undoes `adopt`: where both succeed, the database is back in the old place, as the two
-- checkpoints leave it, its Litestream directory is back as it was, and neither the database nor the
-- directory is left in the new place.
pub revert-adopt :
    {B : Type 0} (sys : System B) (legacy path p q : Text) (d : Disk B) (b : B)
    → IsApart legacy path
    → IsApart path legacy
    → d legacy ≡ some b
    → (adopt sys legacy path d).0 ≡ ok p
    → (revert sys legacy path (adopt sys legacy path d).1).0 ≡ ok q
    → ((revert sys legacy path (adopt sys legacy path d).1).1 legacy
        ≡ some (settled sys path legacy (adopt sys legacy path d).1 (settled sys legacy path d b)))
      × ((revert sys legacy path (adopt sys legacy path d).1).1 (litestream_dir legacy)
          ≡ d (litestream_dir legacy))
      × ((revert sys legacy path (adopt sys legacy path d).1).1 path ≡ none)
      × ((revert sys legacy path (adopt sys legacy path d).1).1 (litestream_dir path) ≡ none)
unfolding adopt revert
revert-adopt sys legacy path p q d b there back h a r =
    let e = (relocate sys carry legacy path d).1 in
    let first =
      ensured sys carry legacy path p d b (relocate sys carry legacy path d)
        (relocate-Ensures sys legacy path d b there carry h) a in
    let second =
      ensured sys carry path legacy q e (settled sys legacy path d b)
        (relocate sys carry path legacy e)
        (relocate-Ensures sys path legacy e (settled sys legacy path d b) back carry (first.1)) r in
    (second.1, second.3 ∙ first.3, second.2, second.4)
