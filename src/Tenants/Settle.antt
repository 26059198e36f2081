-- ===== src/Tenants/Settle.antt =====
-- crates/pkdump-db/src/tenants.rs: the end of a move, from the rename of the database on.
use pokedumpster.Base.{
  Text, codes, ℕ, ◌==◌, not, equal, equal_refl, ◌≡◌, refl, sym, ap, ◌∙◌, false, none, some, is_some,
  Bool-cases, Option-cases, inl, inr, ◌⊎◌, if◌then◌else◌,
}
use pokedumpster.Tenants.Disk.{
  DbError, env, conflict, Result, ok, err, ◌>>=◌, System, Disk, exists, rename, remove,
  litestream_dir, sidecar,
}
use pokedumpster.Tenants.Names.{
  litestream_dir-differ, dir_no_sidecar, equal-swap, IsApart, exists-differ,
}
use pokedumpster.Tenants.Kept.{
  Ensures, settled, log_after, carried, remove_sidecars-apart, remove_sidecars-none, rename-apart,
  rename-gone, remove-apart, remove_partly-apart, remove_partly-same, rename-to, checkpointed-from,
  checkpointed-apart, move_back-Ensures,
}
use pokedumpster.Tenants.Relocate.{
  Litestream, carry, reset, remove_sidecars, remove_partly, left_of, settle, checkpointed,
  checkpoint_result, wal_left, metadata_of,
}

remove-gone : {B : Type 0} (p : Text) (d : Disk B) → remove p d p ≡ none
unfolding remove
remove-gone p d = rw (equal_refl p) refl

pub exists-none : {B : Type 0} (d : Disk B) (p : Text) → exists d p ≡ false → d p ≡ none
exists-none d p h = elim (Option-cases (d p)) [ inl e ↦ e | inr (b, e) ↦ cc ]

-- A check failed or not.
pub checked : (r : Result Unit) → ((x : DbError) × (r ≡ err x)) ⊎ (r ≡ ok tt)
checked (ok t) = inr refl
checked (err x) = inl (x, refl)

passed :
    (from : Text) (r : Result ℕ) (w : Result Unit)
    → (r >>= λ busy. if not (busy == 0) then err (conflict from) else w) ≡ ok tt
    → w ≡ ok tt
passed from (err x) w h = cc
passed from (ok busy) w h = elim (Bool-cases (busy == 0)) [
  | inl e ↦ sym (ap (λ b. if not b then err (conflict from) else w) e) ∙ h
  | inr e ↦ absurd (
      let t : err (conflict from) ≡ ok tt =
        sym (ap (λ b. if not b then err (conflict from) else w) e) ∙ h in
      cc)
]

-- A checkpoint that is not objected to has left no frames that are seen in the log.
module _ {B : Type 0} (sys : System B) (from : Text) (e : Disk B) where
  pub quiet_log :
      checkpoint_result sys from e ≡ ok tt
      → wal_left sys
          (sidecar from (codes "-wal"))
          (metadata_of sys (sidecar from (codes "-wal")) (e (sidecar from (codes "-wal"))))
        ≡ ok tt
  quiet_log h = passed from (sys.wal_checkpoint from) _ h

module _ {B : Type 0} (sys : System B) (from to : Text) (d : Disk B) (b : B) (hb : d from ≡ some b)
    (hto : d to ≡ none) (hls : d (litestream_dir to) ≡ none) (apart : IsApart from to)
    (quiet : wal_left sys
        (sidecar from (codes "-wal"))
        (metadata_of sys (sidecar from (codes "-wal")) (log_after sys from to d b))
      ≡ ok tt) where
  carried-none :
      (mode : Litestream)
      → d (litestream_dir from) ≡ none
      → carried sys mode (d (litestream_dir from)) ≡ none
  carried-none carry h = h
  carried-none reset h = refl

  -- What the sidecars' removal leaves, given the disk before it.
  finish_move-Ensures :
      (mode : Litestream) (e : Disk B)
      → e to ≡ some (settled sys from to d b)
      → e from ≡ none
      → e (litestream_dir to) ≡ carried sys mode (d (litestream_dir from))
      → e (litestream_dir from) ≡ none
      → Ensures sys from to d b mode (ok to, remove_sidecars sys from e)
  finish_move-Ensures mode e h k l m = (
    refl,
    remove_sidecars-apart sys from to e apart.0 ∙ h,
    remove_sidecars-none sys from from e k,
    remove_sidecars-apart sys from (litestream_dir to) e apart.1 ∙ l,
    remove_sidecars-none sys from (litestream_dir from) e m,
    quiet,
  )

  from_to : equal from to ≡ false
  from_to = exists-differ d from to (ap is_some hb) (ap is_some hto)

  from_dir : equal from (litestream_dir to) ≡ false
  from_dir = exists-differ d from (litestream_dir to) (ap is_some hb) (ap is_some hls)

  -- The disk behind the rename of the database.
  abbrev renamed : Disk B
  renamed = rename from to (checkpointed sys from d)

  to-there : renamed to ≡ some (settled sys from to d b)
  to-there =
      rename-to sys from to (checkpointed sys from d) from_to ∙ checkpointed-from sys from to d b hb

  from-gone : renamed from ≡ none
  from-gone = rename-gone sys from to (checkpointed sys from d)

  dir-kept : renamed (litestream_dir from) ≡ d (litestream_dir from)
  dir-kept =
      rename-apart sys from to (litestream_dir from) (checkpointed sys from d)
        (equal-swap (litestream_dir from) from (litestream_dir-differ from))
        (equal-swap (litestream_dir from) to apart.2)
      ∙ checkpointed-apart sys from to d b hb (litestream_dir from)
          (dir_no_sidecar from (codes "-wal") refl, dir_no_sidecar from (codes "-shm") refl)
          (equal-swap (litestream_dir from) from (litestream_dir-differ from))

  dir-free : renamed (litestream_dir to) ≡ none
  dir-free =
      rename-apart sys from to (litestream_dir to) (checkpointed sys from d) from_dir
        (equal-swap (litestream_dir to) to (litestream_dir-differ to))
      ∙ (checkpointed-apart sys from to d b hb (litestream_dir to) apart.1 from_dir ∙ hls)

  -- There is no Litestream directory.
  bare-Ensures :
      (mode : Litestream)
      → exists renamed (litestream_dir from) ≡ false
      → Ensures sys from to d b mode (ok to, remove_sidecars sys from renamed)
  bare-Ensures mode h =
      let k : renamed (litestream_dir from) ≡ none = exists-none renamed _ h in
      finish_move-Ensures mode renamed to-there from-gone
        (dir-free ∙ sym (carried-none mode (sym dir-kept ∙ k))) k

  pub settle-Ensures :
      (mode : Litestream) → Ensures sys from to d b mode (settle sys mode from to renamed)
  unfolding settle
  settle-Ensures carry = elim (Bool-cases (exists renamed (litestream_dir from))) [
    | inr h ↦ rw h (bare-Ensures carry h)
    | inl h ↦ elim (Bool-cases (sys.rename_fails (litestream_dir from) (litestream_dir to))) [
      | inl f ↦
          rw (h, f)
            (move_back-Ensures sys from to d b hb carry (env (litestream_dir from)) renamed apart
              hto hls to-there from-gone dir-free dir-kept)
      | inr f ↦
          rw (h, f)
            (finish_move-Ensures carry (rename (litestream_dir from) (litestream_dir to) renamed)
              (rename-apart sys (litestream_dir from) (litestream_dir to) to renamed apart.2
                  (litestream_dir-differ to)
                ∙ to-there)
              (rename-apart sys (litestream_dir from) (litestream_dir to) from renamed
                  (litestream_dir-differ from) (equal-swap from (litestream_dir to) from_dir)
                ∙ from-gone)
              (rename-to sys (litestream_dir from) (litestream_dir to) renamed apart.3 ∙ dir-kept)
              (rename-gone sys (litestream_dir from) (litestream_dir to) renamed))
    ]
  ]
  settle-Ensures reset = elim (Bool-cases (exists renamed (litestream_dir from))) [
    | inr h ↦ rw h (bare-Ensures reset h)
    | inl h ↦ elim (Bool-cases (sys.remove_dir_fails (litestream_dir from))) [
      | inl f ↦
          rw (h, f)
            (move_back-Ensures sys from to d b hb reset (env (litestream_dir from))
              (remove_partly sys (litestream_dir from) renamed) apart hto hls
              (remove_partly-apart sys (litestream_dir from) to renamed apart.2 ∙ to-there)
              (remove_partly-apart sys (litestream_dir from) from renamed
                  (litestream_dir-differ from)
                ∙ from-gone)
              (remove_partly-apart sys (litestream_dir from) (litestream_dir to) renamed apart.3
                ∙ dir-free)
              (inr (
                remove_partly-same sys (litestream_dir from) renamed
                ∙ ap (left_of sys (litestream_dir from)) dir-kept)))
      | inr f ↦
          rw (h, f)
            (finish_move-Ensures reset (remove (litestream_dir from) renamed)
              (remove-apart sys (litestream_dir from) to renamed apart.2 ∙ to-there)
              (remove-apart sys (litestream_dir from) from renamed (litestream_dir-differ from)
                ∙ from-gone)
              (remove-apart sys (litestream_dir from) (litestream_dir to) renamed apart.3
                ∙ dir-free)
              (remove-gone (litestream_dir from) renamed))
    ]
  ]
