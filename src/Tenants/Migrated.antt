-- ===== src/Tenants/Migrated.antt =====
-- crates/pkdump-db/src/tenants.rs: what one turn of `migrate` and of `unmigrate` leaves behind.
use pokedumpster.Base.{
  Text, ◌≡◌, refl, ap, ◌∙◌, inl, inr, Bool, true, false, none, some, Bool-cases, is_some,
  if◌then◌else◌,
}
use pokedumpster.Tenants.Disk.{sqlite, Result, ok, err, System, Disk}
use pokedumpster.Tenants.Names.{IsApart, exists-differ}
use pokedumpster.Tenants.Kept.{Ensures, Kept, Holds, settled, rename-to}
use pokedumpster.Tenants.Migrate.{
  Moved, and_then, settle_row, nameable, untaken, register, migrate_one, unmigrate_one,
}
use pokedumpster.Tenants.Moves.{relocate-Ensures}
use pokedumpster.Tenants.Provision.{World, Run}
use pokedumpster.Tenants.Registry.{Registry, User}
use pokedumpster.Tenants.Relocate.{reset, MoveResult, relocate, move_back}

module _ {R B : Type 0} (sys : System B) (from to : Text) (b : B) (w : World R B) where
  -- The row and the database move together: both are in the new place, or the rows are as they were and
  -- the database, as it was or as its checkpoint leaves it, is under one of its names, which is the old
  -- one unless putting it back fails.
  abbrev pub IsTogether : R → Run R B Moved → Type 0
  IsTogether rows (ok m, v) =
      (v.rows ≡ rows)
      × (v.disk to ≡ some (settled sys from to w.disk b))
      × (v.disk from ≡ none)
      × (m.from ≡ from)
      × (m.to ≡ to)
  IsTogether rows (err e, v) =
      (v.rows ≡ w.rows)
      × Kept sys from to w.disk b v.disk
      × (sys.rename_fails to from ≡ false → Holds sys from to w.disk b (v.disk from))

  put_back :
      (e : Disk B)
      → e to ≡ some (settled sys from to w.disk b)
      → e from ≡ none
      → Kept sys from to w.disk b (move_back sys from to e)
        × (sys.rename_fails to from ≡ false
            → Holds sys from to w.disk b (move_back sys from to e from))
  unfolding move_back
  put_back e h k =
      let differ = exists-differ e to from (ap is_some h) (ap is_some k) in
      elim (Bool-cases (sys.rename_fails to from)) [
        | inl f ↦ rw f (inr (inr h), λ t. cc)
        | inr f ↦ rw f (
          inl (inr (rename-to sys to from e differ ∙ h)),
          λ t. inr (rename-to sys to from e differ ∙ h),
        )
      ]

  settle_row-IsTogether :
      (m : Moved) (rows : R) (r : MoveResult B) (o : Result R)
      → m.from ≡ from
      → m.to ≡ to
      → w.disk from ≡ some b
      → Ensures sys from to w.disk b reset r
      → ((x : R) → o ≡ ok x → x ≡ rows)
      → IsTogether rows (settle_row sys m w r o)
  settle_row-IsTogether m rows (err e, d) o mf mt hb h k = (refl, h.0, λ t. (h.1 t).0)
  settle_row-IsTogether m rows (ok p, d) (err e) mf mt hb h k =
      let q = put_back d h.1 h.2 in rw (mf, mt) (refl, q.0, q.1)
  settle_row-IsTogether m rows (ok p, d) (ok x) mf mt hb h k = (k x refl, h.1, h.2, mf, mt)

  and_then-IsTogether :
      {A : Type 0} (rows : R) (o : Result A) (f : A → World R B → Run R B Moved)
      → w.disk from ≡ some b
      → ((a : A) → o ≡ ok a → IsTogether rows (f a w))
      → IsTogether rows (and_then (o, w) f)
  and_then-IsTogether rows (err e) f hb h = (refl, inl (inl hb), λ t. inl hb)
  and_then-IsTogether rows (ok a) f hb h = h a refl

module _ {R B : Type 0} (sys : System B) (registry : Registry R) (w : World R B) (from to : Text)
    (b : B) where
  register-IsTogether :
      (commit_fails : Bool) (handle : Text) (user : User) (rows : R)
      → registry.tenant_db_path handle ≡ ok from
      → registry.insert w.rows handle ≡ ok (user, rows)
      → registry.tenant_db_path_for_id user.database_id ≡ ok to
      → IsApart from to
      → w.disk from ≡ some b
      → IsTogether sys from to b w rows (register sys registry commit_fails handle w)
  unfolding register
  register-IsTogether commit_fails handle user rows hf hi ht apart hb =
      rw (hf, hi, ht)
        (settle_row-IsTogether sys from to b w _ rows (relocate sys reset from to w.disk)
          (if commit_fails then err (sqlite to) else ok rows) refl refl hb
          (relocate-Ensures sys from to w.disk b apart reset hb) (committed commit_fails))
    where
      committed : (c : Bool) (x : R) → (if c then err (sqlite to) else ok rows) ≡ ok x → x ≡ rows
      committed true x e = cc
      committed false x e = cc

  -- One turn of `migrate`, for a handle with a database that the registry gives an id to: the row of that
  -- id is there with the database under the id, as its checkpoint leaves it; or the rows are as they were
  -- and the database, as it was or as its checkpoint leaves it, is under one of its names, which is the handle unless putting it back fails too.
  pub migrate_one-IsTogether :
      (commit_fails : Bool) (handle : Text) (user : User) (rows : R)
      → registry.tenant_db_path handle ≡ ok from
      → registry.insert w.rows handle ≡ ok (user, rows)
      → registry.tenant_db_path_for_id user.database_id ≡ ok to
      → IsApart from to
      → w.disk from ≡ some b
      → IsTogether sys from to b w rows (migrate_one sys registry commit_fails handle w)
  unfolding migrate_one
  migrate_one-IsTogether commit_fails handle user rows hf hi ht apart hb =
      let last = register-IsTogether commit_fails handle user rows hf hi ht apart hb in
      and_then-IsTogether sys from to b w rows
        (nameable handle (registry.validate_tenant_name handle))
        (λ t w1.
          and_then (registry.lookup w1.rows handle, w1)
            (λ existing w2.
              and_then (untaken handle existing, w2)
                (λ t' w3. register sys registry commit_fails handle w3)))
        hb
        (λ t e.
          and_then-IsTogether sys from to b w rows (registry.lookup w.rows handle)
            (λ existing w2.
              and_then (untaken handle existing, w2)
                (λ t' w3. register sys registry commit_fails handle w3))
            hb
            (λ x e'.
              and_then-IsTogether sys from to b w rows (untaken handle x)
                (λ t' w3. register sys registry commit_fails handle w3) hb (λ t' e''. last)))

  -- One turn of `unmigrate`: the same the other way round.
  pub unmigrate_one-IsTogether :
      (user : User) (rows : R)
      → registry.tenant_db_path_for_id user.database_id ≡ ok from
      → registry.tenant_db_path user.handle ≡ ok to
      → ((x : R) → registry.unregister w.rows user.database_id ≡ ok x → x ≡ rows)
      → IsApart from to
      → w.disk from ≡ some b
      → IsTogether sys from to b w rows (unmigrate_one sys registry user w)
  unfolding unmigrate_one
  unmigrate_one-IsTogether user rows hf ht hu apart hb =
      rw (hf, ht, hb)
        (settle_row-IsTogether sys from to b w _ rows (relocate sys reset from to w.disk)
          (registry.unregister w.rows user.database_id) refl refl hb
          (relocate-Ensures sys from to w.disk b apart reset hb) hu)
