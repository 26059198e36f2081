-- ===== src/Backup/Put/Steps.antt =====
-- crates/pkdump-lakejobs/src/nessie_backup.rs: what a chain of fallible calls that succeeds has passed.
use pokedumpster.Base.{
  Text, codes, equal, ◌≡◌, ◌≢◌, refl, sym, ap, ◌∙◌, Bool-cases, inl, inr, Option, none, some, ◌++◌,
  Bool, true, false, not, if◌then◌else◌,
}
use pokedumpster.Backup.Store.{Result, ok, err, ◌>>=◌}
use pokedumpster.Backup.Ids.{export, manifest, id_is_valid, key_parts, three}
use pokedumpster.Backup.Verify.{Codec, object_key, parse_id, date_or}
use pokedumpster.Backup.Put.{and_then}
use pokedumpster.Backup.Put.Keys.{object_key-three}

module _ {S : Type 0} where
  pub and_then-ok :
      {A B : Type 0} (r : Result A × S) (f : A → S → Result B × S) (b : B)
      → (and_then r f).0 ≡ ok b
      → (a : A) × (r.0 ≡ ok a) × (and_then r f ≡ f a r.1)
  and_then-ok (ok a, s) f b h = (a, refl, refl)
  and_then-ok (err e, s) f b h = absurd (let t : err e ≡ ok b = h in cc)

pub ok-injective : {A : Type 0} (a b : A) → ok a ≡ ok b → a ≡ b
ok-injective a b h = cc

pub unguarded :
    {A S : Type 0} (b : Bool) (e : Text) (s : S) (r : Result A × S) (a : A)
    → (if b then (err e, s) else r).0 ≡ ok a
    → (if b then (err e, s) else r) ≡ r
unguarded true e s r a h = absurd (let t : err e ≡ ok a = h in cc)
unguarded false e s r a h = refl

abbrev is_export : Option (Text × Text) → Bool
is_export none = false
is_export (some (id, name)) = equal name export

pub object_key-differ :
    (id : Text) → id_is_valid id ≡ true → object_key id export ≢ object_key id manifest
unfolding equal key_parts
object_key-differ id h p = absurd (
    let t : true ≡ false =
      ap is_export (sym (object_key-three id export h refl))
      ∙ ap (λ k. is_export (three (key_parts k))) p
      ∙ ap is_export (object_key-three id manifest h refl) in
    cc)

pub bound-ok :
    {A B : Type 0} (r : Result A) (f : A → Result B) (b : B)
    → (r >>= f) ≡ ok b
    → (a : A) × (r ≡ ok a) × (f a ≡ ok b)
bound-ok (ok a) f b h = (a, refl, h)
bound-ok (err e) f b h = absurd (let t : err e ≡ ok b = h in cc)

pub parse_id-ok :
    {Date : Type 0} (codec : Codec Date) (id : Text) (d : Date)
    → parse_id codec id ≡ ok d
    → id_is_valid id ≡ true
unfolding parse_id
parse_id-ok codec id d h = elim (Bool-cases (id_is_valid id)) [
  | inl e ↦ e
  | inr e ↦ absurd (
      let t : err (codes "bad backup id " ++ codec.debug id) ≡ ok d =
        sym (
          ap
            (λ b.
              if not b
              then err (codes "bad backup id " ++ codec.debug id)
              else date_or codec id (codec.parse_date id))
            e)
        ∙ h in
      cc)
]
