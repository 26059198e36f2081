-- ===== src/Tenants/Names.antt =====
-- crates/pkdump-db/src/tenants.rs: which of the names that `relocate` derives from a path differ.
use pokedumpster.Base.{
  Text, codes, equal, equal_iff, rsplit_once, ℕ, ◌+◌, ◌<◌, ◌≤◌, ◌≡◌, ◌≢◌, sym, ap, inl, inr, true,
  false, Option, none, some, [], ◌∷◌, behind, ◌==◌, ◌++◌, is_some, if◌then◌else◌, length,
  length-append, arith, Bool-cases,
}
use pokedumpster.Tenants.Disk.{Disk, hidden, exists, litestream_dir, sidecar}

-- The path is not a sidecar of the other.
abbrev pub IsNoSidecar : Text → Text → Type 0
IsNoSidecar path p =
    (equal (sidecar path (codes "-wal")) p ≡ false)
    × (equal (sidecar path (codes "-shm")) p ≡ false)

equal-false : (p q : Text) → p ≢ q → equal p q ≡ false
equal-false p q h = elim (Bool-cases (equal p q)) [
  | inl e ↦ absurd (h ((equal_iff p q).0 e))
  | inr e ↦ e
]

abbrev Splits : Text → Option (Text × Text) → Type 0
Splits s none = Unit
Splits s (some (a, b)) = length s ≡ length a + 1 + length b

split-step :
    (c x : ℕ) (s : Text) (o : Option (Text × Text))
    → Splits s o
    → Splits (x ∷ s) (if is_some o then behind x o else if x == c then some ([], s) else none)
split-step c x s (some (a, b)) h = omega (arith, h)
split-step c x s none h = elim (Bool-cases (x == c)) [
  | inl e ↦ rw e (omega arith)
  | inr e ↦ rw e tt
]

rsplit_once-Splits : (c : ℕ) (s : Text) → Splits s (rsplit_once c s)
unfolding rsplit_once
rsplit_once-Splits c [] = tt
rsplit_once-Splits c (x ∷ s) = split-step c x s (rsplit_once c s) (rsplit_once-Splits c s)

hidden-longer :
    (p : Text) (o : Option (Text × Text)) → Splits p o → length p + 4 < length (hidden p o)
hidden-longer p none h = omega (arith, length-append p (codes "-litestream"))
hidden-longer p (some (a, b)) h = omega (
  arith,
  h,
  length-append a (codes "/." ++ (b ++ codes "-litestream")),
  length-append b (codes "-litestream"),
)

shorter-differ : (p q : Text) → length p < length q → equal q p ≡ false
shorter-differ p q h = equal-false q p (λ e. omega (arith, h, ap length e))

pub litestream_dir-differ : (p : Text) → equal (litestream_dir p) p ≡ false
unfolding litestream_dir
litestream_dir-differ p =
    shorter-differ p (litestream_dir p)
      (omega (arith, hidden-longer p (rsplit_once b'/' p) (rsplit_once-Splits b'/' p)))

pub sidecar-differ : (p s : Text) → 1 ≤ length s → equal (sidecar p s) p ≡ false
unfolding sidecar
sidecar-differ p s h = shorter-differ p (sidecar p s) (omega (arith, length-append p s, h))

pub dir_no_sidecar : (p s : Text) → length s ≡ 4 → equal (sidecar p s) (litestream_dir p) ≡ false
unfolding sidecar litestream_dir
dir_no_sidecar p s h = equal-false (sidecar p s) (litestream_dir p) λ e. omega (
  arith,
  h,
  length-append p s,
  ap length e,
  hidden-longer p (rsplit_once b'/' p) (rsplit_once-Splits b'/' p),
)

pub equal-swap : (p q : Text) → equal p q ≡ false → equal q p ≡ false
equal-swap p q h = equal-false q p (λ e. (let k = (equal_iff p q).1 (sym e) in ground arith))

-- The new name and its Litestream directory are none of what belongs to the old name.
abbrev pub IsApart : Text → Text → Type 0
IsApart from to =
    IsNoSidecar from to
    × IsNoSidecar from (litestream_dir to)
    × (equal (litestream_dir from) to ≡ false)
    × (equal (litestream_dir from) (litestream_dir to) ≡ false)

module _ {B : Type 0} where
  -- A path with an entry and one without.
  pub exists-differ :
      (d : Disk B) (p q : Text) → exists d p ≡ true → exists d q ≡ false → equal p q ≡ false
  exists-differ d p q h k = equal-false p q (λ e. cc)
