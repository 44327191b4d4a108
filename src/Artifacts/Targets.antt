-- ===== src/Artifacts/Targets.antt =====
-- On a disk of stored objects the path of a digest is well formed, free of links and resolves to itself.
use qste.Artifacts.Paths.{
  is_below, owned_path, has_link, is_folder, Text, Disk, is_blocked, Path', PosixPath, parent, Node,
  is_link, has_part, codes, find_node, is_file,
}
use qste.Storage.Tables.{Bytes}
use qste.Storage.Records.{bytes_eq}
use qste.Artifacts.Objects.{take, relative_path, is_hex, drop, begins, place}
use qste.Base.{
  ℕ, all, ◌≡◌, Option, false, Bool, ◌∷◌, true, [], length, suc, ◌<◌, arith, ok, ◌++◌, zero, refl,
  some, ap, Option-cases, inl, inr,
}
use qste.Artifacts.Stores.{IsStore, IsKnown, IsResolver, All-find_node, starts_at}

pub is_link-clear :
    (hexdigest : Bytes → Text) (d : Disk) (p : Path') → IsStore hexdigest d → is_link d p ≡ false
is_link-clear hexdigest d p h = elim (Option-cases (find_node p d)) [
  | inl e ↦ rw e refl
  | inr (n, e) ↦ found n e (All-find_node (IsKnown hexdigest) p d n h e)
]
  where
    found : (n : Node) → find_node p d ≡ some n → IsKnown hexdigest (p, n) → is_link d p ≡ false
    found n e (inl (b, q, r)) = rw (e, r) refl
    found n e (inr (q, c, r)) = rw (e, r) refl

-- Objects stand at paths of four parts, so a shorter path in their folder is no file.
is_file-short :
    (hexdigest : Bytes → Text) (d : Disk) (p : Path')
    → IsStore hexdigest d
    → starts_at (codes "artifacts") p ≡ true
    → length p < 4
    → is_file d p ≡ false
is_file-short hexdigest d p h s k = elim (Option-cases (find_node p d)) [
  | inl e ↦ rw e refl
  | inr (n, e) ↦ found n (All-find_node (IsKnown hexdigest) p d n h e)
]
  where
    found : (n : Node) → IsKnown hexdigest (p, n) → is_file d p ≡ false
    found n (inl (b, q, r)) = ground (arith, ap length q)
    found n (inr (q, c, r)) = cc

has_link-clear :
    (hexdigest : Bytes → Text) (d : Disk) (probe p : Path')
    → IsStore hexdigest d
    → has_link d probe p ≡ false
unfolding has_link
has_link-clear hexdigest d probe [] h = refl
has_link-clear hexdigest d probe (part ∷ p) h = ground (
  arith,
  is_link-clear hexdigest d (probe ++ part ∷ []) h,
  has_link-clear hexdigest d (probe ++ part ∷ []) p h,
)

is_below-object :
    (hexdigest : Bytes → Text) (e : Path' × Node) (hex : Text)
    → IsKnown hexdigest e
    → is_below (place hex) e.0 ≡ false
unfolding is_below
is_below-object hexdigest (q, n) hex (inl (b, p, r)) = rw p (ground arith)
is_below-object hexdigest ([], n) hex (inr (b, c, r)) = cc
is_below-object hexdigest (part ∷ q, n) hex (inr (b, c, r)) = rw b refl

pub is_folder-object :
    (hexdigest : Bytes → Text) (d : Disk) (hex : Text)
    → IsStore hexdigest d
    → is_folder d (place hex) ≡ false
unfolding is_folder
is_folder-object hexdigest [] hex h = refl
is_folder-object hexdigest ((q, n) ∷ d) hex h =
    ground (arith, is_below-object hexdigest (q, n) hex h.0, is_folder-object hexdigest d hex h.1)

all-take : (p : ℕ → Bool) (n : ℕ) (t : Text) → all p t ≡ true → all p (take n t) ≡ true
unfolding take
all-take p zero t h = refl
all-take p (suc n) [] h = refl
all-take p (suc n) (c ∷ t) h = ground (arith, all-take p n t)

-- A text of hexadecimal digits is not "..".
hex_is_no_dots : (t : Text) → all is_hex t ≡ true → bytes_eq (codes "..") t ≡ false
unfolding bytes_eq is_hex
hex_is_no_dots [] h = refl
hex_is_no_dots (c ∷ t) h = ground arith

has_part-place : (hex : Text) → all is_hex hex ≡ true → has_part (codes "..") (place hex) ≡ false
unfolding bytes_eq
has_part-place hex h =
    rw (hex_is_no_dots (take 2 hex) (all-take is_hex 2 hex h), hex_is_no_dots hex h) refl

has_part-parent :
    (hex : Text) → all is_hex hex ≡ true → has_part (codes "..") (parent (place hex)) ≡ false
unfolding bytes_eq parent
has_part-parent hex h = rw (hex_is_no_dots (take 2 hex) (all-take is_hex 2 hex h)) refl

-- The path of an object, as `PurePosixPath` reads it.
abbrev pub object_path : Text → PosixPath
object_path hex = record { is_absolute = false; parts = place hex }

pub relative_path-hex :
    (hex : Text)
    → (length hex ≡ 64) × (all is_hex hex ≡ true)
    → relative_path (codes "sha256:" ++ hex) ≡ ok (object_path hex)
unfolding relative_path drop begins
relative_path-hex hex (h, k) = rw (h, k) refl

pub owned_path-object :
    (resolve : Disk → Path' → Option Path') (hexdigest : Bytes → Text) (d : Disk) (hex : Text)
    → IsResolver resolve
    → IsStore hexdigest d
    → all is_hex hex ≡ true
    → owned_path resolve d (object_path hex) ≡ ok (place hex)
unfolding owned_path
owned_path-object resolve hexdigest d hex l h k =
    rw
      (
        has_part-place hex k,
        has_link-clear hexdigest d [] (place hex) h,
        l d (parent (place hex)) (has_part-parent hex k)
            (has_link-clear hexdigest d [] (parent (place hex)) h),
      )
      refl

-- Nothing stands in the way of a write.
pub is_blocked-object :
    (hexdigest : Bytes → Text) (d : Disk) (hex : Text)
    → IsStore hexdigest d
    → is_blocked d [] (parent (place hex)) ≡ false
unfolding is_blocked parent bytes_eq
is_blocked-object hexdigest d hex h =
    rw
      (
        is_file-short hexdigest d (codes "artifacts" ∷ []) h refl (omega arith),
        is_file-short hexdigest d (codes "artifacts" ∷ codes "sha256" ∷ []) h refl (omega arith),
        is_file-short hexdigest d (codes "artifacts" ∷ codes "sha256" ∷ take 2 hex ∷ []) h refl
            (omega arith),
      )
      refl
