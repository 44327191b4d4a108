-- ===== src/Artifacts/Stores.antt =====
-- Disks that hold stored objects only: where the paths of objects lead on them.
use qste.Storage.References.{bytes_eq_sound}
use qste.Storage.Records.{bytes_eq}
use qste.Artifacts.Paths.{
  find_node, path_eq, Disk, Path', Text, Node, has_link, has_part, codes, file,
}
use qste.Storage.Tables.{Bytes}
use qste.Base.{
  ◌≡◌, Option, true, length, All, some, none, all, ◌∷◌, arith, ◌++◌, Bool, ◌⊎◌, Bool-cases, [], inl,
  refl, false, inr, subst, sym,
}
use qste.Artifacts.Appends.{IsStored}
use qste.Artifacts.Objects.{is_hex}

abbrev pub IsHexDigest : (Bytes → Text) → Type 0
IsHexDigest hexdigest =
    (b : Bytes) → (length (hexdigest b) ≡ 64) × (all is_hex (hexdigest b) ≡ true)

-- A path without a link on its way and without a part `..` resolves to itself.
abbrev pub IsResolver : (Disk → Path' → Option Path') → Type 0
IsResolver resolve =
    (d : Disk) (p : Path')
    → has_part (codes "..") p ≡ false
    → has_link d [] p ≡ false
    → resolve d p ≡ some p

abbrev pub starts_at : Text → Path' → Bool
starts_at t [] = true
starts_at t (part ∷ parts) = bytes_eq t part

-- A file of the workspace that does not lie in the folder of the artifacts, as the marker and the
-- database.
abbrev pub IsBeside : Path' × Node → Type 0
IsBeside (p, n) = (starts_at (codes "artifacts") p ≡ false) × (c : Bytes) × (n ≡ file c)

-- Files that `put_bytes` has written or that lie elsewhere.
abbrev pub IsKnown : (Bytes → Text) → Path' × Node → Type 0
IsKnown hexdigest e = IsStored hexdigest e ⊎ IsBeside e

abbrev pub IsStore : (Bytes → Text) → Disk → Type 0
IsStore hexdigest d = All (IsKnown hexdigest) d

path_eq_sound : (p q : Path') → path_eq p q ≡ true → p ≡ q
unfolding path_eq
path_eq_sound [] [] h = refl
path_eq_sound [] (b ∷ q) h = cc
path_eq_sound (a ∷ p) [] h = cc
path_eq_sound (a ∷ p) (b ∷ q) h = ground (arith, bytes_eq_sound a b, path_eq_sound p q)

pub bytes_eq_refl : (s : Bytes) → bytes_eq s s ≡ true
unfolding bytes_eq
bytes_eq_refl [] = refl
bytes_eq_refl (c ∷ s) = ground (arith, bytes_eq_refl s)

path_eq_refl : (p : Path') → path_eq p p ≡ true
unfolding path_eq
path_eq_refl [] = refl
path_eq_refl (a ∷ p) = ground (arith, bytes_eq_refl a, path_eq_refl p)

pub find_node-append :
    (p : Path') (d e : Disk) (n : Node) → find_node p d ≡ some n → find_node p (d ++ e) ≡ some n
unfolding find_node
find_node-append p [] e n h = cc
find_node-append p ((q, m) ∷ d) e n h = ground (arith, find_node-append p d e n)

pub find_node-append_self :
    (p : Path') (d : Disk) (n : Node)
    → find_node p d ≡ none
    → find_node p (d ++ (p, n) ∷ []) ≡ some n
unfolding find_node
find_node-append_self p [] n h = rw (path_eq_refl p) refl
find_node-append_self p ((q, m) ∷ d) n h = ground (arith, find_node-append_self p d n)

pub All-find_node :
    (P : Path' × Node → Type 0) (p : Path') (d : Disk) (n : Node)
    → All P d
    → find_node p d ≡ some n
    → P (p, n)
unfolding find_node
All-find_node P p [] n h k = cc
All-find_node P p ((q, m) ∷ d) n h k = elim (Bool-cases (path_eq p q)) [
  | inl e ↦ subst P (λ i. (sym (path_eq_sound p q e) i, found_is e i)) h.0
  | inr e ↦ All-find_node P p d n h.1 (ground arith)
]
  where
    found_is : path_eq p q ≡ true → m ≡ n
    found_is e = ground arith
