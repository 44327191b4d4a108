-- ===== src/Artifacts/Appends.antt =====
-- Writing objects only adds files, each at the place of its own digest.
use mathlib.Core.List.{append_assoc, append-nil}
use qste.Storage.Tables.{Bytes}
use qste.Artifacts.Paths.{
  Disk, Path', Text, write_over, Node, atomic_write, owned_path, file, codes, PosixPath, is_folder,
  is_blocked, parent, is_link, find_node, link,
}
use qste.Artifacts.Objects.{
  relative_path, drop, place, put_at, write_object, content_digest, ArtifactObject, put_bytes,
  put_all,
}
use qste.Base.{
  ◌++◌, Ensures, [], ◌≡◌, Option, sym, All, ◌∙◌, ap, Bool-cases, All-append, Result, inl, inr, err,
  ◌∷◌, ok, some, ◌||◌, none, refl, List, arith,
}

-- A node that `put_bytes` has written.
abbrev pub IsStored : (Bytes → Text) → Path' × Node → Type 0
IsStored hexdigest (p, n) = (b : Bytes) × (p ≡ place (hexdigest b)) × (n ≡ file b)

-- `e` is `d` with stored objects behind it.
abbrev pub Appends : (Bytes → Text) → Disk → Disk → Type 0
Appends hexdigest d e = (rest : Disk) × (e ≡ d ++ rest) × All (IsStored hexdigest) rest

Appends-refl : (hexdigest : Bytes → Text) (d : Disk) → Appends hexdigest d d
Appends-refl hexdigest d = ([], sym (append-nil d), tt)

Appends-trans :
    (hexdigest : Bytes → Text) (a b c : Disk)
    → Appends hexdigest a b
    → Appends hexdigest b c
    → Appends hexdigest a c
Appends-trans hexdigest a b c (r, e, h) (s, f, k) =
    (r ++ s, f ∙ ap (λ x. x ++ s) e ∙ append_assoc a r s, All-append (IsStored hexdigest) r s h k)

module _ (hexdigest : Bytes → Text) (b : Bytes) where
  write_over-Appends :
      (o : Option Node) (d : Disk) → Appends hexdigest d (write_over o (place (hexdigest b)) b d).1
  unfolding write_over
  write_over-Appends none d = elim (Bool-cases (is_folder d (place (hexdigest b)))) [
    | inl h ↦ rw h (Appends-refl hexdigest d)
    | inr h ↦ rw h ((place (hexdigest b), file b) ∷ [], refl, ((b, refl, refl), tt))
  ]
  write_over-Appends (some link) d = Appends-refl hexdigest d
  write_over-Appends (some (file old)) d = Appends-refl hexdigest d

  atomic_write-Appends : (d : Disk) → Appends hexdigest d (atomic_write (place (hexdigest b)) b d).1
  unfolding atomic_write
  atomic_write-Appends d = elim (Bool-cases (is_blocked d [] (parent (place (hexdigest b))))) [
    | inl h ↦ rw h (Appends-refl hexdigest d)
    | inr h ↦
        rw h
          (elim (Bool-cases
            (is_link d (parent (place (hexdigest b))) || is_link d (place (hexdigest b)))) [
              | inl k ↦ rw k (Appends-refl hexdigest d)
              | inr k ↦ rw k (write_over-Appends (find_node (place (hexdigest b)) d) d)
            ])
  ]

-- The path of a digest, if it has one.
pub relative_path-parts :
    (h : Text) → Ensures (λ r. r.parts ≡ place h) (relative_path (codes "sha256:" ++ h))
unfolding relative_path drop
relative_path-parts h = ground arith

module _ (resolve : Disk → Path' → Option Path') (hexdigest : Bytes → Text) where
  owned_path-parts :
      (d : Disk) (r : PosixPath) → Ensures (λ t. t ≡ r.parts) (owned_path resolve d r)
  unfolding owned_path
  owned_path-parts d r = ground arith

  write_object-Appends :
      (b : Bytes) (d : Disk) (digest : Text) (r : PosixPath) (t : Path')
      → t ≡ place (hexdigest b)
      → Appends hexdigest d (write_object resolve hexdigest b digest r t d).1
  unfolding write_object
  write_object-Appends b d digest r t h = rw h (atomic_write-Appends hexdigest b d)

  put_at-Appends :
      (b : Bytes) (d : Disk) (m : Result PosixPath)
      → Ensures (λ r. r.parts ≡ place (hexdigest b)) m
      → Appends hexdigest d (put_at resolve hexdigest b (content_digest hexdigest b) m d).1
  unfolding put_at
  put_at-Appends b d (err e) h = Appends-refl hexdigest d
  put_at-Appends b d (ok r) h = go (owned_path resolve d r) (owned_path-parts d r)
    where
      go :
          (m : Result Path')
          → Ensures (λ t. t ≡ r.parts) m
          → Appends hexdigest d
              (elim m as (λ x'. Result ArtifactObject × Disk) [
                | err e ↦ (err e, d)
                | ok t ↦ write_object resolve hexdigest b (content_digest hexdigest b) r t d
              ]).1
      go (err e) k = Appends-refl hexdigest d
      go (ok t) k = write_object-Appends b d (content_digest hexdigest b) r t (k ∙ h)

  pub put_bytes-Appends :
      (b : Bytes) (d : Disk) → Appends hexdigest d (put_bytes resolve hexdigest b d).1
  unfolding put_bytes content_digest
  put_bytes-Appends b d =
      put_at-Appends b d (relative_path (codes "sha256:" ++ hexdigest b))
        (relative_path-parts (hexdigest b))

  -- Whatever stands on the disk, any number of payloads adds files only, each at the place of the
  -- digest of its bytes; what stood there stays.
  pub put_all-Appends :
      (bs : List Bytes) (d : Disk) → Appends hexdigest d (put_all resolve hexdigest bs d)
  unfolding put_all
  put_all-Appends [] d = Appends-refl hexdigest d
  put_all-Appends (b ∷ bs) d =
      Appends-trans hexdigest d (put_bytes resolve hexdigest b d).1 _ (put_bytes-Appends b d)
        (put_all-Appends bs (put_bytes resolve hexdigest b d).1)
