-- ===== src/Artifacts/Objects.antt =====
-- `ArtifactStore` of src/qste/storage/artifacts.py. `hexdigest` is SHA-256 of `hashlib`.
use qste.Base.{
  ℕ, Bool, true, false, not, ◌&&◌, ◌||◌, ◌==◌, leb, ltb, Option, none, some, List, [], ◌∷◌, ◌++◌,
  all, length, Result, ok, err, raise_if, ◌>>=◌, ◌>>◌, invalid_input, conformance_failed,
  capability_unavailable, internal_error, suc, zero,
}
use qste.Storage.Tables.{Bytes}
use qste.Storage.Records.{bytes_eq}
use qste.Artifacts.Paths.{
  Text, codes, Path', Node, file, Disk, PosixPath, find_node, is_file, owned_path, atomic_write,
}

-- `character in "0123456789abcdef"`
unfoldable pub is_hex : ℕ → Bool
is_hex c = (leb 48 c && leb c 57) || (leb 97 c && leb c 102)

unfoldable pub begins : Text → Text → Bool
begins [] t = true
begins (c ∷ cs) [] = false
begins (c ∷ cs) (d ∷ ds) = c == d && begins cs ds

-- `text[n:]` and `text[:n]`
unfoldable pub drop : ℕ → Text → Text
drop zero t = t
drop (suc n) [] = []
drop (suc n) (c ∷ t) = drop n t

unfoldable pub take : ℕ → Text → Text
take zero t = []
take (suc n) [] = []
take (suc n) (c ∷ t) = c ∷ take n t

-- `f"artifacts/sha256/{hexdigest[:2]}/{hexdigest}"`, in parts.
abbrev pub place : Text → Path'
place hex = codes "artifacts" ∷ codes "sha256" ∷ take 2 hex ∷ hex ∷ []

-- `ArtifactStore.relative_path`, in parts.
unfoldable pub relative_path : Text → Result PosixPath
relative_path digest = do
  raise_if (not (begins (codes "sha256:") digest && length digest == 71)) invalid_input
  let hex = drop 7 digest
  raise_if (not (all is_hex hex)) invalid_input
  ok (record { is_absolute = false; parts = place hex })

pub record ArtifactObject : Type 0 where
  pub content_digest : Text
  pub size : ℕ
  pub relative_path : PosixPath

-- `path.read_bytes()`, which raises an `OSError` where there is no file.
abbrev pub file_bytes : Option Node → Result Bytes
file_bytes (some (file b)) = ok b
file_bytes _ = err internal_error

-- `maximum_bytes is not None and size > maximum_bytes`
abbrev pub is_over : Option ℕ → ℕ → Bool
is_over none size = false
is_over (some maximum) size = ltb maximum size

module _ (hexdigest : Bytes → Text) where
  unfoldable pub content_digest : Bytes → Text
  content_digest b = codes "sha256:" ++ hexdigest b

  unfoldable pub verify_content_digest : Bytes → Text → Bool
  verify_content_digest b expected =
      (begins (codes "sha256:") expected && length expected == 71 && all is_hex (drop 7 expected))
      && bytes_eq (content_digest b) expected

module _ (resolve : Disk → Path' → Option Path') (hexdigest : Bytes → Text) where
  -- What follows the write of `put_bytes`.
  unfoldable pub check_written : Bytes → Text → PosixPath → Path' → Disk → Result ArtifactObject
  check_written payload digest relative target d = do
    written ← file_bytes (find_node target d)
    raise_if (not (verify_content_digest hexdigest written digest)) conformance_failed
    ok (record { content_digest = digest; size = length payload; relative_path = relative })

  unfoldable pub write_object :
      Bytes → Text → PosixPath → Path' → Disk → Result ArtifactObject × Disk
  write_object payload digest relative target d =
      let (done, d') = atomic_write target payload d in
      (done >> check_written payload digest relative target d', d')

  unfoldable pub put_at : Bytes → Text → Result PosixPath → Disk → Result ArtifactObject × Disk
  put_at payload digest (err e) d = (err e, d)
  put_at payload digest (ok relative) d = elim (owned_path resolve d relative) [
    | err e ↦ (err e, d)
    | ok target ↦ write_object payload digest relative target d
  ]

  -- `put_bytes`
  unfoldable pub put_bytes : Bytes → Disk → Result ArtifactObject × Disk
  put_bytes payload d =
      put_at payload (content_digest hexdigest payload)
        (relative_path (content_digest hexdigest payload)) d

  -- `read_bytes`, with a bound that is no negative number.
  unfoldable pub read_bytes : Text → Option ℕ → Disk → Result Bytes
  read_bytes digest maximum_bytes d = do
    relative ← relative_path digest
    target ← owned_path resolve d relative
    raise_if (not (is_file d target)) capability_unavailable
    bytes ← file_bytes (find_node target d)
    raise_if (is_over maximum_bytes (length bytes)) invalid_input
    raise_if (not (verify_content_digest hexdigest bytes digest)) conformance_failed
    ok bytes

  -- Several payloads, one after the other.
  unfoldable pub put_all : List Bytes → Disk → Disk
  put_all [] d = d
  put_all (payload ∷ payloads) d = put_all payloads (put_bytes payload d).1
