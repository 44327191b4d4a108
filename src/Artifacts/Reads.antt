-- ===== src/Artifacts/Reads.antt =====
-- What `read_bytes` of src/qste/storage/artifacts.py returns from any disk.
use qste.Storage.References.{bytes_eq_sound}
use qste.Artifacts.Paths.{Disk, Path', Text, PosixPath, find_node, file, owned_path, Node, link}
use qste.Base.{
  Option, ℕ, ◌≡◌, ok, length, false, some, Result-cases, inl, arith, true, inr, subst, raise_if,
  invalid_input, ap, none, sym, ◌>>◌, ◌∙◌, not, conformance_failed,
}
use qste.Storage.Tables.{Bytes}
use qste.Artifacts.Objects.{
  read_bytes, content_digest, is_over, relative_path, verify_content_digest, file_bytes,
}

-- The bytes `b` hash to `digest`, are no more than `maximum`, and stand at the digest's path.
abbrev pub IsRead : (Bytes → Text) → Text → Option ℕ → Disk → Bytes → Type 0
IsRead hexdigest digest maximum d b =
    (content_digest hexdigest b ≡ digest)
    × (is_over maximum (length b) ≡ false)
    × ((r : PosixPath) × (relative_path digest ≡ ok r) × (find_node r.parts d ≡ some (file b)))

verify_content_digest_sound :
    (hexdigest : Bytes → Text) (b : Bytes) (digest : Text)
    → verify_content_digest hexdigest b digest ≡ true
    → content_digest hexdigest b ≡ digest
unfolding verify_content_digest
verify_content_digest_sound hexdigest b digest h =
    ground (arith, bytes_eq_sound (content_digest hexdigest b) digest)

owned_path_ok :
    (resolve : Disk → Path' → Option Path') (d : Disk) (r : PosixPath) (t : Path')
    → owned_path resolve d r ≡ ok t
    → t ≡ r.parts
unfolding owned_path
owned_path_ok resolve d r t h = ground arith

file_bytes_ok : (o : Option Node) (b : Bytes) → file_bytes o ≡ ok b → o ≡ some (file b)
file_bytes_ok (some (file a)) b h = cc
file_bytes_ok (some link) b h = cc
file_bytes_ok none b h = cc

check_read :
    (hexdigest : Bytes → Text) (a : Bytes) (digest : Text) (maximum : Option ℕ) (b : Bytes)
    → (raise_if (is_over maximum (length a)) invalid_input
        >> (raise_if (not (verify_content_digest hexdigest a digest)) conformance_failed >> ok a))
      ≡ ok b
    → (a ≡ b)
      × (is_over maximum (length a) ≡ false)
      × (verify_content_digest hexdigest a digest ≡ true)
check_read hexdigest a digest maximum b h = (ground arith, ground arith, ground arith)

module _ (resolve : Disk → Path' → Option Path') (hexdigest : Bytes → Text) where
  -- What has been found and checked, said of the bytes that are returned.
  IsRead-checked :
      (digest : Text) (maximum : Option ℕ) (d : Disk) (a b : Bytes) (r : PosixPath) (t : Path')
      → (a ≡ b)
        × (is_over maximum (length a) ≡ false)
        × (verify_content_digest hexdigest a digest ≡ true)
      → relative_path digest ≡ ok r
      → owned_path resolve d r ≡ ok t
      → file_bytes (find_node t d) ≡ ok a
      → IsRead hexdigest digest maximum d b
  IsRead-checked digest maximum d a b r t (p, q, v) e f g =
      subst (IsRead hexdigest digest maximum d) p (
        verify_content_digest_sound hexdigest a digest v,
        q,
        (
          r,
          e,
          ap (λ x. find_node x d) (sym (owned_path_ok resolve d r t f))
              ∙ file_bytes_ok (find_node t d) a g,
        ),
      )

  -- What read_bytes returns is a file of the disk, hashes to the digest asked for, and is within the
  -- bound, whatever stands on the disk and wherever its paths resolve to.
  pub read_bytes_lem :
      (digest : Text) (maximum : Option ℕ) (d : Disk) (b : Bytes)
      → read_bytes resolve hexdigest digest maximum d ≡ ok b
      → IsRead hexdigest digest maximum d b
  unfolding read_bytes
  read_bytes_lem digest maximum d b h = elim (Result-cases (relative_path digest)) [
    | inl (r, e) ↦ elim (Result-cases (owned_path resolve d r)) [
      | inl (t, f) ↦ elim (Result-cases (file_bytes (find_node t d))) [
        | inl (a, g) ↦
            IsRead-checked digest maximum d a b r t
              (check_read hexdigest a digest maximum b (ground arith)) e f g
        | inr (c, g) ↦ ground arith
      ]
      | inr (c, f) ↦ ground arith
    ]
    | inr (c, e) ↦ ground arith
  ]
