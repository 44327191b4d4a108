-- ===== src/Artifacts/Outcomes.antt =====
-- What `put_bytes` and `read_bytes` of src/qste/storage/artifacts.py answer on a disk of stored objects.
use qste.Artifacts.Objects.{
  verify_content_digest, content_digest, ArtifactObject, begins, drop, write_object, check_written,
  read_bytes, put_bytes, put_at, place, relative_path,
}
use qste.Storage.Tables.{Bytes}
use qste.Artifacts.Paths.{
  Disk, Text, Path', atomic_write, find_node, write_over, codes, file, parent,
}
use qste.Base.{
  Option, length, ◌≡◌, true, none, some, ◌++◌, ok, if◌then◌else◌, ◌∷◌, refl, [], err,
  conformance_failed, ◌∙◌, Bool-cases, subst, arith, inl, inr, ap,
}
use qste.Artifacts.Stores.{IsResolver, IsHexDigest, IsStore, bytes_eq_refl, find_node-append_self}
use qste.Artifacts.Targets.{
  object_path, relative_path-hex, is_blocked-object, owned_path-object, is_link-clear,
  is_folder-object,
}
use qste.Storage.Records.{bytes_eq}
use qste.Storage.References.{bytes_eq_sound}

-- The object that stands for the payload `b`.
abbrev pub object_of : (Bytes → Text) → Bytes → ArtifactObject
object_of hexdigest b = record {
  content_digest = content_digest hexdigest b;
  size = length b;
  relative_path = object_path (hexdigest b);
}

pub place_inj : (s t : Text) → place s ≡ place t → s ≡ t
place_inj s t h = cc

verify_content_digest_self :
    (hexdigest : Bytes → Text) (b : Bytes)
    → IsHexDigest hexdigest
    → verify_content_digest hexdigest b (content_digest hexdigest b) ≡ true
unfolding verify_content_digest content_digest begins drop
verify_content_digest_self hexdigest b x =
    rw ((x b).0, (x b).1, bytes_eq_refl (codes "sha256:" ++ hexdigest b)) refl

module _ (resolve : Disk → Path' → Option Path') (hexdigest : Bytes → Text) (l : IsResolver resolve)
    (x : IsHexDigest hexdigest) (b : Bytes) where
  put_bytes-target :
      (d : Disk)
      → IsStore hexdigest d
      → put_bytes resolve hexdigest b d
        ≡ write_object resolve hexdigest b
            (content_digest hexdigest b)
            (object_path (hexdigest b))
            (place (hexdigest b))
            d
  unfolding put_bytes put_at content_digest
  put_bytes-target d h =
      rw (relative_path-hex (hexdigest b) (x b))
        (ground (arith, owned_path-object resolve hexdigest d (hexdigest b) l h (x b).1))

  atomic_write-target :
      (d : Disk)
      → IsStore hexdigest d
      → atomic_write (place (hexdigest b)) b d
        ≡ write_over (find_node (place (hexdigest b)) d) (place (hexdigest b)) b d
  unfolding atomic_write
  atomic_write-target d h =
      rw
        (
          is_blocked-object hexdigest d (hexdigest b) h,
          is_link-clear hexdigest d (parent (place (hexdigest b))) h,
          is_link-clear hexdigest d (place (hexdigest b)) h,
        )
        refl

  check_written-object :
      (d : Disk)
      → find_node (place (hexdigest b)) d ≡ some (file b)
      → check_written resolve hexdigest b
          (content_digest hexdigest b)
          (object_path (hexdigest b))
          (place (hexdigest b))
          d
        ≡ ok (object_of hexdigest b)
  unfolding check_written
  check_written-object d h = rw (h, verify_content_digest_self hexdigest b x) refl

  -- Where nothing stands, the object is written.
  pub put_bytes-new :
      (d : Disk)
      → IsStore hexdigest d
      → find_node (place (hexdigest b)) d ≡ none
      → put_bytes resolve hexdigest b d
        ≡ (ok (object_of hexdigest b), d ++ (place (hexdigest b), file b) ∷ [])
  unfolding write_object write_over
  put_bytes-new d h e =
      put_bytes-target d h
      ∙ rw
          (
            atomic_write-target d h,
            e,
            is_folder-object hexdigest d (hexdigest b) h,
            check_written-object (d ++ (place (hexdigest b), file b) ∷ [])
                (find_node-append_self (place (hexdigest b)) d (file b) e),
          )
          refl

  -- What stands there is compared.
  pub put_bytes-old :
      (d : Disk) (old : Bytes)
      → IsStore hexdigest d
      → find_node (place (hexdigest b)) d ≡ some (file old)
      → put_bytes resolve hexdigest b d
        ≡ (if bytes_eq old b then ok (object_of hexdigest b) else err conformance_failed, d)
  unfolding write_object write_over
  put_bytes-old d old h e =
      put_bytes-target d h
      ∙ rw (atomic_write-target d h, e)
          (elim (Bool-cases (bytes_eq old b)) [
            | inl k ↦
                rw
                  (k, check_written-object d (e ∙ ap (λ c. some (file c)) (bytes_eq_sound old b k)))
                  refl
            | inr k ↦ rw k refl
          ])

  pub read_bytes-object :
      (d : Disk) (a : Bytes)
      → IsStore hexdigest d
      → hexdigest a ≡ hexdigest b
      → find_node (place (hexdigest b)) d ≡ some (file a)
      → read_bytes resolve hexdigest (content_digest hexdigest b) none d ≡ ok a
  unfolding read_bytes relative_path begins content_digest
  read_bytes-object d a h q e =
      rw
        (
          relative_path-hex (hexdigest b) (x b),
          owned_path-object resolve hexdigest d (hexdigest b) l h (x b).1,
          e,
        )
        (rw (verified) refl)
    where
      verified : verify_content_digest hexdigest a (codes "sha256:" ++ hexdigest b) ≡ true
      verified =
          subst (λ t. verify_content_digest hexdigest a (codes "sha256:" ++ t) ≡ true) q
            (verify_content_digest_self hexdigest a x)
