-- ===== src/Artifacts/RoundTrip.antt =====
-- What `put_bytes` of src/qste/storage/artifacts.py has stored is what `read_bytes` returns.
use qste.Artifacts.Appends.{IsStored, put_all-Appends}
use qste.Artifacts.Objects.{content_digest, read_bytes, put_bytes, place, put_all}
use qste.Storage.Tables.{Bytes}
use qste.Artifacts.Paths.{Disk, Text, Path', find_node, file, Node}
use qste.Base.{
  Option, ◌≡◌, none, some, ◌++◌, ok, ◌∷◌, refl, [], err, conformance_failed, ◌∙◌, List, Bool-cases,
  ◌≢◌, ◌⊎◌, inl, inr, ap, All, All-map, All-append, false, sym, Option-cases,
}
use qste.Artifacts.Stores.{
  IsResolver, IsHexDigest, IsStore, IsKnown, IsBeside, bytes_eq_refl, find_node-append_self,
  find_node-append, All-find_node,
}
use qste.Storage.Records.{bytes_eq}
use qste.Storage.References.{bytes_eq_sound}
use qste.Artifacts.Outcomes.{object_of, place_inj, put_bytes-new, put_bytes-old, read_bytes-object}

-- An object lies in the folder of the artifacts.
place_is_not_beside : (hex : Text) (n : Node) → IsBeside (place hex, n) → ⊥
unfolding bytes_eq
place_is_not_beside hex n (q, c, r) = cc

module _ (resolve : Disk → Path' → Option Path') (hexdigest : Bytes → Text) where
  -- `b` is stored on `d`, and read again after the payloads `after`.
  abbrev pub IsKept : Bytes → List Bytes → Disk → Type 0
  IsKept b after d =
      ((put_bytes resolve hexdigest b d).0 ≡ ok (object_of hexdigest b))
      × (read_bytes resolve hexdigest (content_digest hexdigest b) none
            (put_all resolve hexdigest after (put_bytes resolve hexdigest b d).1)
          ≡ ok b)

  -- Other bytes with the digest of `b` are stored on `d`: nothing is written.
  abbrev pub Collides : Bytes → Disk → Type 0
  Collides b d =
      (old : Bytes) × (old ≢ b)
      × (hexdigest old ≡ hexdigest b)
      × (read_bytes resolve hexdigest (content_digest hexdigest b) none d ≡ ok old)
      × (put_bytes resolve hexdigest b d ≡ (err conformance_failed, d))

  put_all-IsStore :
      (bs : List Bytes) (d : Disk)
      → IsStore hexdigest d
      → IsStore hexdigest (put_all resolve hexdigest bs d)
  put_all-IsStore bs d h =
      let (rest, e, k) = put_all-Appends resolve hexdigest bs d in
      rw e (
        All-append (IsKnown hexdigest) d rest h
          (All-map (IsStored hexdigest) (IsKnown hexdigest) rest (λ e q. inl q) k))

  find_node-put_all :
      (p : Path') (bs : List Bytes) (d : Disk) (n : Node)
      → find_node p d ≡ some n
      → find_node p (put_all resolve hexdigest bs d) ≡ some n
  find_node-put_all p bs d n h =
      let (rest, e, k) = put_all-Appends resolve hexdigest bs d in
      rw e (find_node-append p d rest n h)

  kept :
      (b : Bytes) (after : List Bytes) (d d' : Disk)
      → IsResolver resolve
      → IsHexDigest hexdigest
      → IsStore hexdigest d'
      → find_node (place (hexdigest b)) d' ≡ some (file b)
      → put_bytes resolve hexdigest b d ≡ (ok (object_of hexdigest b), d')
      → IsKept b after d
  kept b after d d' l x h e p = rw p (
    refl,
    read_bytes-object resolve hexdigest l x b (put_all resolve hexdigest after d') b
        (put_all-IsStore after d' h) refl
        (find_node-put_all (place (hexdigest b)) after d' (file b) e),
  )

  -- Where an object with the digest stands, its bytes are the payload's or others.
  found_old :
      (b : Bytes) (after : List Bytes) (d : Disk) (old : Bytes)
      → IsResolver resolve
      → IsHexDigest hexdigest
      → IsStore hexdigest d
      → hexdigest old ≡ hexdigest b
      → find_node (place (hexdigest b)) d ≡ some (file old)
      → IsKept b after d ⊎ Collides b d
  found_old b after d old l x h q e = elim (Bool-cases (bytes_eq old b)) [
    | inl k ↦ inl (
        kept b after d d l x h (e ∙ ap (λ c. some (file c)) (bytes_eq_sound old b k))
          (put_bytes-old resolve hexdigest l x b d old h e ∙ rw k refl))
    | inr k ↦ inr (
      old,
      (λ p. differs p k),
      q,
      read_bytes-object resolve hexdigest l x b d old h q e,
      put_bytes-old resolve hexdigest l x b d old h e ∙ rw k refl,
    )
  ]
    where
      differs : old ≡ b → bytes_eq old b ≡ false → ⊥
      differs p k = cc (ap (λ c. bytes_eq c b) p, bytes_eq_refl b)

  found :
      (b : Bytes) (after : List Bytes) (d : Disk)
      → IsResolver resolve
      → IsHexDigest hexdigest
      → IsStore hexdigest d
      → IsKept b after d ⊎ Collides b d
  found b after d l x h = elim (Option-cases (find_node (place (hexdigest b)) d)) [
    | inl e ↦ inl (
        kept b after d (d ++ (place (hexdigest b), file b) ∷ []) l x
          (All-append (IsKnown hexdigest) d ((place (hexdigest b), file b) ∷ []) h
            (inl (b, refl, refl), tt))
          (find_node-append_self (place (hexdigest b)) d (file b) e)
          (put_bytes-new resolve hexdigest l x b d h e))
    | inr (n, e) ↦ stored n e (All-find_node (IsKnown hexdigest) (place (hexdigest b)) d n h e)
  ]
    where
      stored :
          (n : Node)
          → find_node (place (hexdigest b)) d ≡ some n
          → IsKnown hexdigest (place (hexdigest b), n)
          → IsKept b after d ⊎ Collides b d
      stored n e (inr q) = absurd (place_is_not_beside (hexdigest b) n q)
      stored n e (inl (old, p, r)) =
          found_old b after d old l x h (sym (place_inj (hexdigest b) (hexdigest old) p))
            (e ∙ ap some r)

  -- In a workspace whose folder of artifacts is empty at the start, and which holds any other files,
  -- after any puts: put_bytes returns the object of its payload, and whatever is put afterwards
  -- read_bytes returns the payload for the object's digest; or else other bytes of the same digest are
  -- stored, which read_bytes returns, and put_bytes raises conformance_failed and writes nothing. This
  -- supposes digests of 64 hexadecimal digits, and that a path with no link on the way and no part `..`
  -- resolves to itself.
  pub put_bytes-read_bytes :
      (d : Disk) (before after : List Bytes) (b : Bytes)
      → All IsBeside d
      → IsResolver resolve
      → IsHexDigest hexdigest
      → IsKept b after (put_all resolve hexdigest before d)
        ⊎ Collides b (put_all resolve hexdigest before d)
  put_bytes-read_bytes d before after b h l x =
      found b after (put_all resolve hexdigest before d) l x
        (put_all-IsStore before d (All-map IsBeside (IsKnown hexdigest) d (λ e q. inr q) h))
