-- ===== src/Witnesses/Artifacts.antt =====
-- Objects put and read in a workspace with a marker and a database, with a digest that tells only the
-- size of the first byte.
use qste.Base.{
  ℕ, List, [], ◌∷◌, suc, if◌then◌else◌, ltb, zero, Bool-cases, ◌⊎◌, ◌++◌, Option, refl, some, inl,
  inr, ◌≡◌, ok, true, false, none,
}
use qste.Artifacts.RoundTrip.{IsKept, Collides, put_bytes-read_bytes}
use qste.Artifacts.Objects.{
  is_hex, read_bytes, put_all, relative_path, begins, place, drop, take, verify_content_digest,
  content_digest,
}
use qste.Artifacts.Paths.{
  Disk, codes, Path', owned_path, link, file, has_link, find_node, path_eq, parent, has_part,
}
use qste.Artifacts.Reads.{IsRead, read_bytes_lem}
use qste.Artifacts.Stores.{IsResolver, IsHexDigest}
use qste.Artifacts.Appends.{Appends, put_all-Appends}
use qste.Storage.Records.{bytes_eq}

abbrev zeros : ℕ → List ℕ
zeros zero = []
zeros (suc n) = 48 ∷ zeros n

abbrev hexdigest : List ℕ → List ℕ
hexdigest [] = 48 ∷ zeros 63
hexdigest (c ∷ s) = (if ltb c 5 then 49 else 97) ∷ zeros 63

-- A resolver that does not follow `..`.
unfoldable resolve : Disk → Path' → Option Path'
resolve d p = elim (has_part (codes "..") p) [ true ↦ none | false ↦ some p ]

hexdigest-IsHexDigest : IsHexDigest hexdigest
unfolding is_hex
hexdigest-IsHexDigest [] = (refl, refl)
hexdigest-IsHexDigest (c ∷ s) = elim (Bool-cases (ltb c 5)) [
  | inl h ↦ rw h (refl, refl)
  | inr h ↦ rw h (refl, refl)
]

resolve-IsResolver : IsResolver resolve
unfolding resolve bytes_eq
resolve-IsResolver d p h k = rw (h, resolve) refl

abbrev workspace : Disk
workspace =
    (codes "workspace.json" ∷ [], file (5 ∷ [])) ∷ (codes "qste.sqlite3" ∷ [], file (6 ∷ [])) ∷ []

put_bytes-read_bytes_example :
    IsKept resolve hexdigest
      (1 ∷ 2 ∷ [])
      ((3 ∷ []) ∷ (9 ∷ []) ∷ [])
      (put_all resolve hexdigest ((7 ∷ []) ∷ []) workspace)
    ⊎ Collides resolve hexdigest (1 ∷ 2 ∷ []) (put_all resolve hexdigest ((7 ∷ []) ∷ []) workspace)
unfolding bytes_eq
put_bytes-read_bytes_example =
    put_bytes-read_bytes resolve hexdigest workspace ((7 ∷ []) ∷ []) ((3 ∷ []) ∷ (9 ∷ []) ∷ [])
      (1 ∷ 2 ∷ []) ((refl, 5 ∷ [], refl), ((refl, 6 ∷ [], refl), tt)) resolve-IsResolver
      hexdigest-IsHexDigest

put_all-Appends_example :
    Appends hexdigest
      ((codes "x" ∷ [], link) ∷ [])
      (put_all resolve hexdigest ((7 ∷ []) ∷ (1 ∷ []) ∷ []) ((codes "x" ∷ [], link) ∷ []))
put_all-Appends_example =
    put_all-Appends resolve hexdigest ((7 ∷ []) ∷ (1 ∷ []) ∷ []) ((codes "x" ∷ [], link) ∷ [])

abbrev stored : Disk
stored = (codes "x" ∷ [], link) ∷ (place (hexdigest (7 ∷ [])), file (7 ∷ 8 ∷ [])) ∷ []

read_stored :
    read_bytes resolve hexdigest (codes "sha256:" ++ hexdigest (7 ∷ [])) (some 2) stored
    ≡ ok (7 ∷ 8 ∷ [])
unfolding resolve read_bytes owned_path relative_path begins drop take is_hex has_link find_node
    path_eq bytes_eq parent verify_content_digest content_digest
read_stored = refl

read_bytes_lem_example :
    IsRead hexdigest (codes "sha256:" ++ hexdigest (7 ∷ [])) (some 2) stored (7 ∷ 8 ∷ [])
read_bytes_lem_example =
    read_bytes_lem resolve hexdigest (codes "sha256:" ++ hexdigest (7 ∷ [])) (some 2) stored
      (7 ∷ 8 ∷ []) read_stored
