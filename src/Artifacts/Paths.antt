-- ===== src/Artifacts/Paths.antt =====
-- The files of a workspace: `owned_path` and `atomic_write` of src/qste/storage/paths.py. A path is the
-- list of its parts below the workspace's root, and a text the list of its code points.
use Prim.Native.Char.{code}
use qste.Base.{
  ℕ, String, Bool, true, false, not, ◌&&◌, ◌||◌, Option, none, some, List, [], ◌∷◌, ◌++◌, any,
  Result, ok, err, raise_if, ◌>>◌, invalid_input, conformance_failed, internal_error, if◌then◌else◌,
}
use qste.Storage.Tables.{Bytes}
use qste.Storage.Records.{bytes_eq}

abbrev pub Text : Type 0
Text = List ℕ

abbrev pub codes : String → Text
codes String.[] = []
codes (String.◌∷◌ c s) = code c ∷ codes s

abbrev pub Path' : Type 0
Path' = List Text

-- What stands at a path; a folder is there whenever
-- a file lies below it, and empty folders are not kept.
pub data Node : Type 0 where
  file : Bytes → Node
  link : Node

abbrev pub Disk : Type 0
Disk = List (Path' × Node)

unfoldable pub path_eq : Path' → Path' → Bool
path_eq [] [] = true
path_eq (a ∷ p) (b ∷ q) = bytes_eq a b && path_eq p q
path_eq _ _ = false

unfoldable pub find_node : Path' → Disk → Option Node
find_node p [] = none
find_node p ((q, n) ∷ rest) = if path_eq p q then some n else find_node p rest

abbrev pub as_link : Option Node → Bool
as_link (some link) = true
as_link _ = false

abbrev pub as_file : Option Node → Bool
as_file (some (file b)) = true
as_file _ = false

-- `path.is_symlink()`
abbrev pub is_link : Disk → Path' → Bool
is_link d p = as_link (find_node p d)

-- `path.is_file()`, of a path that is no link.
abbrev pub is_file : Disk → Path' → Bool
is_file d p = as_file (find_node p d)

-- The loop over `posix.parts`, with the path that has been probed.
unfoldable pub has_link : Disk → Path' → Path' → Bool
has_link d probe [] = false
has_link d probe (part ∷ parts) =
    is_link d (probe ++ part ∷ []) || has_link d (probe ++ part ∷ []) parts

unfoldable pub parent : Path' → Path'
parent [] = []
parent (part ∷ []) = []
parent (part ∷ next ∷ parts) = part ∷ parent (next ∷ parts)

-- `PurePosixPath(relative)`
pub record PosixPath : Type 0 where
  pub is_absolute : Bool
  pub parts : Path'

abbrev pub has_part : Text → Path' → Bool
has_part t p = any (bytes_eq t) p

abbrev pub is_root : Path' → Bool
is_root [] = true
is_root (part ∷ parts) = false

abbrev pub is_outside : Option Path' → Bool
is_outside none = true
is_outside (some p) = false

-- A file stands where a folder is needed.
unfoldable pub is_blocked : Disk → Path' → Path' → Bool
is_blocked d probe [] = false
is_blocked d probe (part ∷ parts) =
    is_file d (probe ++ part ∷ []) || is_blocked d (probe ++ part ∷ []) parts

-- `Path.resolve` of a path below the root: the path that it leads to, if that lies below the root too.
module _ (resolve : Disk → Path' → Option Path') where
  -- `owned_path`
  unfoldable pub owned_path : Disk → PosixPath → Result Path'
  owned_path d relative = do
    raise_if
        (relative.is_absolute || has_part (codes "..") relative.parts || is_root relative.parts)
        invalid_input
    raise_if (has_link d [] relative.parts) conformance_failed
    raise_if (is_outside (resolve d (parent relative.parts))) invalid_input
    ok relative.parts

-- `q` lies below `p`.
unfoldable pub is_below : Path' → Path' → Bool
is_below [] [] = false
is_below [] (part ∷ parts) = true
is_below (a ∷ p) [] = false
is_below (a ∷ p) (b ∷ q) = bytes_eq a b && is_below p q

-- A folder that holds a file stands at `p`.
unfoldable pub is_folder : Disk → Path' → Bool
is_folder [] p = false
is_folder ((q, n) ∷ d) p = is_below p q || is_folder d p

-- The link to the temporary file is made where nothing stands; an existing file must have the same
-- bytes.
unfoldable pub write_over : Option Node → Path' → Bytes → Disk → Result (Unit {0}) × Disk
write_over none path bytes d =
    if is_folder d path then (err conformance_failed, d) else (ok tt, d ++ (path, file bytes) ∷ [])
write_over (some link) path bytes d = (err conformance_failed, d)
write_over (some (file old)) path bytes d =
    (raise_if (not (bytes_eq old bytes)) conformance_failed, d)

-- `atomic_write`; its temporary file is gone when it ends. Making a folder where a file stands
-- raises an `OSError`.
unfoldable pub atomic_write : Path' → Bytes → Disk → Result (Unit {0}) × Disk
atomic_write path bytes d =
    if is_blocked d [] (parent path)
    then (err internal_error, d)
    else (if is_link d (parent path) || is_link d path
        then (err conformance_failed, d)
        else write_over (find_node path d) path bytes d)
