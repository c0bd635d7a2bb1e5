-- ===== src/Store/Files.antt =====
-- A directory of files, from their names to their contents, with the operations of the file system and
-- `atomic_write` of crates/mgmt-store/src/paths.rs. An error of the file system is not modelled.
use mgmtui.Base.{
  Text, text_eq, ◌==◌, Option, none, some, List, [], ◌∷◌, ◌≡◌, refl, arith, if◌then◌else◌,
}

abbrev pub Dir : Type 0
Dir = List (Text × Text)

unfoldable pub read : Dir → Text → Option Text
read [] name = none
read ((k, v) ∷ dir) name = if k == name then some v else read dir name

-- `atomic_write`
unfoldable pub write : Dir → Text → Text → Dir
write [] name body = (name, body) ∷ []
write ((k, v) ∷ dir) name body =
    if k == name then (name, body) ∷ dir else (k, v) ∷ write dir name body

unfoldable pub remove_file : Dir → Text → Dir
remove_file [] name = []
remove_file ((k, v) ∷ dir) name =
    let rest = remove_file dir name in if k == name then rest else (k, v) ∷ rest

pub read-write :
    (dir : Dir) (name body other : Text)
    → read (write dir name body) other ≡ (if name == other then some body else read dir other)
unfolding read write
read-write [] name body other = refl
read-write ((k, v) ∷ dir) name body other = ground (arith, read-write dir name body other)

pub read-remove_file :
    (dir : Dir) (name other : Text)
    → read (remove_file dir name) other ≡ (if name == other then none else read dir other)
unfolding read remove_file
read-remove_file [] name other = ground arith
read-remove_file ((k, v) ∷ dir) name other = ground (arith, read-remove_file dir name other)
