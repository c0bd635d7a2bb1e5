-- ===== src/Store/Vault.antt =====
-- crates/mgmt-store/src/vault.rs and `collect_files` of paths.rs: the tasks as files of a directory. The
-- tree under the root is the list of its files by their paths, whose parts are parted by slashes.
pub mod Laws
use mgmtui.Base.{
  Text, text, text_eq, ◌==◌, Bool, true, false, ◌&&◌, not, keep, Option, none, some, List, [], ◌∷◌,
  ◌++◌, if◌then◌else◌,
}
use mgmtui.Base.Chars.{split, split_last, eq_ignore_ascii_case}
use mgmtui.Base.Sort.{sort_by, text_le}
use mgmtui.Base.Result.{Result, ok, err, ◌>>=◌}
use mgmtui.Core.{Error}
use mgmtui.Domain.Task.{Task}
use mgmtui.Markdown.{Yaml, Frontmatter, parse_task, serialize_task}
use mgmtui.Store.Files.{Dir, read, write, remove_file}
use mgmtui.Store.Paths.{task_file}

abbrev pub last_or : Text → List Text → Text
last_or d [] = d
last_or d (x ∷ xs) = last_or x xs

-- Whether the text before the last dot is there and not empty, at the parts between the dots.
abbrev pub has_stem : List Text → Bool
has_stem [] = false
has_stem (x ∷ []) = false
has_stem (x ∷ y ∷ []) = not (x == [])
has_stem (x ∷ y ∷ z ∷ zs) = true

-- `Path::extension` of the last part of the path, compared without case.
unfoldable pub has_extension : Text → Text → Bool
has_extension ext path =
    let parts = split b'.' (last_or [] (split b'/' path)) in
    has_stem parts && eq_ignore_ascii_case (last_or [] parts) ext

-- The order of paths, part by part.
abbrev pub parts_le : List Text → List Text → Bool
parts_le [] ys = true
parts_le (x ∷ xs) [] = false
parts_le (x ∷ xs) (y ∷ ys) = let rest = parts_le xs ys in if x == y then rest else text_le x y

abbrev pub path_le : (Text × Text) → (Text × Text) → Bool
path_le (p, v) (q, w) = parts_le (split b'/' p) (split b'/' q)

unfoldable pub collect_files : Dir → Text → List (Text × Text)
collect_files root ext = sort_by path_le (keep (λ f. has_extension ext (f.0)) root)

module _ (yaml : Yaml Frontmatter) where
  -- A file that holds no task is passed over.
  unfoldable pub load_files : List (Text × Text) → List Task
  load_files [] = []
  load_files ((path, text) ∷ files) =
      let rest = load_files files in
      elim (parse_task yaml text) [ ok task ↦ task ∷ rest | err e ↦ rest ]

  unfoldable pub load_all : Dir → List Task
  load_all root = load_files (collect_files root (text "md"))

  unfoldable pub upsert : Dir → Task → Result Error Dir
  upsert root item = do text ← serialize_task yaml item; ok (write root (task_file item.uid) text)

-- The directory afterwards, and whether there was a file.
unfoldable pub delete : Dir → Text → Dir × Bool
delete root uid = elim (read root (task_file uid)) [
  | some text ↦ (remove_file root (task_file uid), true)
  | none ↦ (root, false)
]
