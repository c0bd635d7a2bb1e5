-- ===== src/Store/Trash.antt =====
-- crates/mgmt-store/src/trash.rs: the trashed tasks and projects, each kind as the files of a directory.
use mgmtui.Base.{Text, text, Bool, true, false, ◌&&◌, Option, none, some, List, [], ◌∷◌}
use mgmtui.Base.Result.{Result, ok, err, ◌>>=◌}
use mgmtui.Core.{Error}
use mgmtui.Domain.Task.{Task}
use mgmtui.Domain.Project.{Project}
use mgmtui.Markdown.{
  Yaml, Frontmatter, ProjectFrontmatter, parse_task, serialize_task, parse_project,
  serialize_project,
}
use mgmtui.Store.Files.{Dir, read, write, remove_file}
use mgmtui.Store.Paths.{task_file}
use mgmtui.Store.Vault.{collect_files}

abbrev pub remove_if_exists : Dir → Text → Dir × Bool
remove_if_exists dir name = elim (read dir name) [
  | some s ↦ (remove_file dir name, true)
  | none ↦ (dir, false)
]

abbrev pub ok_of : {A : Type 0} → Result Error A → Option A
ok_of (ok a) = some a
ok_of (err e) = none

unfoldable pub trash_task : Yaml Frontmatter → Dir → Task → Result Error Dir
trash_task yaml dir t = do text ← serialize_task yaml t; ok (write dir (task_file t.uid) text)

unfoldable pub trash_project : Yaml ProjectFrontmatter → Dir → Project → Result Error Dir
trash_project yaml dir p = do
  text ← serialize_project yaml p
  ok (write dir (task_file p.name) text)

unfoldable pub read_task : Yaml Frontmatter → Dir → Text → Option Task
read_task yaml dir uid = elim (read dir (task_file uid)) [
  | none ↦ none
  | some s ↦ ok_of (parse_task yaml s)
]

unfoldable pub read_project : Yaml ProjectFrontmatter → Dir → Text → Option Project
read_project yaml dir name = elim (read dir (task_file name)) [
  | none ↦ none
  | some s ↦ ok_of (parse_project yaml s)
]

unfoldable pub purge_task : Dir → Text → Dir × Bool
purge_task dir uid = remove_if_exists dir (task_file uid)

unfoldable pub purge_project : Dir → Text → Dir × Bool
purge_project dir name = remove_if_exists dir (task_file name)

abbrev no_files : List (Text × Text) → Bool
no_files [] = true
no_files (f ∷ files) = false

-- Whether neither directory holds a markdown file.
unfoldable pub is_empty : Dir → Dir → Bool
is_empty tasks projects =
    no_files (collect_files tasks (text "md")) && no_files (collect_files projects (text "md"))
