-- ===== src/Store/Projects.antt =====
-- crates/mgmt-store/src/projects.rs: the projects as the files of a directory, once the old registry is
-- migrated.
use mgmtui.Base.{Text, Bool, true, false, none, some}
use mgmtui.Base.Result.{Result, ok, ◌>>=◌}
use mgmtui.Core.{Error}
use mgmtui.Domain.Project.{Project}
use mgmtui.Markdown.{Yaml, ProjectFrontmatter, serialize_project}
use mgmtui.Store.Files.{Dir, read, write, remove_file}
use mgmtui.Store.Paths.{task_file}

unfoldable pub upsert : Yaml ProjectFrontmatter → Dir → Project → Result Error Dir
upsert yaml dir p = do text ← serialize_project yaml p; ok (write dir (task_file p.name) text)

-- The directory afterwards, and whether there was a file.
unfoldable pub delete : Dir → Text → Dir × Bool
delete dir name = elim (read dir (task_file name)) [
  | some s ↦ (remove_file dir (task_file name), true)
  | none ↦ (dir, false)
]
