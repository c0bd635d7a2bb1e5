-- ===== src/Domain/Project.antt =====
-- crates/mgmt-domain/src/project.rs: projects.
use mgmtui.Base.{Text, Option, none, some, []}

pub record Project : Type 0 where
  pub name : Text
  pub color : Option Text
  pub description : Text

-- `Project::new`
unfoldable pub project : Text → Project
project name = record { name = name; color = none; description = [] }

unfoldable pub with_color : Project → Text → Project
with_color p color = record p { color = some color }
