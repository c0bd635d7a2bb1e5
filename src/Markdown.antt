-- ===== src/Markdown.antt =====
-- crates/mgmt-markdown/src/lib.rs: a task or a project as a markdown document with YAML frontmatter.
-- The YAML library, with the derived readers that fill in the defaults of missing keys, is a record of
-- its two functions. A text is its code points, and the messages of the errors are left out.
pub mod Split
pub mod RoundTrip
pub mod Settled
use mgmtui.Base.{
  ℕ, Text, text, text_eq, ◌==◌, Bool, true, false, Option, none, some, List, [], ◌∷◌, ◌++◌, eqb,
  if◌then◌else◌, ◌||◌,
}
use mgmtui.Base.Int.{ℤ}
use mgmtui.Base.Chars.{strip_prefix, starts_with, trim, to_ascii_lowercase, split_last}
use mgmtui.Base.Result.{Result, ok, err, ◌>>=◌, ok_or}
use mgmtui.Core.{Error, parse_error, other}
use mgmtui.Domain.Project.{Project}
use mgmtui.Domain.Instant.{Instant}
use mgmtui.Domain.Event.{SyncMeta}
use mgmtui.Domain.Task.{Task, Priority, no_priority, low, medium, high}

pub record Frontmatter : Type 0 where
  pub uid : Text
  pub title : Text
  pub status : Text
  pub priority : Text
  pub project : Option Text
  pub area : Option Text
  pub tags : List Text
  pub due : Option Instant
  pub scheduled : Option Instant
  pub reminders : List ℤ
  pub completion : Option ℕ
  pub created : Option Instant
  pub modified : Option Instant
  pub href : Option Text
  pub etag : Option Text

-- `serde_yaml::to_string` and `serde_yaml::from_str` at one type.
pub record Yaml (A : Type 0) : Type 0 where
  pub to_string : A → Option Text
  pub from_str : Text → Option A

abbrev pub lf : ℕ
lf = 10

abbrev pub cr : ℕ
cr = 13

abbrev pub dashes : Text
dashes = b'-' ∷ b'-' ∷ b'-' ∷ []

-- What stands after the three dashes of a fence: the body, if the fence's line ends there.
unfoldable pub fence_body : Text → Option Text
fence_body after = elim (strip_prefix (lf ∷ []) after) [
  | some body ↦ some body
  | none ↦ elim (strip_prefix (cr ∷ lf ∷ []) after) [
    | some body ↦ some body
    | none ↦ elim after [ [] ↦ some [] | c ∷ cs ↦ none ]
  ]
]

-- A closing fence that begins with the line feed at the head of the text.
unfoldable pub fence : Text → Option Text
fence s = elim (strip_prefix (lf ∷ dashes) s) [ none ↦ none | some after ↦ fence_body after ]

-- The loop over the matches of a line feed and three dashes. The search goes on behind the dashes of
-- a match that is no fence, and no match begins at a dash, so going on behind its line feed is the same.
-- The YAML keeps the line feed before the fence.
unfoldable pub find_fence : Text → Option (Text × Text)
find_fence [] = none
find_fence (c ∷ cs) =
    let rest = find_fence cs in
    elim (fence (c ∷ cs)) [
      | some body ↦ some (c ∷ [], body)
      | none ↦ elim rest [ none ↦ none | some (yaml, body) ↦ some (c ∷ yaml, body) ]
    ]

unfoldable pub split_frontmatter : Text → Option (Text × Text)
split_frontmatter input = elim (strip_prefix (dashes ++ (lf ∷ [])) input) [
  | some rest ↦ find_fence rest
  | none ↦ elim (strip_prefix (dashes ++ (cr ∷ lf ∷ [])) input) [
    | some rest ↦ find_fence rest
    | none ↦ none
  ]
]

-- `trim_start_matches('\n')`
unfoldable pub trim_line_feeds : Text → Text
trim_line_feeds [] = []
trim_line_feeds (c ∷ cs) = let rest = trim_line_feeds cs in if eqb c lf then rest else c ∷ cs

unfoldable pub normalize_status : Text → Text
normalize_status s =
    let t = to_ascii_lowercase (trim s) in
    if t == []
    then text "todo"
    else if t == text "in-progress" || t == text "in_progress"
    then text "doing"
    else if t == text "completed"
    then text "done"
    else if t == text "canceled"
    then text "cancelled"
    else t

unfoldable pub priority_str : Priority → Text
priority_str no_priority = text "none"
priority_str low = text "low"
priority_str medium = text "medium"
priority_str high = text "high"

unfoldable pub parse_priority : Text → Priority
parse_priority s =
    let t = to_ascii_lowercase s in
    if t == text "low"
    then low
    else if t == text "medium" || t == text "med"
    then medium
    else if t == text "high"
    then high
    else no_priority

unfoldable pub task_of : Frontmatter → Text → Task
task_of fm body = record {
  uid = fm.uid;
  title = fm.title;
  body = trim_line_feeds body;
  status = normalize_status fm.status;
  priority = parse_priority fm.priority;
  project = fm.project;
  area = fm.area;
  tags = fm.tags;
  due = fm.due;
  scheduled = fm.scheduled;
  reminders = fm.reminders;
  completion = fm.completion;
  created = fm.created;
  modified = fm.modified;
  sync = record { href = fm.href; etag = fm.etag };
}

unfoldable pub frontmatter_of : Task → Frontmatter
frontmatter_of t = record {
  uid = t.uid;
  title = t.title;
  status = t.status;
  priority = priority_str t.priority;
  project = t.project;
  area = t.area;
  tags = t.tags;
  due = t.due;
  scheduled = t.scheduled;
  reminders = t.reminders;
  completion = t.completion;
  created = t.created;
  modified = t.modified;
  href = t.sync.href;
  etag = t.sync.etag;
}

-- A line feed after a body that does not end in one.
unfoldable pub close_body : Text → Text
close_body body = elim (split_last body) [
  | none ↦ lf ∷ []
  | some (front, c) ↦ if eqb c lf then body else body ++ (lf ∷ [])
]

unfoldable pub body_part : Text → Text
body_part [] = []
body_part (c ∷ cs) = lf ∷ close_body (c ∷ cs)

-- The document of a frontmatter and a body.
unfoldable pub document : Text → Text → Text
document yaml body = dashes ++ (lf ∷ (yaml ++ (dashes ++ (lf ∷ body_part body))))

unfoldable pub parse_task : Yaml Frontmatter → Text → Result Error Task
parse_task yaml input = do
  parts ← ok_or (split_frontmatter input) parse_error
  fm ← ok_or (yaml.from_str (parts.0)) parse_error
  ok (task_of fm (parts.1))

unfoldable pub serialize_task : Yaml Frontmatter → Task → Result Error Text
serialize_task yaml t = do
  text ← ok_or (yaml.to_string (frontmatter_of t)) other
  ok (document text t.body)

pub record ProjectFrontmatter : Type 0 where
  pub name : Text
  pub color : Option Text

unfoldable pub parse_project : Yaml ProjectFrontmatter → Text → Result Error Project
parse_project yaml input = do
  parts ← ok_or (split_frontmatter input) parse_error
  fm ← ok_or (yaml.from_str (parts.0)) parse_error
  ok (record { name = fm.name; color = fm.color; description = trim_line_feeds (parts.1) })

unfoldable pub serialize_project : Yaml ProjectFrontmatter → Project → Result Error Text
serialize_project yaml p = do
  text ← ok_or (yaml.to_string (record { name = p.name; color = p.color })) other
  ok (document text p.description)
