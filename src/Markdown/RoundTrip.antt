-- ===== src/Markdown/RoundTrip.antt =====
-- crates/mgmt-markdown/src/lib.rs: what is read back from a written document.
use mgmtui.Base.{
  ℕ, text, Bool, ◌==◌, List, eqb, All, sym, ◌∙◌, arith, inl, inr, Bool-cases, Option-cases,
  if◌then◌else◌, Text, text_eq, false, some, [], ◌∷◌, ◌++◌, ◌≡◌, refl,
}
use mgmtui.Base.Chars.{
  trim, starts_with, split_last, lower_char, to_ascii_lowercase, strip_prefix, has_substring,
}
use mgmtui.Base.Result.{ok}
use mgmtui.Domain.Task.{Task, Priority, no_priority, low, medium, high}
use mgmtui.Markdown.{
  body_part, Frontmatter, Yaml, lf, dashes, fence_body, split_frontmatter, document, close_body,
  trim_line_feeds, normalize_status, priority_str, parse_priority, task_of, frontmatter_of,
  parse_task, serialize_task,
}
use mgmtui.Markdown.Split.{split_frontmatter-fences}

-- A YAML block: it ends with a line feed, and no line but the first begins with three dashes.
abbrev pub IsBlock : Text → Type 0
IsBlock s = (front : Text) × (s ≡ front ++ (lf ∷ [])) × (has_substring (lf ∷ dashes) front ≡ false)

-- The body that a document is read back with: without line feeds at its head, and closed by one.
unfoldable pub stored_body : Text → Text
stored_body [] = []
stored_body (c ∷ cs) = trim_line_feeds (close_body (c ∷ cs))

trim-body_part : (body : Text) → trim_line_feeds (body_part body) ≡ stored_body body
unfolding body_part stored_body trim_line_feeds
trim-body_part [] = refl
trim-body_part (c ∷ cs) = refl

fence_body-document : (body : Text) → fence_body (lf ∷ body) ≡ some body
unfolding fence_body strip_prefix
fence_body-document body = refl

pub split_frontmatter-document :
    (s body : Text) → IsBlock s → split_frontmatter (document s body) ≡ some (s, body_part body)
unfolding document
split_frontmatter-document s body (front, e, h) = rw e (
    split_frontmatter-fences front (lf ∷ body_part body) (body_part body) h
      (fence_body-document (body_part body)))

parse_priority-priority_str : (p : Priority) → parse_priority (priority_str p) ≡ p
unfolding parse_priority priority_str to_ascii_lowercase lower_char text_eq
parse_priority-priority_str no_priority = refl
parse_priority-priority_str low = refl
parse_priority-priority_str medium = refl
parse_priority-priority_str high = refl

-- The task that comes back.
abbrev pub stored : Task → Task
stored t = record t { body = stored_body t.body; status = normalize_status t.status }

task_of-frontmatter_of : (t : Task) → task_of (frontmatter_of t) (body_part t.body) ≡ stored t
unfolding task_of frontmatter_of
task_of-frontmatter_of t = rw (parse_priority-priority_str t.priority, trim-body_part t.body)

-- What the YAML library does for a frontmatter: it is written as a block, which is read back.
abbrev pub ReadsBack : Yaml Frontmatter → Frontmatter → Type 0
ReadsBack yaml fm =
    (s : Text) × (yaml.to_string fm ≡ some s) × (yaml.from_str s ≡ some fm) × IsBlock s

-- What the document of a task is read back as, by the code's own functions.
pub parse_task-stored :
    (yaml : Yaml Frontmatter) (t : Task)
    → ReadsBack yaml (frontmatter_of t)
    → (doc : Text) × (serialize_task yaml t ≡ ok doc)
      × (parse_task yaml doc
          ≡ ok (record t { body = stored_body t.body; status = normalize_status t.status }))
unfolding parse_task serialize_task
parse_task-stored yaml t (s, e, f, b) = (
  document s t.body,
  rw e refl,
  rw (split_frontmatter-document s t.body b, f, task_of-frontmatter_of t),
)

abbrev pub ends_in_lf : Text → Bool
ends_in_lf [] = false
ends_in_lf (c ∷ []) = eqb c lf
ends_in_lf (c ∷ d ∷ ds) = ends_in_lf (d ∷ ds)

-- What a line feed is added to.
abbrev pub terminated : Text → Text
terminated body = if ends_in_lf body then body else body ++ (lf ∷ [])

-- The statuses that have other names.
abbrev pub status_names : List (Text × Text)
status_names =
    ([], text "todo")
    ∷ (text "in-progress", text "doing")
    ∷ (text "in_progress", text "doing")
    ∷ (text "completed", text "done")
    ∷ (text "canceled", text "cancelled")
    ∷ []

abbrev pub renamed : List (Text × Text) → Text → Text
renamed [] s = s
renamed ((from, to) ∷ names) s = if s == from then to else renamed names s

normalize_status-renamed :
    (s : Text) → normalize_status s ≡ renamed status_names (to_ascii_lowercase (trim s))
unfolding normalize_status
normalize_status-renamed s = ground arith

trim_line_feeds-split :
    (s : Text)
    → (front : Text) × All (λ c. c ≡ lf) front
      × (front ++ trim_line_feeds s ≡ s)
      × (starts_with (lf ∷ []) (trim_line_feeds s) ≡ false)
unfolding trim_line_feeds starts_with strip_prefix
trim_line_feeds-split [] = ([], tt, refl, refl)
trim_line_feeds-split (c ∷ cs) =
    let (front, all, split, head) = trim_line_feeds-split cs in
    elim (Bool-cases (eqb c lf)) [
      | inl e ↦ (c ∷ front, (ground arith, all), ground arith, ground arith)
      | inr e ↦ ([], tt, ground arith, ground arith)
    ]

split_last-ends :
    (s front : Text) (c : ℕ) → split_last s ≡ some (front, c) → ends_in_lf s ≡ eqb c lf
unfolding split_last
split_last-ends [] front c e = absurd (ground arith)
split_last-ends (x ∷ []) front c e = ground arith
split_last-ends (x ∷ y ∷ ys) front c e = elim (Option-cases (split_last (y ∷ ys))) [
  | inl n ↦ absurd (ground arith)
  | inr ((f, d), n) ↦ split_last-ends (y ∷ ys) f c (ground arith)
]

close_body-terminated : (c : ℕ) (cs : Text) → close_body (c ∷ cs) ≡ terminated (c ∷ cs)
unfolding close_body
close_body-terminated c cs = elim (Option-cases (split_last (c ∷ cs))) [
  | inl n ↦ absurd (unfold split_last in ground arith)
  | inr ((f, d), n) ↦ rw (split_last-ends (c ∷ cs) f d n) (ground arith)
]

stored_body-split :
    (body : Text)
    → (front : Text) × All (λ c. c ≡ lf) front
      × (front ++ stored_body body ≡ terminated body)
      × (starts_with (lf ∷ []) (stored_body body) ≡ false)
unfolding stored_body
stored_body-split [] = (lf ∷ [], (refl, tt), refl, unfold starts_with strip_prefix in refl)
stored_body-split (c ∷ cs) =
    let (front, all, split, head) = trim_line_feeds-split (close_body (c ∷ cs)) in
    (front, all, split ∙ close_body-terminated c cs, head)

-- If the YAML library reads the frontmatter of a task back, a written task is read back as itself but
-- for its body and its status. The body is the written one, with a line feed added if it does not end
-- in one, less all line feeds at its head. The status is trimmed and in lower case; an empty one is
-- `todo`, and the other names of `doing`, `done` and `cancelled` are replaced.
pub parse_task-serialize_task :
    (yaml : Yaml Frontmatter) (t : Task)
    → ReadsBack yaml (frontmatter_of t)
    → (doc : Text) × (body : Text) × (front : Text) × (serialize_task yaml t ≡ ok doc)
      × (parse_task yaml doc
          ≡ ok (record t {
            body = body;
            status = renamed status_names (to_ascii_lowercase (trim t.status));
          }))
      × All (λ c. c ≡ lf) front
      × (front ++ body ≡ terminated t.body)
      × (starts_with (lf ∷ []) body ≡ false)
parse_task-serialize_task yaml t y =
    let (doc, s, p) = parse_task-stored yaml t y in
    let (front, all, split, head) = stored_body-split t.body in
    (
      doc,
      stored_body t.body,
      front,
      s,
      rw (sym (normalize_status-renamed t.status)) p,
      all,
      split,
      head,
    )
