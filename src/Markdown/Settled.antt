-- ===== src/Markdown/Settled.antt =====
-- crates/mgmt-markdown/src/lib.rs: writing a task that was read from a written document gives the same
-- document, so the hash that the sync compares does not change by itself.
use mgmtui.Markdown.{Yaml, Frontmatter, task_of, parse_task, split_frontmatter, body_part}
use mgmtui.Base.Result.{ok}
use mgmtui.Base.{
  sym, ◌≢◌, Bool-cases, ◌⊎◌, ℕ, Text, text, text_eq, ◌==◌, false, ◌||◌, none, some, [], ◌∷◌, ◌++◌,
  eqb, ◌≡◌, refl, arith, if◌then◌else◌, Option-cases, inl, inr,
}
use mgmtui.Base.Chars.{
  is_white, trim_end, trim_start, lower_char, trim, to_ascii_lowercase, split_last, split_last-snoc,
}
use mgmtui.Base.Chars.Trim.{
  trim-trim, trim-to_ascii_lowercase, to_ascii_lowercase-to_ascii_lowercase,
}
use mgmtui.Domain.Task.{Task}
use mgmtui.Markdown.{lf, close_body, trim_line_feeds, normalize_status}
use mgmtui.Markdown.RoundTrip.{stored_body, stored}

abbrev status_of : Text → Text
status_of t =
    if t == []
    then text "todo"
    else if t == text "in-progress" || t == text "in_progress"
    then text "doing"
    else if t == text "completed"
    then text "done"
    else if t == text "canceled"
    then text "cancelled"
    else t

normalize_status-status_of :
    (s : Text) → normalize_status s ≡ status_of (to_ascii_lowercase (trim s))
unfolding normalize_status
normalize_status-status_of s = refl

lowered :
    (s : Text)
    → to_ascii_lowercase (trim (to_ascii_lowercase (trim s))) ≡ to_ascii_lowercase (trim s)
lowered s =
    rw (trim-to_ascii_lowercase (trim s), trim-trim s)
      (to_ascii_lowercase-to_ascii_lowercase (trim s))

builtin_statuses :
    (normalize_status (text "todo") ≡ text "todo")
    × (normalize_status (text "doing") ≡ text "doing")
    × (normalize_status (text "done") ≡ text "done")
    × (normalize_status (text "cancelled") ≡ text "cancelled")
unfolding normalize_status to_ascii_lowercase lower_char trim trim_start trim_end is_white text_eq
builtin_statuses = (refl, refl, refl, refl)

normalize_status-alias :
    (t : Text) → to_ascii_lowercase (trim t) ≡ t → normalize_status (status_of t) ≡ status_of t
normalize_status-alias t e = ground (
  arith,
  builtin_statuses.0,
  builtin_statuses.1,
  builtin_statuses.2,
  builtin_statuses.3,
  normalize_status-status_of t,
)

pub normalize_status-normalize_status :
    (s : Text) → normalize_status (normalize_status s) ≡ normalize_status s
normalize_status-normalize_status s =
    rw (normalize_status-status_of s)
      (normalize_status-alias (to_ascii_lowercase (trim s)) (lowered s))

-- A body that is empty or ends in a line feed.
abbrev IsClosed : Text → Type 0
IsClosed s = (split_last s ≡ none) ⊎ ((front : Text) × (split_last s ≡ some (front, lf)))

close_body-cases :
    (s : Text)
    → (close_body s ≡ lf ∷ [])
      ⊎ ((front : Text) × (close_body s ≡ s) × (split_last s ≡ some (front, lf)))
      ⊎ (close_body s ≡ s ++ (lf ∷ []))
unfolding close_body
close_body-cases s = elim (Option-cases (split_last s)) [
  | inl e ↦ inl (rw (e, close_body))
  | inr ((front, c), e) ↦ elim (Bool-cases (eqb c lf)) [
    | inl h ↦ inr (inl (front, ground arith, ground arith))
    | inr h ↦ inr (inr (ground arith))
  ]
]

close_body-IsClosed : (s : Text) → IsClosed (close_body s)
close_body-IsClosed s = elim (close_body-cases s) [
  | inl e ↦ rw e (inr ([], split_last-snoc [] lf))
  | inr (inl (front, e, h)) ↦ rw e (inr (front, h))
  | inr (inr e) ↦ rw e (inr (s, split_last-snoc s lf))
]

IsClosed-tail : (c : ℕ) (cs : Text) → IsClosed (c ∷ cs) → IsClosed cs
unfolding split_last
IsClosed-tail c cs (inl e) = ground arith
IsClosed-tail c cs (inr (front, e)) = elim (Option-cases (split_last cs)) [
  | inl n ↦ inl n
  | inr ((f, d), k) ↦ inr (f, ground arith)
]

trim_line_feeds-IsClosed : (s : Text) → IsClosed s → IsClosed (trim_line_feeds s)
unfolding trim_line_feeds
trim_line_feeds-IsClosed [] h = h
trim_line_feeds-IsClosed (c ∷ cs) h = elim (Bool-cases (eqb c lf)) [
  | inl e ↦ rw e (trim_line_feeds-IsClosed cs (IsClosed-tail c cs h))
  | inr e ↦ rw e h
]

-- No line feed at the head.
abbrev pub Heads : Text → Type 0
Heads [] = Unit
Heads (c ∷ cs) = eqb c lf ≡ false

trim_line_feeds-Heads : (s : Text) → Heads (trim_line_feeds s)
unfolding trim_line_feeds
trim_line_feeds-Heads [] = tt
trim_line_feeds-Heads (c ∷ cs) = elim (Bool-cases (eqb c lf)) [
  | inl e ↦ rw e (trim_line_feeds-Heads cs)
  | inr e ↦ rw e e
]

close_body-same : (c : ℕ) (cs : Text) → IsClosed (c ∷ cs) → close_body (c ∷ cs) ≡ c ∷ cs
unfolding close_body split_last
close_body-same c cs k = ground arith

stored_body-same : (s : Text) → Heads s → IsClosed s → stored_body s ≡ s
unfolding stored_body trim_line_feeds
stored_body-same [] h k = refl
stored_body-same (c ∷ cs) h k = rw (close_body-same c cs k, h)

stored_body-stored_body : (s : Text) → stored_body (stored_body s) ≡ stored_body s
unfolding stored_body
stored_body-stored_body [] = refl
stored_body-stored_body (c ∷ cs) =
    stored_body-same (trim_line_feeds (close_body (c ∷ cs)))
      (trim_line_feeds-Heads (close_body (c ∷ cs)))
      (trim_line_feeds-IsClosed (close_body (c ∷ cs)) (close_body-IsClosed (c ∷ cs)))

pub stored-stored : (t : Task) → stored (stored t) ≡ stored t
stored-stored t = rw (stored_body-stored_body t.body, normalize_status-normalize_status t.status)

split_last-cons : (c : ℕ) (cs : Text) → split_last (c ∷ cs) ≢ none
unfolding split_last
split_last-cons c cs e = ground arith

close_body-cons : (c : ℕ) (cs : Text) → (rest : Text) × (close_body (c ∷ cs) ≡ c ∷ rest)
unfolding close_body
close_body-cons c cs = elim (Option-cases (split_last (c ∷ cs))) [
  | inl e ↦ absurd (split_last-cons c cs e)
  | inr ((front, d), e) ↦ elim (Bool-cases (eqb d lf)) [
    | inl h ↦ (cs, ground arith)
    | inr h ↦ (cs ++ (lf ∷ []), ground arith)
  ]
]

body_part-closed : (c : ℕ) (cs : Text) → body_part (c ∷ cs) ≡ lf ∷ close_body (c ∷ cs)
unfolding body_part
body_part-closed c cs = refl

trim_line_feeds-same : (c : ℕ) (cs : Text) → eqb c lf ≡ false → trim_line_feeds (c ∷ cs) ≡ c ∷ cs
unfolding trim_line_feeds
trim_line_feeds-same c cs h = rw h

stored_body-closed :
    (c : ℕ) (cs : Text) → stored_body (c ∷ cs) ≡ trim_line_feeds (close_body (c ∷ cs))
unfolding stored_body
stored_body-closed c cs = refl

-- Reading a body back and writing it again gives the same text.
pub body_part-stored_body : (s : Text) → Heads s → body_part (stored_body s) ≡ body_part s
body_part-stored_body [] h = unfold stored_body in refl
body_part-stored_body (c ∷ cs) h =
    let (rest, e) = close_body-cons c cs in
    let closed : IsClosed (c ∷ rest) = rw (sym e) (close_body-IsClosed (c ∷ cs)) in
    rw (
      stored_body-closed c cs,
      body_part-closed c cs,
      e,
      trim_line_feeds-same c rest h,
      body_part-closed c rest,
      close_body-same c rest closed,
    )

-- A task that was read from a document.
abbrev pub IsRead : Task → Type 0
IsRead t = (normalize_status t.status ≡ t.status) × Heads t.body

task_of-IsRead : (fm : Frontmatter) (body : Text) → IsRead (task_of fm body)
unfolding task_of
task_of-IsRead fm body = (normalize_status-normalize_status fm.status, trim_line_feeds-Heads body)

pub parse_task-IsRead :
    (yaml : Yaml Frontmatter) (doc : Text) (t : Task) → parse_task yaml doc ≡ ok t → IsRead t
unfolding parse_task
parse_task-IsRead yaml doc t e = elim (Option-cases (split_frontmatter doc)) [
  | inl h ↦ absurd (ground arith)
  | inr (parts, h) ↦ elim (Option-cases (yaml.from_str (parts.0))) [
    | inl k ↦ absurd (ground arith)
    | inr (fm, k) ↦
        let same : t ≡ task_of fm (parts.1) = ground arith in rw same (task_of-IsRead fm (parts.1))
  ]
]
