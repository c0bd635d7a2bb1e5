-- ===== src/Tests/Driver.antt =====
-- Runs of the markdown format, the vault and the driver of a sync pass, with a YAML library that knows
-- one block, and a digest that is the contents.
use mgmtui.Sync.Remote.{remote_refs}
use mgmtui.Base.{
  Text, text, text_eq, ◌==◌, true, false, Option, none, some, List, [], ◌∷◌, ◌++◌, ◌≡◌, refl, In,
  if◌then◌else◌,
}
use mgmtui.Base.Chars.{
  split, eq_ignore_ascii_case, lower_char, to_ascii_lowercase, split_last, is_white, trim_end,
  trim_start, trim, has_substring, starts_with, strip_prefix,
}
use mgmtui.Base.Sort.{sort_by}
use mgmtui.Ical.Parser.{trim_quotes, trim_quotes_start, trim_quotes_end}
use mgmtui.Sync.Snapshot.{prepare_base}
use mgmtui.Base.Result.{ok, err}
use mgmtui.Core.{Error}
use mgmtui.Domain.Task.{Task, task}
use mgmtui.Markdown.{
  trim_line_feeds, priority_str, parse_priority, task_of, fence_body, fence, find_fence,
  split_frontmatter, close_body, body_part, document, Yaml, Frontmatter, parse_task, serialize_task,
  frontmatter_of, normalize_status,
}
use mgmtui.Base.{All}
use mgmtui.Markdown.{lf}
use mgmtui.Markdown.RoundTrip.{
  renamed, status_names, terminated, ReadsBack, IsBlock, stored, stored_body,
  parse_task-serialize_task,
}
use mgmtui.Markdown.Settled.{IsRead, stored-stored}
use mgmtui.Store.Files.{Dir, read}
use mgmtui.Store.Paths.{is_stem_char, safe_stem, task_file, safe_stem}
use mgmtui.Store.Vault.{has_extension, collect_files, load_files, load_all, upsert}
use mgmtui.Store.Vault.Laws.{load_all-upsert}
use mgmtui.Sync.Reconcile.{
  plan_sync3, delete_remote, push_update, BaseRef, RemoteRef, SyncOp3, plan_local_item,
}
use mgmtui.Sync.Remote
use mgmtui.Sync.Driver.{
  body_by_uid, local_items, store_task, local_bodies, load, task_by_uid, remote_etag, Local,
  stamp_task, State, with_sync, clean_body, local_item, push, take_remote,
}
use mgmtui.Sync.Driver.Pass.{World, save, start, step, run, sync_tasks_http, planned, prepared}
use mgmtui.Sync.Driver.Settled.{push-IsSettled, take_remote-IsSettled}
use mgmtui.Sync.Driver.Errors.{step-stale, sync_tasks_http-eq-err}
use mgmtui.Web.Sync.{
  wants_new, listing, etags_equal, matches_current, ends_with, safe_component, write_item,
  serve_file, item_path, put_item, get_item, etag,
}

abbrev digest : Text → Text
digest body = body

abbrev yaml_block : Text
yaml_block = text "t" ++ (10 ∷ [])

-- The library writes every frontmatter as the block, and reads it as the one of a task.
abbrev knows : Task → Yaml Frontmatter
knows t = record { to_string = λ fm. some yaml_block; from_str = λ s. some (frontmatter_of t) }

abbrev milk : Task
milk = record (task (text "m") (text "Milk")) { body = text "oat" }

yaml_block-IsBlock : IsBlock yaml_block
yaml_block-IsBlock = (text "t", refl, unfold has_substring starts_with strip_prefix in refl)

read_back : (t : Task) → ReadsBack (knows t) (frontmatter_of t)
read_back t = (yaml_block, refl, refl, yaml_block-IsBlock)

parse_task-serialize_task_example :
    (doc : Text) × (body : Text) × (front : Text) × (serialize_task (knows milk) milk ≡ ok doc)
    × (parse_task (knows milk) doc
        ≡ ok (record milk {
          body = body;
          status = renamed status_names (to_ascii_lowercase (trim milk.status));
        }))
    × All (λ c. c ≡ lf) front
    × (front ++ body ≡ terminated milk.body)
    × (starts_with (lf ∷ []) body ≡ false)
parse_task-serialize_task_example = parse_task-serialize_task (knows milk) milk (read_back milk)

stored-stored_example : stored (stored milk) ≡ stored milk
stored-stored_example = stored-stored milk

load_all-upsert_example :
    (root' : Dir) × (doc : Text) × (upsert (knows milk) [] milk ≡ ok root')
    × In (stored milk) (load_all (knows milk) root')
    × (read root' (text "x.md")
        ≡ (if task_file milk.uid == text "x.md" then some doc else read [] (text "x.md")))
load_all-upsert_example = load_all-upsert (knows milk) [] milk (text "x.md") (read_back milk)

-- The body that is uploaded, and the copies of the task and the library that go with it.
abbrev body : Text
body = text "---" ++ (10 ∷ yaml_block) ++ text "---" ++ (10 ∷ 10 ∷ text "oat") ++ (10 ∷ [])

abbrev milk_href : Text
milk_href = text "m.md"

abbrev synced : Task
synced = with_sync milk milk_href (some (etag digest body))

milk-IsRead : IsRead milk
unfolding task normalize_status text_eq trim trim_start trim_end is_white to_ascii_lowercase
    lower_char
milk-IsRead = (refl, refl)

clean_milk : clean_body (knows synced) digest milk ≡ ok body
unfolding clean_body serialize_task document body_part close_body split_last
clean_milk = refl

abbrev empty : State
empty = start [] [] []

-- The state after the upload, and the one after the download of the same body.
abbrev after : State
after = (push (knows synced) digest milk (text "m") milk_href body none true empty).0

pushed : push (knows synced) digest milk (text "m") milk_href body none true empty ≡ (after, none)
unfolding push stamp_task upsert serialize_task Remote.put Remote.put_headers put_item item_path
    write_item safe_component has_substring starts_with strip_prefix ends_with text_eq read
    matches_current
pushed = refl

push-IsSettled_example :
    (t' : Task) × In t' (load_all (knows synced) after.vault)
    × (t'.uid ≡ milk.uid)
    × (clean_body (knows synced) digest t' ≡ ok body)
    × (plan_local_item after.base
          (Remote.list digest (text "md") after.server)
          (local_item (knows synced) digest t' body)
        ≡ [])
push-IsSettled_example =
    push-IsSettled (knows synced) digest milk (text "m") milk_href body none true empty after
      milk-IsRead tt clean_milk (read_back synced) pushed

abbrev served : State
served = start [] ((milk_href, body) ∷ []) []

abbrev fetched : State
fetched = (take_remote (knows synced) digest none milk_href body (some (etag digest body)) served).0

-- The task as it is read, with its body closed.
abbrev read_milk : Task
read_milk = stored synced

got : Remote.get digest (text ".md") served.server milk_href ≡ ok (body, some (etag digest body))
unfolding Remote.get get_item item_path serve_file safe_component has_substring starts_with
    strip_prefix ends_with text_eq read
got = refl

parsed : parse_task (knows synced) body ≡ ok read_milk
unfolding parse_task split_frontmatter find_fence fence fence_body task_of frontmatter_of
    normalize_status parse_priority priority_str trim_line_feeds stored_body close_body split_last
    task trim trim_start trim_end is_white to_ascii_lowercase lower_char text_eq strip_prefix
parsed = refl

took :
    take_remote (knows synced) digest none milk_href body (some (etag digest body)) served
    ≡ (fetched, none)
unfolding take_remote store_task clean_body serialize_task upsert parse_task split_frontmatter
    find_fence fence fence_body task_of frontmatter_of normalize_status parse_priority priority_str
    trim_line_feeds stored_body close_body split_last task trim trim_start trim_end is_white
    to_ascii_lowercase lower_char text_eq strip_prefix
took = refl

read_milk-ReadsBack :
    ReadsBack
      (knows synced)
      (frontmatter_of (with_sync read_milk milk_href (some (etag digest body))))
unfolding frontmatter_of task normalize_status trim trim_start trim_end is_white to_ascii_lowercase
    lower_char text_eq
read_milk-ReadsBack = (yaml_block, refl, refl, yaml_block-IsBlock)

take_remote-IsSettled_example :
    (t' : Task) × (clean : Text) × In t' (load_all (knows synced) fetched.vault)
    × (t'.uid ≡ read_milk.uid)
    × (clean_body (knows synced) digest t' ≡ ok clean)
    × (plan_local_item fetched.base
          (Remote.list digest (text "md") fetched.server)
          (local_item (knows synced) digest t' clean)
        ≡ [])
take_remote-IsSettled_example =
    take_remote-IsSettled (knows synced) digest none milk_href body (some (etag digest body))
      read_milk served fetched got (λ e. refl, tt) parsed read_milk-ReadsBack took

abbrev listed : List RemoteRef
listed = record { href = milk_href; etag = some (text "old") } ∷ []

legal : item_path (text ".md") milk_href ≡ ok milk_href
unfolding item_path safe_component has_substring starts_with strip_prefix ends_with text_eq
legal = refl

found : task_by_uid ((milk, body) ∷ []) (text "m") ≡ some milk
unfolding task text_eq
found = refl

listed_tag : remote_etag listed milk_href ≡ some (text "old")
unfolding text_eq
listed_tag = refl

changed : etags_equal (etag digest body) (text "old") ≡ false
unfolding etags_equal etag trim_quotes trim_quotes_start trim_quotes_end text_eq
changed = refl

there : read served.server milk_href ≡ some body
unfolding read text_eq
there = refl

step-stale_example :
    (step (knows synced) digest ((milk, body) ∷ []) listed (push_update (text "m") milk_href) served
      ≡ (served, some Error.conflict))
    × (step (knows synced) digest ((milk, body) ∷ []) listed (delete_remote milk_href) served
        ≡ (served, some Error.conflict))
step-stale_example =
    step-stale (knows synced) digest ((milk, body) ∷ []) listed (text "m") milk_href (text "old")
      body milk served legal found listed_tag there changed

-- A task that was never uploaded, while the server has a file of its name.
abbrev vault : Dir
vault = (milk_href, body) ∷ []

abbrev old : Dir
old = (milk_href, text "other") ∷ []

abbrev no_json : Text → Option (List BaseRef)
no_json s = none

abbrev json : List BaseRef → Option Text
json base = some (text "base")

abbrev local_milk : List Local
local_milk = (stored milk, body) ∷ []

loaded : local_bodies (knows milk) digest (load_all (knows milk) vault) ≡ ok local_milk
unfolding local_bodies load_all load_files collect_files has_extension eq_ignore_ascii_case split
    sort_by clean_body serialize_task document body_part parse_task split_frontmatter find_fence
    fence fence_body task_of frontmatter_of normalize_status parse_priority priority_str
    trim_line_feeds stored_body close_body split_last task trim trim_start trim_end is_white
    to_ascii_lowercase lower_char text_eq strip_prefix
loaded = refl

failed :
    sync_tasks_http (knows milk) digest no_json json (vault, old, none)
    ≡ ((vault, old, some (text "base")), err Error.conflict)
unfolding sync_tasks_http load save run step push Remote.list Remote.put Remote.put_headers
    Remote.check put_item item_path write_item safe_component has_substring starts_with ends_with
    read remote_refs listing wants_new local_item local_items prepare_base plan_sync3 body_by_uid
    etag local_bodies load_all load_files collect_files has_extension eq_ignore_ascii_case split
    sort_by clean_body serialize_task document body_part parse_task split_frontmatter find_fence
    fence fence_body task_of frontmatter_of normalize_status parse_priority priority_str
    trim_line_feeds stored_body close_body split_last task trim trim_start trim_end is_white
    to_ascii_lowercase lower_char text_eq strip_prefix safe_stem is_stem_char
failed = refl

abbrev end_world : World
end_world = (vault, old, some (text "base"))

no_base : load no_json none ≡ ok []
unfolding load
no_base = refl

sync_tasks_http-eq-err_example :
    (before : List SyncOp3) × (op : SyncOp3) × (rest : List SyncOp3) × (st1 : State) × (st2 : State)
    × (planned (knows milk) digest local_milk old [] ≡ before ++ (op ∷ rest))
    × (run
          (knows milk)
          digest
          local_milk
          (Remote.list digest (text "md") old)
          before
          (start vault old (prepared (knows milk) digest local_milk old []))
        ≡ (st1, none))
    × (step (knows milk) digest local_milk (Remote.list digest (text "md") old) op st1
        ≡ (st2, some Error.conflict))
    × (end_world ≡ (st2.vault, st2.server, json st2.base))
sync_tasks_http-eq-err_example =
    sync_tasks_http-eq-err (knows milk) digest no_json json vault old none [] local_milk end_world
      Error.conflict no_base loaded (λ base. (text "base", refl)) failed
