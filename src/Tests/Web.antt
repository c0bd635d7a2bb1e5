-- ===== src/Tests/Web.antt =====
-- Runs of the sync server over a directory of two files, with a digest that is the contents.
use mgmtui.Base.{Text, text, text_eq, ◌≡◌, ◌≢◌, ◌↔◌, ◌⊎◌, refl, false, none, some, [], ◌∷◌, ◌++◌}
use mgmtui.Base.Result.{ok, err}
use mgmtui.Base.Chars.{starts_with, has_substring}
use mgmtui.Ical.Parser.{quote, trim_quotes, trim_quotes_start, trim_quotes_end}
use mgmtui.Store.Paths.{task_file, safe_stem, is_stem_char}
use mgmtui.Web.Sync.{
  bad_request, precondition_failed, ends_with, safe_component, item_path, etags_equal, wants_new,
  matches_current, Written, etag, serve_file, write_item, remove_item, get_item, put_item,
  delete_item,
}
use mgmtui.Base.{some}
use mgmtui.Base.Chars.{trim}
use mgmtui.Ical.Parser.{trim_quotes}
use mgmtui.Web.Sync.{etag}
use mgmtui.Store.Files.{Dir, read, write, remove_file}
use mgmtui.Web.Sync.Updates.{if_current, put_item-eq-refused, put_item-put_item}
use mgmtui.Web.Sync.Paths.{item_path-task_file}

abbrev digest : Text → Text
digest body = body

abbrev md : Text
md = text ".md"

abbrev dir : Dir
dir = (text "a.md", text "old") ∷ (text "b.md", text "b") ∷ []

abbrev tagged : Text → Text
tagged body = quote ∷ (body ++ (quote ∷ []))

abbrev dir_new : Dir
dir_new = (text "a.md", text "new") ∷ (text "b.md", text "b") ∷ []

abbrev updated : Written
updated = record { created = false; tag = tagged (text "new") }

written :
    put_item digest md dir (text "a.md") (if_current (tagged (text "old"))) (text "new")
    ≡ ok (dir_new, updated)
unfolding put_item write_item item_path safe_component text_eq has_substring ends_with read
    wants_new matches_current etags_equal trim_quotes trim_quotes_end trim_quotes_start etag write
written = refl

deleted :
    delete_item digest md dir (text "a.md") (if_current (tagged (text "old")))
    ≡ ok ((text "b.md", text "b") ∷ [])
unfolding delete_item remove_item item_path safe_component text_eq has_substring ends_with read
    matches_current etags_equal trim_quotes trim_quotes_end trim_quotes_start etag remove_file
deleted = refl

served : get_item digest md dir (text "a.md") ≡ ok (tagged (text "old"), text "old")
unfolding get_item serve_file item_path safe_component text_eq has_substring ends_with read etag
served = refl

outside : item_path md (text "../x.md") ≡ err bad_request
unfolding item_path safe_component text_eq has_substring
outside = refl

legal : item_path md (text "a.md") ≡ ok (text "a.md")
unfolding item_path safe_component text_eq has_substring ends_with
legal = refl

-- Two uids share a file.
same_file : task_file (text "a/b") ≡ task_file (text "a_b")
unfolding safe_stem is_stem_char
same_file = refl

put_item-eq-refused_example :
    (put_item digest md dir (text "a.md") (if_current (text "x")) (text "new")
      ≡ err precondition_failed)
    ↔ ((item_path md (text "a.md") ≡ ok (text "a.md"))
        × (((v : Text) × (old : Text) × (none ≡ some v)
              × (trim v ≡ text "*")
              × (read dir (text "a.md") ≡ some old))
            ⊎ ((want : Text) × (some (text "x") ≡ some want)
                × ((read dir (text "a.md") ≡ none)
                    ⊎ ((old : Text) × (read dir (text "a.md") ≡ some old)
                        × (trim_quotes (etag digest old) ≢ trim_quotes want))))))
put_item-eq-refused_example =
    put_item-eq-refused digest md dir (text "a.md") (if_current (text "x")) (text "new")

put_item-put_item_example :
    put_item digest md dir_new (text "a.md") (if_current (tagged (text "old"))) (text "mine")
    ≡ err precondition_failed
unfolding etags_equal etag trim_quotes trim_quotes_start trim_quotes_end text_eq
put_item-put_item_example =
    put_item-put_item digest md dir (text "a.md") (tagged (text "old")) (text "new") (text "mine")
      dir_new updated refl written

item_path-task_file_example :
    (item_path md (task_file (text "a..b")) ≡ ok (task_file (text "a..b"))) ↔ (
      (has_substring (text "..") (task_file (text "a..b")) ≡ false)
      × (starts_with (text ".") (task_file (text "a..b")) ≡ false))
item_path-task_file_example = item_path-task_file (text "a..b")
