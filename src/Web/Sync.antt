-- ===== src/Web/Sync.antt =====
-- crates/mgmt-web/src/sync.rs: the server of the native sync protocol. The state is one directory of
-- the user's vault, from file names to contents. A handler runs under the write lock, so it is one step.
-- An I/O error of the file system is not modelled.
pub mod Updates
pub mod Paths
pub mod Listing
use mgmtui.Base.{
  Text, text, text_eq, ◌==◌, Bool, true, false, not, ◌&&◌, ◌||◌, Option, none, some, List, [], ◌∷◌,
  ◌++◌, if◌then◌else◌, find?, keep, any, map,
}
use mgmtui.Store.Files.{Dir, read, write, remove_file}
use mgmtui.Store.Vault.{collect_files, last_or}
use mgmtui.Base.Chars.{split, trim, starts_with, has_substring}
use mgmtui.Base.Result.{Result, ok, err, ◌>>=◌}
use mgmtui.Ical.Parser.{trim_quotes, quote}

-- The status codes of the refusals: 400, 404 and 412.
pub data ApiError : Type 0 where
  bad_request not_found precondition_failed : ApiError

pub record Headers : Type 0 where
  pub if_match : Option Text
  pub if_none_match : Option Text

unfoldable pub ends_with : Text → Text → Bool
ends_with e [] = e == []
ends_with e (c ∷ cs) = e == (c ∷ cs) || ends_with e cs

unfoldable pub safe_component : Text → Bool
safe_component name =
    not (name == [])
    && not (has_substring (text "/") name)
    && not (has_substring (92 ∷ []) name)
    && not (has_substring (text "..") name)
    && not (starts_with (text ".") name)

-- The guard of `task_path` and `event_path`, whose extensions are `.md` and `.ics`.
unfoldable pub item_path : Text → Text → Result ApiError Text
item_path ext file =
    if not (safe_component file) || not (ends_with ext file) then err bad_request else ok file

unfoldable pub etags_equal : Text → Text → Bool
etags_equal a b = trim_quotes a == trim_quotes b

-- `header_has(headers, IF_NONE_MATCH, "*")`
unfoldable pub wants_new : Headers → Bool
wants_new headers = elim headers.if_none_match [ none ↦ false | some v ↦ trim v == text "*" ]

-- The test of `If-Match` against the current contents' tag.
unfoldable pub matches_current : Option Text → Option Text → Bool
matches_current none current = true
matches_current (some want) none = false
matches_current (some want) (some cur) = etags_equal cur want

-- What is sent back for a write: whether the file is new, and its tag.
pub record Written : Type 0 where
  pub created : Bool
  pub tag : Text

-- `Path::file_name`
abbrev pub file_name : Text → Text
file_name path = last_or [] (split b'/' path)

module _ (sha256 : Text → Text) where
  -- `sha256` is the hexadecimal digest of the contents.
  unfoldable pub etag : Text → Text
  etag body = quote ∷ (sha256 body ++ (quote ∷ []))

  unfoldable pub current : Dir → Text → Option Text
  current dir name = elim (read dir name) [ none ↦ none | some body ↦ some (etag body) ]

  abbrev pub entries : List (Text × Text) → List (Text × Text)
  entries [] = []
  entries ((path, body) ∷ files) = (file_name path, etag body) ∷ entries files

  -- The directory's tree is its files by their paths; the files of a subdirectory are listed too, by
  -- their names alone.
  unfoldable pub listing : Text → Dir → List (Text × Text)
  listing ext dir = entries (collect_files dir ext)

  unfoldable pub serve_file : Dir → Text → Result ApiError (Text × Text)
  serve_file dir name = elim (read dir name) [
    | none ↦ err not_found
    | some body ↦ ok (etag body, body)
  ]

  unfoldable pub write_item : Dir → Text → Headers → Text → Result ApiError (Dir × Written)
  write_item dir name headers body = elim (read dir name) [
    | some old ↦
        if wants_new headers
        then err precondition_failed
        else if not (matches_current headers.if_match (some (etag old)))
        then err precondition_failed
        else ok (write dir name body, record { created = false; tag = etag body })
    | none ↦
        if not (matches_current headers.if_match none)
        then err precondition_failed
        else ok (write dir name body, record { created = true; tag = etag body })
  ]

  unfoldable pub remove_item : Dir → Text → Headers → Result ApiError Dir
  remove_item dir name headers = elim (read dir name) [
    | none ↦ err not_found
    | some old ↦
        if not (matches_current headers.if_match (some (etag old)))
        then err precondition_failed
        else ok (remove_file dir name)
  ]

  -- The handlers of one item, for tasks at `.md` and for events at `.ics`.
  unfoldable pub get_item : Text → Dir → Text → Result ApiError (Text × Text)
  get_item ext dir file = do name ← item_path ext file; serve_file dir name

  unfoldable pub put_item : Text → Dir → Text → Headers → Text → Result ApiError (Dir × Written)
  put_item ext dir file headers body = do
    name ← item_path ext file
    write_item dir name headers body

  unfoldable pub delete_item : Text → Dir → Text → Headers → Result ApiError Dir
  delete_item ext dir file headers = do name ← item_path ext file; remove_item dir name headers
