-- ===== src/Sync/Remote.antt =====
-- crates/mgmt-sync/src/http.rs: the client of the sync server. A request to the server is a call of its
-- handler on the directory that it serves. A network failure and a refused token are not modelled.
use mgmtui.Base.{Text, text, Bool, true, false, Option, none, some, List, [], ◌∷◌}
use mgmtui.Base.Result.{Result, ok, err}
use mgmtui.Core.{Error, conflict, other}
use mgmtui.Store.Files.{Dir}
use mgmtui.Sync.Reconcile.{RemoteRef}
use mgmtui.Web.Sync.{
  ApiError, bad_request, not_found, precondition_failed, Headers, listing, get_item, put_item,
  delete_item,
}

-- `check`, at the statuses that the server sends.
unfoldable pub check : ApiError → Error
check precondition_failed = conflict
check bad_request = other
check not_found = other

-- A listed tag as the planner takes it.
unfoldable pub remote_refs : List (Text × Text) → List RemoteRef
remote_refs [] = []
remote_refs ((href, etag) ∷ items) = record { href = href; etag = some etag } ∷ remote_refs items

-- `If-None-Match: *` for a new item, or else `If-Match` if a tag is known.
unfoldable pub put_headers : Option Text → Bool → Headers
put_headers if_match true = record { if_match = none; if_none_match = some (text "*") }
put_headers if_match false = record { if_match = if_match; if_none_match = none }

-- The extension has no dot here, and one for the handlers of an item.
unfoldable pub list : (Text → Text) → Text → Dir → List RemoteRef
list sha256 ext server = remote_refs (listing sha256 ext server)

module _ (sha256 : Text → Text) (ext : Text) where
  unfoldable pub get : Dir → Text → Result Error (Text × Option Text)
  get server href = elim (get_item sha256 ext server href) [
    | ok (etag, body) ↦ ok (body, some etag)
    | err e ↦ err (check e)
  ]

  -- The server afterwards, and the new tag.
  unfoldable pub put : Dir → Text → Text → Option Text → Bool → Result Error (Dir × Option Text)
  put server href body if_match create =
      elim (put_item sha256 ext server href (put_headers if_match create) body) [
        | ok (server', written) ↦ ok (server', some written.tag)
        | err e ↦ err (check e)
      ]

  unfoldable pub delete : Dir → Text → Option Text → Result Error Dir
  delete server href if_match =
      elim (delete_item sha256 ext server href (put_headers if_match false)) [
        | ok server' ↦ ok server'
        | err e ↦ err (check e)
      ]
