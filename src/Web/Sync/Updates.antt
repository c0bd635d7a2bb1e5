-- ===== src/Web/Sync/Updates.antt =====
-- crates/mgmt-web/src/sync.rs: what the handlers do to a directory, and that an update is not lost.
use mgmtui.Base.{
  Text, text_eq, ◌==◌, ==-same, ◌≡◌, ◌≢◌, ◌↔◌, ◌⊎◌, refl, arith, true, false, none, some,
  if◌then◌else◌,
}
use mgmtui.Base.{text}
use mgmtui.Base.Chars.{trim}
use mgmtui.Base.Result.{ok, err}
use mgmtui.Ical.Parser.{trim_quotes}
use mgmtui.Store.Files.{Dir, read, write, remove_file, read-write, read-remove_file}
use mgmtui.Web.Sync.{
  not_found, precondition_failed, Headers, item_path, etags_equal, wants_new, matches_current,
  Written, etag, current, serve_file, write_item, remove_item, get_item, put_item, delete_item,
}

abbrev pub if_current : Text → Headers
if_current tag = record { if_match = some tag; if_none_match = none }

etags_equal-same : (a : Text) → etags_equal a a ≡ true
unfolding etags_equal
etags_equal-same a = ==-same (trim_quotes a)

module _ (sha256 : Text → Text) (ext : Text) (dir : Dir) (file : Text) where
  put_item-eq-ok :
      (headers : Headers) (body : Text) (dir' : Dir) (w : Written)
      → put_item sha256 ext dir file headers body ≡ ok (dir', w)
      → (item_path ext file ≡ ok file)
        × (dir' ≡ write dir file body)
        × (w.tag ≡ etag sha256 body)
        × (matches_current headers.if_match (current sha256 dir file) ≡ true)
  unfolding put_item write_item item_path current
  put_item-eq-ok headers body dir' w e = ground arith

  -- After a write that was let through, the item is served with the new contents and the tag that was
  -- sent back, and every other file reads as before.
  pub get_item-put_item :
      (headers : Headers) (body other : Text) (dir' : Dir) (w : Written)
      → put_item sha256 ext dir file headers body ≡ ok (dir', w)
      → (get_item sha256 ext dir' file ≡ ok (w.tag, body))
        × (read dir' other ≡ (if file == other then some body else read dir other))
  unfolding get_item serve_file
  get_item-put_item headers body other dir' w e =
      let (legal, same, tag, _) = put_item-eq-ok headers body dir' w e in
      let back = read-write dir file body file in
      (
        rw (legal, same, tag) (rw (back, serve_file) (rw (==-same file) refl)),
        rw same (read-write dir file body other),
      )

  delete_item-eq-ok :
      (headers : Headers) (dir' : Dir)
      → delete_item sha256 ext dir file headers ≡ ok dir'
      → (item_path ext file ≡ ok file) × (dir' ≡ remove_file dir file)
  unfolding delete_item remove_item item_path
  delete_item-eq-ok headers dir' e = ground arith

  -- After a deletion that was let through, the item is not found, and every other file reads as before.
  pub get_item-delete_item :
      (headers : Headers) (other : Text) (dir' : Dir)
      → delete_item sha256 ext dir file headers ≡ ok dir'
      → (get_item sha256 ext dir' file ≡ err not_found)
        × (read dir' other ≡ (if file == other then none else read dir other))
  unfolding get_item serve_file
  get_item-delete_item headers other dir' e =
      let (legal, same) = delete_item-eq-ok headers dir' e in
      (
        rw (legal, same) (rw (read-remove_file dir file file, serve_file) (rw (==-same file) refl)),
        rw same (read-remove_file dir file other),
      )

  -- A write is refused for its conditions exactly when the name is a legal one, and the client sends
  -- `If-None-Match: *` where there is an item, or an `If-Match` where there is none or where the tag of
  -- its contents is another one, quotes aside.
  pub put_item-eq-refused :
      (headers : Headers) (body : Text)
      → (put_item sha256 ext dir file headers body ≡ err precondition_failed) ↔ (
          (item_path ext file ≡ ok file)
          × (((v : Text) × (old : Text) × (headers.if_none_match ≡ some v)
                × (trim v ≡ text "*")
                × (read dir file ≡ some old))
              ⊎ ((want : Text) × (headers.if_match ≡ some want)
                  × ((read dir file ≡ none)
                      ⊎ ((old : Text) × (read dir file ≡ some old)
                          × (trim_quotes (etag sha256 old) ≢ trim_quotes want))))))
  unfolding put_item write_item item_path matches_current wants_new etags_equal
  put_item-eq-refused headers body = ground arith

  -- If two clients have the same tag of an item and one of them writes contents with another tag, the
  -- other one's write under the old tag is refused.
  pub put_item-put_item :
      (tag first second : Text) (dir' : Dir) (w : Written)
      → etags_equal (etag sha256 first) tag ≡ false
      → put_item sha256 ext dir file (if_current tag) first ≡ ok (dir', w)
      → put_item sha256 ext dir' file (if_current tag) second ≡ err precondition_failed
  unfolding put_item write_item wants_new matches_current
  put_item-put_item tag first second dir' w h e =
      let (legal, same, _, _) = put_item-eq-ok (if_current tag) first dir' w e in
      rw (legal, same) (rw (read-write dir file first file, write_item) (rw (==-same file, h) refl))

  get_item-eq-ok :
      (tag body : Text)
      → get_item sha256 ext dir file ≡ ok (tag, body)
      → (item_path ext file ≡ ok file) × (read dir file ≡ some body) × (tag ≡ etag sha256 body)
  unfolding get_item serve_file item_path
  get_item-eq-ok tag body e = ground arith

  -- A client that sends the tag it was served with gets its write through, if nothing has changed.
  pub put_item-get_item :
      (tag body new : Text)
      → get_item sha256 ext dir file ≡ ok (tag, body)
      → (w : Written) × (put_item sha256 ext dir file (if_current tag) new
          ≡ ok (write dir file new, w))
  unfolding put_item write_item wants_new matches_current
  put_item-get_item tag body new e =
      let (legal, found, same) = get_item-eq-ok tag body e in
      (
        record { created = false; tag = etag sha256 new },
        rw (legal, found, write_item) (rw same (rw (etags_equal-same (etag sha256 body)) refl)),
      )
