-- ===== src/Sync/Driver/Settled.antt =====
-- crates/mgmt-sync/src/http.rs: what an upload and a download leave behind.
use mgmtui.Store.Vault.{load_all}
use mgmtui.Base.{
  ==-same, ◌∙◌, In, inl, inr, sym, refl, none, text, List, Text, text_eq, option_eq, Bool, Option,
  some, [], ◌≡◌, arith,
}
use mgmtui.Base.Result.{Result-cases, ok}
use mgmtui.Domain.Task.{Task}
use mgmtui.Markdown.{parse_task, Yaml, Frontmatter, serialize_task, frontmatter_of, document}
use mgmtui.Markdown.RoundTrip.{ReadsBack, stored}
use mgmtui.Markdown.Settled.{IsRead, body_part-stored_body}
use mgmtui.Store.Files.{read-write, Dir, read, write}
use mgmtui.Sync.Reconcile.{plan_local_item, base_by_href}
use mgmtui.Sync.Reconcile.Settled.{plan_local_item-eq-nil, IsSettled}
use mgmtui.Store.Vault
use mgmtui.Store.Vault.Laws.{upsert-In}
use mgmtui.Markdown.Settled.{parse_task-IsRead}
use mgmtui.Sync.Snapshot.Prepare.{base_by_href-upsert}
use mgmtui.Sync.Snapshot.{upsert}
use mgmtui.Sync.Remote
use mgmtui.Sync.Remote.{remote_refs}
use mgmtui.Sync.Driver.{
  store_task, take_remote, State, stamp_task, BaseRef, local_item, push, with_sync, clean_body,
}
use mgmtui.Web.Sync.Listing.{IsAlone, IsAlone-write, remote_by_href-list}
use mgmtui.Web.Sync.{item_path, etag, put_item, get_item, write_item, serve_file}

module _ (sha256 : Text → Text) (ext : Text) where
  pub put-eq-ok :
      (server : Dir) (href body : Text) (if_match : Option Text) (create : Bool) (server' : Dir)
      (tag : Option Text)
      → Remote.put sha256 ext server href body if_match create ≡ ok (server', tag)
      → (item_path ext href ≡ ok href)
        × (server' ≡ write server href body)
        × (tag ≡ some (etag sha256 body))
  unfolding Remote.put put_item item_path write_item
  put-eq-ok server href body if_match create server' tag e = ground arith

  pub get-eq-ok :
      (server : Dir) (href body : Text) (tag : Option Text)
      → Remote.get sha256 ext server href ≡ ok (body, tag)
      → (item_path ext href ≡ ok href)
        × (read server href ≡ some body)
        × (tag ≡ some (etag sha256 body))
  unfolding Remote.get get_item item_path serve_file
  get-eq-ok server href body tag e = ground arith

-- The entry that a step leaves for an item.
abbrev pub entry : Text → Text → Text → Option Text → BaseRef
entry uid href hash tag = record { uid = uid; href = href; remote_etag = tag; local_hash = hash }

module _ (yaml : Yaml Frontmatter) (sha256 : Text → Text) where
  -- The copy that is stored of a task has the clean body of the task.
  clean_body-stored :
      (t : Task) (href : Text) (tag : Option Text)
      → IsRead t
      → clean_body yaml sha256 (stored (with_sync t href tag)) ≡ clean_body yaml sha256 t
  unfolding clean_body serialize_task document frontmatter_of
  clean_body-stored t href tag h = rw (h.0, body_part-stored_body t.body h.1)

  -- A stored copy that carries the tag of the file on the server, with a base entry of the same tag and
  -- the hash of the copy's clean body, has nothing to do.
  agreed :
      (server : Dir) (base old : List BaseRef) (t : Task) (uid href body clean : Text)
      (tag : Option Text)
      → item_path (text ".md") href ≡ ok href
      → IsAlone href server
      → read server href ≡ some body
      → tag ≡ some (etag sha256 body)
      → base ≡ upsert (entry uid href (sha256 clean) tag) old
      → plan_local_item base
          (Remote.list sha256 (text "md") server)
          (local_item yaml sha256 (stored (with_sync t href tag)) clean)
        ≡ []
  unfolding local_item
  agreed server base old t uid href body clean tag l a r k b =
      let found : base_by_href base href ≡ some (entry uid href (sha256 clean) tag) = rw b (
        rw (base_by_href-upsert (entry uid href (sha256 clean) tag) old href)
          (rw (==-same href) refl)) in
      let settled : IsSettled base (Remote.list sha256 (text "md") server)
          (local_item yaml sha256 (stored (with_sync t href tag)) clean) =
        (
          href,
          record { href = href; etag = some (etag sha256 body) },
          refl,
          remote_by_href-list sha256 server href body l a r,
          rw found (refl, k),
        ) in
      (plan_local_item-eq-nil base (Remote.list sha256 (text "md") server) _).1 settled

  -- An upload that succeeds: the server holds the body, the vault's copy is stamped with the new tag.
  pub push-eq-ok :
      (t : Task) (uid href body : Text) (if_match : Option Text) (create : Bool) (st st' : State)
      → push yaml sha256 t uid href body if_match create st ≡ (st', none)
      → (item_path (text ".md") href ≡ ok href)
        × (st'.server ≡ write st.server href body)
        × (Vault.upsert yaml st.vault (with_sync t href (some (etag sha256 body))) ≡ ok st'.vault)
        × (st'.base ≡ upsert (entry uid href (sha256 body) (some (etag sha256 body))) st.base)
  unfolding push stamp_task
  push-eq-ok t uid href body if_match create st st' e =
      elim (Result-cases (Remote.put sha256 (text ".md") st.server href body if_match create)) [
        | inr (x, h) ↦ absurd (ground arith)
        | inl ((server', tag), h) ↦
            let (l, w, k) =
              put-eq-ok sha256 (text ".md") st.server href body if_match create server' tag h in
            elim (Result-cases (Vault.upsert yaml st.vault (with_sync t href tag))) [
              | inr (x, v) ↦ absurd (ground arith)
              | inl (vault', v) ↦ (l, ground arith, ground arith, ground arith)
            ]
      ]

  -- An upload of a task that was read from its file settles the task: if the YAML library reads its
  -- stamped frontmatter back, no subdirectory of the server's directory has a file of the name, and the
  -- upload succeeds, the task is loaded with the same clean body, and the planner has nothing to do for
  -- it at the server's new listing and the new base.
  pub push-IsSettled :
      (t : Task) (uid href body : Text) (if_match : Option Text) (create : Bool) (st st' : State)
      → IsRead t
      → IsAlone href st.server
      → clean_body yaml sha256 t ≡ ok body
      → ReadsBack yaml (frontmatter_of (with_sync t href (some (etag sha256 body))))
      → push yaml sha256 t uid href body if_match create st ≡ (st', none)
      → (t' : Task) × In t' (load_all yaml st'.vault)
        × (t'.uid ≡ t.uid)
        × (clean_body yaml sha256 t' ≡ ok body)
        × (plan_local_item st'.base
              (Remote.list sha256 (text "md") st'.server)
              (local_item yaml sha256 t' body)
            ≡ [])
  push-IsSettled t uid href body if_match create st st' h a c y e =
      let (l, w, v, b) = push-eq-ok t uid href body if_match create st st' e in
      let tag : Option Text = some (etag sha256 body) in
      (
        stored (with_sync t href tag),
        upsert-In yaml st.vault st'.vault (with_sync t href tag) y v,
        refl,
        clean_body-stored t href tag h ∙ c,
        agreed st'.server st'.base st.base t uid href body body tag l
            (rw w (IsAlone-write st.server href body a))
            (rw w (rw (read-write st.server href body href) (rw (==-same href) refl))) refl b,
      )

  -- A download that succeeds: the parsed task is stored with the tag, at a base entry for its clean body.
  pub take_remote-eq-ok :
      (known : Option Text) (href body : Text) (tag : Option Text) (st st' : State)
      → take_remote yaml sha256 known href body tag st ≡ (st', none)
      → (task : Task) × (clean : Text) × (uid : Text) × (parse_task yaml body ≡ ok task)
        × (clean_body yaml sha256 task ≡ ok clean)
        × (st'.server ≡ st.server)
        × (Vault.upsert yaml st.vault (with_sync task href tag) ≡ ok st'.vault)
        × (st'.base ≡ upsert (entry uid href (sha256 clean) tag) st.base)
  unfolding take_remote store_task
  take_remote-eq-ok known href body tag st st' e = elim (Result-cases (parse_task yaml body)) [
    | inr (x, h) ↦ absurd (ground arith)
    | inl (task, h) ↦ elim (Result-cases (clean_body yaml sha256 task)) [
      | inr (x, c) ↦ absurd (ground arith)
      | inl (clean, c) ↦
          elim (Result-cases (Vault.upsert yaml st.vault (with_sync task href tag))) [
            | inr (x, v) ↦ absurd (ground arith)
            | inl (vault', v) ↦ (
              task,
              clean,
              elim known [ none ↦ task.uid | some uid ↦ uid ],
              h,
              c,
              ground arith,
              ground arith,
              ground arith,
            )
          ]
    ]
  ]

  -- A download settles the task that it brings: if the file is downloaded, is read as a task, whose
  -- stamped frontmatter the YAML library reads back, and is stored, and no subdirectory of the server's
  -- directory has a file of the name, the task is loaded, and the planner has nothing to do for it at
  -- the server's listing and the new base.
  pub take_remote-IsSettled :
      (known : Option Text) (href body : Text) (tag : Option Text) (task : Task) (st st' : State)
      → Remote.get sha256 (text ".md") st.server href ≡ ok (body, tag)
      → IsAlone href st.server
      → parse_task yaml body ≡ ok task
      → ReadsBack yaml (frontmatter_of (with_sync task href tag))
      → take_remote yaml sha256 known href body tag st ≡ (st', none)
      → (t' : Task) × (clean : Text) × In t' (load_all yaml st'.vault)
        × (t'.uid ≡ task.uid)
        × (clean_body yaml sha256 t' ≡ ok clean)
        × (plan_local_item st'.base
              (Remote.list sha256 (text "md") st'.server)
              (local_item yaml sha256 t' clean)
            ≡ [])
  take_remote-IsSettled known href body tag task st st' g a p y e =
      let (l, r, k) = get-eq-ok sha256 (text ".md") st.server href body tag g in
      let (task', clean, uid, p', c, w, v, b) = take_remote-eq-ok known href body tag st st' e in
      let same : task' ≡ task = ground arith in
      let clean_same : clean_body yaml sha256 task ≡ ok clean = rw (sym same) c in
      let stored_at : Vault.upsert yaml st.vault (with_sync task href tag) ≡ ok st'.vault =
        rw (sym same) v in
      (
        stored (with_sync task href tag),
        clean,
        upsert-In yaml st.vault st'.vault (with_sync task href tag) y stored_at,
        refl,
        clean_body-stored task href tag (parse_task-IsRead yaml body task p) ∙ clean_same,
        agreed st'.server st'.base st.base task uid href body clean tag l (rw w a) (rw w r) k b,
      )
