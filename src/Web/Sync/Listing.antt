-- ===== src/Web/Sync/Listing.antt =====
-- crates/mgmt-web/src/sync.rs: under which tag an item is listed.
use mathlib.Core.Path.{subst}
use mgmtui.Base.{
  ◌≢◌, Text, text, text_eq, ◌==◌, ==-same, Bool, Bool-cases, true, false, some, List, [], ◌∷◌, ◌++◌,
  ◌≡◌, ◌∙◌, refl, arith, keep, All, inl, inr,
}
use mgmtui.Base.Chars.{split, split-Lacks, Lacks, starts_with, strip_prefix}
use mgmtui.Base.Result.{ok}
use mgmtui.Base.Sort.{sort_by, sort_by-All, insert}
use mgmtui.Store.Files.{Dir, read, write}
use mgmtui.Store.Vault.{parts_le, path_le, collect_files, has_extension}
use mgmtui.Store.Vault.Laws.{has_extension-snoc}
use mgmtui.Sync.Reconcile.{remote_by_href}
use mgmtui.Sync.Remote
use mgmtui.Sync.Remote.{remote_refs}
use mgmtui.Web.Sync.{ends_with, item_path, etag, file_name, entries, listing}
use mgmtui.Web.Sync.Paths.{item_path-eq-ok}

parts_le-same : (xs : List Text) → parts_le xs xs ≡ true
parts_le-same [] = refl
parts_le-same (x ∷ xs) = ground (arith, ==-same x, parts_le-same xs)

read-insert :
    (f : Text × Text) (files : Dir) (name : Text)
    → read (insert path_le f files) name ≡ read (f ∷ files) name
unfolding insert read
read-insert (p, v) [] name = refl
read-insert (p, v) ((q, w) ∷ files) name = elim (Bool-cases (path_le (p, v) (q, w))) [
  | inl e ↦ rw e refl
  | inr e ↦ rw e (ground (arith, read-insert (p, v) files name, parts_le-same (split b'/' p)))
]

-- Sorting the files of a directory does not change what is read.
read-sort_by : (files : Dir) (name : Text) → read (sort_by path_le files) name ≡ read files name
unfolding sort_by read
read-sort_by [] name = refl
read-sort_by ((p, v) ∷ files) name =
    read-insert (p, v) (sort_by path_le files) name ∙ ground (arith, read-sort_by files name)

read-keep :
    (ext : Text) (files : Dir) (name : Text)
    → has_extension ext name ≡ true
    → read (keep (λ f. has_extension ext (f.0)) files) name ≡ read files name
unfolding read
read-keep ext [] name h = refl
read-keep ext ((p, v) ∷ files) name h = ground (arith, read-keep ext files name h)

All-keep :
    (P : Text × Text → Type 0) (p : Text × Text → Bool) (xs : Dir) → All P xs → All P (keep p xs)
All-keep P p [] h = tt
All-keep P p (x ∷ xs) h = elim (Bool-cases (p x)) [
  | inl e ↦ rw e (h.0, All-keep P p xs h.1)
  | inr e ↦ rw e (All-keep P p xs h.1)
]

-- No file in a subdirectory has the name.
abbrev pub IsAlone : Text → Dir → Type 0
IsAlone href dir = All (λ f. file_name (f.0) ≡ href → (f.0) ≡ href) dir

pub IsAlone-write :
    (dir : Dir) (href body : Text) → IsAlone href dir → IsAlone href (write dir href body)
unfolding write
IsAlone-write [] href body h = (λ e. refl, tt)
IsAlone-write ((k, v) ∷ dir) href body h = elim (Bool-cases (k == href)) [
  | inl e ↦ rw e (λ n. refl, h.1)
  | inr e ↦ rw e (h.0, IsAlone-write dir href body h.1)
]

ends_with-split : (e s : Text) → ends_with e s ≡ true → (front : Text) × (s ≡ front ++ e)
unfolding ends_with
ends_with-split e [] h = ([], ground arith)
ends_with-split e (c ∷ cs) h = elim (Bool-cases (e == (c ∷ cs))) [
  | inl k ↦ ([], ground arith)
  | inr k ↦ let (front, split) = ends_with-split e cs (ground arith) in (c ∷ front, ground arith)
]

not_hidden :
    (front href : Text)
    → href ≡ front ++ text ".md"
    → starts_with (text ".") href ≡ false
    → front ≢ []
unfolding starts_with strip_prefix
not_hidden [] href s d e = absurd (ground arith)
not_hidden (c ∷ cs) href s d e = cc

-- A name that the server accepts is that of a file in the directory itself, with the extension.
item_path-has_extension :
    (href : Text)
    → item_path (text ".md") href ≡ ok href
    → (has_extension (text "md") href ≡ true) × (file_name href ≡ href)
unfolding item_path
item_path-has_extension href l =
    let (_, _, flat, _, _, dot) = item_path-eq-ok (text ".md") href href l in
    let ends : ends_with (text ".md") href ≡ true = ground arith in
    let (front, split) = ends_with-split (text ".md") href ends in
    (
      rw split (
          has_extension-snoc front (λ e. not_hidden front href split dot e)
            (subst (Lacks b'/') split flat)),
      rw (split-Lacks b'/' href flat) refl,
    )

module _ (sha256 : Text → Text) where
  entries-read :
      (files : Dir) (href body : Text)
      → IsAlone href files
      → file_name href ≡ href
      → read files href ≡ some body
      → remote_by_href (remote_refs (entries sha256 files)) href
        ≡ some (record { href = href; etag = some (etag sha256 body) })
  unfolding remote_refs read
  entries-read [] href body a n r = absurd (ground arith)
  entries-read ((p, v) ∷ files) href body a n r = elim (Bool-cases (p == href)) [
    | inl e ↦
        let same : p ≡ href = ground arith in
        let name : file_name p ≡ href = rw same n in rw name (ground (arith, ==-same href))
    | inr e ↦ elim (Bool-cases (file_name p == href)) [
      | inl k ↦ absurd (ground (arith, a.0))
      | inr k ↦ rw k (entries-read files href body a.1 n (ground arith))
    ]
  ]

  -- A file that the server accepts under its name is listed under its tag, unless a subdirectory has a
  -- file of that name.
  pub remote_by_href-list :
      (server : Dir) (href body : Text)
      → item_path (text ".md") href ≡ ok href
      → IsAlone href server
      → read server href ≡ some body
      → remote_by_href (Remote.list sha256 (text "md") server) href
        ≡ some (record { href = href; etag = some (etag sha256 body) })
  unfolding Remote.list listing collect_files
  remote_by_href-list server href body l a r =
      let (ext, name) = item_path-has_extension href l in
      entries-read (sort_by path_le (keep (λ f. has_extension (text "md") (f.0)) server)) href body
        (sort_by-All path_le _ _ (All-keep _ _ server a)) name
        (read-sort_by (keep (λ f. has_extension (text "md") (f.0)) server) href
          ∙ (read-keep (text "md") server href ext ∙ r))
