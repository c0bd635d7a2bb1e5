-- ===== src/Store/Vault/Laws.antt =====
-- crates/mgmt-store/src/vault.rs: what is loaded after a task was stored.
use mgmtui.Base.{
  ◌≢◌, ℕ, Text, text, text_eq, ◌==◌, ==-same, Bool, true, some, List, [], ◌∷◌, ◌++◌, ◌≡◌, refl,
  arith, keep, In, inl, inr, eqb, Bool-cases, if◌then◌else◌,
}
use mgmtui.Base.Chars.{
  Lacks, split, split-Lacks, eq_ignore_ascii_case, to_ascii_lowercase, lower_char,
}
use mgmtui.Base.Sort.{In-sort_by}
use mgmtui.Base.Result.{ok, err, ◌>>=◌}
use mgmtui.Domain.Task.{Task}
use mgmtui.Markdown.{Yaml, Frontmatter, parse_task, serialize_task, frontmatter_of}
use mgmtui.Markdown.RoundTrip.{ReadsBack, stored, parse_task-stored}
use mgmtui.Store.Files.{Dir, read, write, read-write}
use mgmtui.Store.Paths.{safe_stem, is_stem_char, task_file, task_file-Lacks}
use mgmtui.Store.Vault.{
  last_or, has_stem, has_extension, path_le, collect_files, load_files, load_all, upsert,
}

split-cons : (sep : ℕ) (s : Text) → (p : Text) × (ps : List Text) × (split sep s ≡ p ∷ ps)
unfolding split
split-cons sep [] = ([], [], refl)
split-cons sep (c ∷ s) =
    let (p, ps, e) = split-cons sep s in
    elim (Bool-cases (eqb c sep)) [
      | inl h ↦ ([], split sep s, ground arith)
      | inr h ↦ (c ∷ p, ps, ground arith)
    ]

split-snoc : (sep : ℕ) (s t : Text) → split sep (s ++ (sep ∷ t)) ≡ split sep s ++ split sep t
unfolding split
split-snoc sep [] t = ground arith
split-snoc sep (c ∷ s) t = let (p, ps, e) = split-cons sep s in ground (arith, split-snoc sep s t)

split-one : (sep : ℕ) (s p : Text) → split sep s ≡ p ∷ [] → p ≡ s
unfolding split
split-one sep [] p h = ground arith
split-one sep (c ∷ s) p h = let (q, qs, e) = split-cons sep s in ground (arith, split-one sep s q)

has_stem-snoc : (s t : Text) → s ≢ [] → has_stem (split b'.' s ++ (t ∷ [])) ≡ true
has_stem-snoc s t h =
    let (p, ps, e) = split-cons b'.' s in
    rw e (
      elim ps as (λ qs. split b'.' s ≡ p ∷ qs → has_stem (p ∷ (qs ++ (t ∷ []))) ≡ true) [
        | [] ↦ λ k. ground (arith, split-one b'.' s p)
        | q ∷ [] ↦ λ k. refl
        | q ∷ r ∷ rs ↦ λ k. refl
      ]
        e)

last_or-snoc : (d t : Text) (xs : List Text) → last_or d (xs ++ (t ∷ [])) ≡ t
last_or-snoc d t [] = refl
last_or-snoc d t (x ∷ xs) = last_or-snoc x t xs

safe_stem-ne-nil : (uid : Text) → safe_stem uid ≢ []
unfolding safe_stem
safe_stem-ne-nil [] = cc
safe_stem-ne-nil (c ∷ cs) = cc

md_parts : split b'.' (text "md") ≡ text "md" ∷ []
md_parts = unfold split in refl

-- A name in the directory itself has the extension, if it ends in it and is longer.
pub has_extension-snoc :
    (s : Text)
    → s ≢ []
    → Lacks b'/' (s ++ text ".md")
    → has_extension (text "md") (s ++ text ".md") ≡ true
unfolding has_extension eq_ignore_ascii_case to_ascii_lowercase lower_char text_eq
has_extension-snoc s h l = rw (
  split-Lacks b'/' (s ++ text ".md") l,
  split-snoc b'.' s (text "md"),
  md_parts,
  has_stem-snoc s (text "md") h,
  last_or-snoc [] (text "md") (split b'.' s),
)

pub has_extension-task_file : (uid : Text) → has_extension (text "md") (task_file uid) ≡ true
has_extension-task_file uid =
    has_extension-snoc (safe_stem uid) (safe_stem-ne-nil uid)
      (task_file-Lacks b'/' uid (unfold is_stem_char in refl))

read-In : (dir : Dir) (name v : Text) → read dir name ≡ some v → In (name, v) dir
unfolding read
read-In [] name v e = ground arith
read-In ((k, w) ∷ dir) name v e = ground (arith, read-In dir name v)

In-keep :
    (p : Text × Text → Bool) (a : Text × Text) (xs : List (Text × Text))
    → In a xs
    → p a ≡ true
    → In a (keep p xs)
In-keep p a [] m h = m
In-keep p a (x ∷ xs) m h = ground (arith, In-keep p a xs)

module _ (yaml : Yaml Frontmatter) where
  load_files-In :
      (files : List (Text × Text)) (path text : Text) (task : Task)
      → In (path, text) files
      → parse_task yaml text ≡ ok task
      → In task (load_files yaml files)
  unfolding load_files
  load_files-In [] path text task m e = m
  load_files-In ((p, s) ∷ files) path text task m e =
      ground (arith, load_files-In files path text task)

  -- A task file of the directory is loaded.
  pub load_all-read :
      (root : Dir) (uid doc : Text) (task : Task)
      → read root (task_file uid) ≡ some doc
      → parse_task yaml doc ≡ ok task
      → In task (load_all yaml root)
  unfolding load_all collect_files
  load_all-read root uid doc task r e =
      load_files-In (collect_files root (text "md")) (task_file uid) doc task
        (In-sort_by path_le (task_file uid, doc) _
          (In-keep _ (task_file uid, doc) root (read-In root (task_file uid) doc r)
            (has_extension-task_file uid)))
        e

  pub upsert-eq-ok :
      (root root' : Dir) (t : Task)
      → upsert yaml root t ≡ ok root'
      → (doc : Text) × (serialize_task yaml t ≡ ok doc) × (root' ≡ write root (task_file t.uid) doc)
  unfolding upsert
  upsert-eq-ok root root' t w =
      elim (serialize_task yaml t)
          as (λ r.
            r >>= (λ doc. ok (write root (task_file t.uid) doc)) ≡ ok root'
            → (doc : Text) × (r ≡ ok doc) × (root' ≡ write root (task_file t.uid) doc)) [
              | ok doc ↦ λ h. (doc, refl, ground arith)
              | err e ↦ λ h. absurd (ground arith)
            ]
        w

  -- If the YAML library reads its frontmatter back, a task that is stored is then loaded, with its
  -- status and body as they are read back, and every file but its own reads as before.
  pub load_all-upsert :
      (root : Dir) (t : Task) (other : Text)
      → ReadsBack yaml (frontmatter_of t)
      → (root' : Dir) × (doc : Text) × (upsert yaml root t ≡ ok root')
        × In (stored t) (load_all yaml root')
        × (read root' other ≡ (if task_file t.uid == other then some doc else read root other))
  unfolding upsert
  load_all-upsert root t other y =
      let (doc, h, k) = parse_task-stored yaml t y in
      (
        write root (task_file t.uid) doc,
        doc,
        rw h refl,
        load_all-read (write root (task_file t.uid) doc) t.uid doc (stored t)
            (rw (read-write root (task_file t.uid) doc (task_file t.uid))
              (rw (==-same (task_file t.uid)) refl))
            k,
        read-write root (task_file t.uid) doc other,
      )

  -- What a store that succeeded has done.
  pub upsert-In :
      (root root' : Dir) (t : Task)
      → ReadsBack yaml (frontmatter_of t)
      → upsert yaml root t ≡ ok root'
      → In (stored t) (load_all yaml root')
  upsert-In root root' t y e =
      let (made, doc, h, m, _) = load_all-upsert root t [] y in
      let same : root' ≡ made = ground arith in rw same m
