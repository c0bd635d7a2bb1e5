-- ===== src/Web/Sync/Paths.antt =====
-- crates/mgmt-web/src/sync.rs and crates/mgmt-store/src/paths.rs: which names the server accepts, and
-- whether a task's file is one of them.
use mgmtui.Base.{
  ℕ, Text, text, text_eq, ==-same, ◌≡◌, ◌≢◌, ◌↔◌, refl, arith, true, false, [], ◌∷◌, ◌++◌,
}
use mgmtui.Base.Result.{ok}
use mgmtui.Base.Chars.{Lacks, starts_with, has_substring, strip_prefix}
use mgmtui.Store.Paths.{task_file-Lacks, is_stem_char, safe_stem, task_file}
use mgmtui.Web.Sync.{ends_with, safe_component, item_path}

has_substring-one : (c : ℕ) (s : Text) → (has_substring (c ∷ []) s ≡ false) ↔ Lacks c s
unfolding has_substring starts_with strip_prefix
has_substring-one c [] = ground arith
has_substring-one c (x ∷ s) = ground (arith, has_substring-one c s)

-- A name that the server accepts is not empty, holds no separator and no two dots in a row, and does
-- not start with a dot, so it stays in its directory.
pub item_path-eq-ok :
    (ext file name : Text)
    → item_path ext file ≡ ok name
    → (name ≡ file)
      × (name ≢ [])
      × Lacks b'/' name
      × Lacks 92 name
      × (has_substring (text "..") name ≡ false)
      × (starts_with (text ".") name ≡ false)
unfolding item_path safe_component
item_path-eq-ok ext file name e =
    ground (arith, has_substring-one b'/' file, has_substring-one 92 file)

ends_with-append : (e s : Text) → ends_with e (s ++ e) ≡ true
unfolding ends_with
ends_with-append [] [] = ==-same {A = Text} []
ends_with-append (c ∷ cs) [] = rw (==-same (c ∷ cs)) refl
ends_with-append e (x ∷ s) = ground (arith, ends_with-append e s)

append-ne-nil : (xs : Text) (c : ℕ) (ys : Text) → xs ++ (c ∷ ys) ≢ []
append-ne-nil [] c ys e = cc
append-ne-nil (x ∷ xs) c ys e = cc

-- The server accepts a task's file under its own name exactly when the name has no two dots in a row
-- and does not start with a dot.
pub item_path-task_file :
    (uid : Text)
    → (item_path (text ".md") (task_file uid) ≡ ok (task_file uid)) ↔ (
        (has_substring (text "..") (task_file uid) ≡ false)
        × (starts_with (text ".") (task_file uid) ≡ false))
unfolding item_path safe_component
item_path-task_file uid =
    let slash =
      (has_substring-one b'/' (task_file uid)).1
        (task_file-Lacks b'/' uid (unfold is_stem_char in refl)) in
    let back =
      (has_substring-one 92 (task_file uid)).1
        (task_file-Lacks 92 uid (unfold is_stem_char in refl)) in
    ground (
      arith,
      slash,
      back,
      ends_with-append (text ".md") (safe_stem uid),
      append-ne-nil (safe_stem uid) b'.' (text "md"),
    )
