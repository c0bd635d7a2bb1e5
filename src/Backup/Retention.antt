-- ===== src/Backup/Retention.antt =====
-- crates/mgmt-backup/src/retention.rs: the pruning plan.
pub mod Laws
use mgmtui.Base.{
  ℕ, zero, suc, ◌+◌, ◌-◌, ◌*◌, max, Text, Bool, true, false, not, ◌&&◌, ◌||◌, Option, none, some,
  List, [], ◌∷◌, ltb, leb, eqb, if◌then◌else◌,
}
use mgmtui.Base.Sort.{sort_by, text_le}
use mgmtui.Domain.Instant.{Instant, day}

pub record RetentionPolicy : Type 0 where
  pub keep_last : ℕ
  pub keep_days : Option ℕ

abbrev pub default_policy : RetentionPolicy
default_policy = record { keep_last = 14; keep_days = some 180 }

pub record SnapshotMeta : Type 0 where
  pub name : Text
  pub created_at : Instant
  pub size : ℕ

-- `b.created_at.cmp(&a.created_at).then_with(|| a.name.cmp(&b.name))` is not `Greater`.
unfoldable pub newest_first : SnapshotMeta → SnapshotMeta → Bool
newest_first a b =
    if eqb a.created_at b.created_at then text_le a.name b.name else ltb b.created_at a.created_at

-- `now - Duration::days(d)`, which panics before the first instant.
pub cutoff : Option ℕ → Instant → Option (Option Instant)
cutoff none now = some none
cutoff (some d) now = if leb (d * day) now then some (some (now - d * day)) else none

pub within_age : Option Instant → SnapshotMeta → Bool
within_age none s = true
within_age (some cut) s = leb cut s.created_at

-- The loop over the sorted snapshots, from index `idx` on.
pub doomed_from : ℕ → ℕ → Option Instant → List SnapshotMeta → List Text
doomed_from idx keep_last cut [] = []
doomed_from idx keep_last cut (s ∷ rest) =
    let later = doomed_from (idx + 1) keep_last cut rest in
    if eqb idx 0 || (ltb idx keep_last && within_age cut s) then later else s.name ∷ later

-- `none` is the panic of `cutoff`.
unfoldable pub plan_prune : List SnapshotMeta → RetentionPolicy → Instant → Option (List Text)
unfolding cutoff within_age doomed_from newest_first
plan_prune snaps policy now = elim (cutoff policy.keep_days now) [
  | none ↦ none
  | some cut ↦ some (doomed_from 0 (max policy.keep_last 1) cut (sort_by newest_first snaps))
]
