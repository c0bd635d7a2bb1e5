-- ===== src/Tests/Backup.antt =====
-- Runs of the pruning plan.
use mgmtui.Base.{
  arith, ℕ, ◌*◌, ◌<◌, text, Text, text_eq, refl, ◌≡◌, ◌≢◌, ◌↔◌, some, none, List, [], ◌∷◌, All,
}
use mgmtui.Domain.Instant.{day}
use mgmtui.Backup.Retention.{RetentionPolicy, SnapshotMeta, default_policy, plan_prune}
use mgmtui.Backup.Retention.Laws.{plan_prune-eq-none, plan_prune-newest}
use mgmtui.Base.Sort.{sort_by}

abbrev snap : Text → ℕ → SnapshotMeta
snap name created_at = record { name = name; created_at = created_at; size = 100 }

abbrev policy : RetentionPolicy
policy = record { keep_last = 2; keep_days = some 3 }

abbrev snaps : List SnapshotMeta
snaps = snap (text "b") (9 * day) ∷ snap (text "c") (10 * day) ∷ snap (text "a") (5 * day) ∷ []

planned : plan_prune snaps policy (10 * day) ≡ some (text "a" ∷ [])
unfolding plan_prune sort_by
planned = refl

reaches_back : plan_prune snaps default_policy (10 * day) ≡ none
unfolding plan_prune
reaches_back = refl

plan_prune-eq-none_example :
    (plan_prune snaps default_policy (10 * day) ≡ none)
    ↔ ((d : ℕ) × (default_policy.keep_days ≡ some d) × (10 * day < d * day))
plan_prune-eq-none_example = plan_prune-eq-none snaps default_policy (10 * day)

plan_prune-newest_example : All (λ n. n ≢ text "c") (text "a" ∷ [])
plan_prune-newest_example =
    plan_prune-newest policy (10 * day) (snap (text "c") (10 * day))
      (snap (text "b") (9 * day) ∷ []) (snap (text "a") (5 * day) ∷ [])
      ((ground arith, ground arith), ((ground arith, ground arith), tt)) (text "a" ∷ []) planned
