-- ===== src/Backup/Retention/Laws.antt =====
-- crates/mgmt-backup/src/retention.rs: what a plan keeps and what it drops.
use mgmtui.Base.{
  ◌∙◌, All-map, ◌↔◌, ◌++◌, ℕ, ◌+◌, ◌*◌, ◌≤◌, ◌<◌, max, Text, true, false, ◌≡◌, ◌≢◌, ◌⊎◌, arith,
  Option, none, some, List, [], ◌∷◌, length, All, In, refl,
}
use mgmtui.Base.Sort.{
  sort_by-first, In-sort_by, sort_by, length-sort_by, sort_by-All, text_le_total, text_le_trans,
}
use mgmtui.Domain.Instant.{Instant, day}
use mgmtui.Backup.Retention.{
  RetentionPolicy, SnapshotMeta, newest_first, cutoff, within_age, doomed_from, plan_prune,
}

newest_first_total : (a b : SnapshotMeta) → (newest_first a b ≡ true) ⊎ (newest_first b a ≡ true)
unfolding newest_first
newest_first_total a b = ground (arith, text_le_total a.name b.name)

newest_first_trans :
    (a b c : SnapshotMeta)
    → newest_first a b ≡ true
    → newest_first b c ≡ true
    → newest_first a c ≡ true
unfolding newest_first
newest_first_trans a b c h k = ground (arith, text_le_trans a.name b.name c.name)

-- Planning panics exactly when the age limit reaches back before the first instant.
pub plan_prune-eq-none :
    (snaps : List SnapshotMeta) (policy : RetentionPolicy) (now : Instant)
    → (plan_prune snaps policy now ≡ none)
      ↔ ((d : ℕ) × (policy.keep_days ≡ some d) × (now < d * day))
unfolding plan_prune
plan_prune-eq-none snaps policy now = ground arith

plan_prune-eq-some :
    (snaps : List SnapshotMeta) (policy : RetentionPolicy) (now : Instant) (doomed : List Text)
    → plan_prune snaps policy now ≡ some doomed
    → (cut : Option Instant) × (cutoff policy.keep_days now ≡ some cut)
      × (doomed ≡ doomed_from 0 (max policy.keep_last 1) cut (sort_by newest_first snaps))
unfolding plan_prune
plan_prune-eq-some snaps policy now doomed e = ground arith

module _ (keep_last : ℕ) (cut : Option Instant) where
  doomed_from-length :
      (idx : ℕ) (rest : List SnapshotMeta)
      → 0 < keep_last
      → length rest + idx ≤ length (doomed_from idx keep_last cut rest) + max keep_last idx
  unfolding doomed_from
  doomed_from-length idx [] h = omega arith
  doomed_from-length idx (s ∷ rest) h = ground (arith, doomed_from-length (idx + 1) rest h)

  doomed_from-All :
      (P : Text → Type 0) (idx : ℕ) (rest : List SnapshotMeta)
      → All (λ s. P s.name) rest
      → All P (doomed_from idx keep_last cut rest)
  unfolding doomed_from
  doomed_from-All P idx [] h = tt
  doomed_from-All P idx (s ∷ rest) h = ground (arith, doomed_from-All P (idx + 1) rest h.1)

  doomed_from-expired :
      (s : SnapshotMeta) (idx : ℕ) (rest : List SnapshotMeta)
      → 0 < idx
      → within_age cut s ≡ false
      → In s rest
      → In s.name (doomed_from idx keep_last cut rest)
  unfolding doomed_from
  doomed_from-expired s idx [] h e m = m
  doomed_from-expired s idx (r ∷ rest) h e m = ground (arith, doomed_from-expired s (idx + 1) rest)

module _ (policy : RetentionPolicy) (now : Instant) where
  -- Where planning does not panic, at most `keep_last` snapshots survive, or one if that is 0.
  pub plan_prune-length :
      (snaps : List SnapshotMeta) (doomed : List Text)
      → plan_prune snaps policy now ≡ some doomed
      → length snaps ≤ length doomed + max policy.keep_last 1
  plan_prune-length snaps doomed e =
      let (cut, _, same) = plan_prune-eq-some snaps policy now doomed e in
      rw same (
        omega (
          arith,
          length-sort_by newest_first snaps,
          doomed_from-length (max policy.keep_last 1) cut 0 (sort_by newest_first snaps),
        ))

  module _ (s : SnapshotMeta) (xs ys : List SnapshotMeta)
      (newest : All (λ m. (m.created_at < s.created_at) × (m.name ≢ s.name)) (xs ++ ys))
      (doomed : List Text) (planned : plan_prune (xs ++ (s ∷ ys)) policy now ≡ some doomed) where
    leads : All (λ m. (newest_first s m ≡ true) × (newest_first m s ≡ false)) (xs ++ ys)
    unfolding newest_first
    leads = All-map _ _ (λ m h. ground arith) (xs ++ ys) newest

    tail_plan :
        (cut : Option Instant) × (cutoff policy.keep_days now ≡ some cut)
        × (doomed ≡ doomed_from 1 (max policy.keep_last 1) cut (sort_by newest_first (xs ++ ys)))
    tail_plan =
        let (cut, at, same) = plan_prune-eq-some (xs ++ (s ∷ ys)) policy now doomed planned in
        (cut, at, same ∙ rw (sort_by-first newest_first s xs ys leads) (unfold doomed_from in refl))

    -- If one snapshot is newer than all others, and its name is none of theirs, then no plan drops its
    -- name, wherever it stands and whatever the policy says.
    pub plan_prune-newest : All (λ n. n ≢ s.name) doomed
    plan_prune-newest =
        let (cut, _, same) = tail_plan in
        rw same (
          doomed_from-All _ cut (λ n. n ≢ s.name) 1 (sort_by newest_first (xs ++ ys))
            (sort_by-All newest_first (λ r. r.name ≢ s.name) (xs ++ ys)
              (All-map _ _ (λ m h. h.1) (xs ++ ys) newest)))

    -- If one snapshot is newer than all others, and its name is none of theirs, then every plan under a
    -- policy with an age limit drops each other snapshot that is older than the limit.
    pub plan_prune-expired :
        (r : SnapshotMeta) (d : ℕ)
        → In r (xs ++ ys)
        → policy.keep_days ≡ some d
        → r.created_at + d * day < now
        → In r.name doomed
    plan_prune-expired r d m limit old =
        let (cut, at, same) = tail_plan in
        rw same (
          doomed_from-expired _ cut r 1 (sort_by newest_first (xs ++ ys)) (omega arith)
            (unfold cutoff within_age in ground arith) (In-sort_by newest_first r (xs ++ ys) m))
