-- ===== src/Service/Reminders/Laws.antt =====
-- crates/mgmt-service/src/reminders.rs: when a reminder is reported.
use mgmtui.Base.{
  ◌≤◌, ◌≢◌, ◌⊎◌, In, All-map, ℕ, ◌<◌, Text, text_eq, contains, Bool, true, false, Option, none,
  some, List, [], ◌∷◌, ◌++◌, ◌≡◌, refl, arith, All, All-append, inl, inr, Option-cases,
}
use mgmtui.Base.Int.{ℤ}
use mgmtui.Domain.Instant.{Instant, sub_minutes}
use mgmtui.Domain.Event.{confirmed, tentative, Event, EventStatus, cancelled, Alarm, fire_at}
use mgmtui.Domain.Task.{Task}
use mgmtui.Service.Reminders.{
  task_key, alarm_key, legacy_key, alarm_hit, hit_if, task_hit, ReminderHit, both, task_reminder,
  task_reminders, pending_tasks, window_end, alarm_reminder, alarm_reminders, pending_events,
  pending,
}

pub both-eq-some :
    (xs ys : Option (List ReminderHit)) (hits : List ReminderHit)
    → both xs ys ≡ some hits
    → (front : List ReminderHit) × (back : List ReminderHit) × (xs ≡ some front)
      × (ys ≡ some back)
      × (hits ≡ front ++ back)
both-eq-some none ys hits e = absurd (ground arith)
both-eq-some (some xs) none hits e = absurd (ground arith)
both-eq-some (some xs) (some ys) hits e = (xs, ys, refl, refl, ground arith)

module _ (P : ReminderHit → Type 0) where
  -- A property of all hits, if there is no panic.
  abbrev pub Hits : Option (List ReminderHit) → Type 0
  Hits o = (hits : List ReminderHit) → o ≡ some hits → All P hits

  both-Hits : (xs ys : Option (List ReminderHit)) → Hits xs → Hits ys → Hits (both xs ys)
  both-Hits xs ys h k hits e =
      let (front, back, ex, ey, split) = both-eq-some xs ys hits e in
      rw split (All-append P front back (h front ex) (k back ey))

  some-Hits : (hits : List ReminderHit) → All P hits → Hits (some hits)
  some-Hits hits p found e = let same : found ≡ hits = ground arith in rw same p

  none-Hits : Hits none
  none-Hits hits e = absurd (ground arith)

  hit_if-All : (b : Bool) (h : ReminderHit) → (b ≡ true → P h) → All P (hit_if b h)
  hit_if-All true h p = (p refl, tt)
  hit_if-All false h p = tt

Hits-map :
    (P Q : ReminderHit → Type 0) (f : (h : ReminderHit) → P h → Q h) (o : Option (List ReminderHit))
    → Hits P o
    → Hits Q o
Hits-map P Q f o k hits e = All-map P Q f hits (k hits e)

module _ (now : Instant) (fired : List Text) where
  -- A reminder of a task is due now: it fires no later than now, the task is due after now, and its key
  -- was not reported.
  abbrev pub TaskIsDue : Task → Instant → ℤ → Type 0
  TaskIsDue t due r =
      (fire : Instant) × (t.due ≡ some due)
      × In r t.reminders
      × (sub_minutes due r ≡ some fire)
      × (fire ≤ now)
      × (now < due)
      × (contains fired (task_key t.uid due r) ≡ false)

  -- An alarm is due now: the event is not cancelled, the alarm fires no later than now, its window ends
  -- after now, and neither of its keys was reported.
  abbrev pub AlarmIsDue : Event → Alarm → Instant → Type 0
  AlarmIsDue e a fire =
      (target : Instant) × (e.status ≢ cancelled)
      × In a e.alarms
      × (fire_at a e ≡ some fire)
      × (window_end e fire ≡ some target)
      × (fire ≤ now)
      × (now < target)
      × (contains fired (alarm_key e fire) ≡ false)
      × (contains fired (legacy_key e fire) ≡ false)

  abbrev pub IsOfTask : Task → ReminderHit → Type 0
  IsOfTask t h =
      (due : Instant) × (r : ℤ) × TaskIsDue t due r
      × (h.key ≡ task_key t.uid due r)
      × (h.target ≡ due)

  abbrev pub IsOfEvent : Event → ReminderHit → Type 0
  IsOfEvent e h =
      (a : Alarm) × (fire : Instant) × (d : AlarmIsDue e a fire) × (h.key ≡ alarm_key e fire)
      × (h.target ≡ d.0)

  -- The hit is that of a reminder of one of the tasks, or of an alarm of one of the events, that is due.
  abbrev pub IsDue : List Task → List Event → ReminderHit → Type 0
  IsDue tasks events h =
      ((t : Task) × In t tasks × IsOfTask t h) ⊎ ((e : Event) × In e events × IsOfEvent e h)

  task_reminder-IsOfTask :
      (t : Task) (due : Instant) (r : ℤ)
      → t.due ≡ some due
      → In r t.reminders
      → Hits (IsOfTask t) (task_reminder t due now fired r)
  unfolding task_reminder task_hit
  task_reminder-IsOfTask t due r d m = elim (Option-cases (sub_minutes due r)) [
    | inl e ↦ rw (e, task_reminder) (none-Hits (IsOfTask t))
    | inr (fire, e) ↦
        rw (e, task_reminder)
          (some-Hits (IsOfTask t) _ (
            hit_if-All (IsOfTask t) _ _ (λ k.
              (due, r, (fire, d, m, e, ground arith, ground arith, ground arith), refl, refl))))
  ]

  task_reminders-IsOfTask :
      (t : Task) (due : Instant) (rs : List ℤ)
      → t.due ≡ some due
      → ((r : ℤ) → In r rs → In r t.reminders)
      → Hits (IsOfTask t) (task_reminders t due now fired rs)
  unfolding task_reminders
  task_reminders-IsOfTask t due [] d f = some-Hits (IsOfTask t) [] tt
  task_reminders-IsOfTask t due (r ∷ rs) d f =
      both-Hits (IsOfTask t) _ _ (task_reminder-IsOfTask t due r d (f r (inl refl)))
        (task_reminders-IsOfTask t due rs d (λ x m. f x (inr m)))

  dated-IsOfTask :
      (t : Task) (d : Option Instant)
      → t.due ≡ d
      → Hits
          (IsOfTask t)
          (elim d [ none ↦ some [] | some due ↦ task_reminders t due now fired t.reminders ])
  dated-IsOfTask t none e = some-Hits (IsOfTask t) [] tt
  dated-IsOfTask t (some due) e = task_reminders-IsOfTask t due t.reminders e (λ r m. m)

  abbrev IsOfTasks : List Task → ReminderHit → Type 0
  IsOfTasks ts h = (t : Task) × In t ts × IsOfTask t h

  pending_tasks-IsOfTasks : (ts : List Task) → Hits (IsOfTasks ts) (pending_tasks ts now fired)
  unfolding pending_tasks
  pending_tasks-IsOfTasks [] = some-Hits (IsOfTasks []) [] tt
  pending_tasks-IsOfTasks (t ∷ ts) =
      both-Hits (IsOfTasks (t ∷ ts)) _ _
        (Hits-map (IsOfTask t) (IsOfTasks (t ∷ ts)) (λ h k. (t, inl refl, k)) _
          (dated-IsOfTask t t.due refl))
        (Hits-map (IsOfTasks ts) (IsOfTasks (t ∷ ts)) (λ h k. (k.0, inr (k.1), k.2)) _
          (pending_tasks-IsOfTasks ts))

  module _ (rfc3339 : Instant → Text) (local_time : Instant → ℕ × ℕ) where
    alarm_reminder-IsOfEvent :
        (e : Event) (a : Alarm)
        → e.status ≢ cancelled
        → In a e.alarms
        → Hits (IsOfEvent e) (alarm_reminder rfc3339 local_time e now fired a)
    unfolding alarm_reminder alarm_hit
    alarm_reminder-IsOfEvent e a s m = elim (Option-cases (fire_at a e)) [
      | inl f ↦ rw (f, alarm_reminder) (none-Hits (IsOfEvent e))
      | inr (fire, f) ↦ elim (Option-cases (window_end e fire)) [
        | inl w ↦ rw (f, alarm_reminder) (rw w (none-Hits (IsOfEvent e)))
        | inr (target, w) ↦
            rw (f, alarm_reminder)
              (rw w (
                some-Hits (IsOfEvent e) _ (
                  hit_if-All (IsOfEvent e) _ _ (λ k. (
                    a,
                    fire,
                    (target, s, m, f, w, ground arith, ground arith, ground arith, ground arith),
                    refl,
                    refl,
                  )))))
      ]
    ]

    alarm_reminders-IsOfEvent :
        (e : Event) (rest : List Alarm)
        → e.status ≢ cancelled
        → ((a : Alarm) → In a rest → In a e.alarms)
        → Hits (IsOfEvent e) (alarm_reminders rfc3339 local_time e now fired rest)
    unfolding alarm_reminders
    alarm_reminders-IsOfEvent e [] s f = some-Hits (IsOfEvent e) [] tt
    alarm_reminders-IsOfEvent e (a ∷ rest) s f =
        both-Hits (IsOfEvent e) _ _ (alarm_reminder-IsOfEvent e a s (f a (inl refl)))
          (alarm_reminders-IsOfEvent e rest s (λ x m. f x (inr m)))

    standing-IsOfEvent :
        (e : Event) (status : EventStatus)
        → e.status ≡ status
        → Hits (IsOfEvent e) (elim status [
          | cancelled ↦ some []
          | _ ↦ alarm_reminders rfc3339 local_time e now fired e.alarms
        ])
    standing-IsOfEvent e confirmed s = alarm_reminders-IsOfEvent e e.alarms (rw s cc) (λ a m. m)
    standing-IsOfEvent e tentative s = alarm_reminders-IsOfEvent e e.alarms (rw s cc) (λ a m. m)
    standing-IsOfEvent e cancelled s = some-Hits (IsOfEvent e) [] tt

    abbrev IsOfEvents : List Event → ReminderHit → Type 0
    IsOfEvents es h = (e : Event) × In e es × IsOfEvent e h

    pending_events-IsOfEvents :
        (es : List Event) → Hits (IsOfEvents es) (pending_events rfc3339 local_time es now fired)
    unfolding pending_events
    pending_events-IsOfEvents [] = some-Hits (IsOfEvents []) [] tt
    pending_events-IsOfEvents (e ∷ es) =
        both-Hits (IsOfEvents (e ∷ es)) _ _
          (Hits-map (IsOfEvent e) (IsOfEvents (e ∷ es)) (λ h k. (e, inl refl, k)) _
            (standing-IsOfEvent e e.status refl))
          (Hits-map (IsOfEvents es) (IsOfEvents (e ∷ es)) (λ h k. (k.0, inr (k.1), k.2)) _
            (pending_events-IsOfEvents es))

    -- Every reported reminder is one of a given task, which fires no later than now and whose task is due
    -- after now, or an alarm of a given event that is not cancelled, which fires no later than now and
    -- whose window ends after now. Its key was not reported before, and depends on the task, the due
    -- time and the offset, or on the event and the firing time, only.
    pub pending-IsDue :
        (tasks : List Task) (events : List Event) (hits : List ReminderHit)
        → pending rfc3339 local_time tasks events now fired ≡ some hits
        → All (IsDue tasks events) hits
    unfolding pending
    pending-IsDue tasks events hits e =
        both-Hits (IsDue tasks events) _ _
          (Hits-map (IsOfTasks tasks) (IsDue tasks events) (λ h k. inl k) _
            (pending_tasks-IsOfTasks tasks))
          (Hits-map (IsOfEvents events) (IsDue tasks events) (λ h k. inr k) _
            (pending_events-IsOfEvents events))
          hits e
