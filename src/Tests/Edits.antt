-- ===== src/Tests/Edits.antt =====
-- Occurrences of a series deleted and edited, over the calendar store and the library of `Context`.
use mgmtui.Tests.Context.{takes_all, yaml, standup, late_standup, before}
use mgmtui.Base.{text, text_eq, ◌==◌, true, false, none, some, [], ◌∷◌, ◌≡◌, refl}
use mgmtui.Domain.Event.{Event, event}
use mgmtui.Service.Context.{Context, of_series, members, series, record_change}
use mgmtui.Service.Context.{apply, apply_series, stamp_modified}
use mgmtui.Base.Sort.{sort_by}
use mgmtui.Sync.Series.{master_first}
use mgmtui.Base.{All, ◌≢◌}
use mgmtui.Domain.Recurrence.{every, daily}
use mgmtui.Service.Context.Mutations.{master_by_uid}
use mgmtui.Service.Context.Occurrences.{OccurrenceScope, delete_occurrence, occurrences}
use mgmtui.Service.Context.Occurrences.Deleted.{slot, delete_occurrence-this}
use mgmtui.Service.Context.Mutations.{ensure_writable}
use mgmtui.Service.Context.Occurrences.{without}
use mgmtui.Base.{nat_eq, option_eq}
use mgmtui.Base.{In, contains}
use mgmtui.Domain.Event.{overlaps}
use mgmtui.Service.Context.Occurrences.Update.{update_occurrence}
use mgmtui.Service.Context.Occurrences.Updated.{update_occurrence-this}
use mgmtui.Markdown.{Yaml, ProjectFrontmatter}
use mgmtui.Service.Context.Projects.{delete_project}
use mgmtui.Service.Context.Projects.Gone.{IsGone, delete_project-IsGone}
use mgmtui.Domain.Task.{task}
use mgmtui.Domain.Project.{project}
use mgmtui.Markdown.{serialize_project}
use mgmtui.Store.Trash.{trash_project}
use mgmtui.Store.Projects.{delete}
use mgmtui.Store.Vault.{upsert}
use mgmtui.Markdown.{serialize_task}
use mgmtui.Store.Paths.{task_file}
use mgmtui.Tests.Context.{milk}
use mgmtui.Store.Files.{read, write}
use mgmtui.Service.Context.Projects.{unassign_tasks, unassign_events}

-- A standup on every day, and the same with a deleted occurrence.
abbrev daily_standup : Event
daily_standup = record standup { rrule = some (every daily 1) }

abbrev recurring : Context Unit
recurring = record before { event_cache = daily_standup ∷ late_standup ∷ [] }

abbrev fewer : Context Unit
fewer =
    (record_change yaml takes_all
      (of_series (text "e") (record daily_standup { exdates = 100 ∷ [] } ∷ [])) 7 recurring).0

daily_series : series recurring.event_cache (text "e") ≡ daily_standup ∷ late_standup ∷ []
unfolding series sort_by text_eq event master_first
daily_series = refl

drops :
    delete_occurrence yaml takes_all (text "e") 100 OccurrenceScope.this 7 recurring
    ≡ some (fewer, none)
unfolding delete_occurrence record_change series sort_by text_eq event master_first ensure_writable
    without apply stamp_modified apply_series option_eq nat_eq
drops = refl

daily_standup-slot : daily_standup.recurrence_id ≡ none
unfolding event
daily_standup-slot = refl

delete_occurrence-this_example :
    (m : Event) × (master_by_uid fewer.event_cache (text "e") ≡ some m)
    × All (λ e. slot e ≢ 100) (occurrences fewer.event_cache m 0 1000 (standup ∷ []))
    × ((text "e" == text "x") ≡ false
        → members fewer.event_cache (text "x") ≡ members recurring.event_cache (text "x"))
delete_occurrence-this_example =
    delete_occurrence-this yaml takes_all (text "e") 100 7 recurring fewer daily_standup
      (late_standup ∷ []) (standup ∷ []) (every daily 1) 0 1000 (text "x") daily_series
      daily_standup-slot refl (daily_standup-slot, tt) drops

abbrev later_standup : Event
later_standup = record standup { start = 160; finish = 260 }

abbrev edited : Context Unit
edited =
    (record_change yaml takes_all
      (of_series (text "e") (
        daily_standup
        ∷ record later_standup {
          uid = text "e";
          recurrence_id = some 100;
          rrule = none;
          exdates = [];
        }
        ∷ []))
      7 recurring).0

edits :
    update_occurrence
      (λ e from to. [])
      yaml
      takes_all
      (text "e")
      (text "f")
      100
      later_standup
      OccurrenceScope.this
      7
      8
      recurring
    ≡ some (edited, none)
unfolding update_occurrence record_change series sort_by text_eq event master_first ensure_writable
    apply stamp_modified apply_series option_eq nat_eq
edits = refl

not_excluded : contains daily_standup.exdates 100 ≡ false
unfolding event
not_excluded = refl

in_window : overlaps later_standup 200 1000 ≡ true
unfolding overlaps
in_window = refl

update_occurrence-this_example :
    (m : Event) × (master_by_uid edited.event_cache (text "e") ≡ some m)
    × In
        (record later_standup {
          uid = text "e";
          recurrence_id = some 100;
          rrule = none;
          exdates = [];
          modified = some 7;
        })
        (occurrences edited.event_cache m 200 1000 [])
update_occurrence-this_example =
    update_occurrence-this (λ e from to. []) yaml takes_all (text "e") (text "f") 100 7 8
      later_standup recurring edited daily_standup (late_standup ∷ []) [] (every daily 1) 200 1000
      daily_series daily_standup-slot refl not_excluded in_window edits

abbrev project_yaml : Yaml ProjectFrontmatter
project_yaml = record { to_string = λ fm. some (text "p"); from_str = λ s. none }

-- A vault with a task of a project.
abbrev homely : Context Unit
homely = record before {
  task_cache = record milk { project = some (text "home") } ∷ [];
  projects = (task_file (text "home"), text "p") ∷ [];
}

abbrev dropped : Context Unit
dropped = (delete_project yaml project_yaml takes_all (text "home") 7 homely).0

drops_project : delete_project yaml project_yaml takes_all (text "home") 7 homely ≡ (dropped, none)
unfolding delete_project unassign_tasks unassign_events option_eq text_eq task event project
    trash_project serialize_project delete read write upsert serialize_task
drops_project = refl

delete_project-IsGone_example : IsGone yaml project_yaml takes_all (text "home") 7 homely dropped
delete_project-IsGone_example =
    delete_project-IsGone yaml project_yaml takes_all (text "home") 7 homely dropped drops_project
