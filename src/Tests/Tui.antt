-- ===== src/Tests/Tui.antt =====
-- Keys in their contexts.
use mgmtui.Base.{true, false, some, ◌≡◌, refl}
use mgmtui.Tui.Keymap.{KeyEvent, KeyCode, Context, Action, action_for_key, global_key, tasks_key}
use mgmtui.Tui.Keymap.Laws.{ListsItems, action_for_key-delete}

abbrev d_key : KeyEvent
d_key = record { code = KeyCode.char b'd'; control = false }

deletes : action_for_key Context.tasks d_key ≡ some Action.delete
unfolding action_for_key global_key tasks_key
deletes = refl

scrolls :
    action_for_key Context.tasks (record d_key { control = true }) ≡ some Action.half_page_down
unfolding action_for_key global_key
scrolls = refl

action_for_key-delete_example :
    ListsItems Context.tasks × (d_key.code ≡ KeyCode.char b'd') × (d_key.control ≡ false)
action_for_key-delete_example = action_for_key-delete Context.tasks d_key deletes
