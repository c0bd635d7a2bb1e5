-- ===== src/Tui/Keymap/Laws.antt =====
-- crates/mgmt-tui/src/keymap.rs: which keys delete.
use mgmtui.Base.{arith, false, some, ◌≡◌}
use mgmtui.Tui.Keymap.{
  KeyCode, KeyEvent, Context, Action, calendar_key, board_key, tasks_key, focus_key, input_key,
  global_key, action_for_key,
}

-- A view with a list whose entries can be deleted.
abbrev pub ListsItems : Context → Type 0
ListsItems Context.calendar = Unit
ListsItems Context.board = Unit
ListsItems Context.tasks = Unit
ListsItems Context.focus = ⊥
ListsItems Context.input = ⊥
ListsItems Context.form = ⊥
ListsItems Context.picker = ⊥
ListsItems Context.confirm = ⊥
ListsItems Context.command_palette = ⊥

-- A key deletes only if the view lists items, the key is a `d`, and Control is not held.
pub action_for_key-delete :
    (ctx : Context) (key : KeyEvent)
    → action_for_key ctx key ≡ some Action.delete
    → ListsItems ctx × (key.code ≡ KeyCode.char b'd') × (key.control ≡ false)
unfolding action_for_key global_key calendar_key board_key tasks_key focus_key input_key
action_for_key-delete ctx key e = elim ctx [
  | Context.calendar ↦ ground arith
  | Context.board ↦ ground arith
  | Context.tasks ↦ ground arith
  | Context.focus ↦ ground arith
  | Context.input ↦ ground arith
  | Context.form ↦ ground arith
  | Context.picker ↦ ground arith
  | Context.confirm ↦ ground arith
  | Context.command_palette ↦ ground arith
]
