-- ===== src/Tui/Keymap.antt =====
-- crates/mgmt-tui/src/keymap.rs: what a key does in each context. A key is one of the terminal
-- library's key codes with its modifiers, of which the table reads only Control. The arms of a match on
-- a character are a table, whose first entry for the character is taken.
pub mod Laws
use mgmtui.Base.{ℕ, Bool, ◌&&◌, Option, none, some, List, [], ◌∷◌, eqb, if◌then◌else◌}

pub data KeyCode : Type 0 where
  char : ℕ → KeyCode
  tab back_tab enter esc backspace left right up down other : KeyCode

pub record KeyEvent : Type 0 where
  pub code : KeyCode
  pub control : Bool

pub data Context : Type 0 where
  calendar board tasks focus input form picker confirm command_palette : Context

pub data Action : Type 0 where
  quit help open_command_palette next_tab prev_tab undo redo open_trash : Action
  left right up down today half_page_down half_page_up : Action
  start_earlier start_later end_earlier end_later : Action
  move_next move_prev : Action
  toggle_done toggle_visual : Action
  next_pane prev_pane sort_cycle : Action
  edit edit_project cycle_priority : Action
  view_cycle select jump_to_date : Action
  prev_project next_project search : Action
  quick_add delete : Action
  start_pause_timer skip_phase : Action
  input_char : ℕ → Action
  input_backspace input_submit input_cancel : Action

abbrev pub choose : List (ℕ × Action) → ℕ → Option Action
choose [] c = none
choose ((k, a) ∷ arms) c = if eqb c k then some a else choose arms c

-- The characters of each view.
abbrev calendar_chars : List (ℕ × Action)
calendar_chars =
    (b'h', Action.left)
    ∷ (b'l', Action.right)
    ∷ (b'j', Action.down)
    ∷ (b'k', Action.up)
    ∷ (b'H', Action.start_earlier)
    ∷ (b'L', Action.start_later)
    ∷ (b'J', Action.end_later)
    ∷ (b'K', Action.end_earlier)
    ∷ (b't', Action.today)
    ∷ (b'v', Action.view_cycle)
    ∷ (b'a', Action.quick_add)
    ∷ (b'e', Action.edit)
    ∷ (b'p', Action.edit_project)
    ∷ (b'd', Action.delete)
    ∷ (b'/', Action.search)
    ∷ (b' ', Action.toggle_done)
    ∷ (b'g', Action.jump_to_date)
    ∷ []

abbrev board_chars : List (ℕ × Action)
board_chars =
    (b'j', Action.down)
    ∷ (b'k', Action.up)
    ∷ (b'h', Action.left)
    ∷ (b'l', Action.right)
    ∷ (b'H', Action.move_prev)
    ∷ (b'L', Action.move_next)
    ∷ (b'v', Action.toggle_visual)
    ∷ (b' ', Action.toggle_done)
    ∷ (b'a', Action.quick_add)
    ∷ (b'e', Action.edit)
    ∷ (b'p', Action.edit_project)
    ∷ (b'P', Action.cycle_priority)
    ∷ (b'[', Action.prev_project)
    ∷ (b']', Action.next_project)
    ∷ (b'/', Action.search)
    ∷ (b'd', Action.delete)
    ∷ []

abbrev tasks_chars : List (ℕ × Action)
tasks_chars =
    (b'j', Action.down)
    ∷ (b'k', Action.up)
    ∷ (b'h', Action.left)
    ∷ (b'l', Action.right)
    ∷ (b'v', Action.toggle_visual)
    ∷ (b'J', Action.next_pane)
    ∷ (b'K', Action.prev_pane)
    ∷ (b's', Action.sort_cycle)
    ∷ (b' ', Action.toggle_done)
    ∷ (b'a', Action.quick_add)
    ∷ (b'e', Action.edit)
    ∷ (b'p', Action.edit_project)
    ∷ (b'P', Action.cycle_priority)
    ∷ (b'[', Action.prev_project)
    ∷ (b']', Action.next_project)
    ∷ (b'/', Action.search)
    ∷ (b'd', Action.delete)
    ∷ []

abbrev focus_chars : List (ℕ × Action)
focus_chars = (b' ', Action.start_pause_timer) ∷ (b's', Action.skip_phase) ∷ []

unfoldable pub calendar_key : KeyCode → Option Action
calendar_key (KeyCode.char c) = choose calendar_chars c
calendar_key KeyCode.tab = none
calendar_key KeyCode.back_tab = none
calendar_key KeyCode.enter = some Action.select
calendar_key KeyCode.esc = none
calendar_key KeyCode.backspace = none
calendar_key KeyCode.left = some Action.left
calendar_key KeyCode.right = some Action.right
calendar_key KeyCode.up = some Action.up
calendar_key KeyCode.down = some Action.down
calendar_key KeyCode.other = none

unfoldable pub board_key : KeyCode → Option Action
board_key (KeyCode.char c) = choose board_chars c
board_key KeyCode.tab = none
board_key KeyCode.back_tab = none
board_key KeyCode.enter = none
board_key KeyCode.esc = none
board_key KeyCode.backspace = none
board_key KeyCode.left = some Action.left
board_key KeyCode.right = some Action.right
board_key KeyCode.up = some Action.up
board_key KeyCode.down = some Action.down
board_key KeyCode.other = none

unfoldable pub tasks_key : KeyCode → Option Action
tasks_key (KeyCode.char c) = choose tasks_chars c
tasks_key KeyCode.tab = none
tasks_key KeyCode.back_tab = none
tasks_key KeyCode.enter = none
tasks_key KeyCode.esc = none
tasks_key KeyCode.backspace = none
tasks_key KeyCode.left = some Action.left
tasks_key KeyCode.right = some Action.right
tasks_key KeyCode.up = some Action.up
tasks_key KeyCode.down = some Action.down
tasks_key KeyCode.other = none

unfoldable pub focus_key : KeyCode → Option Action
focus_key (KeyCode.char c) = choose focus_chars c
focus_key KeyCode.tab = none
focus_key KeyCode.back_tab = none
focus_key KeyCode.enter = none
focus_key KeyCode.esc = none
focus_key KeyCode.backspace = none
focus_key KeyCode.left = none
focus_key KeyCode.right = none
focus_key KeyCode.up = none
focus_key KeyCode.down = none
focus_key KeyCode.other = none

unfoldable pub input_key : KeyCode → Option Action
input_key (KeyCode.char c) = some (Action.input_char c)
input_key KeyCode.tab = none
input_key KeyCode.back_tab = none
input_key KeyCode.enter = some Action.input_submit
input_key KeyCode.esc = some Action.input_cancel
input_key KeyCode.backspace = some Action.input_backspace
input_key KeyCode.left = none
input_key KeyCode.right = none
input_key KeyCode.up = none
input_key KeyCode.down = none
input_key KeyCode.other = none

-- The global bindings: the arms are tried in order, those with Control only under it.
unfoldable pub global_key : KeyEvent → Option Action
global_key key = elim key.code [
  | KeyCode.char c ↦
      if eqb c b'q'
      then some Action.quit
      else if eqb c b'c' && key.control
      then some Action.quit
      else if eqb c b'd' && key.control
      then some Action.half_page_down
      else if eqb c b'u' && key.control
      then some Action.half_page_up
      else if eqb c b'?'
      then some Action.help
      else if eqb c b':'
      then some Action.open_command_palette
      else if eqb c b'u'
      then some Action.undo
      else if eqb c b'r' && key.control
      then some Action.redo
      else if eqb c b't' && key.control
      then some Action.open_trash
      else none
  | KeyCode.tab ↦ some Action.next_tab
  | KeyCode.back_tab ↦ some Action.prev_tab
  | _ ↦ none
]

abbrev pub or_else : Option Action → Option Action → Option Action
or_else none b = b
or_else (some a) b = some a

unfoldable pub action_for_key : Context → KeyEvent → Option Action
unfolding global_key calendar_key board_key tasks_key focus_key input_key
action_for_key Context.input key = input_key key.code
action_for_key Context.form key = none
action_for_key Context.picker key = none
action_for_key Context.confirm key = none
action_for_key Context.command_palette key = none
action_for_key Context.calendar key = or_else (global_key key) (calendar_key key.code)
action_for_key Context.board key = or_else (global_key key) (board_key key.code)
action_for_key Context.tasks key = or_else (global_key key) (tasks_key key.code)
action_for_key Context.focus key = or_else (global_key key) (focus_key key.code)
