-- ===== src/Keyboard.antt =====
-- agentos-kernel/src/keyboard.rs: from scancodes to the edited line, its history, and commands.
-- What the handler does to the screen and the shell is a list of effects, in order; a line is the list
-- of its ASCII codes.
pub mod Line
mod Examples
use iaos.Prelude.{
  ℕ, zero, suc, ◌+◌, ◌-◌, Bool, true, false, not, ◌&&◌, ◌||◌, Option, none, some, List, [], ◌∷◌,
  ◌++◌, length, get_or, take, drop, replicate, all, ltb, ◌==◌, if◌then◌else◌, bit_and,
}

pub record KeyboardDriver : Type 0 where
  pub last_scancode : ℕ
  pub pending_extended : Bool
  pub shift_held : Bool
  pub line_buffer : List ℕ
  pub cursor_pos : ℕ
  pub history : List (List ℕ)
  pub history_index : Option ℕ

abbrev pub new : KeyboardDriver
new = record {
  last_scancode = 0;
  pending_extended = false;
  shift_held = false;
  line_buffer = [];
  cursor_pos = 0;
  history = [];
  history_index = none;
}

pub data Effect : Type 0 where
  cursor_right cursor_left backspace : Effect
  print dispatch : List ℕ → Effect

abbrev pub look_up : ℕ → List (ℕ × ℕ × ℕ) → Option (ℕ × ℕ)
look_up scancode [] = none
look_up scancode ((s, plain, upper) ∷ rows) =
    let rest = look_up scancode rows in if s == scancode then some (plain, upper) else rest

-- A scancode with its character, without and with Shift.
abbrev pub keys : List (ℕ × ℕ × ℕ)
keys =
    (2, 49, 49)
    ∷ (3, 50, 50)
    ∷ (4, 51, 51)
    ∷ (5, 52, 52)
    ∷ (6, 53, 53)
    ∷ (7, 54, 54)
    ∷ (8, 55, 55)
    ∷ (9, 56, 56)
    ∷ (10, 57, 57)
    ∷ (11, 48, 48)
    ∷ (12, 45, 95)
    ∷ (16, 113, 81)
    ∷ (17, 119, 87)
    ∷ (18, 101, 69)
    ∷ (19, 114, 82)
    ∷ (20, 116, 84)
    ∷ (21, 121, 89)
    ∷ (22, 117, 85)
    ∷ (23, 105, 73)
    ∷ (24, 111, 79)
    ∷ (25, 112, 80)
    ∷ (30, 97, 65)
    ∷ (31, 115, 83)
    ∷ (32, 100, 68)
    ∷ (33, 102, 70)
    ∷ (34, 103, 71)
    ∷ (35, 104, 72)
    ∷ (36, 106, 74)
    ∷ (37, 107, 75)
    ∷ (38, 108, 76)
    ∷ (41, 96, 126)
    ∷ (44, 122, 90)
    ∷ (45, 120, 88)
    ∷ (46, 99, 67)
    ∷ (47, 118, 86)
    ∷ (48, 98, 66)
    ∷ (49, 110, 78)
    ∷ (50, 109, 77)
    ∷ (51, 44, 60)
    ∷ (52, 46, 62)
    ∷ (53, 47, 63)
    ∷ (57, 32, 32)
    ∷ (28, 10, 10)
    ∷ []

abbrev pub shifted : Bool → Option (ℕ × ℕ) → Option ℕ
shifted shift none = none
shifted shift (some (plain, upper)) = some (if shift then upper else plain)

unfoldable pub scancode_to_char : KeyboardDriver → ℕ → Option ℕ
scancode_to_char kb scancode = shifted kb.shift_held (look_up scancode keys)

-- Showing an entry of the history.
abbrev pub show_entry : ℕ → KeyboardDriver → KeyboardDriver
show_entry i kb = record kb {
  history_index = some i;
  line_buffer = get_or kb.history i [];
  cursor_pos = length (get_or kb.history i []);
}

abbrev pub older_from : Option ℕ → KeyboardDriver → KeyboardDriver × Bool
older_from none kb = (show_entry (length kb.history - 1) kb, true)
older_from (some zero) kb = (kb, false)
older_from (some (suc i)) kb = (show_entry i kb, true)

-- With whether the line changed.
unfoldable pub recall_older : KeyboardDriver → KeyboardDriver × Bool
recall_older kb = if length kb.history == 0 then (kb, false) else older_from kb.history_index kb

abbrev pub newer_from : Option ℕ → KeyboardDriver → KeyboardDriver × Bool
newer_from none kb = (kb, false)
newer_from (some i) kb =
    if ltb (i + 1) (length kb.history)
    then (show_entry (i + 1) kb, true)
    else (record kb { history_index = none; line_buffer = []; cursor_pos = 0 }, true)

unfoldable pub recall_newer : KeyboardDriver → KeyboardDriver × Bool
recall_newer kb = newer_from kb.history_index kb

unfoldable pub redraw_line : KeyboardDriver → ℕ → ℕ → List Effect
redraw_line kb old_len old_cursor =
    replicate (old_len - old_cursor) cursor_right
    ++ replicate old_len backspace
    ++ print kb.line_buffer ∷ replicate (length kb.line_buffer - kb.cursor_pos) cursor_left

-- A new state, and the redrawing from the old one.
abbrev pub redrawn : KeyboardDriver → KeyboardDriver → KeyboardDriver × List Effect
redrawn old kb = (kb, redraw_line kb (length old.line_buffer) old.cursor_pos)

unfoldable pub insert_char : ℕ → KeyboardDriver → KeyboardDriver × List Effect
insert_char ch kb = redrawn kb (record kb {
  line_buffer = take kb.cursor_pos kb.line_buffer ++ (ch ∷ drop kb.cursor_pos kb.line_buffer);
  cursor_pos = kb.cursor_pos + 1;
})

unfoldable pub backspace_char : KeyboardDriver → KeyboardDriver × List Effect
backspace_char kb =
    if kb.cursor_pos == 0
    then (kb, [])
    else redrawn kb (record kb {
      line_buffer = take (kb.cursor_pos - 1) kb.line_buffer ++ drop kb.cursor_pos kb.line_buffer;
      cursor_pos = kb.cursor_pos - 1;
    })

-- `line.trim().is_empty()`: of the characters that a key gives, a space alone is white space.
abbrev pub is_blank : List ℕ → Bool
is_blank line = all (λ c. c == 32) line

unfoldable pub enter : KeyboardDriver → KeyboardDriver × List Effect
enter kb = (
  record kb {
    line_buffer = [];
    cursor_pos = 0;
    history_index = none;
    history = if is_blank kb.line_buffer then kb.history else kb.history ++ (kb.line_buffer ∷ []);
  },
  print (10 ∷ [])
      ∷ dispatch kb.line_buffer
      ∷ print (65 ∷ 103 ∷ 101 ∷ 110 ∷ 116 ∷ 79 ∷ 83 ∷ 62 ∷ 32 ∷ [])
      ∷ [],
)

abbrev pub if_changed : KeyboardDriver → KeyboardDriver × Bool → KeyboardDriver × List Effect
if_changed old (kb, true) = redrawn old kb
if_changed old (kb, false) = (kb, [])

-- The key behind an `0xE0` prefix.
unfoldable pub extended_key : ℕ → KeyboardDriver → KeyboardDriver × List Effect
extended_key scancode kb =
    if scancode == 72
    then if_changed kb (recall_older kb)
    else if scancode == 80
    then if_changed kb (recall_newer kb)
    else if scancode == 75 && ltb 0 kb.cursor_pos
    then (record kb { cursor_pos = kb.cursor_pos - 1 }, cursor_left ∷ [])
    else if scancode == 77 && ltb kb.cursor_pos (length kb.line_buffer)
    then (record kb { cursor_pos = kb.cursor_pos + 1 }, cursor_right ∷ [])
    else (kb, [])

abbrev pub fresh_line : KeyboardDriver → KeyboardDriver
fresh_line kb = record kb { history_index = none }

abbrev pub type_char : Option ℕ → KeyboardDriver → KeyboardDriver × List Effect
type_char none kb = (kb, [])
type_char (some ch) kb = if ch == 10 then enter kb else insert_char ch (fresh_line kb)

-- Any other key.
unfoldable pub plain_key : ℕ → KeyboardDriver → KeyboardDriver × List Effect
plain_key scancode kb =
    if scancode == 14
    then backspace_char (fresh_line kb)
    else type_char (scancode_to_char kb scancode) kb

-- A key that is not Shift, of a new press or a repetition or a release.
unfoldable pub other_key : ℕ → Bool → KeyboardDriver → KeyboardDriver × List Effect
other_key scancode is_extended kb =
    let pressed = record kb { last_scancode = scancode } in
    if not (scancode == kb.last_scancode) && bit_and scancode 128 == 0
    then if is_extended then extended_key scancode pressed else plain_key scancode pressed
    else (pressed, [])

unfoldable pub handle_scancode : ℕ → KeyboardDriver → KeyboardDriver × List Effect
handle_scancode scancode kb =
    let kb' = record kb { pending_extended = false } in
    if scancode == 224
    then (record kb { pending_extended = true }, [])
    else if scancode == 42 || scancode == 54
    then (record kb' { shift_held = true }, [])
    else if scancode == 170 || scancode == 182
    then (record kb' { shift_held = false }, [])
    else other_key scancode kb.pending_extended kb'
