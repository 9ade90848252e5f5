-- ===== src/Keyboard/Examples.antt =====
-- Typing `A1`, and editing it.
use iaos.Prelude.{ℕ, ◌≡◌, refl, List, [], ◌∷◌}
use iaos.Keyboard.{
  new, insert_char, backspace_char, handle_scancode, other_key, plain_key, extended_key,
  scancode_to_char, enter, recall_older,
}
use iaos.Keyboard.Line.{
  IsValid, new-IsValid, handle_all, handle_all-IsValid, backspace_char-insert_char,
}

-- Shift down, `a`, Shift up, `1`, Left, a backspace.
abbrev edits : List ℕ
edits = 42 ∷ 30 ∷ 170 ∷ 2 ∷ 224 ∷ 75 ∷ 14 ∷ []

edit_run : (handle_all edits new).line_buffer ≡ 49 ∷ []
unfolding handle_scancode other_key plain_key extended_key scancode_to_char insert_char
    backspace_char
edit_run = refl

-- A line that is entered comes back from the history.
recall_run : (handle_all (30 ∷ 28 ∷ 224 ∷ 72 ∷ []) new).line_buffer ≡ 97 ∷ []
unfolding handle_scancode other_key plain_key extended_key scancode_to_char insert_char enter
    recall_older
recall_run = refl

handle_all-IsValid_example : IsValid (handle_all edits new)
handle_all-IsValid_example = handle_all-IsValid edits new new-IsValid

backspace_char-insert_char_run :
    ((backspace_char (insert_char 98 (handle_all edits new)).0).0.line_buffer
      ≡ (handle_all edits new).line_buffer)
    × ((backspace_char (insert_char 98 (handle_all edits new)).0).0.cursor_pos
        ≡ (handle_all edits new).cursor_pos)
backspace_char-insert_char_run =
    backspace_char-insert_char 98 (handle_all edits new) (handle_all-IsValid edits new new-IsValid)
