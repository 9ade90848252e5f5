-- ===== src/Keyboard/Line.antt =====
-- The cursor stays in the line, and the history index in the history, whatever is typed.
use iaos.Prelude.{
  ℕ, zero, suc, ◌+◌, ◌-◌, ◌≤◌, ◌<◌, ◌≡◌, refl, ap, inl, inr, Bool, true, false, not, ◌&&◌, ◌||◌,
  Option, none, some, List, [], ◌∷◌, ◌++◌, arith, length, length-append, length-take, take, drop,
  ltb, ◌==◌, Bool-cases, bit_and,
}
use iaos.Keyboard.{
  KeyboardDriver, new, scancode_to_char, older_from, newer_from, recall_older, recall_newer,
  insert_char, backspace_char, enter, if_changed, extended_key, fresh_line, type_char, plain_key,
  other_key, handle_scancode,
}

-- The index that a history position must respect.
abbrev pub IndexFits : Option ℕ → ℕ → Type 0
IndexFits none n = Unit {0}
IndexFits (some i) n = i < n

pub record IsValid (kb : KeyboardDriver) : Type 0 where
  pub cursor : kb.cursor_pos ≤ length kb.line_buffer
  pub index : IndexFits kb.history_index (length kb.history)

pub new-IsValid : IsValid new
new-IsValid = record { cursor = omega arith; index = tt }

older_from-IsValid :
    (o : Option ℕ) (kb : KeyboardDriver)
    → (length kb.history == 0) ≡ false
    → IndexFits o (length kb.history)
    → IsValid kb
    → IsValid (older_from o kb).0
older_from-IsValid none kb e f h = record { cursor = omega arith; index = ground arith }
older_from-IsValid (some zero) kb e f h = h
older_from-IsValid (some (suc i)) kb e f h = record { cursor = omega arith; index = omega arith }

recall_older-IsValid : (kb : KeyboardDriver) → IsValid kb → IsValid (recall_older kb).0
unfolding recall_older
recall_older-IsValid kb h = elim (Bool-cases (length kb.history == 0)) [
  | inl e ↦ rw e h
  | inr e ↦ rw e (older_from-IsValid kb.history_index kb e h.index h)
]

newer_from-IsValid : (o : Option ℕ) (kb : KeyboardDriver) → IsValid kb → IsValid (newer_from o kb).0
newer_from-IsValid none kb h = h
newer_from-IsValid (some i) kb h = elim (Bool-cases (ltb (i + 1) (length kb.history))) [
  | inl e ↦ rw e (record { cursor = omega arith; index = ground arith })
  | inr e ↦ rw e (record { cursor = omega arith; index = tt })
]

recall_newer-IsValid : (kb : KeyboardDriver) → IsValid kb → IsValid (recall_newer kb).0
unfolding recall_newer
recall_newer-IsValid kb h = newer_from-IsValid kb.history_index kb h

insert_char-IsValid : (ch : ℕ) (kb : KeyboardDriver) → IsValid kb → IsValid (insert_char ch kb).0
unfolding insert_char
insert_char-IsValid ch kb h = record {
  cursor = omega (
    arith,
    h.cursor,
    length-append (take kb.cursor_pos kb.line_buffer) (ch ∷ drop kb.cursor_pos kb.line_buffer),
    length-take kb.cursor_pos kb.line_buffer,
  );
  index = h.index;
}

backspace_char-IsValid : (kb : KeyboardDriver) → IsValid kb → IsValid (backspace_char kb).0
unfolding backspace_char
backspace_char-IsValid kb h = elim (Bool-cases (kb.cursor_pos == 0)) [
  | inl e ↦ rw e h
  | inr e ↦ rw e (record {
    cursor = omega (
      arith,
      h.cursor,
      length-append (take (kb.cursor_pos - 1) kb.line_buffer) (drop kb.cursor_pos kb.line_buffer),
      length-take (kb.cursor_pos - 1) kb.line_buffer,
    );
    index = h.index;
  })
]

fresh_line-IsValid : (kb : KeyboardDriver) → IsValid kb → IsValid (fresh_line kb)
fresh_line-IsValid kb h = record { cursor = h.cursor; index = tt }

type_char-IsValid : (o : Option ℕ) (kb : KeyboardDriver) → IsValid kb → IsValid (type_char o kb).0
unfolding enter
type_char-IsValid none kb h = h
type_char-IsValid (some ch) kb h = elim (Bool-cases (ch == 10)) [
  | inl e ↦ rw e (record { cursor = omega arith; index = tt })
  | inr e ↦ rw e (insert_char-IsValid ch (fresh_line kb) (fresh_line-IsValid kb h))
]

if_changed-IsValid :
    (old : KeyboardDriver) (r : KeyboardDriver × Bool) → IsValid r.0 → IsValid (if_changed old r).0
if_changed-IsValid old (kb, true) h = h
if_changed-IsValid old (kb, false) h = h

extended_key-IsValid :
    (scancode : ℕ) (kb : KeyboardDriver) → IsValid kb → IsValid (extended_key scancode kb).0
unfolding extended_key
extended_key-IsValid scancode kb h = elim (Bool-cases (scancode == 72)) [
  | inl a ↦ rw a (if_changed-IsValid kb (recall_older kb) (recall_older-IsValid kb h))
  | inr a ↦ elim (Bool-cases (scancode == 80)) [
    | inl b ↦ rw (a, b) (if_changed-IsValid kb (recall_newer kb) (recall_newer-IsValid kb h))
    | inr b ↦ elim (Bool-cases (scancode == 75 && ltb 0 kb.cursor_pos)) [
      | inl c ↦ rw (a, b, c) (record { cursor = omega (arith, h.cursor); index = h.index })
      | inr c ↦ elim (Bool-cases (scancode == 77 && ltb kb.cursor_pos (length kb.line_buffer))) [
        | inl d ↦ rw (a, b, c, d) (record { cursor = ground arith; index = h.index })
        | inr d ↦ rw (a, b, c, d) h
      ]
    ]
  ]
]

plain_key-IsValid :
    (scancode : ℕ) (kb : KeyboardDriver) → IsValid kb → IsValid (plain_key scancode kb).0
unfolding plain_key
plain_key-IsValid scancode kb h = elim (Bool-cases (scancode == 14)) [
  | inl a ↦ rw a (backspace_char-IsValid (fresh_line kb) (fresh_line-IsValid kb h))
  | inr a ↦ rw a (type_char-IsValid (scancode_to_char kb scancode) kb h)
]

other_key-IsValid :
    (scancode : ℕ) (ext : Bool) (kb : KeyboardDriver)
    → IsValid kb
    → IsValid (other_key scancode ext kb).0
unfolding other_key
other_key-IsValid scancode ext kb h =
    let h' : IsValid (record kb { last_scancode = scancode }) = record {
      cursor = h.cursor;
      index = h.index;
    } in
    elim (Bool-cases (not (scancode == kb.last_scancode) && bit_and scancode 128 == 0)) [
      | inr e ↦ rw e h'
      | inl e ↦ elim (Bool-cases ext) [
        | inl x ↦
            rw (e, x) (extended_key-IsValid scancode (record kb { last_scancode = scancode }) h')
        | inr x ↦ rw (e, x) (plain_key-IsValid scancode (record kb { last_scancode = scancode }) h')
      ]
    ]

-- The driver after a sequence of scancodes.
abbrev pub handle_all : List ℕ → KeyboardDriver → KeyboardDriver
handle_all [] kb = kb
handle_all (s ∷ ss) kb = handle_all ss (handle_scancode s kb).0

handle_scancode-IsValid :
    (scancode : ℕ) (kb : KeyboardDriver) → IsValid kb → IsValid (handle_scancode scancode kb).0
unfolding handle_scancode
handle_scancode-IsValid scancode kb h =
    let h' : IsValid (record kb { pending_extended = false }) = record {
      cursor = h.cursor;
      index = h.index;
    } in
    elim (Bool-cases (scancode == 224)) [
      | inl a ↦ rw a (record { cursor = h.cursor; index = h.index })
      | inr a ↦ elim (Bool-cases (scancode == 42 || scancode == 54)) [
        | inl b ↦ rw (a, b) (record { cursor = h.cursor; index = h.index })
        | inr b ↦ elim (Bool-cases (scancode == 170 || scancode == 182)) [
          | inl c ↦ rw (a, b, c) (record { cursor = h.cursor; index = h.index })
          | inr c ↦
              rw (a, b, c)
                (other_key-IsValid scancode kb.pending_extended
                  (record kb { pending_extended = false }) h')
        ]
      ]
    ]

-- From a valid state, after every sequence of scancodes the cursor is at most the length of the
-- line and the history position, if any, is below the length of the history.
pub handle_all-IsValid :
    (scancodes : List ℕ) (kb : KeyboardDriver) → IsValid kb → IsValid (handle_all scancodes kb)
handle_all-IsValid [] kb h = h
handle_all-IsValid (s ∷ ss) kb h =
    handle_all-IsValid ss (handle_scancode s kb).0 (handle_scancode-IsValid s kb h)

remove_inserted :
    (n c : ℕ) (xs : List ℕ)
    → n ≤ length xs
    → take n (take n xs ++ (c ∷ drop n xs)) ++ drop (suc n) (take n xs ++ (c ∷ drop n xs)) ≡ xs
remove_inserted zero c xs h = refl
remove_inserted (suc n) c [] h = absurd (omega arith)
remove_inserted (suc n) c (x ∷ xs) h = ap (λ t. x ∷ t) (remove_inserted n c xs (omega arith))

-- From a valid state, a backspace after a typed character restores the line and the cursor.
pub backspace_char-insert_char :
    (ch : ℕ) (kb : KeyboardDriver)
    → IsValid kb
    → ((backspace_char (insert_char ch kb).0).0.line_buffer ≡ kb.line_buffer)
      × ((backspace_char (insert_char ch kb).0).0.cursor_pos ≡ kb.cursor_pos)
unfolding backspace_char insert_char
backspace_char-insert_char ch kb h =
    let moved : (kb.cursor_pos + 1 == 0) ≡ false = ground arith in
    let back : kb.cursor_pos + 1 - 1 ≡ kb.cursor_pos = omega arith in
    let next : kb.cursor_pos + 1 ≡ suc kb.cursor_pos = omega arith in
    rw (moved, back, next) (remove_inserted kb.cursor_pos ch kb.line_buffer h.cursor, refl)
