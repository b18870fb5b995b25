-- ===== src/TaskController/Title.antt =====
-- truncate: the first line of a text, cut to a length in bytes.
pub mod Bounds
use kbrain.Prelude.{
  ℕ, ◌-◌, Option, none, some, [], ◌∷◌, ◌++◌, ltb, ◌==◌, if◌then◌else◌, length, take,
}
use kbrain.Prelude.Text.{Text, lit}

-- The loop over the runes of the text: the byte of a newline occurs in no other rune.
unfoldable pub first_line : Text → Text
first_line [] = []
first_line (c ∷ s) = if c == b'\n' then [] else c ∷ first_line s

-- `truncate`; a bound below 3 that is exceeded makes the slice panic.
unfoldable pub truncate : Text → ℕ → Option Text
unfolding first_line
truncate s max_len =
    let line = first_line s in
    if ltb max_len (length line)
    then if ltb max_len 3 then none else some (take (max_len - 3) line ++ lit "...")
    else some line
