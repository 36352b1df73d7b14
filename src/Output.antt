-- ===== src/Output.antt =====
-- print.rs: `hexdump_bytes`. What it prints is a list of pieces; how a piece becomes text is left to the
-- formatting macros.
pub mod Lines
use original_os_with_rust.Prelude.{
  ℕ, zero, suc, ◌+◌, ◌-◌, Bool, ◌&&◌, leb, ◌==◌, if◌then◌else◌, List, [], ◌∷◌, ◌++◌, map, set, take,
  replicate,
}

-- `{offset:08X}: `, `{:02X} `, three spaces, `|`, one character, and the end of the line.
pub data Piece : Type 0 where
  offset_piece : ℕ → Piece
  byte_piece : ℕ → Piece
  gap : Piece
  bar : Piece
  char_piece : ℕ → Piece
  newline : Piece

-- A full line shows 0x20 to 0x7e, and a dot for each other byte.
unfoldable pub shown : ℕ → Piece
shown c = char_piece (if leb 0x20 c && leb c 0x7e then c else 0x2e)

-- The last line, when it is not full, shows 0x7f too.
unfoldable pub shown_last : ℕ → Piece
shown_last c = char_piece (if leb 0x20 c && leb c 0x7f then c else 0x2e)

-- The variables of the loop.
pub record Dump : Type 0 where
  pub i : ℕ
  pub ascii : List ℕ
  pub offset : ℕ

unfoldable pub line_start : Dump → List Piece
line_start d = if d.i == 0 then offset_piece d.offset ∷ [] else []

-- The body of the loop, with what it prints.
unfoldable pub dump_byte : Dump → ℕ → Dump × List Piece
dump_byte d v =
    let ascii = set d.ascii d.i v in
    if d.i + 1 == 16
    then (
      record { i = 0; ascii = ascii; offset = d.offset + 16 },
      line_start d ++ (byte_piece v ∷ bar ∷ (map shown ascii ++ (bar ∷ newline ∷ []))),
    )
    else (
      record { i = d.i + 1; ascii = ascii; offset = d.offset },
      line_start d ++ (byte_piece v ∷ []),
    )

-- What follows the loop.
unfoldable pub dump_end : Dump → List Piece
dump_end d =
    if d.i == 0
    then []
    else replicate (16 - d.i) gap
      ++ (bar ∷ (map shown_last (take d.i d.ascii) ++ (bar ∷ newline ∷ [])))

unfoldable pub dump_from : Dump → List ℕ → List Piece
dump_from d [] = dump_end d
dump_from d (v ∷ vs) = let (d', out) = dump_byte d v in out ++ dump_from d' vs

unfoldable pub hexdump_bytes : List ℕ → List Piece
hexdump_bytes bytes = dump_from (record { i = 0; ascii = replicate 16 0; offset = 0 }) bytes
