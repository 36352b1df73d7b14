-- ===== src/Output/Lines.antt =====
-- print.rs: the lines of the dump.
use original_os_with_rust.Prelude.{
  ℕ, ◌+◌, ◌-◌, ◌<◌, ◌≡◌, ◌≢◌, refl, arith, ap, sym, ◌∙◌, ◌==◌, ≡→==, ≢→==, if◌then◌else◌,
}
use original_os_with_rust.Prelude.{
  List, [], ◌∷◌, ◌++◌, map, set, take, replicate, length, length-append, length-replicate,
}
use original_os_with_rust.Output.{
  Piece, offset_piece, byte_piece, gap, bar, newline, shown, shown_last, Dump, line_start,
  dump_byte, dump_end, dump_from, hexdump_bytes,
}
use mathlib.Core.List.{append_assoc, append-nil}
use native.Mathlib.Decide.{ℕ_discrete}

-- A line of 16 bytes, and one of fewer.
unfoldable pub full_line : ℕ → List ℕ → List Piece
full_line offset chunk =
    offset_piece offset
    ∷ (map byte_piece chunk ++ (bar ∷ (map shown chunk ++ (bar ∷ newline ∷ []))))

unfoldable pub short_line : ℕ → List ℕ → List Piece
short_line offset chunk =
    offset_piece offset
    ∷ (map byte_piece chunk
        ++ (replicate (16 - length chunk) gap
            ++ (bar ∷ (map shown_last chunk ++ (bar ∷ newline ∷ [])))))

-- The bytes after those of the lines that are done: `done` are the bytes of the present line.
unfoldable pub lines_from : ℕ → List ℕ → List ℕ → List Piece
lines_from offset done [] = if length done == 0 then [] else short_line offset done
lines_from offset done (v ∷ vs) =
    let chunk = done ++ (v ∷ []) in
    let whole = lines_from (offset + 16) [] vs in
    let more = lines_from offset chunk vs in
    if length chunk == 16 then full_line offset chunk ++ whole else more

-- What is printed of a line's beginning.
abbrev begun : ℕ → List ℕ → List Piece
begun offset [] = []
begun offset (b ∷ bs) = offset_piece offset ∷ map byte_piece (b ∷ bs)

take-append : (cs js : List ℕ) → take (length cs) (cs ++ js) ≡ cs
take-append [] js = refl
take-append (c ∷ cs) js = ap (λ l. c ∷ l) (take-append cs js)

set-append :
    (cs js : List ℕ) (j v : ℕ) → set (cs ++ (j ∷ js)) (length cs) v ≡ (cs ++ (v ∷ [])) ++ js
set-append [] js j v = refl
set-append (c ∷ cs) js j v = ap (λ l. c ∷ l) (set-append cs js j v)

map-append : (f : ℕ → Piece) (cs ds : List ℕ) → map f (cs ++ ds) ≡ map f cs ++ map f ds
map-append f [] ds = refl
map-append f (c ∷ cs) ds = ap (λ l. f c ∷ l) (map-append f cs ds)

-- The state of the loop when `cs` are the bytes of the present line.
abbrev at_line : ℕ → List ℕ → List ℕ → Dump
at_line offset cs junk = record { i = length cs; ascii = cs ++ junk; offset = offset }

no_start : (o : ℕ) (cs junk : List ℕ) → length cs ≢ 0 → line_start (at_line o cs junk) ≡ []
unfolding line_start
no_start o cs junk ne = rw (≢→== (length cs) 0 ne) refl

begun-next :
    (o v : ℕ) (cs junk : List ℕ)
    → begun o cs ++ (line_start (at_line o cs junk) ++ (byte_piece v ∷ []))
      ≡ begun o (cs ++ (v ∷ []))
unfolding line_start
begun-next o v [] junk = refl
begun-next o v (c ∷ cs) junk =
    ap (λ l. offset_piece o ∷ byte_piece c ∷ l)
      (ap (λ l. map byte_piece cs ++ (l ++ (byte_piece v ∷ [])))
          (no_start o (c ∷ cs) junk (omega arith))
        ∙ sym (map-append byte_piece cs (v ∷ [])))

end_line :
    (o : ℕ) (cs junk : List ℕ)
    → begun o cs ++ dump_end (at_line o cs junk) ≡ (if length cs == 0 then [] else short_line o cs)
unfolding dump_end short_line
end_line o [] junk = refl
end_line o (c ∷ cs) junk =
    ap (λ l. offset_piece o ∷ byte_piece c ∷ (map byte_piece cs ++ l))
      (last_pieces (c ∷ cs) junk (omega arith))
    ∙ sym
        (ap (λ b. if b then [] else short_line o (c ∷ cs)) (≢→== (length (c ∷ cs)) 0 (omega arith)))
  where
    last_pieces :
        (ds js : List ℕ)
        → length ds ≢ 0
        → dump_end (at_line o ds js)
          ≡ replicate (16 - length ds) gap ++ (bar ∷ (map shown_last ds ++ (bar ∷ newline ∷ [])))
    last_pieces ds js ne = rw (dump_end, ≢→== (length ds) 0 ne, take-append ds js) refl

goes_on :
    (o v : ℕ) (cs junk : List ℕ) (j : ℕ)
    → length cs + 1 ≢ 16
    → dump_byte (at_line o cs (j ∷ junk)) v ≡ (
      at_line o (cs ++ (v ∷ [])) junk,
      line_start (at_line o cs (j ∷ junk)) ++ (byte_piece v ∷ []),
    )
unfolding dump_byte
goes_on o v cs junk j ne =
    rw (≢→== (length cs + 1) 16 ne, set-append cs junk j v)
      (ap
        (λ k. (
          record { i = k; ascii = (cs ++ (v ∷ [])) ++ junk; offset = o },
          line_start (at_line o cs (j ∷ junk)) ++ (byte_piece v ∷ []),
        ))
        (sym (length-append cs (v ∷ []))))

line_ends :
    (o v : ℕ) (cs : List ℕ) (j : ℕ)
    → length cs + 1 ≡ 16
    → dump_byte (at_line o cs (j ∷ [])) v ≡ (
      at_line (o + 16) [] (cs ++ (v ∷ [])),
      line_start (at_line o cs (j ∷ []))
          ++ (byte_piece v ∷ bar ∷ (map shown (cs ++ (v ∷ [])) ++ (bar ∷ newline ∷ []))),
    )
unfolding dump_byte
line_ends o v cs j e =
    rw (≡→== (length cs + 1) 16 e, set-append cs [] j v, append-nil (cs ++ (v ∷ []))) refl

begun-bytes :
    (o v : ℕ) (cs : List ℕ)
    → begun o (cs ++ (v ∷ [])) ≡ offset_piece o ∷ map byte_piece (cs ++ (v ∷ []))
begun-bytes o v [] = refl
begun-bytes o v (c ∷ cs) = refl

-- Pieces behind a byte of the present line.
begun-then :
    (o v : ℕ) (cs junk : List ℕ) (out : List Piece)
    → begun o cs ++ (line_start (at_line o cs junk) ++ (byte_piece v ∷ out))
      ≡ begun o (cs ++ (v ∷ [])) ++ out
begun-then o v cs junk out =
    ap (λ l. begun o cs ++ l)
      (sym (append_assoc (line_start (at_line o cs junk)) (byte_piece v ∷ []) out))
    ∙ sym (append_assoc (begun o cs) (line_start (at_line o cs junk) ++ (byte_piece v ∷ [])) out)
    ∙ ap (λ l. l ++ out) (begun-next o v cs junk)

more_bytes :
    (o v : ℕ) (cs vs : List ℕ)
    → length (cs ++ (v ∷ [])) ≢ 16
    → lines_from o (cs ++ (v ∷ [])) vs ≡ lines_from o cs (v ∷ vs)
unfolding lines_from
more_bytes o v cs vs ne = rw (≢→== (length (cs ++ (v ∷ []))) 16 ne) refl

whole_line :
    (o v : ℕ) (cs vs : List ℕ)
    → length (cs ++ (v ∷ [])) ≡ 16
    → full_line o (cs ++ (v ∷ [])) ++ lines_from (o + 16) [] vs ≡ lines_from o cs (v ∷ vs)
unfolding lines_from
whole_line o v cs vs e = rw (≡→== (length (cs ++ (v ∷ []))) 16 e) refl

dump_step :
    (d d' : Dump) (v : ℕ) (vs : List ℕ) (out : List Piece)
    → dump_byte d v ≡ (d', out)
    → dump_from d (v ∷ vs) ≡ out ++ dump_from d' vs
unfolding dump_from
dump_step d d' v vs out e = ap (λ p. p.1 ++ dump_from p.0 vs) e

-- The byte that fills a line.
last_byte :
    (o v : ℕ) (cs vs : List ℕ) (j : ℕ) (js : List ℕ)
    → length cs + 1 ≡ 16
    → length js ≡ 0
    → dump_from (at_line (o + 16) [] (cs ++ (v ∷ []))) vs ≡ lines_from (o + 16) [] vs
    → begun o cs ++ dump_from (at_line o cs (j ∷ js)) (v ∷ vs) ≡ lines_from o cs (v ∷ vs)
unfolding full_line
last_byte o v cs vs j (k ∷ js) e none ih = absurd (omega (arith, none))
last_byte o v cs vs j [] e none ih =
    let chunk = cs ++ (v ∷ []) in
    let tail = bar ∷ (map shown chunk ++ (bar ∷ newline ∷ [])) in
    let rest = lines_from (o + 16) [] vs in
    ap (λ l. begun o cs ++ l)
      (dump_step (at_line o cs (j ∷ [])) (at_line (o + 16) [] chunk) v vs _ (line_ends o v cs j e)
        ∙ append_assoc (line_start (at_line o cs (j ∷ []))) (byte_piece v ∷ tail) _
        ∙ ap (λ l. line_start (at_line o cs (j ∷ [])) ++ ((byte_piece v ∷ tail) ++ l)) ih)
    ∙ begun-then o v cs (j ∷ []) (tail ++ rest)
    ∙ sym (append_assoc (begun o chunk) tail rest)
    ∙ ap (λ l. (l ++ tail) ++ rest) (begun-bytes o v cs)
    ∙ whole_line o v cs vs (length-append cs (v ∷ []) ∙ e)

dump_from-lines :
    (vs : List ℕ) (o : ℕ) (cs junk : List ℕ)
    → length cs + length junk ≡ 16
    → length cs < 16
    → begun o cs ++ dump_from (at_line o cs junk) vs ≡ lines_from o cs vs
unfolding dump_from lines_from full_line
dump_from-lines [] o cs junk total less = end_line o cs junk
dump_from-lines (v ∷ vs) o cs [] total less = absurd (omega (arith, total, less))
dump_from-lines (v ∷ vs) o cs (j ∷ js) total less = elim (ℕ_discrete (length cs + 1) 16) [
  | no ne ↦
      ap (λ l. begun o cs ++ l)
        (dump_step (at_line o cs (j ∷ js)) (at_line o (cs ++ (v ∷ [])) js) v vs _
            (goes_on o v cs js j ne)
          ∙ append_assoc (line_start (at_line o cs (j ∷ js))) (byte_piece v ∷ []) _)
      ∙ begun-then o v cs (j ∷ js) (dump_from (at_line o (cs ++ (v ∷ [])) js) vs)
      ∙ dump_from-lines vs o (cs ++ (v ∷ [])) js (omega (arith, total, length-append cs (v ∷ [])))
          (omega (arith, less, ne, length-append cs (v ∷ [])))
      ∙ more_bytes o v cs vs (λ e. ne (sym (length-append cs (v ∷ [])) ∙ e))
  | yes e ↦ last_byte o v cs vs j js e (omega (arith, total, e)) (
      dump_from-lines vs (o + 16) [] (cs ++ (v ∷ [])) (omega (arith, e, length-append cs (v ∷ [])))
        (omega arith))
]

-- The dump is made of lines of 16 bytes, each with its offset, its bytes and their characters,
-- and a shorter last one when bytes are left.
pub hexdump_bytes-lines : (bytes : List ℕ) → hexdump_bytes bytes ≡ lines_from 0 [] bytes
unfolding hexdump_bytes
hexdump_bytes-lines bytes =
    dump_from-lines bytes 0 [] (replicate 16 0) (length-replicate {A = ℕ} 16 0) (omega arith)
