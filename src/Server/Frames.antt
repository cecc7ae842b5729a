-- ===== src/Server/Frames.antt =====
-- That a frame is read whole, however the socket cuts it: `read_frame` of src/server.rs.
use mathlib.Core.List.{append_assoc}
use secretsd.Base.{
  ◌+◌, ◌≤◌, ◌≡◌, sym, ap, ◌∙◌, inl, inr, Bool, true, false, List, [], ◌∷◌, ◌++◌, map, none, some,
  Text, leb, Bytes_eq, all, length, length-append, split_once, split_once_join, arith,
}
use secretsd.Proto.Request.{max_frame_bytes}
use secretsd.Server.Connections.{bytes_read, complete, newline, through_newline, read_frame}

-- The bytes that the pieces make together.
abbrev pub joined : List Text → Text
joined [] = []
joined (piece ∷ pieces) = piece ++ joined pieces

-- What one `read` into the buffer of 4097 bytes can give, but for the end of the stream.
abbrev pub is_piece : Text → Bool
is_piece [] = false
is_piece (c ∷ cs) = leb (length (c ∷ cs)) (max_frame_bytes + 1)

through_newline-found :
    (chunk line rest : Text)
    → split_once 10 chunk ≡ some (line, rest)
    → through_newline chunk ≡ some (line ++ newline)
unfolding through_newline
through_newline-found chunk line rest h = rw (through_newline, h)

through_newline-none : (chunk : Text) → split_once 10 chunk ≡ none → through_newline chunk ≡ none
unfolding through_newline
through_newline-none chunk h = rw (through_newline, h)

regrouped :
    (frame chunk tail line : Text)
    → line ≡ chunk ++ tail
    → frame ++ chunk ++ (tail ++ newline) ≡ frame ++ (line ++ newline)
regrouped frame chunk tail line same =
    append_assoc frame chunk (tail ++ newline)
    ∙ ap (λ text. frame ++ text)
        (sym (append_assoc chunk tail newline) ∙ ap (λ text. text ++ newline) (sym same))

-- The pieces of a stream are read up to the first newline, as long as that line has at most 4096
-- bytes.
pub read_frame-line :
    (pieces : List Text) (frame line rest : Text)
    → all is_piece pieces ≡ true
    → split_once 10 (joined pieces) ≡ some (line, rest)
    → length frame + length line ≤ max_frame_bytes
    → read_frame frame (map bytes_read pieces) ≡ complete (frame ++ (line ++ newline))
unfolding read_frame split_once
read_frame-line [] frame line rest h e bound = absurd (ground arith)
read_frame-line ([] ∷ pieces) frame line rest h e bound = absurd (ground arith)
read_frame-line ((c ∷ cs) ∷ pieces) frame line rest h e bound =
    elim (split_once_join 10 (c ∷ cs) (joined pieces) line rest e) [
      | inl (later, found) ↦ ground (arith, through_newline-found (c ∷ cs) line later found)
      | inr (tail, no_newline, found, same) ↦
          let size = ap length same in
          let length_frame = length-append frame (c ∷ cs) in
          let length_line = length-append (c ∷ cs) tail in
          let more =
            read_frame-line pieces (frame ++ c ∷ cs) tail rest (ground arith) found (omega arith) in
          ground (
            arith,
            through_newline-none (c ∷ cs) no_newline,
            regrouped frame (c ∷ cs) tail line same,
          )
    ]
