-- ===== src/Audit.antt =====
-- Values in the audit log: `sanitize_audit_value` of src/audit.rs. A `Chars` is the list of a text's
-- characters, each as its code point, since the source takes the text apart into characters.
use secretsd.Base.{
  ℕ, zero, suc, ◌+◌, ◌-◌, ◌/◌, ◌%◌, ◌≤◌, ◌≡◌, refl, inl, inr, Bool, true, false, not, ◌||◌, List,
  [], ◌∷◌, ◌++◌, bytes, leb, ltb, ◌==◌, ℕ_eq, if◌then◌else◌, in_range, all, length, arith,
  Bool-cases, all-append_both,
}

abbrev pub Chars : Type 0
Chars = List ℕ

abbrev pub max_audit_value_bytes : ℕ
max_audit_value_bytes = 256

abbrev pub ellipsis : ℕ
ellipsis = 8230

-- `len_utf8` of a character, and of a text.
abbrev pub len_utf8 : ℕ → ℕ
len_utf8 c = if leb c 127 then 1 else if leb c 2047 then 2 else if leb c 65535 then 3 else 4

abbrev pub size : Chars → ℕ
size [] = 0
size (c ∷ cs) = len_utf8 c + size cs

abbrev pub is_control : ℕ → Bool
is_control c = leb c 31 || in_range 127 159 c

-- `pop`
unfoldable pub pop : Chars → Chars
pop [] = []
pop (c ∷ cs) = let rest = pop cs in elim cs [ [] ↦ [] | _ ∷ _ ↦ c ∷ rest ]

-- The loop that makes room for the ellipsis; the fuel is the number of characters.
unfoldable pub make_room : ℕ → Chars → Chars
unfolding pop
make_room zero rendered = rendered
make_room (suc fuel) rendered =
    let rest = make_room fuel (pop rendered) in
    if ltb (max_audit_value_bytes - len_utf8 ellipsis) (size rendered) then rest else rendered

unfoldable pub append_audit_piece : Chars → Chars → Chars × Bool
unfolding make_room
append_audit_piece rendered piece =
    if ltb max_audit_value_bytes (size rendered + size piece)
    then (make_room (length rendered) rendered ++ ellipsis ∷ [], false)
    else (rendered ++ piece, true)

abbrev pub hex_digit : ℕ → ℕ
hex_digit d = if ltb d 10 then b'0' + d else b'A' + (d - 10)

-- `{:04X}` of a number below 65536, which every control character is.
abbrev pub hex4 : ℕ → Chars
hex4 c =
    hex_digit (c / 4096 % 16)
    ∷ (hex_digit (c / 256 % 16) ∷ (hex_digit (c / 16 % 16) ∷ (hex_digit (c % 16) ∷ [])))

unfoldable pub escape : ℕ → Chars
escape c =
    if c == 13
    then bytes "\\r"
    else if c == 10
    then bytes "\\n"
    else if c == 9
    then bytes "\\t"
    else if c == 0
    then bytes "\\0"
    else if is_control c
    then bytes "\\u{" ++ (hex4 c ++ bytes "}")
    else c ∷ []

unfoldable pub render : Chars → Chars → Chars
unfolding append_audit_piece escape
render rendered [] = rendered
render rendered (c ∷ cs) =
    let (next, appended) = append_audit_piece rendered (escape c) in
    let rest = render next cs in if appended then rest else next

unfoldable pub sanitize_audit_value : Chars → Chars
unfolding render
sanitize_audit_value = render []

size-append : (xs ys : Chars) → size (xs ++ ys) ≡ size xs + size ys
size-append [] ys = omega arith
size-append (x ∷ xs) ys = omega (arith, size-append xs ys)

length-pop : (xs : Chars) → length (pop xs) ≡ length xs - 1
unfolding pop
length-pop [] = refl
length-pop (x ∷ []) = refl
length-pop (x ∷ y ∷ ys) = omega (arith, length-pop (y ∷ ys))

make_room-size : (fuel : ℕ) (xs : Chars) → length xs ≤ fuel → size (make_room fuel xs) ≤ 253
unfolding make_room
make_room-size zero [] h = omega arith
make_room-size zero (x ∷ xs) h = absurd (omega arith)
make_room-size (suc fuel) xs h =
    let shorter = length-pop xs in
    let rest = make_room-size fuel (pop xs) (omega arith) in ground arith

abbrev pub printable : ℕ → Bool
printable c = not (is_control c)

pop-printable : (xs : Chars) → all printable xs ≡ true → all printable (pop xs) ≡ true
unfolding pop
pop-printable [] h = refl
pop-printable (x ∷ []) h = refl
pop-printable (x ∷ y ∷ ys) h = ground (arith, pop-printable (y ∷ ys))

make_room-printable :
    (fuel : ℕ) (xs : Chars) → all printable xs ≡ true → all printable (make_room fuel xs) ≡ true
unfolding make_room
make_room-printable zero xs h = h
make_room-printable (suc fuel) xs h =
    ground (arith, make_room-printable fuel (pop xs) (pop-printable xs h))

escape-printable : (c : ℕ) → all printable (escape c) ≡ true
unfolding escape
escape-printable c = ground arith

-- What is appended keeps the bound and holds no control character.
append-size :
    (rendered piece : Chars)
    → size rendered ≤ 256
    → size (append_audit_piece rendered piece).0 ≤ 256
unfolding append_audit_piece
append-size rendered piece h = ground (
  arith,
  size-append rendered piece,
  size-append (make_room (length rendered) rendered) (ellipsis ∷ []),
  make_room-size (length rendered) rendered,
)

append-printable :
    (rendered piece : Chars)
    → all printable rendered ≡ true
    → all printable piece ≡ true
    → all printable (append_audit_piece rendered piece).0 ≡ true
unfolding append_audit_piece
append-printable rendered piece h e = ground (
  arith,
  all-append_both printable rendered piece,
  all-append_both printable (make_room (length rendered) rendered) (ellipsis ∷ []),
  make_room-printable (length rendered) rendered h,
)

render_lem :
    (rendered value : Chars)
    → size rendered ≤ 256
    → all printable rendered ≡ true
    → (size (render rendered value) ≤ 256) × (all printable (render rendered value) ≡ true)
unfolding render
render_lem rendered [] h e = (h, e)
render_lem rendered (c ∷ cs) h e =
    let next = (append_audit_piece rendered (escape c)).0 in
    let fits = append-size rendered (escape c) h in
    let clean = append-printable rendered (escape c) e (escape-printable c) in
    let rest = render_lem next cs fits clean in
    elim (Bool-cases (append_audit_piece rendered (escape c)).1) [
      | inl appended ↦ rw appended rest
      | inr full ↦ rw full (fits, clean)
    ]

-- An audit value has at most 256 bytes and no control character, whatever the value was.
pub sanitize_audit_value_lem :
    (value : Chars)
    → (size (sanitize_audit_value value) ≤ 256)
      × (all printable (sanitize_audit_value value) ≡ true)
unfolding sanitize_audit_value
sanitize_audit_value_lem value = render_lem [] value (omega arith) refl
