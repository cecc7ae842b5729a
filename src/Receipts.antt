-- ===== src/Receipts.antt =====
-- Single-use receipts for capability authorizations: src/receipts.rs.
pub mod Redeem
pub mod Supply
pub mod Hex
use secretsd.Base.{
  ℕ, suc, ◌+◌, ◌-◌, ◌*◌, ◌/◌, ◌%◌, Bool, true, false, not, ◌&&◌, ◌||◌, List, [], ◌∷◌, ◌++◌, Option,
  none, some, Text, bytes, ◌==◌, ℕ_eq, Bytes_eq, if◌then◌else◌, ltb, leb, any, all, retain, length,
  is_ascii_hexdigit, from_str_radix, u8_max, select, mask_of, get_elem?, swap_remove,
}
use secretsd.Names.Capability.{Capability, Capability_eq}

abbrev pub receipt_len : ℕ
receipt_len = 32

abbrev pub receipt_ttl : ℕ
receipt_ttl = 60000000000

abbrev pub max_receipts : ℕ
max_receipts = 32

pub record Entry : Type 0 where
  pub id : List ℕ
  pub cap : Capability
  pub minted : ℕ

pub record ReceiptTable : Type 0 where
  pub entries : List Entry

abbrev pub is_fresh : ℕ → Entry → Bool
is_fresh now entry = ltb (now - entry.minted) receipt_ttl

unfoldable pub sweep : ReceiptTable → ℕ → ReceiptTable
sweep table now = record { entries = retain (is_fresh now) table.entries }

unfoldable pub clear : ReceiptTable → ReceiptTable
clear table = record { entries = [] }

unfoldable pub hex_digits : Text
hex_digits = bytes "0123456789abcdef"

abbrev or_zero : Option ℕ → ℕ
or_zero none = 0
or_zero (some n) = n

unfoldable pub hex_digit : ℕ → ℕ
unfolding hex_digits
hex_digit nibble = or_zero (get_elem? hex_digits nibble)

-- `byte >> 4` and `byte & 0x0f`
unfoldable pub hex : List ℕ → Text
unfolding hex_digit
hex [] = []
hex (byte ∷ rest) = hex_digit (byte / 16) ∷ hex_digit (byte % 16) ∷ hex rest

unfoldable pub parse_pairs : Text → Option (List ℕ)
unfolding from_str_radix
parse_pairs [] = some []
parse_pairs (c ∷ []) = some []
parse_pairs (high ∷ low ∷ raw) = elim (from_str_radix 16 u8_max (high ∷ low ∷ [])) [
  | none ↦ none
  | some slot ↦ elim (parse_pairs raw) [ none ↦ none | some rest ↦ some (slot ∷ rest) ]
]

unfoldable pub parse_hex : Text → Option (List ℕ)
parse_hex raw =
    if not (length raw == receipt_len * 2) || not (all is_ascii_hexdigit raw)
    then none
    else parse_pairs raw

abbrev pub has_receipt : List ℕ → Entry → Bool
has_receipt presented entry = entry.id == presented

-- Why no receipt was minted.
pub data MintError : Type 0 where
  would_block unavailable : MintError

pub data Minted : Type 0 where
  receipt : Text → Minted
  refused : MintError → Minted

-- The loop that draws blocks until one is new; a read past the end of the source fails.
unfoldable pub draw : List Entry → Capability → ℕ → List (List ℕ) → List Entry × Minted
unfolding hex
draw entries cap now [] = (entries, refused unavailable)
draw entries cap now (id ∷ blocks) = elim (any (has_receipt id) entries) [
  | true ↦ draw entries cap now blocks
  | false ↦ (entries ++ record { id = id; cap = cap; minted = now } ∷ [], receipt (hex id))
]

unfoldable pub draw_opened :
    List Entry → Capability → ℕ → Option (List (List ℕ)) → List Entry × Minted
unfolding draw
draw_opened entries cap now none = (entries, refused unavailable)
draw_opened entries cap now (some blocks) = draw entries cap now blocks

-- `entropy` is what `/dev/urandom` yields, in blocks of `receipt_len` bytes; `none` where it
-- cannot be opened.
unfoldable pub mint : ReceiptTable → Capability → ℕ → Option (List (List ℕ)) → ReceiptTable × Minted
unfolding sweep draw_opened
mint table cap now entropy =
    let swept = sweep table now in
    if leb max_receipts (length swept.entries)
    then (swept, refused would_block)
    else let (entries, minted) = draw_opened swept.entries cap now entropy in
      (record { entries = entries }, minted)

-- The scan over all entries: the masks keep the position of the first one that matches.
unfoldable pub scan : List ℕ → ℕ → ℕ → Bool → List Entry → ℕ × Bool
scan presented index position found [] = (position, found)
scan presented index position found (entry ∷ entries) =
    let hit = has_receipt presented entry in
    scan presented (suc index) (select (mask_of (hit && not found)) position index) (found || hit)
      entries

-- The end of `redeem`, with what the scan found.
unfoldable pub consume : List Entry → Capability → ℕ × Bool → List Entry × Option Capability
consume entries expected (position, false) = (entries, none)
consume entries expected (position, true) = elim (get_elem? entries position) [
  | none ↦ (entries, none)
  | some entry ↦
      if entry.cap == expected
      then (swap_remove entries position, some entry.cap)
      else (entries, none)
]

unfoldable pub redeem : ReceiptTable → Text → Capability → ℕ → ReceiptTable × Option Capability
unfolding sweep
redeem table receipt_hex expected_cap now =
    let swept = sweep table now in
    elim (parse_hex receipt_hex) [
      | none ↦ (swept, none)
      | some presented ↦
          let (entries, cap) =
            consume swept.entries expected_cap (scan presented 0 0 false swept.entries) in
          (record { entries = entries }, cap)
    ]
