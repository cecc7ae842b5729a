-- ===== src/Receipts/Supply.antt =====
-- `ReceiptTable::mint`: capacity, distinct receipts, and that a minted receipt can be redeemed.
use secretsd.Base.{
  ℕ, ◌-◌, ◌≤◌, ◌<◌, ◌≡◌, refl, ap, ◌∙◌, eq_of_==, Bool, true, false, not, List, [], ◌∷◌, ◌++◌,
  Option, none, some, Text, ◌==◌, Bytes_eq, ==_refl, any, find, count, retain, length,
  length-retain-le, length-append, arith, inl, inr, Bool-cases, Option-cases, ◌⊎◌, leb, count-any,
  count-append, count-retain-le, All,
}
use mathlib.Core.Path.{subst}
use native.Mathlib.Nat.{le_trans}
use secretsd.Names.Capability.{Capability, Capability_eq}
use secretsd.Receipts.Hex.{parse_hex-hex, IsByte}
use secretsd.Receipts.Redeem.{IsDistinct, redeem_result}
use secretsd.Receipts.{
  Entry, ReceiptTable, is_fresh, sweep, clear, parse_hex, hex, has_receipt, redeem, mint, Minted,
  receipt, refused, would_block, unavailable, draw, max_receipts, receipt_len, receipt_ttl,
}

-- The entry that a draw adds.
abbrev entry_of : List ℕ → Capability → ℕ → Entry
entry_of id cap now = record { id = id; cap = cap; minted = now }

-- A draw ends with a new last entry, under a receipt that no entry has, or with no change.
abbrev Drawn : List Entry → Capability → ℕ → List (List ℕ) → List Entry × Minted → Type 0
Drawn entries cap now blocks result =
    (result ≡ (entries, refused unavailable))
    ⊎ ((id : List ℕ) × (any (has_receipt id) entries ≡ false)
        × (any (λ b. b == id) blocks ≡ true)
        × (result ≡ (entries ++ entry_of id cap now ∷ [], receipt (hex id))))

draw-Drawn :
    (entries : List Entry) (cap : Capability) (now : ℕ) (blocks : List (List ℕ))
    → Drawn entries cap now blocks (draw entries cap now blocks)
unfolding draw
draw-Drawn entries cap now [] = inl refl
draw-Drawn entries cap now (id ∷ blocks) = elim (Bool-cases (any (has_receipt id) entries)) [
  | inl known ↦
      rw (known, draw)
        (elim (draw-Drawn entries cap now blocks) [
          | inl e ↦ inl e
          | inr (other, fresh, drawn, e) ↦ inr (other, fresh, ground arith, e)
        ])
  | inr fresh ↦ rw (fresh, draw) (inr (id, fresh, ground arith, refl))
]

-- Any block that no entry has makes a draw succeed.
pub draw_succeeds :
    (entries : List Entry) (cap : Capability) (now : ℕ) (blocks : List (List ℕ))
    → any (λ b. not (any (has_receipt b) entries)) blocks ≡ true
    → (text : Text) × ((draw entries cap now blocks).1 ≡ receipt text)
unfolding draw
draw_succeeds entries cap now [] h = absurd (cc)
draw_succeeds entries cap now (id ∷ blocks) h = elim (Bool-cases (any (has_receipt id) entries)) [
  | inl known ↦ rw (known, draw) (draw_succeeds entries cap now blocks (ground arith))
  | inr fresh ↦ rw (fresh, draw) (hex id, refl)
]

mint_full :
    (table : ReceiptTable) (cap : Capability) (now : ℕ) (entropy : Option (List (List ℕ)))
    → leb max_receipts (length (sweep table now).entries) ≡ true
    → mint table cap now entropy ≡ (sweep table now, refused would_block)
unfolding mint
mint_full table cap now entropy full = rw full

mint_room :
    (table : ReceiptTable) (cap : Capability) (now : ℕ) (blocks : List (List ℕ))
    → leb max_receipts (length (sweep table now).entries) ≡ false
    → mint table cap now (some blocks) ≡ (
      record { entries = (draw (sweep table now).entries cap now blocks).0 },
      (draw (sweep table now).entries cap now blocks).1,
    )
unfolding mint
mint_room table cap now blocks room = rw room

-- With room for a receipt and some block that is no receipt yet, `mint` returns a receipt.
pub mint_succeeds :
    (table : ReceiptTable) (cap : Capability) (now : ℕ) (blocks : List (List ℕ))
    → length table.entries < max_receipts
    → any (λ b. not (any (has_receipt b) (sweep table now).entries)) blocks ≡ true
    → (text : Text) × ((mint table cap now (some blocks)).1 ≡ receipt text)
unfolding sweep
mint_succeeds table cap now blocks room fresh =
    let (text, e) = draw_succeeds (sweep table now).entries cap now blocks fresh in
    (
      text,
      rw
          (mint_room table cap now blocks
            (ground (arith, length-retain-le (is_fresh now) table.entries)))
          e,
    )

-- What `mint` leaves: the unexpired entries, and at most one new one under a new receipt.
abbrev Supplied : List Entry → Capability → ℕ → ReceiptTable → Type 0
Supplied entries cap now table =
    (table.entries ≡ entries)
    ⊎ ((id : List ℕ) × (any (has_receipt id) entries ≡ false)
        × (length entries < max_receipts)
        × (table.entries ≡ entries ++ entry_of id cap now ∷ []))

mint-Supplied :
    (table : ReceiptTable) (cap : Capability) (now : ℕ) (entropy : Option (List (List ℕ)))
    → Supplied (sweep table now).entries cap now (mint table cap now entropy).0
mint-Supplied table cap now entropy =
    elim (Bool-cases (leb max_receipts (length (sweep table now).entries))) [
      | inl full ↦ rw (mint_full table cap now entropy full) (inl refl)
      | inr room ↦ supplied entropy room
    ]
  where
    supplied :
        (entropy : Option (List (List ℕ)))
        → leb max_receipts (length (sweep table now).entries) ≡ false
        → Supplied (sweep table now).entries cap now (mint table cap now entropy).0
    supplied none room = inl (unfold mint in rw room)
    supplied (some blocks) room =
        rw (mint_room table cap now blocks room)
          (elim (draw-Drawn (sweep table now).entries cap now blocks) [
            | inl e ↦ inl (rw e)
            | inr (id, fresh, _, e) ↦ inr (id, fresh, ground arith, rw e)
          ])

-- In a table of distinct receipts within `max_receipts`, `mint` keeps the receipts distinct and
-- the table within the bound, and drops no unexpired one.
pub mint_keeps :
    (table : ReceiptTable) (cap : Capability) (now : ℕ) (entropy : Option (List (List ℕ)))
    → IsDistinct table
    → length table.entries ≤ max_receipts
    → IsDistinct (mint table cap now entropy).0
      × (length (mint table cap now entropy).0.entries ≤ max_receipts)
      × ((p : Entry → Bool)
          → count p (sweep table now).entries ≤ count p (mint table cap now entropy).0.entries)
unfolding sweep
mint_keeps table cap now entropy d room =
    let entries = (sweep table now).entries in
    let short = length-retain-le (is_fresh now) table.entries in
    elim (mint-Supplied table cap now entropy) [
      | inl e ↦ (
        λ presented. rw e (
            le_trans (count-retain-le (has_receipt presented) (is_fresh now) table.entries)
              (d presented)),
        rw e (omega (arith, short)),
        λ p. rw e (omega arith),
      )
      | inr (id, fresh, fits, e) ↦ (
        λ presented.
            rw (e, count-append (has_receipt presented) entries)
              (ground (
                arith,
                d presented,
                count-any (has_receipt id) entries,
                count-retain-le (has_receipt presented) (is_fresh now) table.entries,
              )),
        rw (e, length-append entries) (omega arith),
        λ p. rw (e, count-append p entries) (omega arith),
      )
    ]

-- A block that the entropy source can deliver: 32 bytes.
abbrev pub IsBlock : List ℕ → Type 0
IsBlock block = (length block ≡ receipt_len) × All IsByte block

IsBlock-of_any :
    (id : List ℕ) (blocks : List (List ℕ))
    → All IsBlock blocks
    → any (λ b. b == id) blocks ≡ true
    → IsBlock id
IsBlock-of_any id [] h e = absurd (cc)
IsBlock-of_any id (b ∷ blocks) h e = elim (Bool-cases (b == id)) [
  | inl same ↦ subst IsBlock (eq_of_== b id same) h.0
  | inr other ↦ IsBlock-of_any id blocks h.1 (ground arith)
]

-- The new entry is found among the unexpired ones while it is younger than a minute.
found_fresh :
    (entries : List Entry) (id : List ℕ) (cap : Capability) (now later : ℕ)
    → any (has_receipt id) entries ≡ false
    → later - now < receipt_ttl
    → find (has_receipt id) (retain (is_fresh later) (entries ++ entry_of id cap now ∷ []))
      ≡ some (entry_of id cap now)
found_fresh [] id cap now later absent young = ground (arith, ==_refl id)
found_fresh (e ∷ entries) id cap now later absent young =
    ground (arith, found_fresh entries id cap now later)

-- A receipt that was minted from blocks of 32 bytes redeems for its capability within a minute,
-- where the table held distinct receipts and at most `max_receipts`.
pub redeem-mint :
    (table : ReceiptTable) (cap : Capability) (now later : ℕ) (blocks : List (List ℕ)) (text : Text)
    → length table.entries ≤ max_receipts
    → IsDistinct table
    → All IsBlock blocks
    → (mint table cap now (some blocks)).1 ≡ receipt text
    → later - now < receipt_ttl
    → (redeem (mint table cap now (some blocks)).0 text cap later).1 ≡ some cap
unfolding sweep
redeem-mint table cap now later blocks text room d good e young =
    let entries = (sweep table now).entries in
    let after = (mint table cap now (some blocks)).0 in
    let short = (mint_keeps table cap now (some blocks) d room).1 in
    redeem_result after text cap later (omega (arith, short))
    ∙ elim (Bool-cases (leb max_receipts (length entries))) [
      | inl full ↦ absurd (cc (mint_full table cap now (some blocks) full, e))
      | inr free ↦
          let step = mint_room table cap now blocks free in
          elim (draw-Drawn entries cap now blocks) [
            | inl failed ↦ absurd (cc (step, failed, e))
            | inr (id, fresh, drawn, r) ↦
                let block = IsBlock-of_any id blocks good drawn in
                let printed : hex id ≡ text =
                  ground (arith, ap (λ m. m.1) step, ap (λ m. m.1) r, e) in
                let parsed : parse_hex text ≡ some id =
                  subst (λ t. parse_hex t ≡ some id) printed (parse_hex-hex id block.0 block.1) in
                let left : after.entries ≡ entries ++ entry_of id cap now ∷ [] =
                  ap (λ (m : ReceiptTable × Minted). m.0.entries) step
                  ∙ ap (λ (m : List Entry × Minted). m.0) r in
                rw (parsed, left, found_fresh entries id cap now later fresh young)
                  (rw (==_refl cap))
          ]
    ]

-- After `clear` no receipt redeems.
pub redeem-clear :
    (table : ReceiptTable) (text : Text) (expected : Capability) (now : ℕ)
    → (redeem (clear table) text expected now).1 ≡ none
unfolding clear sweep
redeem-clear table text expected now =
    redeem_result (clear table) text expected now (omega arith)
    ∙ elim (Option-cases (parse_hex text)) [ inl e ↦ rw e | inr (presented, e) ↦ rw e ]
