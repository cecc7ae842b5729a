-- ===== src/Receipts/Redeem.antt =====
-- `ReceiptTable::redeem`: the masked scan is a search, and a receipt is good for one redemption.
use secretsd.Base.{
  ℕ, suc, ◌+◌, ◌≤◌, ◌≡◌, refl, ap, ◌∙◌, Bool, true, false, not, ◌&&◌, ◌||◌, List, [], ◌∷◌, Option,
  none, some, Text, ◌==◌, Bytes_eq, if◌then◌else◌, find, count, length, length-retain-le, arith,
  inl, inr, Bool-cases, Option-cases, select-mask_of, u64_max, find_index, find_index-none, ◌⊎◌,
  get_elem?, get_elem?-find_index, swap_remove, count-swap_remove, any-count, find-none, find_holds,
  any-retain, length-count, count-retain-le,
}
use native.Mathlib.Nat.{le_trans, zero-add}
use secretsd.Names.Capability.{Capability, Capability_eq}
use secretsd.Receipts.{
  Entry, ReceiptTable, is_fresh, sweep, parse_hex, has_receipt, scan, consume, redeem,
}

-- What the scan has found, and where, from the index of the first entry on.
abbrev located : ℕ → ℕ → Option ℕ → ℕ × Bool
located index position none = (position, false)
located index position (some k) = (index + k, true)

scan-find_index :
    (presented : List ℕ) (index position : ℕ) (found : Bool) (entries : List Entry)
    → position ≤ u64_max
    → index + length entries ≤ u64_max
    → scan presented index position found entries ≡ (
        if found
        then (position, true)
        else located index position (find_index (has_receipt presented) entries))
unfolding scan
scan-find_index presented index position true [] p h = refl
scan-find_index presented index position false [] p h = refl
scan-find_index presented index position found (entry ∷ entries) p h =
    let hit = has_receipt presented entry in
    let moved : ℕ = if hit && not found then index else position in
    rw (select-mask_of (hit && not found) position index p (omega arith)) (
      ground (
        arith,
        scan-find_index presented (suc index) moved (found || hit) entries,
        find_index (has_receipt presented) entries,
      ))

-- The receipt of an entry, if it attests the capability.
abbrev pub attested : Capability → Option Entry → Option Capability
attested expected none = none
attested expected (some entry) = if entry.cap == expected then some entry.cap else none

abbrev pub attested_by : Capability → List Entry → Option (List ℕ) → Option Capability
attested_by expected entries none = none
attested_by expected entries (some presented) =
    attested expected (find (has_receipt presented) entries)

-- What a redemption leaves behind: all entries, or those without the one that it took.
abbrev Outcome : List ℕ → Capability → List Entry → List Entry × Option Capability → Type 0
Outcome presented expected entries result =
    ((attested expected (find (has_receipt presented) entries) ≡ none) × (result ≡ (entries, none)))
    ⊎ ((k : ℕ) × (entry : Entry) × (get_elem? entries k ≡ some entry)
        × (find (has_receipt presented) entries ≡ some entry)
        × ((entry.cap == expected) ≡ true)
        × (result ≡ (swap_remove entries k, some entry.cap)))

consume-Outcome :
    (presented : List ℕ) (expected : Capability) (entries : List Entry)
    → length entries ≤ u64_max
    → Outcome presented expected entries
        (consume entries expected (scan presented 0 0 false entries))
unfolding consume
consume-Outcome presented expected entries h =
    rw (scan-find_index presented 0 0 false entries (omega arith) (omega arith))
      (elim (Option-cases (find_index (has_receipt presented) entries)) [
        | inl e ↦ rw e (inl (rw (find_index-none _ entries e), refl))
        | inr (k, e) ↦
            let at = (get_elem?-find_index (has_receipt presented) entries k e).0 in
            rw (e, zero-add k)
              (elim (Option-cases (find (has_receipt presented) entries)) [
                | inl n ↦ inl (rw n, rw (at ∙ n, consume))
                | inr (entry, f) ↦ elim (Bool-cases (entry.cap == expected)) [
                  | inl fits ↦ inr (k, entry, at ∙ f, f, fits, rw (at ∙ f, consume) (rw fits))
                  | inr other ↦ inl (rw f (rw other), rw (at ∙ f, consume) (rw other))
                ]
              ])
      ])

redeem_malformed :
    (table : ReceiptTable) (text : Text) (expected : Capability) (now : ℕ)
    → parse_hex text ≡ none
    → redeem table text expected now ≡ (sweep table now, none)
unfolding redeem
redeem_malformed table text expected now e = rw (e, redeem)

abbrev scan_result : ReceiptTable → Capability → ℕ → List ℕ → List Entry × Option Capability
scan_result table expected now presented =
    let entries = (sweep table now).entries in
    consume entries expected (scan presented 0 0 false entries)

redeem_parsed :
    (table : ReceiptTable) (text : Text) (expected : Capability) (now : ℕ) (presented : List ℕ)
    → parse_hex text ≡ some presented
    → redeem table text expected now ≡ (
      record { entries = (scan_result table expected now presented).0 },
      (scan_result table expected now presented).1,
    )
unfolding redeem
redeem_parsed table text expected now presented e = rw (e, redeem)

scanned :
    (table : ReceiptTable) (expected : Capability) (now : ℕ) (presented : List ℕ)
    → length table.entries ≤ u64_max
    → Outcome presented expected
        (sweep table now).entries
        (scan_result table expected now presented)
unfolding sweep
scanned table expected now presented h =
    consume-Outcome presented expected _
      (le_trans (length-retain-le (is_fresh now) table.entries) h)

-- With at most 2^64 - 1 entries, `redeem` returns the capability of the first unexpired entry with
-- the presented receipt, if that is the expected one, and nothing otherwise.
pub redeem_result :
    (table : ReceiptTable) (text : Text) (expected : Capability) (now : ℕ)
    → length table.entries ≤ u64_max
    → (redeem table text expected now).1
      ≡ attested_by expected (sweep table now).entries (parse_hex text)
redeem_result table text expected now h = elim (Option-cases (parse_hex text)) [
  | inl e ↦ rw (redeem_malformed table text expected now e, e)
  | inr (presented, e) ↦
      rw (redeem_parsed table text expected now presented e, e)
        (elim (scanned table expected now presented h) [
          | inl (none_fits, r) ↦ rw (r, none_fits)
          | inr (k, entry, at, f, fits, r) ↦ rw (r, f) (rw fits)
        ])
]

-- A redemption that returns nothing removes no unexpired receipt.
pub redeem_refused :
    (table : ReceiptTable) (text : Text) (expected : Capability) (now : ℕ)
    → length table.entries ≤ u64_max
    → (redeem table text expected now).1 ≡ none
    → (redeem table text expected now).0 ≡ sweep table now
redeem_refused table text expected now h e = elim (Option-cases (parse_hex text)) [
  | inl bad ↦ ap (λ r. r.0) (redeem_malformed table text expected now bad)
  | inr (presented, good) ↦
      let step = redeem_parsed table text expected now presented good in
      elim (scanned table expected now presented h) [
        | inl (_, r) ↦ rw (step, r)
        | inr (k, entry, at, f, fits, r) ↦ absurd (cc (step, r, e))
      ]
]

-- No two entries have the same receipt.
abbrev pub IsDistinct : ReceiptTable → Type 0
IsDistinct table = (presented : List ℕ) → count (has_receipt presented) table.entries ≤ 1

-- A redemption adds no entry of any kind.
pub count-redeem-le :
    (p : Entry → Bool) (table : ReceiptTable) (text : Text) (expected : Capability) (now : ℕ)
    → length table.entries ≤ u64_max
    → count p (redeem table text expected now).0.entries ≤ count p table.entries
unfolding sweep
count-redeem-le p table text expected now h =
    let swept = count-retain-le p (is_fresh now) table.entries in
    elim (Option-cases (parse_hex text)) [
      | inl bad ↦ rw (redeem_malformed table text expected now bad) swept
      | inr (presented, good) ↦
          rw (redeem_parsed table text expected now presented good)
            (elim (scanned table expected now presented h) [
              | inl (_, r) ↦ rw r swept
              | inr (k, entry, at, f, fits, r) ↦
                  rw r
                    (omega (arith, count-swap_remove p (sweep table now).entries k entry at, swept))
            ])
    ]

pub redeem-IsDistinct :
    (table : ReceiptTable) (text : Text) (expected : Capability) (now : ℕ)
    → length table.entries ≤ u64_max
    → IsDistinct table
    → IsDistinct (redeem table text expected now).0
redeem-IsDistinct table text expected now h d presented =
    le_trans (count-redeem-le (has_receipt presented) table text expected now h) (d presented)

length-redeem-le :
    (table : ReceiptTable) (text : Text) (expected : Capability) (now : ℕ)
    → length table.entries ≤ u64_max
    → length (redeem table text expected now).0.entries ≤ u64_max
length-redeem-le table text expected now h = omega (
  arith,
  count-redeem-le (λ _. true) table text expected now h,
  length-count (redeem table text expected now).0.entries,
  length-count table.entries,
)

-- After a redemption no entry has the receipt any more.
redeemed_gone :
    (table : ReceiptTable) (text : Text) (expected cap : Capability) (now : ℕ) (presented : List ℕ)
    → length table.entries ≤ u64_max
    → IsDistinct table
    → parse_hex text ≡ some presented
    → (redeem table text expected now).1 ≡ some cap
    → count (has_receipt presented) (redeem table text expected now).0.entries ≡ 0
unfolding sweep
redeemed_gone table text expected cap now presented h d good e =
    let step = redeem_parsed table text expected now presented good in
    elim (scanned table expected now presented h) [
      | inl (_, r) ↦ absurd (cc (step, r, e))
      | inr (k, entry, at, f, fits, r) ↦
          let entries = (sweep table now).entries in
          rw (step, r)
            (ground (
              arith,
              count-swap_remove (has_receipt presented) entries k entry at,
              find_holds (has_receipt presented) entries entry f,
              count-retain-le (has_receipt presented) (is_fresh now) table.entries,
              d presented,
            ))
    ]

-- A receipt that was redeemed is not redeemed again, whatever capability is expected then, in a
-- table without duplicate receipts and with at most 2^64 - 1 of them.
pub redeem_once :
    (table : ReceiptTable) (text : Text) (expected other cap : Capability) (now later : ℕ)
    → length table.entries ≤ u64_max
    → IsDistinct table
    → (redeem table text expected now).1 ≡ some cap
    → (redeem (redeem table text expected now).0 text other later).1 ≡ none
unfolding sweep
redeem_once table text expected other cap now later h d e =
    let after = (redeem table text expected now).0 in
    let short = length-redeem-le table text expected now h in
    elim (Option-cases (parse_hex text)) [
      | inl bad ↦ ap (λ r. r.1) (redeem_malformed after text other later bad)
      | inr (presented, good) ↦
          let gone =
            any-count (has_receipt presented) after.entries
              (redeemed_gone table text expected cap now presented h d good e) in
          redeem_result after text other later short
          ∙ rw (
            good,
            find-none (has_receipt presented) (sweep after later).entries
                (any-retain (has_receipt presented) (is_fresh later) after.entries gone),
          )
    ]
