-- ===== src/Tests/Values.antt =====
-- Receipts, names and failure codes.
use secretsd.Base.{
  ℕ, ◌≤◌, ◌≡◌, refl, Bool, List, [], ◌∷◌, none, some, Text, bytes, arith, length, count, All,
  Bytes-discrete, ℕ_discrete, ℕ_eq,
}
use secretsd.Names.Capability.{Capability}
use secretsd.Receipts.{
  ReceiptTable, Entry, sweep, mint, draw, redeem, receipt, Minted, hex, parse_hex, parse_pairs,
  receipt_len, scan, consume, max_receipts,
}
use secretsd.Receipts.Redeem.{redeem_result, redeem_once, attested_by, IsDistinct}
use secretsd.Receipts.Hex.{IsByte}
use secretsd.Receipts.Supply.{redeem-mint, mint_keeps, IsBlock, mint_succeeds}
use secretsd.Tests.Data.{deploy}

-- 32 bytes.
abbrev block : List ℕ
block =
    1 ∷ 2 ∷ 3 ∷ 4 ∷ 5 ∷ 6 ∷ 7 ∷ 8 ∷ 9 ∷ 10 ∷ 11 ∷ 12 ∷ 13 ∷ 14 ∷ 15 ∷ 16 ∷ 17 ∷ 18 ∷ 19 ∷ 20 ∷ 21
    ∷ 22 ∷ 23 ∷ 24 ∷ 25 ∷ 26 ∷ 27 ∷ 28 ∷ 29 ∷ 30 ∷ 31 ∷ 255 ∷ []

block-IsByte : All IsByte block
block-IsByte = ground arith

abbrev no_receipts : ReceiptTable
no_receipts = record { entries = [] }

no_receipts-IsDistinct : IsDistinct no_receipts
no_receipts-IsDistinct presented = omega arith

block-IsBlock : IsBlock block
block-IsBlock = (refl, block-IsByte)

redeem-mint_example :
    (redeem (mint no_receipts deploy 5 (some (block ∷ []))).0 (hex block) deploy 9).1 ≡ some deploy
unfolding mint sweep draw secretsd.Receipts.draw_opened
redeem-mint_example =
    redeem-mint no_receipts deploy 5 9 (block ∷ []) (hex block) (omega arith) no_receipts-IsDistinct
      (block-IsBlock, tt) refl (omega arith)

abbrev minted : ReceiptTable
minted = (mint no_receipts deploy 5 (some (block ∷ []))).0

minted_keeps :
    IsDistinct minted
    × (length minted.entries ≤ max_receipts)
    × ((p : Entry → Bool) → count p (sweep no_receipts 5).entries ≤ count p minted.entries)
minted_keeps =
    mint_keeps no_receipts deploy 5 (some (block ∷ [])) no_receipts-IsDistinct (omega arith)

abbrev other_cap : Capability
other_cap = record { as_str = bytes "x" }

redeem_result_example :
    (redeem minted (hex block) other_cap 9).1
    ≡ attested_by other_cap (sweep minted 9).entries (parse_hex (hex block))
redeem_result_example = redeem_result minted (hex block) other_cap 9 (omega (arith, minted_keeps.1))

redeem_once_example : (redeem (redeem minted (hex block) deploy 9).0 (hex block) deploy 10).1 ≡ none
redeem_once_example =
    redeem_once minted (hex block) deploy deploy deploy 9 10 (omega (arith, minted_keeps.1))
      minted_keeps.0 redeem-mint_example

mint_succeeds_example :
    (text : Text) × ((mint minted deploy 9 (some (block ∷ (2 ∷ []) ∷ []))).1 ≡ receipt text)
unfolding mint sweep draw secretsd.Receipts.draw_opened Bytes-discrete ℕ_discrete
mint_succeeds_example = mint_succeeds minted deploy 9 (block ∷ (2 ∷ []) ∷ []) (omega arith) refl

mint_keeps_example :
    IsDistinct (mint minted deploy 9 (some (block ∷ (2 ∷ []) ∷ []))).0
    × (length (mint minted deploy 9 (some (block ∷ (2 ∷ []) ∷ []))).0.entries ≤ max_receipts)
    × ((p : Entry → Bool)
        → count p (sweep minted 9).entries
          ≤ count p (mint minted deploy 9 (some (block ∷ (2 ∷ []) ∷ []))).0.entries)
mint_keeps_example =
    mint_keeps minted deploy 9 (some (block ∷ (2 ∷ []) ∷ [])) minted_keeps.0 minted_keeps.1
