-- ===== src/Inventory/Parse.antt =====
-- `parseSKUFromInvKey` undoes the building of a shard's key.
use openwar.Common.{ℕ, ◌≡◌, refl, false, none, some, [], ◌∷◌, ◌++◌, arith, All}
use openwar.Common.Text.{Text, codes, is_empty}
use openwar.Common.Text.Decimal.{decimal, decimal-IsDigit, IsDigit}
use openwar.Common.Text.Last.{has_prefix, before_last, before_last-append, trim_prefix-append}
use openwar.Inventory.{parse_sku}
use openwar.Inventory.Keys.{inventory_key}

abbrev mark : Text
mark = codes ":shard:"

no_mark_in_digits : (s : Text) → All IsDigit s → before_last s mark ≡ none
unfolding before_last has_prefix
no_mark_in_digits [] h = refl
no_mark_in_digits (c ∷ s) h = rw (no_mark_in_digits s h.1) (ground arith)

mark_then_digits : (s : Text) → All IsDigit s → before_last (mark ++ s) mark ≡ some []
unfolding before_last has_prefix
mark_then_digits [] h = refl
mark_then_digits (c ∷ s) h = rw (no_mark_in_digits (c ∷ s) h) (ground arith)

-- For every sku that is not empty and every shard, whatever bytes the sku has, the sku read from the
-- key that `Reserve` returned is the sku that was asked for.
parse_sku-inventory_key :
    (sku : Text) (i : ℕ) → is_empty sku ≡ false → parse_sku (inventory_key sku i) ≡ some sku
unfolding parse_sku inventory_key
parse_sku-inventory_key sku i h = rw (
  parse_sku,
  trim_prefix-append (codes "inventory:") (sku ++ (mark ++ decimal i)),
  before_last-append sku _ mark (mark_then_digits (decimal i) (decimal-IsDigit i)),
  h,
)
