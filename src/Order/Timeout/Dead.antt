-- ===== src/Order/Timeout/Dead.antt =====
-- The key that a dead letter without a shard key is refunded to.
use openwar.Common.{
  ℕ, ◌+◌, ◌<◌, ◌≡◌, ◌↔◌, refl, sym, ap, ◌∙◌, subst, true, [], ◌∷◌, ◌++◌, All, arith,
}
use openwar.Common.Text.{codes, is_empty, append_cancel}
use openwar.Common.Text.Decimal.{decimal, decimal-IsDigit, IsDigit}
use openwar.Inventory.Keys.{inventory_key}
use openwar.Order.{Event}
use openwar.Order.Timeout.{rune_text, dead_key, shard_for_user}

rune_small : (n : ℕ) → n < 80 → rune_text (48 + n) ≡ (48 + n) ∷ []
unfolding rune_text
rune_small n h = ground arith

decimal_small : (n : ℕ) → n < 10 → decimal n ≡ (48 + n) ∷ []
unfolding decimal
decimal_small n h = ground arith

one_digit : (n : ℕ) → All IsDigit ((48 + n) ∷ []) → n < 10
one_digit n (d, e) = ground arith

dead_plain :
    (shards : ℕ) (ev : Event)
    → is_empty ev.shard_key ≡ true
    → dead_key shards ev
      ≡ codes "inventory:"
        ++ (ev.sku ++ (codes ":shard:" ++ rune_text (48 + shard_for_user ev.user_id shards)))
unfolding dead_key
dead_plain shards ev e = rw (e, dead_key) refl

-- A dead letter that names no shard is refunded to the counter of the user's home shard exactly when
-- that shard has an index below ten: from ten on the last character is not the index.
dead_key-inventory_key :
    (shards : ℕ) (ev : Event)
    → is_empty ev.shard_key ≡ true
    → shard_for_user ev.user_id shards < 80
    → (dead_key shards ev ≡ inventory_key ev.sku (shard_for_user ev.user_id shards))
      ↔ (shard_for_user ev.user_id shards < 10)
unfolding inventory_key
dead_key-inventory_key shards ev e h =
    let n = shard_for_user ev.user_id shards in
    let k = dead_plain shards ev e in
    (
      λ q. one_digit n (
          subst (All IsDigit)
            (sym (
              sym (rune_small n h)
              ∙ append_cancel (codes ":shard:") _ _
                  (append_cancel ev.sku _ _ (append_cancel (codes "inventory:") _ _ (sym k ∙ q)))))
            (decimal-IsDigit n)),
      λ l.
          k
          ∙ ap (λ s. codes "inventory:" ++ (ev.sku ++ (codes ":shard:" ++ s)))
              (rune_small n h ∙ sym (decimal_small n l)),
    )
