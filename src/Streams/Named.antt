-- ===== src/Streams/Named.antt =====
-- The order ids that `Place` makes are parts of subjects.
use openwar.Common.{
  ℕ, ◌≡◌, refl, inl, inr, true, Bool-cases, Option, none, some, List, [], ◌∷◌, ◌++◌, All, take,
  arith,
}
use openwar.Common.Text.{Text, codes, is_empty}
use openwar.Common.Text.Decimal.{decimal, IsDigit, decimal-IsDigit}
use openwar.Order.Ids.{gen_order_id}
use openwar.Streams.Routes.{in_token, is_token}

in_token-append : (s t : Text) → in_token s ≡ true → in_token t ≡ true → in_token (s ++ t) ≡ true
in_token-append [] t a b = b
in_token-append (c ∷ s) t a b = ground (arith, in_token-append s t)

in_token-digits : (s : Text) → All IsDigit s → in_token s ≡ true
in_token-digits [] h = refl
in_token-digits (c ∷ s) ((lo, hi), h) = ground (arith, in_token-digits s h)

-- An order id is one part of a subject, given that hexadecimal digits are and that the request id has
-- none of the characters that NATS reserves.
pub gen_order_id-is_token :
    (hex : List ℕ → Text) (random : Option (List ℕ)) (now : ℕ) (rid : Text)
    → ((b : List ℕ) → in_token (hex b) ≡ true)
    → in_token rid ≡ true
    → is_token (gen_order_id hex random now rid) ≡ true
unfolding gen_order_id
gen_order_id-is_token hex none now rid h r = in_token-digits (decimal now) (decimal-IsDigit now)
gen_order_id-is_token hex (some b) now rid h r = elim (Bool-cases (is_empty rid)) [
  | inl e ↦ rw (e, gen_order_id) (h b)
  | inr e ↦
      rw (e, gen_order_id)
        (in_token-append (rid ++ codes "-") (hex (take 4 b))
          (in_token-append rid (codes "-") r refl) (h (take 4 b)))
]
