-- ===== src/Seed/Owners.antt =====
-- The addresses of the demo users.
use openwar.Common.{◌≡◌, refl, true, false, Bool-cases, inl, inr, List, [], ◌∷◌, ◌&&◌, not, arith}
use openwar.Common.Text.{Text, codes, text_eq, text_eq_self, text_eq_iff, eq_of_text_eq}
use mathlib.Core.List.{append_cancel_right}
use openwar.Store.{any_text}
use openwar.Seed.{User, ids, email_taken, put_user, address}

-- Two demo users do not share an address.
own_address : (id k : Text) → text_eq (address id) (address k) && not (text_eq id k) ≡ false
own_address id k = elim (Bool-cases (text_eq (address id) (address k))) [
  | inl y ↦
      let q : id ≡ k =
        append_cancel_right id k (codes "@demo.openwar")
          (eq_of_text_eq (address id) (address k) y) in
      let p : text_eq id k ≡ true = (text_eq_iff id k).1 q in rw (y, p) refl
  | inr n ↦ rw n refl
]

-- No user but its owner has the address of a demo user.
abbrev pub IsOwned : List User → Type 0
IsOwned us = (id : Text) → email_taken id (address id) us ≡ false

pub put_user-IsOwned :
    (id name : Text) (us : List User)
    → IsOwned us
    → IsOwned (put_user (record { id = id; email = address id; full_name = name }) us)
unfolding put_user email_taken
put_user-IsOwned id name [] own k = rw (own_address id k) refl
put_user-IsOwned id name (v ∷ vs) own k =
    let others : IsOwned vs = λ j. ground (arith, own j) in
    elim (Bool-cases (text_eq v.id id)) [
      | inl y ↦ rw y (rw (own_address id k) (others k))
      | inr n ↦ rw n (ground (arith, own k, put_user-IsOwned id name vs others k))
    ]

pub put_user_self : (u : User) (us : List User) → any_text u.id (ids (put_user u us)) ≡ true
unfolding put_user any_text
put_user_self u [] = ground (arith, text_eq_self u.id)
put_user_self u (v ∷ vs) = elim (Bool-cases (text_eq v.id u.id)) [
  | inl y ↦ rw y (ground (arith, text_eq_self u.id))
  | inr n ↦ rw n (ground (arith, put_user_self u vs))
]

pub put_user_keeps :
    (k : Text) (u : User) (us : List User)
    → any_text k (ids us) ≡ true
    → any_text k (ids (put_user u us)) ≡ true
unfolding put_user any_text
put_user_keeps k u [] p = cc
put_user_keeps k u (v ∷ vs) p = elim (Bool-cases (text_eq v.id u.id)) [
  | inl y ↦ let q : v.id ≡ u.id = eq_of_text_eq v.id u.id y in rw y (rw q at p)
  | inr n ↦ rw n (ground (arith, put_user_keeps k u vs, p))
]
