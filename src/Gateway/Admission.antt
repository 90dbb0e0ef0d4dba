-- ===== src/Gateway/Admission.antt =====
-- What a purchase needs to pass the chain, and that an admission passes one purchase.
use openwar.Common.{
  ℕ, ◌≡◌, ◌≢◌, refl, ap, sym, ◌∙◌, subst, ◌⊎◌, inl, inr, false, Option, none, some, List,
  Bool-cases,
}
use openwar.Common.Text.{Text, codes, is_empty}
use openwar.Common.Text.Last.{cut_prefix}
use openwar.Redis.{Redis, IsLawful, Net, fine, lost, cut, call, absent, exists}
use openwar.Lua.{Item}
use openwar.Room.{consume_admission}
use openwar.Room.Keys.{admit_key}
use openwar.Room.Tokens.{IsToken, consume_admission_lem}
use openwar.Gateway.{
  Request, Answer, denied, answered, Handler, jwt, admission, event_of_path, FailStrategy,
  token_bucket, protected, chain,
}

module _ {ℓ κ} {S : Type ℓ} {A : Type κ} (parse : Text → Option Text) (next : Handler S A)
    (req : Request) (s : S) where
  -- `JWT` refuses, or hands the request on with a user.
  abbrev pub Passes : Answer A × S → Type (ℓ ⊔ κ)
  Passes r = (r ≡ (denied 401, s)) ⊎ ((uid : Text) × (r ≡ next (record req { user = uid }) s))

  jwt_parsed :
      (t : Text) (o : Option Text)
      → cut_prefix req.authorization (codes "Bearer ") ≡ some t
      → is_empty t ≡ false
      → parse t ≡ o
      → Passes (jwt parse next req s)
  unfolding jwt
  jwt_parsed t none e y p = inl (rw (e, y, p, jwt) refl)
  jwt_parsed t (some uid) e y p = elim (Bool-cases (is_empty uid)) [
    | inl z ↦ inl (rw (e, y, p, z, jwt) refl)
    | inr z ↦ inr (uid, rw (e, y, p, z, jwt) refl)
  ]

  pub jwt_cases : Passes (jwt parse next req s)
  unfolding jwt
  jwt_cases = go (cut_prefix req.authorization (codes "Bearer ")) refl
    where
      go :
          (o : Option Text)
          → cut_prefix req.authorization (codes "Bearer ") ≡ o
          → Passes (jwt parse next req s)
      go none e = inl (rw (e, jwt) refl)
      go (some t) e = elim (Bool-cases (is_empty t)) [
        | inl y ↦ inl (rw (e, y, jwt) refl)
        | inr y ↦ jwt_parsed t (parse t) e y refl
      ]

module _ (R : Redis) (L : IsLawful R) (event sid : Text) (d : R.Db) where
  -- No trip finds a token that is not there.
  no_token :
      (net : Net)
      → R.look d (admit_key event sid) ≡ absent
      → ((consume_admission R event net sid d).0 ≡ none)
        ⊎ ((consume_admission R event net sid d).0 ≡ some false)
  unfolding consume_admission call
  no_token fine n =
      let t : IsToken (R.look d (admit_key event sid)) = subst IsToken (sym n) tt in
      inr ((consume_admission_lem R L event sid d t).0 ∙ ap (λ v. some (exists v)) n)
  no_token lost n = inl refl
  no_token cut n = inl refl

abbrev Denies {κ} : {A : Type κ} → Answer A → Type κ
Denies {A = A} a = (b : A) → a ≢ answered b

denied_ne {κ} : {A : Type κ} (n : ℕ) → Denies {A = A} (denied n)
denied_ne n b e = cc

module _ {ℓ κ} {E : Type ℓ} {A : Type κ} (R : Redis) (L : IsLawful R) (net : Net) where
  admission_refused :
      (next : Handler (R.Db × E) A) (req : Request) (d : R.Db) (e : E)
      → R.look d (admit_key (event_of_path req) req.session) ≡ absent
      → Denies (admission R net next req (d, e)).0
  unfolding admission
  admission_refused next req d e n = elim (Bool-cases (is_empty (event_of_path req))) [
    | inl x ↦ rw (x, admission) (denied_ne 400)
    | inr x ↦ elim (Bool-cases (is_empty req.session)) [
      | inl y ↦ rw (x, y, admission) (denied_ne 401)
      | inr y ↦ elim (no_token R L (event_of_path req) req.session d net n) [
        | inl r ↦ rw (x, y, r, admission) (denied_ne 403)
        | inr r ↦ rw (x, y, r, admission) (denied_ne 403)
      ]
    ]
  ]

  -- Without an admission token of its session and event no purchase passes the chain, whatever else it
  -- carries and however the trip to Redis goes.
  pub protected_needs_token :
      (parse : Text → Option Text) (fs : FailStrategy)
      (script : Text → R.Db × E → Option (List Item) × (R.Db × E)) (next : Handler (R.Db × E) A)
      (req : Request) (d : R.Db) (e : E)
      → R.look d (admit_key (event_of_path req) req.session) ≡ absent
      → (b : A) → (protected R parse net fs script next req (d, e)).0 ≢ answered b
  unfolding protected chain
  protected_needs_token parse fs script next req d e n b =
      elim (jwt_cases parse (admission R net (token_bucket fs script next)) req (d, e)) [
        | inl r ↦ λ q. denied_ne 401 b (sym (ap (λ (x : Answer A × (R.Db × E)). x.0) r) ∙ q)
        | inr (uid, r) ↦ λ q.
            admission_refused (token_bucket fs script next) (record req { user = uid }) d e n b
              (sym (ap (λ (x : Answer A × (R.Db × E)). x.0) r) ∙ q)
      ]
