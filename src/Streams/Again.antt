-- ===== src/Streams/Again.antt =====
-- `Setup` on a server where the streams are already there.
use openwar.Common.{
  ◌≡◌, refl, subst, ap, sym, ◌∙◌, inl, inr, true, false, Bool-cases, Option, none, some, List, [],
  ◌∷◌, ◌++◌, All, Option-cases, arith,
}
use openwar.Common.Text.{Text, codes, text_eq, eq_of_text_eq}
use openwar.Streams.{Stream, is_already_exists, is_there, setup_loop, setup, defs}

-- What is documented of AddStream. A stream that was added is there, and none is removed. A stream
-- that is there with the same configuration is answered without an error, and one of the same name
-- with another with an error; both change nothing, and are taken to be answered. An error of the
-- API has the prefix `nats: `, so that no error starts with the word `stream`. `Has` says which
-- streams are there.
pub record IsServer {ℓ} {S : Type ℓ} (add_stream : Stream → S → Option Text × S)
    (Has : Stream → S → Type 0) : Type ℓ where
  pub added : (d : Stream) (s : S) → (add_stream d s).0 ≡ none → Has d (add_stream d s).1
  pub kept : (d e : Stream) (s : S) → Has e s → Has e (add_stream d s).1
  pub there : (d : Stream) (s : S) → Has d s → add_stream d s ≡ (none, s)
  pub in_use :
      (d e : Stream) (s : S)
      → Has e s
      → e.name ≡ d.name
      → ¬ (e ≡ d)
      → add_stream d s ≡ (some (codes "nats: stream name already in use"), s)
  pub prefixed :
      (d : Stream) (s : S) (t : Text) → ¬ ((add_stream d s).0 ≡ some (codes "stream " ++ t))

-- An error that `isAlreadyExists` accepts.
bare : (e : Text) → is_already_exists e ≡ true → (t : Text) × (e ≡ codes "stream " ++ t)
unfolding is_already_exists
bare e y = elim (Bool-cases (text_eq e (codes "stream name already in use"))) [
  | inl same ↦ (codes "name already in use", eq_of_text_eq e _ same)
  | inr other ↦ (codes "already exists", eq_of_text_eq e _ (ground arith))
]

module _ {ℓ} {S : Type ℓ} (add_stream : Stream → S → Option Text × S) (Has : Stream → S → Type 0)
    (V : IsServer add_stream Has) where
  abbrev loop : List Stream → S → Option Text × S
  loop = setup_loop add_stream

  -- A round of the loop by the answer of AddStream.
  loop_on :
      (d : Stream) (ds : List Stream) (s : S)
      → is_there add_stream (add_stream d s).0 ≡ true
      → loop (d ∷ ds) s ≡ loop ds (add_stream d s).1
  unfolding setup_loop
  loop_on d ds s y = rw y refl

  loop_stops :
      (d : Stream) (ds : List Stream) (s : S)
      → is_there add_stream (add_stream d s).0 ≡ false
      → loop (d ∷ ds) s ≡ add_stream d s
  unfolding setup_loop
  loop_stops d ds s y = rw y refl

  -- The loop of `Setup` goes on only where there is no error.
  goes_on :
      (d : Stream) (s : S)
      → is_there add_stream (add_stream d s).0 ≡ true
      → (add_stream d s).0 ≡ none
  goes_on d s y = elim (Option-cases (add_stream d s).0) [
    | inl n ↦ n
    | inr (e, q) ↦
        let (t, b) = bare e (sym (rw q refl) ∙ y) in
        absurd (V.prefixed d s t (q ∙ ap (λ (x : Text). some x) b))
  ]

  -- An answer that stops the loop is an error.
  is_error : (r : Option Text) → is_there add_stream r ≡ false → ¬ (r ≡ none)
  is_error none n e = cc
  is_error (some x) n e = cc

  kept_all : (ds : List Stream) (n : Stream) (s : S) → Has n s → Has n (loop ds s).1
  unfolding setup_loop
  kept_all [] n s h = h
  kept_all (d ∷ ds) n s h = elim (Bool-cases (is_there add_stream (add_stream d s).0)) [
    | inl y ↦ rw (loop_on d ds s y) (kept_all ds n (add_stream d s).1 (V.kept d n s h))
    | inr y ↦ rw (loop_stops d ds s y) (V.kept d n s h)
  ]

  added-All : (ds : List Stream) (s : S) → (loop ds s).0 ≡ none → All (λ d. Has d (loop ds s).1) ds
  added-All [] s e = tt
  added-All (d ∷ ds) s e = elim (Bool-cases (is_there add_stream (add_stream d s).0)) [
    | inl y ↦
        let s' = (add_stream d s).1 in
        let e' = ap (λ (r : Option Text × S). r.0) (sym (loop_on d ds s y)) ∙ e in
        subst (λ r. All (λ x. Has x r.1) (d ∷ ds)) (sym (loop_on d ds s y))
          (kept_all ds d s' (V.added d s (goes_on d s y)), added-All ds s' e')
    | inr y ↦
        absurd (is_error _ y (ap (λ (r : Option Text × S). r.0) (sym (loop_stops d ds s y)) ∙ e))
  ]

  there-All : (ds : List Stream) (s : S) → All (λ d. Has d s) ds → loop ds s ≡ (none, s)
  unfolding setup_loop
  there-All [] s h = refl
  there-All (d ∷ ds) s h =
      loop_on d ds s (rw (V.there d s h.0) refl)
      ∙ ap (λ (r : Option Text × S). loop ds r.1) (V.there d s h.0)
      ∙ there-All ds s h.1

  -- No stream has the name of one of these with another configuration.
  abbrev pub IsClear : S → List Stream → Type 0
  IsClear s ds = (e : Stream) → All (λ d. ¬ (Has e s × (e.name ≡ d.name) × ¬ (e ≡ d))) ds

  All-IsClear :
      (ds : List Stream) (s s' : S)
      → ((e : Stream) → Has e s → Has e s')
      → All (λ d. Has d s') ds
      → IsClear s ds
  All-IsClear [] s s' k h e = tt
  All-IsClear (d ∷ ds) s s' k h e = (
    λ (x, same, other).
        let no : some (codes "nats: stream name already in use") ≡ none =
          ap (λ (r : Option Text × S). r.0)
            (sym (V.in_use d e s' (k e x) same other) ∙ V.there d s' h.0) in
        cc,
    All-IsClear ds s s' k h.1 e,
  )

  -- Once `Setup` has succeeded, every stream is there, with its configuration; none had one of the names
  -- with another; and a further `Setup` succeeds and changes nothing.
  pub setup_again :
      (s : S)
      → (setup add_stream s).0 ≡ none
      → IsClear s defs
        × All (λ d. Has d (setup add_stream s).1) defs
        × (setup add_stream (setup add_stream s).1 ≡ (none, (setup add_stream s).1))
  unfolding setup
  setup_again s q =
      let h = added-All defs s q in
      (
        All-IsClear defs s (setup add_stream s).1 (λ e. kept_all defs e s) h,
        h,
        there-All defs (setup add_stream s).1 h,
      )
