-- ===== src/Tests/Server.antt =====
-- A server that keeps streams, one for each name.
use native.Mathlib.Decide.{ℕ_discrete}
use openwar.Common.{
  ℕ, ◌≡◌, refl, ap, sym, subst, ◌∙◌, false, Option, none, some, List, [], ◌∷◌, ◌++◌, Bool-cases,
  Option-cases, inl, inr, if◌then◌else◌, arith,
}
use openwar.Common.Text.{Text, codes, text_eq, text_eq_self, eq_of_text_eq}
use openwar.Streams.{Stream, defs, is_already_exists, setup, setup_loop}
use openwar.Streams.Again.{IsServer}

Stream_discrete : Discrete Stream
Stream_discrete = hlevel ℕ_discrete

abbrev find_stream : Text → List Stream → Option Stream
find_stream n [] = none
find_stream n (d ∷ ds) = if text_eq d.name n then some d else find_stream n ds

-- The answer on a stream that has the name already.
abbrev answer : {e d : Stream} → Dec (e ≡ d) → Option Text
answer (yes same) = none
answer (no other) = some (codes "nats: stream name already in use")

unfoldable pub add_kept : Stream → List Stream → Option Text × List Stream
unfolding Stream_discrete
add_kept d s = elim (find_stream d.name s) [
  | none ↦ (none, d ∷ s)
  | some e ↦ (answer (Stream_discrete e d), s)
]

abbrev pub IsKept : Stream → List Stream → Type 0
IsKept e s = find_stream e.name s ≡ some e

add_kept-new :
    (d : Stream) (s : List Stream) → find_stream d.name s ≡ none → add_kept d s ≡ (none, d ∷ s)
unfolding add_kept
add_kept-new d s h = rw (add_kept, h) refl

add_kept-old :
    (d e : Stream) (s : List Stream)
    → find_stream d.name s ≡ some e
    → add_kept d s ≡ (answer (Stream_discrete e d), s)
unfolding add_kept
add_kept-old d e s h = rw (add_kept, h) refl

answer-same : (e d : Stream) (x : Dec (e ≡ d)) → e ≡ d → answer x ≡ none
answer-same e d (yes same) q = refl
answer-same e d (no other) q = absurd (other q)

answer-none : (e d : Stream) (x : Dec (e ≡ d)) → answer x ≡ none → e ≡ d
answer-none e d (yes same) q = same
answer-none e d (no other) q = cc

answer-other :
    (e d : Stream) (x : Dec (e ≡ d))
    → ¬ (e ≡ d)
    → answer x ≡ some (codes "nats: stream name already in use")
answer-other e d (yes same) q = absurd (q same)
answer-other e d (no other) q = refl

first : Option Text → ℕ
first (some (c ∷ t)) = c
first _ = 0

answer-text :
    (e d : Stream) (x : Dec (e ≡ d)) (t : Text) → ¬ (answer x ≡ some (codes "stream " ++ t))
unfolding first
answer-text e d (yes same) t q = cc
answer-text e d (no other) t q = let n : 110 ≡ 115 = ap first q in absurd (omega (arith, n))

add_kept-adds : (d : Stream) (s : List Stream) → (add_kept d s).0 ≡ none → IsKept d (add_kept d s).1
add_kept-adds d s q = elim (Option-cases (find_stream d.name s)) [
  | inl h ↦ rw (add_kept-new d s h) (rw text_eq_self refl)
  | inr (e, h) ↦
      let same =
        answer-none e d _
          (ap (λ (r : Option Text × List Stream). r.0) (sym (add_kept-old d e s h)) ∙ q) in
      rw (add_kept-old d e s h) (h ∙ ap (λ (x : Stream). some x) same)
]

add_kept-keeps : (d e : Stream) (s : List Stream) → IsKept e s → IsKept e (add_kept d s).1
add_kept-keeps d e s k = elim (Option-cases (find_stream d.name s)) [
  | inl h ↦ rw (add_kept-new d s h) (elim (Bool-cases (text_eq d.name e.name)) [
    | inl y ↦
        let same = eq_of_text_eq d.name e.name y in
        let clash : none ≡ some e = sym (subst (λ n. find_stream n s ≡ none) same h) ∙ k in cc
    | inr n ↦ rw n k
  ])
  | inr (f, h) ↦ rw (add_kept-old d f s h) k
]

add_kept-text :
    (d : Stream) (s : List Stream) (t : Text) → ¬ ((add_kept d s).0 ≡ some (codes "stream " ++ t))
add_kept-text d s t q = elim (Option-cases (find_stream d.name s)) [
  | inl h ↦
      let clash : none ≡ some (codes "stream " ++ t) =
        ap (λ (r : Option Text × List Stream). r.0) (sym (add_kept-new d s h)) ∙ q in
      cc
  | inr (e, h) ↦
      answer-text e d (Stream_discrete e d) t
        (ap (λ (r : Option Text × List Stream). r.0) (sym (add_kept-old d e s h)) ∙ q)
]

pub add_kept-IsServer : IsServer add_kept IsKept
add_kept-IsServer = record {
  added = add_kept-adds;
  kept = add_kept-keeps;
  there = λ d s h. add_kept-old d d s h ∙ ap (λ (a : Option Text). (a, s)) (answer-same d d _ refl);
  in_use = λ d e s h same other.
      add_kept-old d e s (subst (λ n. find_stream n s ≡ some e) same h)
      ∙ ap (λ (a : Option Text). (a, s)) (answer-other e d _ other);
  prefixed = add_kept-text;
}

-- `Setup` fails where a stream of an age of its own has the name already, and leaves it.
abbrev ageless : Stream
ageless = record {
  name = codes "ORDERS";
  subjects = codes "orders.created" ∷ codes "orders.cancelled" ∷ [];
  max_age = 0;
  allow_msg_ttl = false;
}

in_the_way :
    setup add_kept (ageless ∷ []) ≡ (some (codes "nats: stream name already in use"), ageless ∷ [])
unfolding setup setup_loop defs is_already_exists add_kept text_eq Stream_discrete ℕ_discrete
in_the_way = refl
