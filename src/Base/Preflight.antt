-- ===== src/Base/Preflight.antt =====
-- CORS preflights: no route takes the method OPTIONS, so that none reaches `CORS`.
use openwar.Common.{◌≡◌, refl, sym, ◌∙◌, ◌⊎◌, inl, inr, Option, some, Option-cases, List, [], ◌∷◌}
use openwar.Common.Text.{Text, codes}
use openwar.Base.{Exchange, Call, finished, Handler, routes, new_mux}

abbrev pub Has : Text × Text → List (Text × Text) → Type 0
Has r [] = ⊥
Has r (p ∷ ps) = (r ≡ p) ⊎ Has r ps

-- What net/http documents: a match is one of the patterns, and a pattern with a method matches that
-- method only, where GET matches HEAD too.
abbrev pub IsMatching : (List (Text × Text) → Text → Text → Option (Text × Text)) → Type 0
IsMatching match =
    (ps : List (Text × Text)) (m path : Text) (r : Text × Text)
    → match ps m path ≡ some r
    → Has r ps × ((r.0 ≡ m) ⊎ ((r.0 ≡ codes "GET") × (m ≡ codes "HEAD")))

not_options : (r : Text × Text) → Has r routes → r.0 ≡ codes "OPTIONS" → ⊥
not_options r (inl e) q = cc
not_options r (inr (inl e)) q = cc
not_options r (inr (inr (inl e))) q = cc
not_options r (inr (inr (inr (inl e)))) q = cc
not_options r (inr (inr (inr (inr (inl e))))) q = cc
not_options r (inr (inr (inr (inr (inr (inl e)))))) q = cc
not_options r (inr (inr (inr (inr (inr (inr e)))))) q = absurd e

-- Given that the mux matches as net/http documents (a match is one of the patterns, and has the
-- request's method, or GET for HEAD), an OPTIONS request to any path is refused by the mux: it
-- reaches neither `CORS`, nor the log, nor a handler.
pub preflight_refused {ℓ} :
    {S : Type ℓ} (match : List (Text × Text) → Text → Text → Option (Text × Text))
    (refuse : Exchange → Exchange) (error_headers : (Text → Text) → Text → Text) (new_id : Text)
    (origins : List Text) (handlers : Text × Text → Handler S) (path : Text) (c : Call)
    (e : Exchange) (s : S)
    → IsMatching match
    → c.method ≡ codes "OPTIONS"
    → new_mux match refuse error_headers new_id origins handlers path c e s ≡ finished (refuse e) s
unfolding new_mux
preflight_refused match refuse error_headers new_id origins handlers path c e s law m =
    elim (Option-cases (match routes c.method path)) [
      | inl n ↦ rw (n, new_mux) refl
      | inr (r, h) ↦
          let (has, method) = law routes c.method path r h in
          absurd
            (elim method [ inl q ↦ not_options r has (q ∙ m) | inr (q, hd) ↦ heads (sym m ∙ hd) ])
    ]
  where
    heads : codes "OPTIONS" ≡ codes "HEAD" → ⊥
    heads q = cc
