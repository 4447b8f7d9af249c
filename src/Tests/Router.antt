-- ===== src/Tests/Router.antt =====
-- The routes with a matching of paths that does what the router library documents.
use ovp_data_api.Base.{
  ◌≤◌, Text, text, text_eq, text_eq_iff, Bool, true, false, ◌&&◌, List, [], ◌∷◌, length, select,
  ◌≡◌, refl, arith,
}
use ovp_data_api.Router.Paths.{Segment, fixed, param, all_routes, post, public_router, ws_routes}
use ovp_data_api.Router.Paths.Overlap.{Fits, takes, takes_once}
use ovp_data_api.Router.Paths.Guarded.{IsExempt, unguarded-IsExempt}

unfoldable fits : List Segment → List Text → Bool
fits [] [] = true
fits (fixed s ∷ t) (x ∷ path) = text_eq x s && fits t path
fits (param name ∷ t) ((b ∷ x) ∷ path) = fits t path
fits _ _ = false

fits-Fits : (t : List Segment) (path : List Text) → fits t path ≡ true → Fits t path
unfolding fits
fits-Fits [] [] h = tt
fits-Fits (fixed s ∷ t) (x ∷ path) h =
    ((text_eq_iff x s).0 (ground arith), fits-Fits t path (ground arith))
fits-Fits (param name ∷ t) ((b ∷ x) ∷ path) h = fits-Fits t path h
fits-Fits [] (x ∷ path) h = cc
fits-Fits (fixed s ∷ t) [] h = cc
fits-Fits (param name ∷ t) [] h = cc
fits-Fits (param name ∷ t) ([] ∷ path) h = cc

abbrev path : List Text
path = text "internal" ∷ text "sessions" ∷ text "7" ∷ text "resume" ∷ []

taken : length (select (takes fits fits-Fits post path) all_routes) ≡ 1
unfolding fits all_routes select text_eq
taken = refl

takes_once_example : length (select (takes fits fits-Fits post path) all_routes) ≤ 1
takes_once_example = takes_once fits fits-Fits post path

unguarded-IsExempt_example : IsExempt (text "heartbeat" ∷ [])
unfolding fits public_router ws_routes text_eq
unguarded-IsExempt_example = unguarded-IsExempt fits fits-Fits post (text "heartbeat" ∷ []) refl
