-- ===== src/Router/Paths/Overlap.antt =====
-- src/routes/: no two routes take the same request.
use ovp_data_api.Base.{
  ◌≤◌, Text, text_eq, text_eq_iff, Bool, true, false, not, ◌&&◌, List, [], ◌∷◌, length, any, select,
  ◌≡◌, refl, arith, inl, inr, Bool-cases,
}
use ovp_data_api.Router.Paths.{
  Segment, fixed, param, Method, get, post, patch, delete, Route, all_routes,
}

-- What the documentation of the router library promises of a path that a route matches: as many
-- segments, of which those that are no parameters are the same.
abbrev pub Fits : List Segment → List Text → Type 0
Fits [] [] = Unit
Fits (fixed s ∷ t) (x ∷ path) = (x ≡ s) × Fits t path
Fits (param name ∷ t) (x ∷ path) = Fits t path
Fits _ _ = ⊥

abbrev pub method_eq : Method → Method → Bool
method_eq get get = true
method_eq post post = true
method_eq patch patch = true
method_eq delete delete = true
method_eq _ _ = false

-- Whether some path may fit both.
unfoldable clash : List Segment → List Segment → Bool
clash [] [] = true
clash (fixed s ∷ t) (fixed u ∷ v) = text_eq s u && clash t v
clash (fixed s ∷ t) (param n ∷ v) = clash t v
clash (param n ∷ t) (fixed u ∷ v) = clash t v
clash (param n ∷ t) (param k ∷ v) = clash t v
clash _ _ = false

unfoldable overlap : Route → Route → Bool
overlap r s = method_eq r.method s.method && clash r.path s.path

unfoldable apart : List Route → Bool
apart [] = true
apart (r ∷ rs) = not (any (overlap r) rs) && apart rs

routes_apart : apart all_routes ≡ true
unfolding apart overlap clash all_routes text_eq
routes_apart = refl

Fits-clash : (t v : List Segment) (path : List Text) → Fits t path → Fits v path → clash t v ≡ true
unfolding clash
Fits-clash [] [] path f g = refl
Fits-clash (fixed s ∷ t) (fixed u ∷ v) (x ∷ path) f g =
    ground (arith, text_eq_iff s u, Fits-clash t v path f.1 g.1)
Fits-clash (fixed s ∷ t) (param n ∷ v) (x ∷ path) f g = Fits-clash t v path f.1 g
Fits-clash (param n ∷ t) (fixed u ∷ v) (x ∷ path) f g = Fits-clash t v path f g.1
Fits-clash (param n ∷ t) (param k ∷ v) (x ∷ path) f g = Fits-clash t v path f g
Fits-clash [] (fixed u ∷ v) [] f g = elim g [ ]
Fits-clash [] (param k ∷ v) [] f g = elim g [ ]
Fits-clash [] (s ∷ v) (x ∷ path) f g = elim f [ ]
Fits-clash (fixed s ∷ t) v [] f g = elim f [ ]
Fits-clash (param n ∷ t) v [] f g = elim f [ ]
Fits-clash (fixed s ∷ t) [] (x ∷ path) f g = elim g [ ]
Fits-clash (param n ∷ t) [] (x ∷ path) f g = elim g [ ]

method_eq_trans :
    (m a b : Method) → method_eq m a ≡ true → method_eq m b ≡ true → method_eq a b ≡ true
method_eq_trans m a b h k = ground arith

-- `fits` is the matching of the router library.
module _ (fits : List Segment → List Text → Bool)
    (fits-Fits : (t : List Segment) (path : List Text) → fits t path ≡ true → Fits t path) where
  abbrev pub takes : Method → List Text → Route → Bool
  takes m path r = method_eq m r.method && fits r.path path

  taken-overlap :
      (m : Method) (path : List Text) (r s : Route)
      → takes m path r ≡ true
      → takes m path s ≡ true
      → overlap r s ≡ true
  unfolding overlap
  taken-overlap m path r s h k =
      let same = method_eq_trans m r.method s.method (ground arith) (ground arith) in
      let f = fits-Fits r.path path (ground arith) in
      let g = fits-Fits s.path path (ground arith) in
      let both = Fits-clash r.path s.path path f g in ground arith

  untaken :
      (m : Method) (path : List Text) (r : Route) (rs : List Route)
      → takes m path r ≡ true
      → any (overlap r) rs ≡ false
      → select (takes m path) rs ≡ []
  unfolding select
  untaken m path r [] h apart = refl
  untaken m path r (s ∷ rs) h apart = elim (Bool-cases (takes m path s)) [
    | inl e ↦ let o = taken-overlap m path r s h e in ground arith
    | inr e ↦ rw e (untaken m path r rs h (ground arith))
  ]

  taken_once :
      (m : Method) (path : List Text) (rs : List Route)
      → apart rs ≡ true
      → length (select (takes m path) rs) ≤ 1
  unfolding apart select
  taken_once m path [] h = omega arith
  taken_once m path (r ∷ rs) h = elim (Bool-cases (takes m path r)) [
    | inl e ↦
        let rest : select (takes m path) rs ≡ [] = untaken m path r rs e (ground arith) in
        rw (e, rest) (omega arith)
    | inr e ↦ rw e (taken_once m path rs (ground arith))
  ]

  -- At most one route of the service takes a method and a path, if a route matches only paths with
  -- as many segments as its own, of which those that are no parameters are the same.
  pub takes_once : (m : Method) (path : List Text) → length (select (takes m path) all_routes) ≤ 1
  takes_once m path = taken_once m path all_routes routes_apart
