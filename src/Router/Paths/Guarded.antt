-- ===== src/Router/Paths/Guarded.antt =====
-- src/routes/mod.rs: which paths go through the middleware.
use ovp_data_api.Base.{
  Text, text, Bool, true, List, [], ◌∷◌, ◌++◌, any, ◌≡◌, ◌⊎◌, inl, inr, arith, Bool-cases,
}
use ovp_data_api.Router.Paths
use ovp_data_api.Router.Paths.{
  Segment, Method, Endpoint, Route, all_routes, public_router, protected_router, ws_routes,
}
use ovp_data_api.Router.Paths.Overlap.{Fits, takes}

-- A path of one of the routes.
abbrev OneOf : List Route → List Text → Type 0
OneOf [] path = ⊥
OneOf (r ∷ rs) path = Fits r.path path ⊎ OneOf rs path

Fits_one : (s : Text) (rest : List Text) → Fits (Paths.fixed s ∷ []) rest → rest ≡ s ∷ []
Fits_one s [] f = elim f [ ]
Fits_one s (x ∷ []) f = let e = f.0 in ground arith
Fits_one s (x ∷ y ∷ rest) f = elim f.1 [ ]

Fits_two :
    (s u : Text) (rest : List Text)
    → Fits (Paths.fixed s ∷ Paths.fixed u ∷ []) rest
    → rest ≡ s ∷ u ∷ []
Fits_two s u [] f = elim f [ ]
Fits_two s u (x ∷ []) f = elim f.1 [ ]
Fits_two s u (x ∷ y ∷ []) f = let d = f.0 in let e = f.1 in ground arith
Fits_two s u (x ∷ y ∷ z ∷ rest) f = elim f.1.1 [ ]

-- What comes after /internal in the paths that are not guarded.
abbrev pub IsExempt : List Text → Type 0
IsExempt rest =
    (rest ≡ text "auth" ∷ [])
    ⊎ (rest ≡ text "heartbeat" ∷ [])
    ⊎ (rest ≡ text "admin" ∷ text "grant" ∷ [])
    ⊎ (rest ≡ text "ws" ∷ [])

module _ (fits : List Segment → List Text → Bool)
    (fits-Fits : (t : List Segment) (path : List Text) → fits t path ≡ true → Fits t path) where
  taken-OneOf :
      (m : Method) (path : List Text) (rs : List Route)
      → any (takes fits fits-Fits m path) rs ≡ true
      → OneOf rs path
  taken-OneOf m path [] h = cc
  taken-OneOf m path (r ∷ rs) h = elim (Bool-cases (takes fits fits-Fits m path r)) [
    | inl e ↦ inl (fits-Fits r.path path (ground arith))
    | inr e ↦ inr (taken-OneOf m path rs (ground arith))
  ]

  exempt :
      (rest : List Text)
      → OneOf (public_router ++ ws_routes) (text "internal" ∷ rest)
      → IsExempt rest
  unfolding public_router ws_routes
  exempt rest (inl f) = inl (Fits_one (text "auth") rest f.1)
  exempt rest (inr (inl f)) = inr (inl (Fits_one (text "heartbeat") rest f.1))
  exempt rest (inr (inr (inl f))) =
      inr (inr (inl (Fits_two (text "admin") (text "grant") rest f.1)))
  exempt rest (inr (inr (inr (inl f)))) = let e = f.0 in cc
  exempt rest (inr (inr (inr (inr (inl f))))) = let e = f.0 in cc
  exempt rest (inr (inr (inr (inr (inr (inl f)))))) = let e = f.0 in cc
  exempt rest (inr (inr (inr (inr (inr (inr (inl f))))))) = let e = f.0 in cc
  exempt rest (inr (inr (inr (inr (inr (inr (inr (inl f)))))))) = let e = f.0 in cc
  exempt rest (inr (inr (inr (inr (inr (inr (inr (inr (inl f))))))))) = let e = f.0 in cc
  exempt rest (inr (inr (inr (inr (inr (inr (inr (inr (inr (inl f)))))))))) =
      inr (inr (inr (Fits_one (text "ws") rest f.1)))
  exempt rest (inr (inr (inr (inr (inr (inr (inr (inr (inr (inr h)))))))))) = elim h [ ]

  -- If a route matches only paths with as many segments as its own, of which those that are no
  -- parameters are the same: a request to a path under /internal that is taken by a route which is
  -- not behind the middleware is one to /internal/auth, /internal/heartbeat, /internal/admin/grant or
  -- /internal/ws.
  pub unguarded-IsExempt :
      (m : Method) (rest : List Text)
      → any (takes fits fits-Fits m (text "internal" ∷ rest)) (public_router ++ ws_routes) ≡ true
      → IsExempt rest
  unguarded-IsExempt m rest h =
      exempt rest (taken-OneOf m (text "internal" ∷ rest) (public_router ++ ws_routes) h)
