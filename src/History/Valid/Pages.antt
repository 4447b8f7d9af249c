-- ===== src/History/Valid/Pages.antt =====
-- src/routes/consent.rs over a history: a consent page never meets a broken reference.
use ovp_data_api.Base.{
  Uuid, Bool, true, false, List, [], ◌∷◌, All, any, any-select, first, select, some, ok, err, ◌≡◌,
  ◌⊎◌, inl, inr, Bool-cases, refl, arith, ◌==◌,
}
use mathlib.Core.Path.{subst}
use ovp_data_api.Error.{not_found}
use ovp_data_api.App.{AppState, World}
use ovp_data_api.Auth.{TokenLib}
use ovp_data_api.Db.{Db, ConsentToken, Session, Participant}
use ovp_data_api.Db.ConsentTokens.{ConsentTokenWithContext, is_open, validate, context}
use ovp_data_api.History.{Step, run}
use ovp_data_api.History.Valid.{IsValid, OfParticipant}
use ovp_data_api.History.Valid.Runs.{run-IsValid}
use ovp_data_api.Routes.Chunks.Headers.{RequestLib}
use ovp_data_api.Routes.Consent.{get_consent}

module _ {A : Type 0} (p : A → Bool) where
  -- A row that is there is selected.
  select_some :
      (xs : List A) → any p xs ≡ true → (x : A) × (rest : List A) × (select p xs ≡ x ∷ rest)
  unfolding select
  select_some [] h = cc
  select_some (x ∷ xs) h = elim (Bool-cases (p x)) [
    | inl e ↦ (x, select p xs, rw e refl)
    | inr e ↦ let (y, rest, k) = select_some xs (ground arith) in (y, rest, rw e k)
  ]

  -- The first row that is selected is one of the table.
  first-All {κ} :
      (P : A → Type κ) (xs : List A) (x : A) (rest : List A)
      → select p xs ≡ x ∷ rest
      → All P xs
      → P x
  unfolding select
  first-All P [] x rest e h = cc
  first-All P (y ∷ xs) x rest e h = elim (Bool-cases (p y)) [
    | inl k ↦ let same : y ≡ x = ground arith in subst P same h.0
    | inr k ↦ first-All P xs x rest (ground arith) h.1
  ]

-- The references of a token that is there lead to rows.
context-some :
    (t : ConsentToken) (db : Db)
    → any (λ s. s.id == t.session_id) db.sessions ≡ true
    → OfParticipant db.participants t
    → (ctx : ConsentTokenWithContext) × (context t db ≡ ok (some ctx))
context-some t db hs hp =
    let (s, _, es) = select_some (λ (s : Session). s.id == t.session_id) db.sessions hs in
    let (r, _, er) =
      select_some (λ (r : Participant). r.id == t.participant_id) db.participants hp in
    (record { token = t; session = s; participant = r }, ground arith)

module _ {St : Type 0} (state : AppState St) where
  opened :
      (token : Uuid) (w : World St) (t : ConsentToken) (rest : List ConsentToken)
      (ctx : ConsentTokenWithContext)
      → select (is_open token w.now) w.db.consent_tokens ≡ t ∷ rest
      → context t w.db ≡ ok (some ctx)
      → get_consent state token w ≡ (ok ctx, w)
  unfolding get_consent validate first
  opened token w t rest ctx chosen read = ground arith

  unopened :
      (token : Uuid) (w : World St)
      → select (is_open token w.now) w.db.consent_tokens ≡ []
      → get_consent state token w ≡ (err not_found, w)
  unfolding get_consent validate first
  unopened token w none_open = ground arith

  answers :
      (token : Uuid) (w : World St)
      → IsValid w.db
      → ((ctx : ConsentTokenWithContext) × (get_consent state token w ≡ (ok ctx, w)))
        ⊎ ((get_consent state token w ≡ (err not_found, w))
            × (any (is_open token w.now) w.db.consent_tokens ≡ false))
  answers token w v = elim (Bool-cases (any (is_open token w.now) w.db.consent_tokens)) [
    | inl e ↦
        let (t, rest, chosen) = select_some (is_open token w.now) w.db.consent_tokens e in
        let (ctx, read) =
          context-some t w.db
            (first-All (is_open token w.now) _ w.db.consent_tokens t rest chosen v.token_sessions)
            (first-All (is_open token w.now) (OfParticipant w.db.participants) w.db.consent_tokens t
              rest chosen v.token_participants) in
        inl (ctx, opened token w t rest ctx chosen read)
    | inr e ↦ inr (unopened token w (any-select (is_open token w.now) w.db.consent_tokens e), e)
  ]

  -- After any history of a valid database a request for a consent page is answered and changes
  -- nothing: with the page, or with 404 where no token that is open goes by the one of the request.
  -- It never fails for a session or a participant that the token names and that is not there.
  pub get_consent_answers :
      (lib : RequestLib) (tokens : TokenLib) (ss : List Step) (token : Uuid) (w : World St)
      → IsValid w.db
      → let w' = run state lib tokens ss w in
        ((ctx : ConsentTokenWithContext) × (get_consent state token w' ≡ (ok ctx, w')))
        ⊎ ((get_consent state token w' ≡ (err not_found, w'))
            × (any (is_open token w'.now) w'.db.consent_tokens ≡ false))
  get_consent_answers lib tokens ss token w v =
      answers token (run state lib tokens ss w) (run-IsValid state lib tokens ss w v)
