-- ===== src/Db/ConsentTokens/Open.antt =====
-- src/db/consent_tokens.rs and src/routes/consent.rs: which tokens open a page.
use ovp_data_api.Base.{
  refl, Option, Result, err, ap, sym, ◌==◌, Uuid, List, [], ◌∷◌, Bool, true, Bool-cases,
  Option-cases, inl, inr, none, some, first, select, ok, ◌≡◌, arith, ◌<◌,
}
use mathlib.Core.Path.{subst}
use mathlib.Core.List.{Mem, mem-cons_self, mem-cons_of_mem}
use ovp_data_api.Error.{AppError}
use ovp_data_api.App.{AppState, World, bound, stored}
use ovp_data_api.Db.{Db, ConsentToken, Session, Participant, fetch_one, reading}
use ovp_data_api.Db.ConsentTokens.{ConsentTokenWithContext, is_open, validate, context}
use ovp_data_api.Routes.Consent.{get_consent, found}

first-select :
    (p : ConsentToken → Bool) (xs : List ConsentToken) (t : ConsentToken)
    → first (select p xs) ≡ some t
    → (p t ≡ true) × Mem t xs
unfolding first select
first-select p [] t h = cc
first-select p (x ∷ xs) t h = elim (Bool-cases (p x)) [
  | inl e ↦
      let same : x ≡ t = ground arith in
      (subst (λ y. p y ≡ true) same e, subst (λ y. Mem y (x ∷ xs)) same mem-cons_self)
  | inr e ↦
      let (wanted, there) = first-select p xs t (ground arith) in (wanted, mem-cons_of_mem x there)
]

fetched :
    {A : Type 0} (p : A → Bool) (xs : List A) (a : A)
    → fetch_one (select p xs) ≡ ok a
    → (p a ≡ true) × Mem a xs
unfolding select
fetched p [] a h = cc
fetched p (x ∷ xs) a h = elim (Bool-cases (p x)) [
  | inl e ↦
      let same : x ≡ a = ground arith in
      (subst (λ y. p y ≡ true) same e, subst (λ y. Mem y (x ∷ xs)) same mem-cons_self)
  | inr e ↦ let (wanted, there) = fetched p xs a (ground arith) in (wanted, mem-cons_of_mem x there)
]

context-ok :
    (t : ConsentToken) (db : Db) (ctx : ConsentTokenWithContext)
    → context t db ≡ ok (some ctx)
    → (ctx.token ≡ t)
      × (fetch_one (select (λ (s : Session). s.id == t.session_id) db.sessions) ≡ ok ctx.session)
      × (fetch_one (select (λ (r : Participant). r.id == t.participant_id) db.participants)
          ≡ ok ctx.participant)
context-ok t db ctx h = (ground arith, ground arith, ground arith)

opened :
    {St : Type 0} (state : AppState St) (w w' : World St)
    (r : Result AppError (Option ConsentTokenWithContext)) (ctx : ConsentTokenWithContext)
    → bound (stored (reading w.db r) w) (found state) ≡ (ok ctx, w')
    → (r ≡ ok (some ctx)) × (w' ≡ w)
opened state w w' (ok (some c)) ctx h =
    (ground arith, ap (λ (x : Result AppError ConsentTokenWithContext × World _). x.1) (sym h))
opened state w w' (ok none) ctx h = cc
opened state w w' (err e) ctx h = cc

-- A page that a token opens is that of a token that is in the table under the token of the request,
-- has not been revoked and has not expired, with the rows of the session and of the participant
-- that this token names, and opening it changes nothing.
pub get_consent-open :
    {St : Type 0} (state : AppState St) (token : Uuid) (w w' : World St)
    (ctx : ConsentTokenWithContext)
    → get_consent state token w ≡ (ok ctx, w')
    → Mem ctx.token w.db.consent_tokens
      × (ctx.token.token ≡ token)
      × (ctx.token.revoked_at ≡ none)
      × (w.now < ctx.token.expires_at)
      × Mem ctx.session w.db.sessions
      × (ctx.session.id ≡ ctx.token.session_id)
      × Mem ctx.participant w.db.participants
      × (ctx.participant.id ≡ ctx.token.participant_id)
      × (w' ≡ w)
unfolding get_consent validate
get_consent-open state token w w' ctx h =
    elim (Option-cases (first (select (is_open token w.now) w.db.consent_tokens))) [
      | inl e ↦ ground arith
      | inr (t, e) ↦
          let valid : validate token w.now w.db ≡ reading w.db (context t w.db) =
            rw (validate, e) refl in
          let (read, same) =
            opened state w w' (context t w.db) ctx
              (subst (λ r. bound (stored r w) (found state) ≡ (ok ctx, w')) valid h) in
          let (is, session_read, participant_read) = context-ok t w.db ctx read in
          let (of_session, session_there) = fetched _ w.db.sessions ctx.session session_read in
          let (of_participant, participant_there) =
            fetched _ w.db.participants ctx.participant participant_read in
          let (open_now, there) = first-select (is_open token w.now) w.db.consent_tokens t e in
          let open_token = subst (λ x. is_open token w.now x ≡ true) (sym is) open_now in
          (
            subst (λ x. Mem x w.db.consent_tokens) (sym is) there,
            ground arith,
            ground arith,
            ground arith,
            session_there,
            ground arith,
            participant_there,
            ground arith,
            same,
          )
    ]
