-- ===== src/History/Participants.antt =====
-- src/routes/participants.rs and src/db/participants.rs: the handlers keep what the statements keep.
use ovp_data_api.Base.{Text, Uuid, List, [], ◌∷◌, Bool-cases, inl, inr, refl, Result, ok, err}
use ovp_data_api.Error.{AppError}
use ovp_data_api.App.{AppState, World}
use ovp_data_api.Db.{Db}
use ovp_data_api.Db.Participants
use ovp_data_api.Db.Participants.{AddParticipant, no_repeats, require_distinct}
use ovp_data_api.History.Evolve.{
  Evolution, Steps, Moves, Moved, Later, runs, within, after, reading-Moved,
}
use ovp_data_api.History.Laws.{Laws}
use ovp_data_api.Routes.Participants as Handlers

abbrev with_unit : Result AppError Db → Result AppError (Unit {0} × Db)
with_unit r = elim r [ err e ↦ err e | ok new ↦ ok (tt, new) ]

abbrev continued :
    {A : Type 0} → Result AppError Db → (Db → Result AppError (A × Db)) → Result AppError (A × Db)
continued r k = elim r [ err e ↦ err e | ok seeded ↦ k seeded ]

module _ {E : Evolution} {actor : Text} (laws : Laws E actor) where
  list-Steps : (id : Uuid) → Steps E (Participants.list id)
  unfolding Participants.list
  list-Steps id = record { step = λ now db. E.stays db }

  get-Steps : (id : Uuid) → Steps E (Participants.get id)
  unfolding Participants.get
  get-Steps id = record { step = λ now db. reading-Moved E db _ }

  distinct-Steps : (is : List AddParticipant) → Steps E (require_distinct is)
  distinct-Steps is = record {
    step =
        λ now db. elim (Bool-cases (no_repeats is)) [ inl e ↦ rw e (E.stays db) | inr e ↦ rw e tt ];
  }

  onward :
      {A : Type 0} (a b : Db) (r : Result AppError (A × Db))
      → E.rel a b
      → Moved E.rel b r
      → Moved E.rel a r
  onward a b (ok (x, c)) h m = E.joins a b c h m
  onward a b (err e) h m = tt

  -- A statement that goes on from the database with the user seeded.
  chained :
      {A : Type 0} (db : Db) (r : Result AppError Db) (k : Db → Result AppError (A × Db))
      → Moved E.rel db (with_unit r)
      → ((new : Db) → Moved E.rel new (k new))
      → Moved E.rel db (continued r k)
  chained db (ok new) k m h = onward db new (k new) m (h new)
  chained db (err e) k m h = tt

  add_row-Steps : (i id : Uuid) (a : AddParticipant) → Steps E (Participants.add_row i id a)
  unfolding Participants.add_row
  add_row-Steps i id a = record {
    step = λ now db.
        chained db (Participants.seed_user a.pseudo_id now db) (Participants.upsert i id a now)
          ((laws.participant_seed a.pseudo_id).step now db)
          (λ new. (laws.participant_upsert i id a).step now new);
  }

  seed_users-Steps : (is : List AddParticipant) → Steps E (Participants.seed_users is)
  unfolding Participants.seed_users
  seed_users-Steps [] = record { step = λ now db. E.stays db }
  seed_users-Steps (i ∷ is) = record {
    step = λ now db.
        chained db (Participants.seed_user i.pseudo_id now db) (Participants.seed_users is now)
          ((laws.participant_seed i.pseudo_id).step now db)
          (λ new. (seed_users-Steps is).step now new);
  }

  module _ {St : Type 0} (state : AppState St) where
    upsert_rows-Moves :
        (id : Uuid) (is : List AddParticipant) (b : Db) (w : World St)
        → E.rel b w.db
        → Later E b (Participants.upsert_rows id is w)
    unfolding Participants.upsert_rows
    upsert_rows-Moves id [] b w h = record { later = h }
    upsert_rows-Moves id (i ∷ is) b w h =
        after (runs (laws.participant_upsert _ id i) _ h)
          λ row w₁ h₁. after (upsert_rows-Moves id is b w₁ h₁) λ rows w₂ h₂. record { later = h₂ }

    add_many-Moves :
        (id : Uuid) (is : List AddParticipant) (b : Db) (w : World St)
        → E.rel b w.db
        → Later E b (Participants.add_many id is w)
    unfolding Participants.add_many
    add_many-Moves id [] b w h = record { later = h }
    add_many-Moves id (i ∷ is) b w h = within w _ h (
        after (runs (seed_users-Steps (i ∷ is)) _ h) λ _ w₁ h₁.
          after (runs (distinct-Steps (i ∷ is)) _ h₁)
            λ _ w₂ h₂. upsert_rows-Moves id (i ∷ is) b w₂ h₂)

    pub add_one-Moves :
        (id : Uuid) (a : AddParticipant) → Moves E (Handlers.add_one state actor id a)
    unfolding Handlers.add_one Participants.add
    add_one-Moves id a b w h =
        after (runs (add_row-Steps _ id a) _ h) λ row w₁ h₁.
          after (runs (laws.audit_append _ _ refl) _ h₁) λ _ w₂ h₂. record { later = h₂ }

    pub add_batch-Moves :
        (id : Uuid) (a : Handlers.Batch) → Moves E (Handlers.add_batch state actor id a)
    unfolding Handlers.add_batch
    add_batch-Moves id a b w h = after (add_many-Moves id a.participants b w h) λ rows w₁ h₁.
        after (runs (laws.audit_append _ _ refl) _ h₁) λ _ w₂ h₂. record { later = h₂ }

    pub list-Moves : (id : Uuid) → Moves E (Handlers.list state id)
    unfolding Handlers.list
    list-Moves id b w h = runs (list-Steps id) _ h

    pub fetch-Moves : (id : Uuid) → Moves E (Handlers.fetch state id)
    unfolding Handlers.fetch
    fetch-Moves id b w h = runs (get-Steps id) _ h

    pub patch_consent-Moves :
        (id : Uuid) (c : Participants.UpdateConsent)
        → Moves E (Handlers.patch_consent state actor id c)
    unfolding Handlers.patch_consent
    patch_consent-Moves id c b w h =
        after (runs (laws.participant_consent id c) _ h) λ row w₁ h₁.
          after (runs (laws.audit_append _ _ refl) _ h₁) λ _ w₂ h₂. record { later = h₂ }

    pub patch_license-Moves :
        (id : Uuid) (c : Participants.UpdateLicense)
        → Moves E (Handlers.patch_license state actor id c)
    unfolding Handlers.patch_license
    patch_license-Moves id c b w h =
        after (runs (laws.participant_license id c) _ h) λ row w₁ h₁.
          after (runs (laws.audit_append _ _ refl) _ h₁) λ _ w₂ h₂. record { later = h₂ }
