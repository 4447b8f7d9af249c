-- ===== src/History/UniformCrud.antt =====
-- src/routes/uniform_crud.rs and src/db/uniform.rs: the handlers keep what the statements keep.
use ovp_data_api.Base.{
  ℤ, ◌+◌, ◌==◌, ◌&&◌, select, Text, Uuid, List, [], ◌∷◌, Option, none, some, refl, Result, ok, err,
}
use ovp_data_api.Error.{AppError, not_found, database}
use ovp_data_api.Ids.{PseudoId, ETag}
use ovp_data_api.Ids
use ovp_data_api.App.{AppState, World}
use ovp_data_api.Db.{Db, StoredRow}
use ovp_data_api.Db.Uniform
use ovp_data_api.Db.Uniform.{
  ResourceTable, CreateInput, PatchInput, UniformRow, row_from_pg, collect_rows, validate_inputs,
  apply_patch, session_segments, session_beats, session_scenes, Table,
}
use ovp_data_api.Db.Uniform.Ops
use ovp_data_api.Db.Uniform.Ops.{fresh_inputs, require_etag}
use ovp_data_api.History.Evolve.{
  Evolution, Steps, Moves, Moved, Later, given, runs, within, checks, after, next, reading-Moved,
}
use ovp_data_api.History.Laws.{Laws}
use ovp_data_api.History.Mute.{guild-Steps}
use ovp_data_api.Routes.Chunks.Headers.{HeaderMap, RequestLib}
use ovp_data_api.Routes.UniformCrud as Handlers

selected :
    (E : Evolution) (db : Db) (t : Table) (rows : List StoredRow)
    → Moved E.rel db (
        let r : Result AppError (List StoredRow × Db) = elim t [
          | session_segments ↦ ok (rows, db)
          | session_beats ↦ err database
          | session_scenes ↦ err database
        ] in
        r)
selected E db session_segments rows = E.stays db
selected E db session_beats rows = tt
selected E db session_scenes rows = tt

module _ {E : Evolution} {actor : Text} (laws : Laws E actor) where
  fetch-Steps : (rt : ResourceTable) (id : Uuid) → Steps E (Uniform.fetch rt id)
  unfolding Uniform.fetch
  fetch-Steps rt id = record { step = λ now db. reading-Moved E db _ }

  existing-Steps :
      (rt : ResourceTable) (id : Uuid) (cs : List Text)
      → Steps E (Uniform.existing_client_ids rt id cs)
  unfolding Uniform.existing_client_ids
  existing-Steps rt id cs = record { step = λ now db. E.stays db }

  select-Steps :
      (rt : ResourceTable) (id : Uuid) (p : Option PseudoId) (since : Option ℤ)
      → Steps E (Uniform.select_by_session rt id p since)
  unfolding Uniform.select_by_session
  select-Steps rt id p since = record {
    step = λ now db. selected E db rt.table (
        Uniform.by_start
          (select (λ r. r.session_id == id && Uniform.wanted p since r) db.segments));
  }

  module _ {St : Type 0} where
    insert_row-Moves :
        (rt : ResourceTable) (id : Uuid) (i : CreateInput) (etag : ETag) (b : Db) (w : World St)
        → E.rel b w.db
        → Later E b (Ops.insert_row_in_tx rt id actor i etag w)
    unfolding Ops.insert_row_in_tx
    insert_row-Moves rt id i etag b w h =
        after (runs (laws.row_insert rt.table _) _ h) λ row w₁ h₁. record { later = h₁ }

    insert_rows-Moves :
        (rt : ResourceTable) (id : Uuid) (is : List CreateInput) (b : Db) (w : World St)
        → E.rel b w.db
        → Later E b (Ops.insert_rows rt id actor is w)
    unfolding Ops.insert_rows
    insert_rows-Moves rt id [] b w h = record { later = h }
    insert_rows-Moves rt id (i ∷ is) b w h =
        after (insert_row-Moves rt id i (w.etags w.drawn) b (record w { drawn = w.drawn + 1 }) h)
          λ row w₁ h₁.
            after (insert_rows-Moves rt id is b w₁ h₁) λ rows w₂ h₂. record { later = h₂ }

    bulk_insert-Moves :
        (rt : ResourceTable) (id : Uuid) (is : List CreateInput) (b : Db) (w : World St)
        → E.rel b w.db
        → Later E b (Ops.bulk_insert rt id actor is w)
    unfolding Ops.bulk_insert
    bulk_insert-Moves rt id [] b w h = record { later = h }
    bulk_insert-Moves rt id (i ∷ is) b w h = next (given (validate_inputs rt (i ∷ is)) w h) λ w₁ h₁.
        within w₁ _ h₁ (
          after (runs (existing-Steps rt id _) w₁ h₁) λ existing w₂ h₂.
            after (insert_rows-Moves rt id (fresh_inputs existing (i ∷ is)) b w₂ h₂)
              λ rows w₃ h₃. record { later = h₃ })

    patch-Moves :
        (rt : ResourceTable) (id : Uuid) (etag : Option ETag) (p : PatchInput) (b : Db)
        (w : World St)
        → E.rel b w.db
        → Later E b (Ops.patch rt id etag p w)
    unfolding Ops.patch
    patch-Moves rt id etag p b w h = within w _ h (
        after (runs (fetch-Steps rt id) w h) λ stored w₁ h₁.
          after (given (row_from_pg rt stored) w₁ h₁) λ existing w₂ h₂.
            next (given (require_etag etag existing) w₂ h₂) λ w₃ h₃.
              after
                (runs (laws.row_update rt id (apply_patch rt p existing) _ p.author_user_pseudo_id)
                  _ h₃)
                λ row w₄ h₄. record { later = h₄ })

  module _ {St : Type 0} (state : AppState St) (lib : RequestLib) where
    announce_rows-Moves :
        (rt : ResourceTable) (id : Uuid) (g : ℤ) (rows : List UniformRow)
        → Moves E (Handlers.announce_rows state lib rt id g actor rows)
    unfolding Handlers.announce_rows
    announce_rows-Moves rt id g [] b w h = record { later = h }
    announce_rows-Moves rt id g (r ∷ rs) b w h =
        next (runs (laws.audit_append _ _ refl) _ h) λ w₁ h₁. announce_rows-Moves rt id g rs b _ h₁

    pub bulk_create-Moves :
        (rt : ResourceTable) (id : Uuid) (is : List CreateInput)
        → Moves E (Handlers.bulk_create state lib rt id actor is)
    unfolding Handlers.bulk_create
    bulk_create-Moves rt id is b w h = after (runs (guild-Steps E not_found id) w h) λ g w₁ h₁.
        after (bulk_insert-Moves rt id is b w₁ h₁) λ result w₂ h₂.
          next (announce_rows-Moves rt id g result.inserted b w₂ h₂) λ w₃ h₃. record { later = h₃ }

    checked_pseudo-Moves :
        (o : Option Text) (b : Db) (w : World St)
        → E.rel b w.db
        → Later E b (Handlers.checked_pseudo state lib o w)
    checked_pseudo-Moves none b w h = record { later = h }
    checked_pseudo-Moves (some r) b w h =
        after (checks (Ids.new r) w h) λ p w₁ h₁. record { later = h₁ }

    pub list_rows-Moves :
        (rt : ResourceTable) (id : Uuid) (q : Handlers.ListQuery)
        → Moves E (Handlers.list_rows state lib rt id q)
    unfolding Handlers.list_rows Ops.list_by_session
    list_rows-Moves rt id q b w h = after (checked_pseudo-Moves q.pseudo_id b w h) λ p w₁ h₁.
        after (runs (select-Steps rt id p q.since_ms) w₁ h₁) λ rows w₂ h₂. record { later = h₂ }

    pub fetch_row-Moves :
        (rt : ResourceTable) (id : Uuid) → Moves E (Handlers.fetch_row state lib rt id)
    unfolding Handlers.fetch_row Ops.get
    fetch_row-Moves rt id b w h =
        after (after (runs (fetch-Steps rt id) w h) λ row w₁ h₁. record { later = h₁ })
          λ row w₂ h₂. record { later = h₂ }

    pub patch_row-Moves :
        (rt : ResourceTable) (id : Uuid) (headers : HeaderMap) (p : PatchInput)
        → Moves E (Handlers.patch_row state lib rt id actor headers p)
    unfolding Handlers.patch_row
    patch_row-Moves rt id headers p b w h = after (patch-Moves rt id _ p b w h) λ row w₁ h₁.
        next (runs (laws.audit_append _ _ refl) _ h₁) λ w₂ h₂.
          after (runs (guild-Steps E not_found row.session_id) w₂ h₂)
            λ g w₃ h₃. record { later = h₃ }

    pub delete_row-Moves :
        (rt : ResourceTable) (id : Uuid) → Moves E (Handlers.delete_row state lib rt id actor)
    unfolding Handlers.delete_row Ops.delete
    delete_row-Moves rt id b w h =
        after (after (runs (laws.row_delete rt id) w h) λ row w₁ h₁. record { later = h₁ })
          λ row w₂ h₂. next (runs (laws.audit_append _ _ refl) _ h₂) λ w₃ h₃.
            after (runs (guild-Steps E not_found row.session_id) w₃ h₃)
              λ g w₄ h₄. record { later = h₄ }
