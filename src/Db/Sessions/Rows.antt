-- ===== src/Db/Sessions/Rows.antt =====
-- src/db/sessions.rs: what an UPDATE … RETURNING answers and leaves.
use ovp_data_api.Base.{
  Uuid, List, [], ◌∷◌, map, Result, ok, ◌≡◌, refl, ap, ◌∙◌, arith, select, update, select-update,
}
use ovp_data_api.Error.{AppError, not_found}
use ovp_data_api.Db.Rows.{Db, Session}
use ovp_data_api.Db.Statement.{fetch_or, fetch_one, reading}
use ovp_data_api.Db.Sessions.{has_id, update_row}

-- The session of an id, as `get` reads it.
abbrev pub row : Uuid → Db → Result AppError Session
row id db = fetch_or not_found (select (has_id id) db.sessions)

updated :
    (f : Session → Session) (xs : List Session) (new : Db) (r : Session) (db' : Db)
    → reading new (fetch_one (map f xs)) ≡ ok (r, db')
    → (s : Session) × (fetch_or not_found xs ≡ ok s)
      × (r ≡ f s)
      × (fetch_or not_found (map f xs) ≡ ok r)
      × (db' ≡ new)
updated f [] new r db' e = cc
updated f (x ∷ xs) new r db' e = (x, refl, ground arith, ground arith, ground arith)

-- The answer is the row that was read, changed, and it is what the next read finds.
pub update_row-ok :
    (id : Uuid) (f : Session → Session) (db : Db) (r : Session) (db' : Db)
    → ((s : Session) → (f s).id ≡ s.id)
    → update_row id f db ≡ ok (r, db')
    → (s : Session) × (row id db ≡ ok s) × (r ≡ f s) × (row id db' ≡ ok r)
unfolding update_row
update_row-ok id f db r db' keeps e =
    let (s, was, is, now, left) = updated f (select (has_id id) db.sessions) _ r db' e in
    let same : select (has_id id) (update (has_id id) f db.sessions)
        ≡ map f (select (has_id id) db.sessions) =
      select-update (has_id id) f db.sessions (λ x h. rw (keeps x) h) in
    (s, was, is, ap (row id) left ∙ rw same now)

total :
    (f : Session → Session) (xs : List Session) (new : Db) (s : Session)
    → fetch_or not_found xs ≡ ok s
    → reading new (fetch_one (map f xs)) ≡ ok (f s, new)
total f [] new s e = cc
total f (x ∷ xs) new s e = ground arith

-- An UPDATE of a row that is there answers with it, changed.
pub update_row_total :
    (id : Uuid) (f : Session → Session) (db : Db) (s : Session)
    → row id db ≡ ok s
    → update_row id f db ≡ ok (f s, record db { sessions = update (has_id id) f db.sessions })
unfolding update_row
update_row_total id f db s e = total f (select (has_id id) db.sessions) _ s e

-- Such an UPDATE touches no other table.
pub update_row-left :
    (id : Uuid) (f : Session → Session) (db : Db) (r : Session) (db' : Db)
    → update_row id f db ≡ ok (r, db')
    → db' ≡ record db { sessions = update (has_id id) f db.sessions }
unfolding update_row
update_row-left id f db r db' e = (updated f (select (has_id id) db.sessions) _ r db' e).4
