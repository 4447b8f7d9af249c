-- ===== src/Db/ServiceSessions.antt =====
-- src/db/service_sessions.rs: the tokens of the services that call. Windows are in seconds.
use ovp_data_api.Base.{
  ℤ, pos, negsuc, ◌-◌, ◌^◌, ℕ, ◌+◌, ◌*◌, Text, text_eq, Uuid, DateTime, Bool, ◌&&◌, ◌==◌, ltb, any,
  Option, none, some, [], ◌∷◌, ◌++◌, map, length, ok, err, select, update, delete, first,
  if◌then◌else◌,
}
use ovp_data_api.Error.{database}
use ovp_data_api.Db.Rows.{ServiceSession}
use ovp_data_api.Db.Statement.{Stmt, fetch_one, reading}

abbrev pub microseconds : ℕ → ℕ
microseconds seconds = seconds * 1_000_000

abbrev pub has_hash : Text → ServiceSession → Bool
has_hash token_hash s = text_eq s.token_hash token_hash

abbrev pub seen : DateTime → ServiceSession → ServiceSession
seen now s = record s { last_seen_at = now }

-- INSERT … ON CONFLICT (token_hash) DO UPDATE SET last_seen_at; `id` is what gen_random_uuid()
-- gives.
unfoldable pub insert : Uuid → Text → Text → Stmt ServiceSession
insert id service_name token_hash now db =
    let row : ServiceSession = record {
      id = id;
      service_name = service_name;
      token_hash = token_hash;
      created_at = now;
      last_seen_at = now;
    } in
    if any (has_hash token_hash) db.service_sessions
    then reading
        (record db {
          service_sessions = update (has_hash token_hash) (seen now) db.service_sessions;
        })
        (fetch_one (map (seen now) (select (has_hash token_hash) db.service_sessions)))
    else if any (λ s. s.id == id) db.service_sessions
    then err database
    else ok (row, record db { service_sessions = db.service_sessions ++ row ∷ [] })

-- `as i64` of a number of seconds that fits 64 bits
abbrev pub as_i64 : ℕ → ℤ
as_i64 n = if ltb n (2 ^ 63) then pos n else negsuc (2 ^ 64 - 1 - n)

-- at < now - seconds, and at > now - seconds
abbrev pub before : ℤ → DateTime → DateTime → Bool
before (pos n) now at = ltb (at + microseconds n) now
before (negsuc n) now at = ltb at (now + microseconds (n + 1))

abbrev pub after : ℤ → DateTime → DateTime → Bool
after (pos n) now at = ltb now (at + microseconds n)
after (negsuc n) now at = ltb (now + microseconds (n + 1)) at

-- WHERE token_hash = $1 AND last_seen_at > NOW() - reap
abbrev pub is_alive : Text → ℕ → DateTime → ServiceSession → Bool
is_alive token_hash reap now s = has_hash token_hash s && after (as_i64 reap) now s.last_seen_at

unfoldable pub lookup_alive : Text → ℕ → Stmt (Option Text)
lookup_alive token_hash reap now db =
    elim (first (select (is_alive token_hash reap now) db.service_sessions)) [
      | none ↦ ok (none, db)
      | some s ↦ ok (some s.service_name, db)
    ]

unfoldable pub touch : Text → Stmt Bool
touch token_hash now db = ok (
  any (has_hash token_hash) db.service_sessions,
  record db { service_sessions = update (has_hash token_hash) (seen now) db.service_sessions },
)

-- last_seen_at < NOW() - window
abbrev pub is_stale : ℕ → DateTime → ServiceSession → Bool
is_stale window now s = before (as_i64 window) now s.last_seen_at

unfoldable pub reap_stale : ℕ → Stmt ℕ
reap_stale window now db = ok (
  length (select (is_stale window now) db.service_sessions),
  record db { service_sessions = delete (is_stale window now) db.service_sessions },
)
