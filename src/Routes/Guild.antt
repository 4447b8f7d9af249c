-- ===== src/Routes/Guild.antt =====
-- The query `SELECT guild_id FROM sessions WHERE id = $1`, which three files of src/routes/ make.
use ovp_data_api.Base.{ℤ, Uuid, map, select}
use ovp_data_api.Error.{AppError}
use ovp_data_api.Db.{Stmt, fetch_or, reading}
use ovp_data_api.Db.Sessions

-- `e` is the error where the session is missing.
abbrev pub guild_id_or : AppError → Uuid → Stmt ℤ
guild_id_or e session_id now db =
    reading db
      (fetch_or e (map (λ s. s.guild_id) (select (Sessions.has_id session_id) db.sessions)))
