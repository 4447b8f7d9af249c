-- ===== src/Db/Chunks/Seq.antt =====
-- src/db/chunks.rs: the number that an insertion assigns is above every number of its stream.
use ovp_data_api.Base.{
  ℕ, ◌<◌, ◌≤◌, Uuid, true, false, List, [], ◌∷◌, ◌≡◌, refl, arith, All, any, select, ok, DateTime,
  ◌++◌, false,
}
use ovp_data_api.Ids.{PseudoId}
use ovp_data_api.Db.Rows.{Db, ChunkRow}
use ovp_data_api.Db.Chunks.{of_stream, of_seq, of_client, next_seq, insert, NewChunk, i32_max}

of_seq-above :
    (session_id : Uuid) (p : PseudoId) (n : ℕ) (cs : List ChunkRow)
    → next_seq session_id p cs ≤ n
    → select (of_seq session_id p n) cs ≡ []
unfolding next_seq select
of_seq-above session_id p n [] h = refl
of_seq-above session_id p n (c ∷ cs) h = ground (arith, of_seq-above session_id p n cs)

-- No row of the stream has the number that comes next.
pub next_seq_free :
    (session_id : Uuid) (p : PseudoId) (cs : List ChunkRow)
    → select (of_seq session_id p (next_seq session_id p cs)) cs ≡ []
next_seq_free session_id p cs =
    of_seq-above session_id p (next_seq session_id p cs) cs (omega arith)

of_seq-none :
    (session_id : Uuid) (p : PseudoId) (n : ℕ) (cs : List ChunkRow)
    → next_seq session_id p cs ≤ n
    → any (of_seq session_id p n) cs ≡ false
unfolding next_seq
of_seq-none session_id p n [] h = refl
of_seq-none session_id p n (c ∷ cs) h = ground (arith, of_seq-none session_id p n cs)

-- The same as a test.
pub next_seq_unused :
    (session_id : Uuid) (p : PseudoId) (cs : List ChunkRow)
    → any (of_seq session_id p (next_seq session_id p cs)) cs ≡ false
next_seq_unused session_id p cs =
    of_seq-none session_id p (next_seq session_id p cs) cs (omega arith)

next_seq_above :
    (session_id : Uuid) (p : PseudoId) (n : ℕ) (cs : List ChunkRow)
    → next_seq session_id p cs ≤ n
    → All (λ c. of_stream session_id p c ≡ true → c.seq < n) cs
unfolding next_seq
next_seq_above session_id p n [] h = tt
next_seq_above session_id p n (c ∷ cs) h =
    (λ e. ground arith, next_seq_above session_id p n cs (ground arith))

-- An insertion that succeeds adds one row at the end; its number is above every number of its
-- stream and at most the column's maximum, and no other row of the stream has its client's id.
pub insert_lem :
    (n : NewChunk) (now : DateTime) (db db' : Db) (row : ChunkRow)
    → insert n now db ≡ ok (row, db')
    → (db'.chunks ≡ db.chunks ++ row ∷ [])
      × All (λ c. of_stream n.session_id n.pseudo_id c ≡ true → c.seq < row.seq) db.chunks
      × (row.seq ≤ i32_max)
      × (any (of_client n.session_id n.pseudo_id row.client_chunk_id) db.chunks ≡ false)
unfolding insert
insert_lem n now db db' row h =
    let s : row.seq ≡ next_seq n.session_id n.pseudo_id db.chunks = ground arith in
    (
      ground arith,
      rw s (
          next_seq_above n.session_id n.pseudo_id (next_seq n.session_id n.pseudo_id db.chunks)
            db.chunks (omega arith)),
      ground arith,
      ground arith,
    )
