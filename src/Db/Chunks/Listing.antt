-- ===== src/Db/Chunks/Listing.antt =====
-- src/db/chunks.rs: the listing of a stream.
use ovp_data_api.Base.{
  All-map, All-select, All-delete_unselected, select-delete-perm, delete, ◌↔◌, ◌++◌, Uuid, DateTime,
  Bool, true, false, List, [], ◌∷◌, All, any, Unique, ok, ◌≡◌, ◌<◌, refl, arith, select, IsOrdered,
  All-order_by, Unique-select, order_by, Unique-order_by, order_by-perm, order_by-IsOrdered,
}
use mathlib.Core.List.{Perm}
use mathlib.Core.List.Perm
use ovp_data_api.Ids.{PseudoId}
use ovp_data_api.Ids.Shape.{pseudo_eq_iff}
use ovp_data_api.Db.Rows.{Db, ChunkRow}
use ovp_data_api.Db.Chunks.{of_stream, of_seq, lower, by_seq, list}

abbrev pub same_number : ChunkRow → ChunkRow → Bool
same_number x y = of_seq y.session_id y.pseudo_id y.seq x

abbrev pub IsAscending : List ChunkRow → Type 0
IsAscending [] = Unit
IsAscending (c ∷ cs) = All (λ d. c.seq < d.seq) cs × IsAscending cs

same_number-symmetric : (c d : ChunkRow) → same_number c d ≡ same_number d c
same_number-symmetric c d =
    ground (arith, pseudo_eq_iff c.pseudo_id d.pseudo_id, pseudo_eq_iff d.pseudo_id c.pseudo_id)

abbrev InStream : Uuid → PseudoId → ChunkRow → Type 0
InStream id p c = of_stream id p c ≡ true

module _ (id : Uuid) (p : PseudoId) where
  above :
      (c : ChunkRow) (ds : List ChunkRow)
      → of_stream id p c ≡ true
      → All (InStream id p) ds
      → All (λ d. lower d c ≡ false) ds
      → any (same_number c) ds ≡ false
      → All (λ d. c.seq < d.seq) ds
  above c [] hc hs lo free = tt
  above c (d ∷ ds) hc hs lo free = (
    ground (
      arith,
      pseudo_eq_iff c.pseudo_id p,
      pseudo_eq_iff d.pseudo_id p,
      pseudo_eq_iff c.pseudo_id d.pseudo_id,
    ),
    above c ds hc hs.1 lo.1 (ground arith),
  )

  ascending :
      (cs : List ChunkRow)
      → All (InStream id p) cs
      → IsOrdered lower cs
      → Unique same_number cs
      → IsAscending cs
  ascending [] hs o u = tt
  ascending (c ∷ cs) hs o u = (above c cs hs.0 hs.1 o.0 u.0, ascending cs hs.1 o.1 u.1)

abbrev IsOf : Uuid → PseudoId → ChunkRow → Type 0
IsOf id p c = (c.session_id ≡ id) × (c.pseudo_id ≡ p)

of_stream-IsOf : (id : Uuid) (p : PseudoId) (c : ChunkRow) → (of_stream id p c ≡ true) ↔ IsOf id p c
of_stream-IsOf id p c =
    let iff = pseudo_eq_iff c.pseudo_id p in
    (λ h. (ground arith, iff.0 (ground arith)), λ h. let e = iff.1 h.1 in ground arith)

-- The chunks are `rows`, those of the stream in strictly ascending order of their numbers, and
-- others.
pub record IsStream (id : Uuid) (p : PseudoId) (db : Db) (rows : List ChunkRow) : Type 0 where
  pub others : List ChunkRow
  pub all_rows : Perm (rows ++ others) db.chunks
  pub of : All (IsOf id p) rows
  pub not_of : All (λ c. ¬ IsOf id p c) others
  pub ascending : IsAscending rows

-- Where the numbers of the rows differ within each stream, the list of a stream is its rows, each
-- once, in strictly ascending order of their numbers.
pub list-IsStream :
    (id : Uuid) (p : PseudoId) (now : DateTime) (db : Db)
    → Unique same_number db.chunks
    → (rows : List ChunkRow) × (list id p now db ≡ ok (rows, db)) × IsStream id p db rows
unfolding list by_seq
list-IsStream id p now db u =
    let found = select (of_stream id p) db.chunks in
    let others = delete (of_stream id p) db.chunks in
    let in_stream =
      All-order_by lower (InStream id p) found (All-select (of_stream id p) db.chunks) in
    (
      order_by lower found,
      refl,
      record {
        others = others;
        all_rows =
            Perm.trans (Perm.append_right others (order_by-perm lower found))
              (select-delete-perm (of_stream id p) db.chunks);
        of =
            All-map (InStream id p) (IsOf id p) (order_by lower found)
              (λ c h. (of_stream-IsOf id p c).0 h) in_stream;
        not_of =
            All-map (λ c. of_stream id p c ≡ false) (λ c. ¬ IsOf id p c) others
              (λ c h k. let h' = (of_stream-IsOf id p c).1 k in cc)
              (All-delete_unselected (of_stream id p) db.chunks);
        ascending =
            ascending id p (order_by lower found) in_stream
              (order_by-IsOrdered lower (λ x y z h k. ground arith) (λ x y h. ground arith) found)
              (Unique-order_by lower same_number same_number-symmetric found
                (Unique-select same_number (of_stream id p) db.chunks u));
      },
    )
