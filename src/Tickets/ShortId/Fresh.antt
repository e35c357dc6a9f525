-- ===== src/Tickets/ShortId/Fresh.antt =====
-- Generated and inserted ids are fresh, and ten tries suffice if one of the candidates is free.
use phera.Common.{
  ℕ, zero, suc, ◌+◌, ◌<◌, ◌≤◌, String, ◌≡◌, refl, ap, ◌∙◌, false, List, [], ◌∷◌, ◌++◌, arith,
  where_, length, inl, inr, ◌⊎◌, ◌%◌,
}
use phera.Models.{Ticket}
use phera.Session.{Session, ok, ◌>>=◌}
use phera.Tickets.ShortId.{
  has_short_id, short_id, generate_from, randbelow, generate_ticket_short_id, collides, suffix_max,
  max_attempts,
}

-- A ticket stands last in the table, and no row before it has its short id.
pub record IsInserted (t : Ticket) (rows : List Ticket) : Type 0 where
  pub earlier : List Ticket
  pub last : rows ≡ earlier ++ t ∷ []
  pub unique : collides t earlier ≡ false

-- No short id stands in the table twice.
abbrev pub IsUnique : List Ticket → Type 0
IsUnique rows = (id : String) → length (where_ (has_short_id id) rows) ≤ 1

abbrev pub candidate_at : String → Session → ℕ → String
candidate_at day s r = short_id day (s.randoms r % suffix_max)

-- The candidate of the i-th round from here.
abbrev pub candidate : String → Session → ℕ → String
candidate day s i = candidate_at day s (s.rolled + i)

abbrev pub IsFree : String → Session → ℕ → Type 0
IsFree day s i = where_ (has_short_id (candidate day s i)) s.db.tickets ≡ []

-- If a candidate among the rounds left is free, the generator returns an id that no row has, and
-- changes no row.
pub record Generates (left : ℕ) (day : String) (s : Session) : Type 0 where
  pub id : String
  pub returned : (generate_from left day s).0 ≡ ok id
  pub free : where_ (has_short_id id) s.db.tickets ≡ []
  pub rows : (generate_from left day s).1.db ≡ s.db

short_rows : (rows : List Ticket) → length rows ≤ 1 → (rows ≡ []) ⊎ ((t : Ticket) × (rows ≡ t ∷ []))
short_rows [] h = inl refl
short_rows (t ∷ []) h = inr (t, refl)
short_rows (t ∷ u ∷ rows) h = absurd (omega arith)

-- If the first candidate is taken, the free one is a later one.
later-IsFree :
    (day : String) (s : Session) (i : ℕ) (t : Ticket)
    → IsFree day s i
    → where_ (has_short_id (short_id day (s.randoms s.rolled % suffix_max))) s.db.tickets ≡ t ∷ []
    → (j : ℕ) × (suc j ≡ i) × IsFree day (record s { rolled = suc s.rolled }) j
later-IsFree day s zero t f e =
    let same : s.rolled + 0 ≡ s.rolled = omega arith in absurd (cc (f, e, same))
later-IsFree day s (suc j) t f e =
    let same : suc s.rolled + j ≡ s.rolled + suc j = omega arith in
    (j, refl, ap (λ (r : ℕ). where_ (has_short_id (candidate_at day s r)) s.db.tickets) same ∙ f)

generate_from-Generates :
    (left : ℕ) (day : String) (s : Session) (i : ℕ)
    → IsUnique s.db.tickets
    → i < left
    → IsFree day s i
    → Generates left day s
unfolding generate_from randbelow ◌>>=◌
generate_from-Generates zero day s i u lt f = absurd (omega arith)
generate_from-Generates (suc left) day s i u lt f =
    let first_id = short_id day (s.randoms s.rolled % suffix_max) in
    elim (short_rows (where_ (has_short_id first_id) s.db.tickets) (u first_id)) [
      | inl e ↦ record { id = first_id; returned = ground arith; free = e; rows = ground arith }
      | inr (t, e) ↦
          let later = later-IsFree day s i t f e in
          let rest =
            generate_from-Generates left day (record s { rolled = suc s.rolled }) later.0 u
              (omega (arith, later.1)) later.2 in
          record {
            id = rest.id;
            returned = ground (arith, rest.returned);
            free = rest.free;
            rows = ground (arith, rest.rows);
          }
    ]

-- With ten distinct looks at the random source, one free candidate among them suffices: the
-- generator does not raise, answers an id that no ticket has, and changes no row. The table has no
-- short id twice.
pub generate_ticket_short_id-Generates :
    (s : Session) (i : ℕ)
    → IsUnique s.db.tickets
    → i < max_attempts
    → IsFree (s.strftime (s.clock s.ticks)) (record s { ticks = suc s.ticks }) i
    → (id : String) × ((generate_ticket_short_id s).0 ≡ ok id)
      × (where_ (has_short_id id) s.db.tickets ≡ [])
      × ((generate_ticket_short_id s).1.db ≡ s.db)
unfolding generate_ticket_short_id ◌>>=◌
generate_ticket_short_id-Generates s i u lt f =
    let g =
      generate_from-Generates max_attempts (s.strftime (s.clock s.ticks))
        (record s { ticks = suc s.ticks }) i u lt f in
    (g.id, g.returned, g.free, g.rows)
