-- ===== src/Session/Keeps.antt =====
-- The part of the rows that an action of src/phera/db/session.py leaves as it was.
use phera.Common.{
  ◌≡◌, refl, ◌∙◌, inl, inr, Bool, true, false, if◌then◌else◌, List, [], ◌∷◌, Option, none, some,
}
use phera.Models.{Db, Uuid}
use phera.Session.{
  M, Session, Error, pure, raise, gets, write, uuid4, now, ◌>>=◌, scalar_one_or_none,
  track_outbox_notify, Result-cases,
}

-- Whatever comes of the action.
abbrev pub Keeps : {A X : Type 0} → (Db → X) → M A → Type 0
Keeps part m = (s : Session) → part (m s).1.db ≡ part s.db

module _ {X : Type 0} (part : Db → X) where
  pub pure-Keeps : {A : Type 0} (a : A) → Keeps part (pure a)
  unfolding pure
  pure-Keeps a s = refl

  pub raise-Keeps : (A : Type 0) (e : Error) → Keeps part (raise {A = A} e)
  unfolding raise
  raise-Keeps A e s = refl

  pub gets-Keeps : {A : Type 0} (f : Session → A) → Keeps part (gets f)
  unfolding gets
  gets-Keeps f s = refl

  pub uuid4-Keeps : Keeps part uuid4
  unfolding uuid4
  uuid4-Keeps s = refl

  pub now-Keeps : Keeps part now
  unfolding now
  now-Keeps s = refl

  pub track_outbox_notify-Keeps : (id : Uuid) → Keeps part (track_outbox_notify id)
  unfolding track_outbox_notify
  track_outbox_notify-Keeps id s = refl

  pub scalar_one_or_none-Keeps : {A : Type 0} (rows : List A) → Keeps part (scalar_one_or_none rows)
  unfolding scalar_one_or_none
  scalar_one_or_none-Keeps [] s = refl
  scalar_one_or_none-Keeps (a ∷ []) s = refl
  scalar_one_or_none-Keeps (a ∷ b ∷ rows) s = refl

  -- A write that does not reach the part.
  pub write-Keeps : (f : Db → Db) → ((db : Db) → part (f db) ≡ part db) → Keeps part (write f)
  unfolding write
  write-Keeps f h s = h s.db

  pub bind-Keeps :
      {A B : Type 0} (m : M A) (f : A → M B)
      → Keeps part m
      → ((a : A) → Keeps part (f a))
      → Keeps part (m >>= f)
  unfolding ◌>>=◌
  bind-Keeps m f h k s = elim (Result-cases (m s).0) [
    | inl (a, q) ↦ rw q (k a (m s).1 ∙ h s)
    | inr (e, q) ↦ rw q (h s)
  ]

  pub if-Keeps :
      {A : Type 0} (b : Bool) (m k : M A)
      → Keeps part m
      → Keeps part k
      → Keeps part (if b then m else k)
  if-Keeps true m k h j = h
  if-Keeps false m k h j = j

  pub option-Keeps :
      {A B : Type 0} (o : Option A) (m : M B) (f : A → M B)
      → Keeps part m
      → ((a : A) → Keeps part (f a))
      → Keeps part (elim o as (λ _. M B) [ none ↦ m | some a ↦ f a ])
  option-Keeps none m f h k = h
  option-Keeps (some a) m f h k = k a

  pub either-Keeps :
      {B : Type 0} (b : Bool) (m k : M B)
      → Keeps part m
      → Keeps part k
      → Keeps part (elim b as (λ _. M B) [ true ↦ m | false ↦ k ])
  either-Keeps true m k h j = h
  either-Keeps false m k h j = j

pub ruleset keeps = (
  pure-Keeps, raise-Keeps, gets-Keeps, uuid4-Keeps, now-Keeps, track_outbox_notify-Keeps,
  scalar_one_or_none-Keeps, bind-Keeps, if-Keeps, option-Keeps, either-Keeps,
)
