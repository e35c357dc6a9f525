-- ===== src/Session/Atomic.antt =====
-- What other sessions, the broker and the inbox streams see of an action of src/phera/db/session.py.
use phera.Common.{
  String, ◌≡◌, refl, sym, ◌∙◌, Bool, true, false, inl, inr, Bool-cases, if◌then◌else◌, List, [],
  ◌∷◌, Option, Dict, none, some,
}
use phera.Models.{Db, Uuid}
use phera.Session.{
  M, Session, Error, ok, err, ◌>>=◌, pure, raise, gets, write, uuid4, now, scalar_one_or_none,
  track_outbox_notify, commit_and_notify, publish_inbox_event, Result-cases, has_unique_keys,
}

pub record IsUnseen (before after : Session) : Type 0 where
  pub durable : after.durable ≡ before.durable
  pub notified : after.notified ≡ before.notified
  pub published : after.published ≡ before.published

-- Nobody else sees the action, whatever comes of it.
abbrev pub IsQuiet : {A : Type 0} → M A → Type 0
IsQuiet m = (s : Session) → IsUnseen s (m s).1

-- Nobody else sees the action when it fails.
abbrev pub IsAtomic : {A : Type 0} → M A → Type 0
IsAtomic m = (s : Session) (e : Error) → (m s).0 ≡ err e → IsUnseen s (m s).1

abbrev pub IsSafe : {A : Type 0} → M A → Type 0
IsSafe {A} m = (s : Session) → (a : A) × ((m s).0 ≡ ok a)

IsUnseen-refl : (s : Session) → IsUnseen s s
IsUnseen-refl s = record { durable = refl; notified = refl; published = refl }

pub IsUnseen-trans : {a b c : Session} → IsUnseen a b → IsUnseen b c → IsUnseen a c
IsUnseen-trans f g = record {
  durable = g.durable ∙ f.durable;
  notified = g.notified ∙ f.notified;
  published = g.published ∙ f.published;
}

pub ok≢err : {A : Type 0} {a : A} {e : Error} → ok a ≡ err e → ⊥
ok≢err q = cc

pub pure-IsQuiet : {A : Type 0} (a : A) → IsQuiet (pure a)
unfolding pure
pure-IsQuiet a s = IsUnseen-refl s

pub raise-IsQuiet : (A : Type 0) (e : Error) → IsQuiet (raise {A = A} e)
unfolding raise
raise-IsQuiet A e s = IsUnseen-refl s

pub gets-IsQuiet : {A : Type 0} (f : Session → A) → IsQuiet (gets f)
unfolding gets
gets-IsQuiet f s = IsUnseen-refl s

pub write-IsQuiet : (f : Db → Db) → IsQuiet (write f)
unfolding write
write-IsQuiet f s = record { durable = refl; notified = refl; published = refl }

pub uuid4-IsQuiet : IsQuiet uuid4
unfolding uuid4
uuid4-IsQuiet s = record { durable = refl; notified = refl; published = refl }

pub now-IsQuiet : IsQuiet now
unfolding now
now-IsQuiet s = record { durable = refl; notified = refl; published = refl }

pub track_outbox_notify-IsQuiet : (id : Uuid) → IsQuiet (track_outbox_notify id)
unfolding track_outbox_notify
track_outbox_notify-IsQuiet id s = record { durable = refl; notified = refl; published = refl }

pub scalar_one_or_none-IsQuiet : {A : Type 0} (rows : List A) → IsQuiet (scalar_one_or_none rows)
unfolding scalar_one_or_none
scalar_one_or_none-IsQuiet [] s = IsUnseen-refl s
scalar_one_or_none-IsQuiet (a ∷ []) s = IsUnseen-refl s
scalar_one_or_none-IsQuiet (a ∷ b ∷ rows) s = IsUnseen-refl s

pub bind-IsQuiet :
    {A B : Type 0} (m : M A) (f : A → M B)
    → IsQuiet m
    → ((a : A) → IsQuiet (f a))
    → IsQuiet (m >>= f)
unfolding ◌>>=◌
bind-IsQuiet m f h k s = elim (Result-cases (m s).0) [
  | inl (a, q) ↦ rw q (IsUnseen-trans (h s) (k a (m s).1))
  | inr (e, q) ↦ rw q (h s)
]

pub if-IsQuiet :
    {A : Type 0} (b : Bool) (m k : M A) → IsQuiet m → IsQuiet k → IsQuiet (if b then m else k)
if-IsQuiet true m k h j = h
if-IsQuiet false m k h j = j

pub option-IsQuiet :
    {A B : Type 0} (o : Option A) (m : M B) (f : A → M B)
    → IsQuiet m
    → ((a : A) → IsQuiet (f a))
    → IsQuiet (elim o as (λ _. M B) [ none ↦ m | some a ↦ f a ])
option-IsQuiet none m f h k = h
option-IsQuiet (some a) m f h k = k a

pub either-IsQuiet :
    {B : Type 0} (b : Bool) (m k : M B)
    → IsQuiet m
    → IsQuiet k
    → IsQuiet (elim b as (λ _. M B) [ true ↦ m | false ↦ k ])
either-IsQuiet true m k h j = h
either-IsQuiet false m k h j = j

pub IsQuiet-IsAtomic : {A : Type 0} (m : M A) → IsQuiet m → IsAtomic m
IsQuiet-IsAtomic m h s e q = h s

pub commit_and_notify-IsAtomic : IsAtomic commit_and_notify
unfolding commit_and_notify
commit_and_notify-IsAtomic s e q = elim (Bool-cases (has_unique_keys s.db.outbox_events)) [
  | inl u ↦ elim (ok≢err (rw u at q)) [ ]
  | inr u ↦ rw u (record { durable = refl; notified = refl; published = refl })
]

-- What is done first is not seen.
pub after-IsAtomic :
    {A B : Type 0} (m : M A) (f : A → M B)
    → IsQuiet m
    → ((a : A) → IsAtomic (f a))
    → IsAtomic (m >>= f)
unfolding ◌>>=◌
after-IsAtomic m f h k s e q = elim (Result-cases (m s).0) [
  | inl (a, r) ↦ rw r (IsUnseen-trans (h s) (k a (m s).1 e (rw r at q)))
  | inr (e', r) ↦ rw r (h s)
]

pub if-IsAtomic :
    {A : Type 0} (b : Bool) (m k : M A) → IsAtomic m → IsAtomic k → IsAtomic (if b then m else k)
if-IsAtomic true m k h j = h
if-IsAtomic false m k h j = j

pub option-IsAtomic :
    {A B : Type 0} (o : Option A) (m : M B) (f : A → M B)
    → IsAtomic m
    → ((a : A) → IsAtomic (f a))
    → IsAtomic (elim o as (λ _. M B) [ none ↦ m | some a ↦ f a ])
option-IsAtomic none m f h k = h
option-IsAtomic (some a) m f h k = k a

-- What is done last does not fail.
pub before-IsAtomic :
    {A B : Type 0} (m : M A) (f : A → M B)
    → IsAtomic m
    → ((a : A) → IsSafe (f a))
    → IsAtomic (m >>= f)
unfolding ◌>>=◌
before-IsAtomic m f h k s e q = elim (Result-cases (m s).0) [
  | inl (a, r) ↦ let (b, safe) = k a (m s).1 in elim (ok≢err (sym safe ∙ rw r at q)) [ ]
  | inr (e', r) ↦ rw r (h s e' r)
]

pub bind-IsSafe :
    {A B : Type 0} (m : M A) (f : A → M B) → IsSafe m → ((a : A) → IsSafe (f a)) → IsSafe (m >>= f)
unfolding ◌>>=◌
bind-IsSafe m f h k s = let (a, q) = h s in let (b, r) = k a (m s).1 in (b, rw q r)

pub pure-IsSafe : {A : Type 0} (a : A) → IsSafe (pure a)
unfolding pure
pure-IsSafe a s = (a, refl)

pub gets-IsSafe : {A : Type 0} (f : Session → A) → IsSafe (gets f)
unfolding gets
gets-IsSafe f s = (f s, refl)

pub publish_inbox_event-IsSafe : (payload : Dict String) → IsSafe (publish_inbox_event payload)
unfolding publish_inbox_event
publish_inbox_event-IsSafe payload s = (tt, refl)

pub if-IsSafe :
    {A : Type 0} (b : Bool) (m k : M A) → IsSafe m → IsSafe k → IsSafe (if b then m else k)
if-IsSafe true m k h j = h
if-IsSafe false m k h j = j

pub ruleset quiet = (
  pure-IsQuiet, raise-IsQuiet, gets-IsQuiet, write-IsQuiet, uuid4-IsQuiet, now-IsQuiet,
  track_outbox_notify-IsQuiet, scalar_one_or_none-IsQuiet, bind-IsQuiet, if-IsQuiet, option-IsQuiet,
  either-IsQuiet,
)

pub ruleset safe = (bind-IsSafe, pure-IsSafe, gets-IsSafe, publish_inbox_event-IsSafe, if-IsSafe)

pub ruleset atomic = (after-IsAtomic, before-IsAtomic, commit_and_notify-IsAtomic)
