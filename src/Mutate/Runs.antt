-- ===== src/Mutate/Runs.antt =====
-- The actions of a session as steps on its outbox.
use phera.Common.{
  ◌≡◌, refl, inl, inr, Bool, true, false, Option, none, some, List, [], ◌∷◌, Dict, String,
  if◌then◌else◌,
}
use phera.Models.{Db}
use phera.Session.{
  M, Session, Error, pure, raise, gets, write, uuid4, now, ◌>>=◌, scalar_one_or_none,
  commit_and_notify, publish_inbox_event, Result-cases,
}
use phera.Mutate.{MutateRequest, mutate}
use phera.Mutate.Steps.{Reach, start, next, mutates, edits, aside, commits}

-- Whatever comes of the action, it is a sequence of steps.
abbrev pub IsRun : {A : Type 0} → M A → Type 0
IsRun m = (s : Session) → Reach s (m s).1

Reach-trans : {s t u : Session} → Reach s t → Reach t u → Reach s u
Reach-trans r start = r
Reach-trans r (next q st) = next (Reach-trans r q) st

pub pure-IsRun : {A : Type 0} (a : A) → IsRun (pure a)
unfolding pure
pure-IsRun a s = start

pub raise-IsRun : (A : Type 0) (e : Error) → IsRun (raise {A = A} e)
unfolding raise
raise-IsRun A e s = start

pub gets-IsRun : {A : Type 0} (f : Session → A) → IsRun (gets f)
unfolding gets
gets-IsRun f s = start

pub uuid4-IsRun : IsRun uuid4
unfolding uuid4
uuid4-IsRun s =
    next start (aside _ (record { db = refl; durable = refl; queue = refl; told = refl }))

pub now-IsRun : IsRun now
unfolding now
now-IsRun s = next start (aside _ (record { db = refl; durable = refl; queue = refl; told = refl }))

pub publish_inbox_event-IsRun : (payload : Dict String) → IsRun (publish_inbox_event payload)
unfolding publish_inbox_event
publish_inbox_event-IsRun payload s =
    next start (aside _ (record { db = refl; durable = refl; queue = refl; told = refl }))

pub scalar_one_or_none-IsRun : {A : Type 0} (rows : List A) → IsRun (scalar_one_or_none rows)
unfolding scalar_one_or_none
scalar_one_or_none-IsRun [] s = start
scalar_one_or_none-IsRun (a ∷ []) s = start
scalar_one_or_none-IsRun (a ∷ b ∷ rows) s = start

-- A write to the rows of other tables.
pub write-IsRun :
    (f : Db → Db)
    → ((db : Db) → (f db).audit_events ≡ db.audit_events)
    → ((db : Db) → (f db).outbox_events ≡ db.outbox_events)
    → IsRun (write f)
unfolding write
write-IsRun f p q s = next start (edits f (p s.db) (q s.db))

pub mutate-IsRun : (req : MutateRequest) → IsRun (mutate req)
mutate-IsRun req s = next start (mutates req)

pub commit_and_notify-IsRun : IsRun commit_and_notify
commit_and_notify-IsRun s = next start commits

pub bind-IsRun :
    {A B : Type 0} (m : M A) (f : A → M B) → IsRun m → ((a : A) → IsRun (f a)) → IsRun (m >>= f)
unfolding ◌>>=◌
bind-IsRun m f h k s = elim (Result-cases (m s).0) [
  | inl (a, q) ↦ rw q (Reach-trans (h s) (k a (m s).1))
  | inr (e, q) ↦ rw q (h s)
]

pub if-IsRun : {A : Type 0} (b : Bool) (m k : M A) → IsRun m → IsRun k → IsRun (if b then m else k)
if-IsRun true m k h j = h
if-IsRun false m k h j = j

pub option-IsRun :
    {A B : Type 0} (o : Option A) (m : M B) (f : A → M B)
    → IsRun m
    → ((a : A) → IsRun (f a))
    → IsRun (elim o as (λ _. M B) [ none ↦ m | some a ↦ f a ])
option-IsRun none m f h k = h
option-IsRun (some a) m f h k = k a

pub ruleset runs = (
  pure-IsRun, raise-IsRun, gets-IsRun, uuid4-IsRun, now-IsRun, publish_inbox_event-IsRun,
  scalar_one_or_none-IsRun, mutate-IsRun, commit_and_notify-IsRun, bind-IsRun, if-IsRun,
)
