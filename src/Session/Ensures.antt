-- ===== src/Session/Ensures.antt =====
-- What holds when an action of src/phera/db/session.py answers, and which actions only read.
use phera.Common.{
  ◌≡◌, refl, sym, ◌∙◌, inl, inr, Bool, true, false, if◌then◌else◌, List, [], ◌∷◌, Bool-cases,
}
use phera.Session.{
  M, Session, Error, ok, pure, raise, gets, ◌>>=◌, ◌>>◌, scalar_one_or_none, Result-cases,
  commit_and_notify, has_unique_keys,
}
use phera.Session.Atomic.{ok≢err, IsQuiet}

-- Where the action answers, its answer and the session after it are so.
abbrev pub Ensures : {A : Type 0} → M A → Session → (A → Session → Type 0) → Type 0
Ensures {A} m s P = (a : A) → (m s).0 ≡ ok a → P a (m s).1

pub raise-Ensures :
    {A : Type 0} (e : Error) (s : Session) (P : A → Session → Type 0) → Ensures (raise e) s P
unfolding raise
raise-Ensures e s P a q = elim (ok≢err (sym q)) [ ]

pub ok-injective : {A : Type 0} {a b : A} → ok a ≡ ok b → a ≡ b
ok-injective h = cc

pub pure-Ensures :
    {A : Type 0} (b : A) (s : Session) (P : A → Session → Type 0) → P b s → Ensures (pure b) s P
unfolding pure
pure-Ensures b s P h a q = rw (sym (ok-injective q)) h

pub bind-Ensures :
    {A B : Type 0} (m : M A) (f : A → M B) (s : Session) (P : B → Session → Type 0)
    → ((a : A) → (m s).0 ≡ ok a → Ensures (f a) (m s).1 P)
    → Ensures (m >>= f) s P
unfolding ◌>>=◌
bind-Ensures m f s P h b = elim (Result-cases (m s).0) [
  | inl (a, q) ↦ rw q (λ r. h a q b r)
  | inr (e, q) ↦ rw q (λ r. elim (ok≢err (sym r)) [ ])
]

-- The commit, and what follows it without another.
pub commit-Ensures :
    {B : Type 0} (k : M B) (s : Session) (P : B → Session → Type 0)
    → ((t : Session) → t.db ≡ s.db → t.durable ≡ s.db → Ensures k t P)
    → Ensures (commit_and_notify >> k) s P
unfolding commit_and_notify ◌>>=◌
commit-Ensures k s P h b = elim (Bool-cases (has_unique_keys s.db.outbox_events)) [
  | inl u ↦ rw u (λ r. h _ refl refl b r)
  | inr u ↦ rw u (λ r. elim (ok≢err (sym r)) [ ])
]

-- The action only reads.
abbrev pub IsStill : {A : Type 0} → M A → Type 0
IsStill m = (s : Session) → (m s).1 ≡ s

pub pure-IsStill : {A : Type 0} (a : A) → IsStill (pure a)
unfolding pure
pure-IsStill a s = refl

pub raise-IsStill : (A : Type 0) (e : Error) → IsStill (raise {A = A} e)
unfolding raise
raise-IsStill A e s = refl

pub gets-IsStill : {A : Type 0} (f : Session → A) → IsStill (gets f)
unfolding gets
gets-IsStill f s = refl

pub scalar_one_or_none-IsStill : {A : Type 0} (rows : List A) → IsStill (scalar_one_or_none rows)
unfolding scalar_one_or_none
scalar_one_or_none-IsStill [] s = refl
scalar_one_or_none-IsStill (a ∷ []) s = refl
scalar_one_or_none-IsStill (a ∷ b ∷ rows) s = refl

pub bind-IsStill :
    {A B : Type 0} (m : M A) (f : A → M B)
    → IsStill m
    → ((a : A) → IsStill (f a))
    → IsStill (m >>= f)
unfolding ◌>>=◌
bind-IsStill m f h k s = elim (Result-cases (m s).0) [
  | inl (a, q) ↦ rw q (k a (m s).1 ∙ h s)
  | inr (e, q) ↦ rw q (h s)
]

pub if-IsStill :
    {A : Type 0} (b : Bool) (m k : M A) → IsStill m → IsStill k → IsStill (if b then m else k)
if-IsStill true m k h j = h
if-IsStill false m k h j = j

pub IsStill-IsQuiet : {A : Type 0} (m : M A) → IsStill m → IsQuiet m
IsStill-IsQuiet m h s = rw (h s) (record { durable = refl; notified = refl; published = refl })

-- After an action that only reads, the session is the same.
pub still-Ensures :
    {A B : Type 0} (m : M A) (f : A → M B) (s : Session) (P : B → Session → Type 0)
    → IsStill m
    → ((a : A) → (m s).0 ≡ ok a → Ensures (f a) s P)
    → Ensures (m >>= f) s P
unfolding ◌>>=◌
still-Ensures m f s P still h b = elim (Result-cases (m s).0) [
  | inl (a, q) ↦ rw (q, still s) (λ r. h a q b r)
  | inr (e, q) ↦ rw q (λ r. elim (ok≢err (sym r)) [ ])
]

pub ruleset still = (
  pure-IsStill, raise-IsStill, gets-IsStill, scalar_one_or_none-IsStill, bind-IsStill, if-IsStill,
)
