-- ===== src/Session/Steps.antt =====
-- What follows an action that succeeds, in the actions of src/phera/db/session.py.
use phera.Common.{◌≡◌, refl, sym, ◌∙◌, inl, inr, Bool-cases}
use phera.Session.Atomic.{ok≢err}
use phera.Session.{
  M, Session, Error, ok, err, ◌>>=◌, ◌>>◌, commit_and_notify, has_unique_keys, Result-cases,
}

module _ {A B : Type 0} (m : M A) (f : A → M B) (s : Session) where
  pub bind-ok : (a : A) → (m s).0 ≡ ok a → (m >>= f) s ≡ f a (m s).1
  unfolding ◌>>=◌
  bind-ok a q = rw q refl

  pub bind-err : (e : Error) → (m s).0 ≡ err e → (m >>= f) s ≡ (err e, (m s).1)
  unfolding ◌>>=◌
  bind-err e q = rw q refl

-- What follows a commit does not commit again.
abbrev pub IsLast : {A : Type 0} → M A → Type 0
IsLast m = (s : Session) → (m s).1.durable ≡ s.durable

pub bind-IsLast :
    {A B : Type 0} (m : M A) (f : A → M B) → IsLast m → ((a : A) → IsLast (f a)) → IsLast (m >>= f)
unfolding ◌>>=◌
bind-IsLast m f h k s = elim (Result-cases (m s).0) [
  | inl (a, q) ↦ rw q (k a (m s).1 ∙ h s)
  | inr (e, q) ↦ rw q (h s)
]

pub commit-durable :
    {A : Type 0} (k : M A) (s : Session) (a : A)
    → IsLast k
    → ((commit_and_notify >> k) s).0 ≡ ok a
    → ((commit_and_notify >> k) s).1.durable ≡ s.db
unfolding commit_and_notify ◌>>=◌
commit-durable k s a l h = elim (Bool-cases (has_unique_keys s.db.outbox_events)) [
  | inl u ↦ rw u (l _)
  | inr u ↦ elim (ok≢err (sym (rw u at h))) [ ]
]
