-- ===== src/Email/Alone.antt =====
-- No two workers poll one mailbox of src/phera/modules/tickets/email_poll.py.
use phera.Common.{
  ℕ, ◌≡◌, refl, sym, ◌∙◌, ap, inl, inr, ◌⊎◌, ◌≢◌, Bool, true, false, ◌&&◌, Option, none, some, List,
  [], ◌∷◌, ◌++◌, arith, eqb, eqb_iff, eq_iff, any, update_rows, if◌then◌else◌, Bool-cases,
  any-append, update_rows-none, some-injective,
}
use phera.Models.{Uuid, EmailPollState}
use phera.Email.Poll.{is_state_of, is_free, claim_rows, set_running, new_state}
use phera.Email.Claims.{
  Workers, set_polls, IsEnd, fails, finishes, Step, inserts, claims, loses, ends, dies, Reach, here,
  next,
}

-- The mailbox that a worker polls has a row, none that is free, and no other worker.
record IsClaimed (w : Workers) (n : ℕ) (account : Uuid) : Type 0 where
  stands : any (is_state_of account) w.rows ≡ true
  running : any (is_free account) w.rows ≡ false
  alone : (m : ℕ) → w.polls m ≡ some account → m ≡ n

abbrev AllClaimed : Workers → Type 0
AllClaimed w = (n : ℕ) (account : Uuid) → w.polls n ≡ some account → IsClaimed w n account

-- A write that keeps whose row it is, to the rows of a mailbox.
abbrev pub KeepsAccount : (EmailPollState → EmailPollState) → Type 0
KeepsAccount change = (p : EmailPollState) → (change p).channel_account_id ≡ p.channel_account_id

module _ (account : Uuid) (q : EmailPollState → Bool) (change : EmailPollState → EmailPollState)
    (h : KeepsAccount change) where
  pub stands_after :
      (rows : List EmailPollState)
      → any (is_state_of account) (update_rows q change rows) ≡ any (is_state_of account) rows
  unfolding any update_rows
  stands_after [] = refl
  stands_after (p ∷ rows) = ground (arith, h p, stands_after rows)

  -- Rows of another mailbox.
  running_after :
      (rows : List EmailPollState)
      → ((p : EmailPollState) → is_state_of account p ≡ true → q p ≡ false)
      → any (is_free account) (update_rows q change rows) ≡ any (is_free account) rows
  unfolding any update_rows
  running_after [] other = refl
  running_after (p ∷ rows) other =
      ground (arith, h p, other p, eq_iff p.channel_account_id account, running_after rows other)

and_false : (b : Bool) → (b && false) ≡ false
and_false true = refl
and_false false = refl

taken :
    (account : Uuid) (p : EmailPollState)
    → is_free account (if is_free account p then set_running p else p) ≡ false
taken account p = elim (Bool-cases (is_free account p)) [
  | inl q ↦ rw q (and_false (is_state_of account p))
  | inr q ↦ rw q q
]

pub claimed-running :
    (account : Uuid) (rows : List EmailPollState)
    → any (is_free account) (claim_rows account rows).0 ≡ false
unfolding claim_rows any update_rows
claimed-running account [] = refl
claimed-running account (p ∷ rows) = rw (taken account p) (claimed-running account rows)

pub free-stands :
    (account : Uuid) (rows : List EmailPollState)
    → any (is_free account) rows ≡ true
    → any (is_state_of account) rows ≡ true
unfolding any
free-stands account [] h = ground arith
free-stands account (p ∷ rows) h = ground (arith, free-stands account rows)

-- A row that is set by a claim was free.
free-changes :
    (account other : Uuid) (p : EmailPollState)
    → account ≢ other
    → is_state_of account p ≡ true
    → is_free other p ≡ false
free-changes account other p apart h =
    ground (arith, eq_iff p.channel_account_id account, eq_iff p.channel_account_id other)

state-changes :
    (account other : Uuid) (p : EmailPollState)
    → account ≢ other
    → is_state_of account p ≡ true
    → is_state_of other p ≡ false
state-changes account other p apart h =
    ground (arith, eq_iff p.channel_account_id account, eq_iff p.channel_account_id other)

end-KeepsAccount : {change : EmailPollState → EmailPollState} → IsEnd change → KeepsAccount change
end-KeepsAccount (fails detail at) p = refl
end-KeepsAccount (finishes watermark at) p = refl

polls-same :
    (polls : ℕ → Option Uuid) (n : ℕ) (value : Option Uuid) → set_polls polls n value n ≡ value
polls-same polls n value = ground arith

polls-other :
    (polls : ℕ → Option Uuid) (n m : ℕ) (value : Option Uuid) (a : Uuid)
    → set_polls polls n value m ≡ some a
    → ((m ≡ n) × (value ≡ some a)) ⊎ (polls m ≡ some a)
polls-other polls n m value a h = elim (Bool-cases (eqb m n)) [
  | inl q ↦ inl ((eqb_iff m n).0 q, rw q at h)
  | inr q ↦ inr (rw q at h)
]

nothing : {A : Type 0} {a : A} → none ≡ some a → ⊥
nothing h = cc

both : false ≡ true → ⊥
both h = cc

differs : (n m : ℕ) → n ≡ m → eqb m n ≡ false → ⊥
differs n m e h = ground arith

-- A worker that polls nothing more.
dropped :
    (w : Workers) (n : ℕ)
    → AllClaimed w
    → AllClaimed (record w { polls = set_polls w.polls n none })
dropped w n h m a q = elim (polls-other w.polls n m none a q) [
  | inl (_, wrong) ↦ absurd cc
  | inr held ↦
      let c = h m a held in
      record {
        stands = c.stands;
        running = c.running;
        alone = λ k r. elim (polls-other w.polls n k none a r) [
          | inl (_, wrong) ↦ absurd cc
          | inr other ↦ c.alone k other
        ];
      }
]

module _ (w : Workers) (n : ℕ) (account : Uuid) (h : AllClaimed w) where
  inserted :
      any (is_state_of account) w.rows ≡ false
      → AllClaimed (record w { rows = w.rows ++ new_state account ∷ [] })
  unfolding any
  inserted absent m a q =
      let c = h m a q in
      record {
        stands = rw (any-append (is_state_of a) w.rows (new_state account ∷ []), c.stands) refl;
        running =
            any-append (is_free a) w.rows (new_state account ∷ [])
            ∙ ground (
              arith,
              c.running,
              c.stands,
              absent,
              eq_iff account a,
              eq_iff a account,
              apart c.stands,
            );
        alone = c.alone;
      }
    where
      apart : any (is_state_of a) w.rows ≡ true → account ≢ a
      apart stands e = absurd cc

  claimed :
      any (is_free account) w.rows ≡ true
      → AllClaimed (record {
        rows = (claim_rows account w.rows).0;
        polls = set_polls w.polls n (some account);
      })
  unfolding claim_rows
  claimed free m a q = elim (polls-other w.polls n m (some account) a q) [
    | inl (e, f) ↦
        rw (sym (some-injective f), e)
          (record {
            stands =
                stands_after account (is_free account) set_running (λ p. refl) w.rows
                ∙ free-stands account w.rows free;
            running = claimed-running account w.rows;
            alone = λ k r. elim (polls-other w.polls n k (some account) account r) [
              | inl (same, _) ↦ same
              | inr other ↦ absurd (taken_twice k other)
            ];
          })
    | inr held ↦
        let c = h m a held in
        let apart : a ≢ account =
          λ e. both (sym c.running ∙ ap (λ x. any (is_free x) w.rows) e ∙ free) in
        record {
          stands = stands_after a (is_free account) set_running (λ p. refl) w.rows ∙ c.stands;
          running =
              running_after a (is_free account) set_running (λ p. refl) w.rows
                (λ p. free-changes a account p apart)
              ∙ c.running;
          alone = λ k r. elim (polls-other w.polls n k (some account) a r) [
            | inl (_, same) ↦ absurd (apart (sym (some-injective same)))
            | inr other ↦ c.alone k other
          ];
        }
  ]
    where
      taken_twice : (k : ℕ) → w.polls k ≡ some account → ⊥
      taken_twice k other = both (sym (h k account other).running ∙ free)

  ended :
      (change : EmailPollState → EmailPollState)
      → w.polls n ≡ some account
      → IsEnd change
      → AllClaimed (record {
        rows = update_rows (is_state_of account) change w.rows;
        polls = set_polls w.polls n none;
      })
  ended change polls over m a q = elim (Bool-cases (eqb m n)) [
    | inl same ↦ absurd (nothing (rw same at q))
    | inr differ ↦
        let c = h m a (rw differ at q) in
        let apart : account ≢ a = λ e. differs n m (c.alone n (polls ∙ ap some e)) differ in
        record {
          stands =
              stands_after a (is_state_of account) change (end-KeepsAccount over) w.rows ∙ c.stands;
          running =
              running_after a (is_state_of account) change (end-KeepsAccount over) w.rows
                (λ p. state-changes a account p (λ e. apart (sym e)))
              ∙ c.running;
          alone = λ k r. elim (polls-other w.polls n k none a r) [
            | inl (_, wrong) ↦ absurd cc
            | inr other ↦ c.alone k other
          ];
        }
  ]

  lost :
      any (is_free account) w.rows ≡ false
      → AllClaimed (record w { rows = (claim_rows account w.rows).0 })
  unfolding claim_rows
  lost free = rw (update_rows-none (is_free account) set_running w.rows free) h

Step-AllClaimed : {v w : Workers} → Step v w → AllClaimed v → AllClaimed w
unfolding claim_rows
Step-AllClaimed (inserts w account absent) h = inserted w 0 account h absent
Step-AllClaimed (claims w n account free) h = claimed w n account h free
Step-AllClaimed (loses w n account free) h = lost w n account h free
Step-AllClaimed (ends w n account change polls over) h = ended w n account h change polls over
Step-AllClaimed (dies w n) h = dropped w n h

Reach-AllClaimed : {start w : Workers} → Reach start w → AllClaimed start → AllClaimed w
Reach-AllClaimed here h = h
Reach-AllClaimed (next r step) h = Step-AllClaimed step (Reach-AllClaimed r h)

-- Where the workers start with no poll, whatever rows there are and in whatever order they then insert
-- rows, claim, back off, end and die: no two of them ever poll one mailbox at a time.
pub Reach-alone :
    (start w : Workers) (n m : ℕ) (account : Uuid)
    → ((k : ℕ) → start.polls k ≡ none)
    → Reach start w
    → w.polls n ≡ some account
    → w.polls m ≡ some account
    → m ≡ n
Reach-alone start w n m account idle r p q =
    (Reach-AllClaimed r (λ k a held. absurd (nothing (sym (idle k) ∙ held))) n account p).alone m q
