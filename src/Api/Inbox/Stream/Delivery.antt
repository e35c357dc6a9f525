-- ===== src/Api/Inbox/Stream/Delivery.antt =====
-- What reaches a subscriber of src/phera/modules/tickets/inbox_events.py.
use phera.Common.{
  ℕ, ◌+◌, ◌≤◌, String, ◌≡◌, refl, sym, ap, ◌∙◌, inl, inr, true, false, Option, none, some, List, [],
  ◌∷◌, ◌++◌, append_assoc, arith, length, length-append, leb, eqb, if◌then◌else◌, Bool-cases,
}
use phera.Api.Inbox.Stream.{
  Queue, Hub, maxsize, offer, subscribe_inbox, unsubscribe_inbox, publish, get, get_head, put_back,
}

unfoldable pub queue_of : ℕ → Hub → Option Queue
queue_of k [] = none
queue_of k ((j, q) ∷ hub) = let rest = queue_of k hub in if eqb j k then some q else rest

-- `xs` is what is left of `ys` when some members are dropped.
pub data IsPart {A : Type 0} : List A → List A → Type 0 where
  done : IsPart [] []
  keep : (x : A) (xs ys : List A) → IsPart xs ys → IsPart (x ∷ xs) (x ∷ ys)
  drop : (y : A) (xs ys : List A) → IsPart xs ys → IsPart xs (y ∷ ys)

module _ {A : Type 0} where
  keep_last : (a : A) (xs ys : List A) → IsPart xs ys → IsPart (xs ++ a ∷ []) (ys ++ a ∷ [])
  keep_last a [] [] done = keep a [] [] done
  keep_last a _ _ (keep x xs ys h) = keep x _ _ (keep_last a xs ys h)
  keep_last a _ _ (drop y xs ys h) = drop y _ _ (keep_last a xs ys h)

  drop_last : (a : A) (xs ys : List A) → IsPart xs ys → IsPart xs (ys ++ a ∷ [])
  drop_last a [] [] done = drop a [] [] done
  drop_last a _ _ (keep x xs ys h) = keep x _ _ (drop_last a xs ys h)
  drop_last a _ _ (drop y xs ys h) = drop y _ _ (drop_last a xs ys h)

-- The life of subscriber `k` so far: what was published since it subscribed, what it has got, and the
-- queues. Others subscribe, leave and read in between.
pub data Life (k : ℕ) : List String → List String → Hub → Type 0 where
  joined : (hub : Hub) → Life k [] [] (subscribe_inbox k hub)
  published :
      (ps rs : List String) (hub : Hub) (event : String)
      → Life k ps rs hub
      → Life k (ps ++ event ∷ []) rs (publish event hub)
  received :
      (ps rs : List String) (hub hub' : Hub) (event : String)
      → Life k ps rs hub
      → get k hub ≡ some (event, hub')
      → Life k ps (rs ++ event ∷ []) hub'
  other_joins :
      (ps rs : List String) (hub : Hub) (j : ℕ)
      → Life k ps rs hub
      → eqb j k ≡ false
      → Life k ps rs (subscribe_inbox j hub)
  other_leaves :
      (ps rs : List String) (hub : Hub) (j : ℕ)
      → Life k ps rs hub
      → eqb j k ≡ false
      → Life k ps rs (unsubscribe_inbox j hub)
  other_reads :
      (ps rs : List String) (hub hub' : Hub) (event : String) (j : ℕ)
      → Life k ps rs hub
      → eqb j k ≡ false
      → get j hub ≡ some (event, hub')
      → Life k ps rs hub'

-- The view of one subscriber of each operation on all queues.
abbrev offered : String → Option Queue → Option Queue
offered event none = none
offered event (some q) = some (offer event q)

queue_of-publish :
    (k : ℕ) (event : String) (hub : Hub)
    → queue_of k (publish event hub) ≡ offered event (queue_of k hub)
unfolding queue_of publish
queue_of-publish k event [] = refl
queue_of-publish k event ((j, q) ∷ hub) = ground (arith, queue_of-publish k event hub)

queue_of-unsubscribe :
    (k j : ℕ) (hub : Hub) → eqb j k ≡ false → queue_of k (unsubscribe_inbox j hub) ≡ queue_of k hub
unfolding queue_of unsubscribe_inbox
queue_of-unsubscribe k j [] h = refl
queue_of-unsubscribe k j ((i, q) ∷ hub) h = ground (arith, queue_of-unsubscribe k j hub h)

get_head-parts :
    (j : ℕ) (q : Queue) (hub hub' : Hub) (event : String)
    → get_head j q hub ≡ some (event, hub')
    → (q' : Queue) × (q ≡ event ∷ q') × (hub' ≡ (j, q') ∷ hub)
get_head-parts j [] hub hub' event h = absurd cc
get_head-parts j (x ∷ q) hub hub' event h = (q, cc, cc)

put_back-parts :
    (entry : ℕ × Queue) (r : Option (String × Hub)) (hub' : Hub) (event : String)
    → put_back entry r ≡ some (event, hub')
    → (hub : Hub) × (r ≡ some (event, hub)) × (hub' ≡ entry ∷ hub)
put_back-parts entry none hub' event h = absurd cc
put_back-parts entry (some (e, hub)) hub' event h = (hub, cc, cc)

queue_of-get :
    (k : ℕ) (hub hub' : Hub) (event : String)
    → get k hub ≡ some (event, hub')
    → (q : Queue) × (queue_of k hub ≡ some (event ∷ q)) × (queue_of k hub' ≡ some q)
unfolding queue_of get
queue_of-get k [] hub' event h = absurd cc
queue_of-get k ((j, q) ∷ hub) hub' event h = elim (Bool-cases (eqb j k)) [
  | inl e ↦
      let (q', a, b) = get_head-parts j q hub hub' event (rw e at h) in
      (q', rw (e, a) refl, rw (b, queue_of, e) refl)
  | inr e ↦
      let (hub2, a, b) = put_back-parts (j, q) (get k hub) hub' event (rw e at h) in
      let (q', c, d) = queue_of-get k hub hub2 event a in (q', rw e c, rw (b, queue_of, e) d)
]

not_same : (i j k : ℕ) → eqb i j ≡ true → eqb j k ≡ false → eqb i k ≡ false
not_same i j k a b = ground arith

queue_of-get_other :
    (k j : ℕ) (hub hub' : Hub) (event : String)
    → get j hub ≡ some (event, hub')
    → eqb j k ≡ false
    → queue_of k hub' ≡ queue_of k hub
unfolding queue_of get
queue_of-get_other k j [] hub' event h e = absurd cc
queue_of-get_other k j ((i, q) ∷ hub) hub' event h e = elim (Bool-cases (eqb i j)) [
  | inl f ↦
      let (q', a, b) = get_head-parts i q hub hub' event (rw f at h) in
      rw (b, queue_of, not_same i j k f e) refl
  | inr f ↦
      let (hub2, a, b) = put_back-parts (i, q) (get j hub) hub' event (rw f at h) in
      rw (b, queue_of, queue_of-get_other k j hub hub2 event a e) refl
]

eqb_refl : (k : ℕ) → eqb k k ≡ true
eqb_refl k = ground arith

-- What subscriber `k` got and has still to get.
pub record IsDelivered (k : ℕ) (ps rs : List String) (hub : Hub) : Type 0 where
  pub queue : Queue
  pub found : queue_of k hub ≡ some queue
  pub part : IsPart (rs ++ queue) ps
  pub bounded : length queue ≤ maxsize
  pub whole : length ps ≤ maxsize → rs ++ queue ≡ ps

offer-full : (event : String) (q : Queue) → leb maxsize (length q) ≡ true → offer event q ≡ q
unfolding offer
offer-full event q h = ground arith

offer-room :
    (event : String) (q : Queue) → leb maxsize (length q) ≡ false → offer event q ≡ q ++ event ∷ []
unfolding offer
offer-room event q h = ground arith

module _ (k : ℕ) (ps rs : List String) (hub : Hub) (event : String)
    (d : IsDelivered k ps rs hub) where
  offer-IsDelivered : IsDelivered k (ps ++ event ∷ []) rs (publish event hub)
  offer-IsDelivered =
      let at = queue_of-publish k event hub ∙ ap (offered event) d.found in
      let n = length-append rs d.queue in
      let m = length-append ps (event ∷ []) in
      elim (Bool-cases (leb maxsize (length d.queue))) [
        | inl full ↦ record {
          queue = d.queue;
          found = at ∙ ap some (offer-full event d.queue full);
          part = drop_last event _ _ d.part;
          bounded = d.bounded;
          whole = λ h. absurd (too_many full h n m);
        }
        | inr room ↦ record {
          queue = d.queue ++ event ∷ [];
          found = at ∙ ap some (offer-room event d.queue room);
          part = rw (sym (append_assoc rs d.queue (event ∷ []))) (keep_last event _ _ d.part);
          bounded = ground (arith, length-append d.queue (event ∷ []));
          whole = λ h.
              rw (sym (append_assoc rs d.queue (event ∷ [])), d.whole (omega (arith, m, h))) refl;
        }
      ]
    where
      too_many :
          leb maxsize (length d.queue) ≡ true
          → length (ps ++ event ∷ []) ≤ maxsize
          → length (rs ++ d.queue) ≡ length rs + length d.queue
          → length (ps ++ event ∷ []) ≡ length ps + 1
          → ⊥
      too_many full h n m = ground (arith, ap length (d.whole (omega (arith, m, h))))

  get-IsDelivered :
      (hub' : Hub) → get k hub ≡ some (event, hub') → IsDelivered k ps (rs ++ event ∷ []) hub'
  get-IsDelivered hub' h =
      let (q, a, b) = queue_of-get k hub hub' event h in
      let same : d.queue ≡ event ∷ q = cc in
      let shift = append_assoc rs (event ∷ []) q in
      record {
        queue = q;
        found = b;
        part = rw (shift, sym same) d.part;
        bounded = omega (arith, d.bounded, ap length same);
        whole = λ few. rw (shift, sym same) (d.whole few);
      }

-- What others do to their own queues.
after_others :
    (k : ℕ) (ps rs : List String) (hub hub' : Hub)
    → IsDelivered k ps rs hub
    → queue_of k hub' ≡ queue_of k hub
    → IsDelivered k ps rs hub'
after_others k ps rs hub hub' d same = record {
  queue = d.queue;
  found = same ∙ d.found;
  part = d.part;
  bounded = d.bounded;
  whole = d.whole;
}

-- Through every history of a subscriber, whoever else subscribes, leaves and reads: what it got, and
-- after that what waits for it, is a part of what was published since it subscribed, in that order
-- and without repetition; at most fifty events wait; and nothing is missing as long as no more than
-- fifty events were published.
pub Life-IsDelivered :
    (k : ℕ) (ps rs : List String) (hub : Hub) → Life k ps rs hub → IsDelivered k ps rs hub
unfolding subscribe_inbox queue_of
Life-IsDelivered k _ _ _ (joined hub) = record {
  queue = [];
  found = rw (eqb_refl k) refl;
  part = done;
  bounded = omega arith;
  whole = λ h. refl;
}
Life-IsDelivered k _ _ _ (published ps rs hub event h) =
    offer-IsDelivered k ps rs hub event (Life-IsDelivered k ps rs hub h)
Life-IsDelivered k _ _ _ (received ps rs hub hub' event h g) =
    get-IsDelivered k ps rs hub event (Life-IsDelivered k ps rs hub h) hub' g
Life-IsDelivered k _ _ _ (other_joins ps rs hub j h e) =
    after_others k ps rs hub _ (Life-IsDelivered k ps rs hub h) (rw e refl)
Life-IsDelivered k _ _ _ (other_leaves ps rs hub j h e) =
    after_others k ps rs hub _ (Life-IsDelivered k ps rs hub h) (queue_of-unsubscribe k j hub e)
Life-IsDelivered k _ _ _ (other_reads ps rs hub hub' event j h e g) =
    after_others k ps rs hub _ (Life-IsDelivered k ps rs hub h)
      (queue_of-get_other k j hub hub' event g e)
