-- ===== src/EventBus/Invariant.antt =====
-- What holds of the bus at every moment.
use self_managed_agents.Base.{
  eq_iff, nat_eq, string_eq, ℕ, ◌+◌, ◌≤◌, ◌<◌, ◌≡◌, refl, String, true, false, Option, none, some,
  List, [], ◌∷◌, ◌++◌, ◌==◌, ==_refl, length, if◌then◌else◌, contains, Distinct, Bool-cases, inl,
  inr, arith, length-append, All, All-append, All-imp,
}
use self_managed_agents.Base.Dict.{
  lookup, insert, remove, lookup-insert, lookup-remove, Everywhere, Everywhere-insert,
  Everywhere-remove,
}
use self_managed_agents.EventBus.{
  Bus, maxsize, or_nil, remove_first, is_empty, subscribe, unsubscribe, put_nowait, put_all,
  publish, take_event, tail_of, Step, subscribing, unsubscribing, publishing, reading, step, run,
}

-- A subscriber list: not empty, without repetition, and of queues that have been created.
pub record IsListed (next : ℕ) (qs : List ℕ) : Type 0 where
  pub some_ : is_empty qs ≡ false
  pub distinct : Distinct qs
  pub created : All (λ q. q < next) qs

pub record IsSound {Event : Type 0} (bus : Bus Event) : Type 0 where
  pub bounded : (q : ℕ) → length (bus.queues q) ≤ maxsize
  pub listed : Everywhere (IsListed bus.next) bus.subscribers

not-contains_of_created : (n : ℕ) (qs : List ℕ) → All (λ q. q < n) qs → contains n qs ≡ false
not-contains_of_created n [] h = refl
not-contains_of_created n (q ∷ qs) (p, h) = ground (arith, not-contains_of_created n qs h)

contains-append :
    (a n : ℕ) (qs : List ℕ)
    → contains a qs ≡ false
    → (n == a) ≡ false
    → contains a (qs ++ n ∷ []) ≡ false
contains-append a n [] h k = rw k
contains-append a n (q ∷ qs) h k = ground (arith, contains-append a n qs)

Distinct-append :
    (n : ℕ) (qs : List ℕ) → contains n qs ≡ false → Distinct qs → Distinct (qs ++ n ∷ [])
Distinct-append n [] h d = (refl, tt)
Distinct-append n (q ∷ qs) h (new, d) =
    (contains-append q n qs new (ground arith), Distinct-append n qs (ground arith) d)

is_empty-append : (n : ℕ) (qs : List ℕ) → is_empty (qs ++ n ∷ []) ≡ false
is_empty-append n [] = refl
is_empty-append n (q ∷ qs) = refl

contains-remove_first :
    (a q : ℕ) (qs : List ℕ) → contains a qs ≡ false → contains a (remove_first q qs) ≡ false
unfolding remove_first
contains-remove_first a q [] h = refl
contains-remove_first a q (r ∷ rs) h = ground (arith, contains-remove_first a q rs)

Distinct-remove_first : (q : ℕ) (qs : List ℕ) → Distinct qs → Distinct (remove_first q qs)
unfolding remove_first
Distinct-remove_first q [] d = tt
Distinct-remove_first q (r ∷ rs) (new, d) = elim (Bool-cases (r == q)) [
  | inl e ↦ rw e d
  | inr e ↦ rw e (contains-remove_first r q rs new, Distinct-remove_first q rs d)
]

All-remove_first :
    (n q : ℕ) (qs : List ℕ) → All (λ x. x < n) qs → All (λ x. x < n) (remove_first q qs)
unfolding remove_first
All-remove_first n q [] h = tt
All-remove_first n q (r ∷ rs) (p, h) = elim (Bool-cases (r == q)) [
  | inl e ↦ rw e h
  | inr e ↦ rw e (p, All-remove_first n q rs h)
]

IsListed-suc : (n : ℕ) (qs : List ℕ) → IsListed n qs → IsListed (n + 1) qs
IsListed-suc n qs h = record {
  some_ = h.some_;
  distinct = h.distinct;
  created = All-imp (λ q. q < n) (λ q. q < n + 1) (λ q p. omega arith) qs h.created;
}

-- the list that a new queue joins
joined :
    (n : ℕ) (o : Option (List ℕ))
    → ((qs : List ℕ) → o ≡ some qs → IsListed n qs)
    → IsListed (n + 1) (or_nil o ++ n ∷ [])
joined n none h = record { some_ = refl; distinct = (refl, tt); created = (omega arith, tt) }
joined n (some qs) h =
    let l = h qs refl in
    record {
      some_ = is_empty-append n qs;
      distinct = Distinct-append n qs (not-contains_of_created n qs l.created) l.distinct;
      created =
          All-append (λ q. q < n + 1) qs (n ∷ []) (IsListed-suc n qs l).created (omega arith, tt);
    }

-- the list that a queue has left, unless it is empty
left :
    (n q : ℕ) (o : Option (List ℕ))
    → ((qs : List ℕ) → o ≡ some qs → IsListed n qs)
    → is_empty (remove_first q (or_nil o)) ≡ false
    → IsListed n (remove_first q (or_nil o))
unfolding remove_first
left n q none h e = absurd (ground arith)
left n q (some qs) h e =
    let l = h qs refl in
    record {
      some_ = e;
      distinct = Distinct-remove_first q qs l.distinct;
      created = All-remove_first n q qs l.created;
    }

module _ {Event : Type 0} where
  put_all_bounded :
      (event : Event) (qs : List ℕ) (queues : ℕ → List Event)
      → ((q : ℕ) → length (queues q) ≤ maxsize)
      → (q : ℕ) → length (put_all event qs queues q) ≤ maxsize
  unfolding put_all
  put_all_bounded event [] queues h q = h q
  put_all_bounded event (r ∷ qs) queues h q =
      put_all_bounded event qs (put_nowait event queues r)
        (λ p. ground (arith, h p, h r, length-append {0} (queues r) (event ∷ []))) q

  length-tail : (items : List Event) → length (tail_of items) ≤ length items
  length-tail [] = omega arith
  length-tail (x ∷ xs) = omega arith

  step-IsSound : (s : Step Event) (bus : Bus Event) → IsSound bus → IsSound (step s bus)
  unfolding step subscribe unsubscribe publish take_event
  step-IsSound (subscribing s) bus h = record {
    bounded = λ q. ground (arith, h.bounded q);
    listed =
        Everywhere-insert (IsListed (bus.next + 1)) s
          (or_nil (lookup s bus.subscribers) ++ bus.next ∷ []) bus.subscribers
          (joined bus.next (lookup s bus.subscribers) (h.listed s))
          (λ k qs found. IsListed-suc bus.next qs (h.listed k qs found));
  }
  step-IsSound (unsubscribing s q) bus h = record {
    bounded = h.bounded;
    listed = elim (Bool-cases (is_empty (remove_first q (or_nil (lookup s bus.subscribers))))) [
      | inl e ↦ rw e (Everywhere-remove (IsListed bus.next) s bus.subscribers h.listed)
      | inr e ↦ rw e (
          Everywhere-insert (IsListed bus.next) s
            (remove_first q (or_nil (lookup s bus.subscribers))) bus.subscribers
            (left bus.next q (lookup s bus.subscribers) (h.listed s) e) h.listed)
    ];
  }
  step-IsSound (publishing s event) bus h = record {
    bounded = put_all_bounded event (or_nil (lookup s bus.subscribers)) bus.queues h.bounded;
    listed = h.listed;
  }
  step-IsSound (reading q) bus h = record {
    bounded = λ p. ground (arith, h.bounded p, h.bounded q, length-tail (bus.queues q));
    listed = h.listed;
  }

  -- From a sound bus, after any calls in any order: no queue holds more than 100 events, every
  -- session that is stored has at least one subscriber, and no queue is subscribed to it twice.
  pub run-IsSound : (ss : List (Step Event)) (bus : Bus Event) → IsSound bus → IsSound (run ss bus)
  unfolding run
  run-IsSound [] bus h = h
  run-IsSound (s ∷ ss) bus h = run-IsSound ss (step s bus) (step-IsSound s bus h)

remove_first-append :
    (n : ℕ) (qs : List ℕ) → contains n qs ≡ false → remove_first n (qs ++ n ∷ []) ≡ qs
unfolding remove_first
remove_first-append n [] h = ground arith
remove_first-append n (q ∷ qs) h = ground (arith, remove_first-append n qs)

left_alone :
    (n : ℕ) (o : Option (List ℕ))
    → ((qs : List ℕ) → o ≡ some qs → IsListed n qs)
    → remove_first n (or_nil o ++ n ∷ []) ≡ or_nil o
left_alone n none h = remove_first-append n [] refl
left_alone n (some qs) h =
    remove_first-append n qs (not-contains_of_created n qs (h qs refl).created)

module _ (s k : String) (d : List (String × List ℕ)) (n : ℕ) where
  same_lookup : (s == k) ≡ true → lookup k d ≡ lookup s d
  same_lookup e = let p : s ≡ k = (eq_iff s k).0 e in rw p

  restored :
      (o : Option (List ℕ)) (l : List ℕ)
      → lookup s d ≡ o
      → ((qs : List ℕ) → o ≡ some qs → IsListed n qs)
      → lookup k (
          if is_empty (or_nil o)
          then remove s (insert s l d)
          else insert s (or_nil o) (insert s l d))
        ≡ lookup k d
  restored none l e h =
      ground (arith, lookup-remove s k (insert s l d), lookup-insert s k l d, same_lookup)
  restored (some qs) l e h =
      let full = (h qs refl).some_ in
      rw full
        (ground (arith, lookup-insert s k qs (insert s l d), lookup-insert s k l d, same_lookup))

module _ {Event : Type 0} where
  -- Leaving with the queue that one has just been given restores the subscribers of every session.
  pub unsubscribe-subscribe :
      (s k : String) (bus : Bus Event)
      → IsSound bus
      → lookup k (unsubscribe s (subscribe s bus).0 (subscribe s bus).1).subscribers
        ≡ lookup k bus.subscribers
  unfolding subscribe unsubscribe
  unsubscribe-subscribe s k bus h =
      let o = lookup s bus.subscribers in
      let joined_ = or_nil o ++ bus.next ∷ [] in
      let back = left_alone bus.next o (h.listed s) in
      rw (lookup-insert s s joined_ bus.subscribers) (
        rw (==_refl s)
          (rw back (restored s k bus.subscribers bus.next o joined_ refl (h.listed s))))
