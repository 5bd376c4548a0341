-- ===== src/Windows/Exact.antt =====
-- app/api/wa_helpers.py and app/core/engine/wa_outbound_guard.py: the windows in memory against a log
-- of all that happened, with nothing pruned.
use self_managed_agents.Base.{
  string_eq, nat_eq, ℕ, suc, ◌-◌, ◌≤◌, ◌≡◌, refl, subst, String, true, Option, none, List, [], ◌∷◌,
  ◌++◌, ◌==◌, ltb, leb, if◌then◌else◌, length, length-append, contains, arith, Bool-cases, inl, inr,
  eq_iff, ==_refl,
}
use self_managed_agents.Base.Dict.{
  lookup, insert, remove, lookup-insert, lookup-insert_self, lookup-remove,
}
use self_managed_agents.Windows.{
  Windows, or_nil, is_stale, keys_where, pop_all, slide, spam_key, check_wa_spam_window,
  reset_wa_spam_window, outbound_key, normalize_wa_outbound_target, check_wa_outbound_direct_window,
}
use self_managed_agents.Windows.Pruned.{
  IsDict, insert-IsDict, remove-IsDict, pop_all-IsDict, lookup-pop_all, lookup-keys_where,
}
use self_managed_agents.Windows.Fits.{Fits, within, Fits-nil, Fits-later, Fits-pushed, Fits-stale}

pub data Event : Type 0 where
  checked : (key : String) (now : ℕ) → Event
  cleared : (key : String) → Event

-- what was checked for the key within the window since it was last cleared; the newest event is first
unfoldable pub recent : ℕ → String → ℕ → List Event → ℕ
recent window key now [] = 0
recent window key now (checked k t ∷ es) =
    let earlier = recent window key now es in
    if k == key then if leb (now - t) window then suc earlier else earlier else earlier
recent window key now (cleared k ∷ es) =
    let earlier = recent window key now es in if k == key then 0 else earlier

-- the table in memory after the events
unfoldable pub after : ℕ → List Event → Windows
unfolding slide
after window [] = []
after window (checked k t ∷ es) = (slide k window t (after window es)).1
after window (cleared k ∷ es) = remove k (after window es)

-- no event is older than one before it, nor later than `now`
abbrev pub AreTimed : ℕ → List Event → Type 0
AreTimed now [] = Unit
AreTimed now (checked k t ∷ es) = (t ≤ now) × AreTimed t es
AreTimed now (cleared k ∷ es) = AreTimed now es

-- The times of every key, whatever is pruned, against the log.
abbrev Shows : ℕ → ℕ → Windows → List Event → Type 0
Shows window clock windows es =
    (key : String)
    → Fits window clock (or_nil (lookup key windows)) (λ now. recent window key now es)

pruned-Shows :
    (window now : ℕ) (windows : Windows) (es : List Event)
    → IsDict windows
    → Shows window now windows es
    → Shows window now (pop_all (keys_where (is_stale window now) windows) windows) es
pruned-Shows window now windows es d h key =
    let ks = keys_where (is_stale window now) windows in
    elim (Bool-cases (contains key ks)) [
      | inl e ↦
          let (v, found, s) = lookup-keys_where (is_stale window now) key windows d e in
          let gone : lookup key (pop_all ks windows) ≡ none =
            rw (lookup-pop_all key ks windows, e) refl in
          rw gone (Fits-stale window now v _ s (rw found at (h key)))
      | inr e ↦
          let same : lookup key (pop_all ks windows) ≡ lookup key windows =
            rw (lookup-pop_all key ks windows, e) refl in
          rw same (h key)
    ]

pushed-Shows :
    (key : String) (window clock now : ℕ) (windows : Windows) (es : List Event)
    → clock ≤ now
    → Shows window clock windows es
    → Shows window now
        (insert key (within window now (or_nil (lookup key windows)) ++ now ∷ []) windows)
        (checked key now ∷ es)
unfolding recent
pushed-Shows key window clock now windows es l h k =
    let old = or_nil (lookup key windows) in
    let times = within window now old ++ now ∷ [] in
    let written = insert key times windows in
    elim (Bool-cases (key == k)) [
      | inl e ↦
          let own : Fits window now (or_nil (lookup key written))
              (λ t. recent window key t (checked key now ∷ es)) =
            rw (lookup-insert_self key times windows, ==_refl key)
              (Fits-pushed window clock now old _ l (h key)) in
          subst
            (λ i.
              Fits window now (or_nil (lookup i written))
                (λ t. recent window i t (checked key now ∷ es)))
            ((eq_iff key k).0 e) own
      | inr e ↦
          let same : lookup k written ≡ lookup k windows =
            rw (lookup-insert key k times windows, e) refl in
          rw (same, e)
            (Fits-later window clock now (or_nil (lookup k windows)) (λ t. recent window k t es) l
              (h k))
    ]

slide-Shows :
    (key : String) (window clock now : ℕ) (windows : Windows) (es : List Event)
    → IsDict windows
    → clock ≤ now
    → Shows window clock windows es
    → IsDict (slide key window now windows).1
      × Shows window now (slide key window now windows).1 (checked key now ∷ es)
unfolding slide recent
slide-Shows key window clock now windows es d l h =
    let kept = within window now (or_nil (lookup key windows)) in
    let written = insert key (kept ++ now ∷ []) windows in
    let d2 = insert-IsDict key (kept ++ now ∷ []) windows d in
    let shows = pushed-Shows key window clock now windows es l h in
    elim (Bool-cases (ltb 5000 (length written))) [
      | inl e ↦ rw e (
        pop_all-IsDict (keys_where (is_stale window now) written) written d2,
        pruned-Shows window now written (checked key now ∷ es) d2 shows,
      )
      | inr e ↦ rw e (d2, shows)
    ]

cleared-Shows :
    (key : String) (window clock : ℕ) (windows : Windows) (es : List Event)
    → Shows window clock windows es
    → Shows window clock (remove key windows) (cleared key ∷ es)
unfolding recent
cleared-Shows key window clock windows es h k = elim (Bool-cases (key == k)) [
  | inl e ↦
      let gone : lookup k (remove key windows) ≡ none = rw (lookup-remove key k windows, e) refl in
      rw (gone, e) (Fits-nil window clock)
  | inr e ↦
      let same : lookup k (remove key windows) ≡ lookup k windows =
        rw (lookup-remove key k windows, e) refl in
      rw (same, e) (h k)
]

later-Shows :
    (window clock now : ℕ) (windows : Windows) (es : List Event)
    → clock ≤ now
    → Shows window clock windows es
    → Shows window now windows es
later-Shows window clock now windows es l h k =
    Fits-later window clock now (or_nil (lookup k windows)) (λ t. recent window k t es) l (h k)

after-Shows :
    (window now : ℕ) (es : List Event)
    → AreTimed now es
    → IsDict (after window es) × Shows window now (after window es) es
unfolding after lookup recent
after-Shows window now [] timed = (tt, λ k. Fits-nil window now)
after-Shows window now (checked key t ∷ es) (l, timed) =
    let (d, h) = after-Shows window t es timed in
    let (e, k) = slide-Shows key window t t (after window es) es d (omega arith) h in
    (e, later-Shows window t now (slide key window t (after window es)).1 (checked key t ∷ es) l k)
after-Shows window now (cleared key ∷ es) timed =
    let (d, h) = after-Shows window now es timed in
    (remove-IsDict key (after window es) d, cleared-Shows key window now (after window es) es h)

slide-counts :
    (key : String) (window now : ℕ) (es : List Event)
    → AreTimed now es
    → length (slide key window now (after window es)).0 ≡ suc (recent window key now es)
unfolding slide
slide-counts key window now es timed =
    let (_, h) = after-Shows window now es timed in
    let old = or_nil (lookup key (after window es)) in
    omega (
      arith,
      length-append {0} (within window now old) (now ∷ []),
      Fits.exact_ (h key) now (omega arith),
    )

-- As long as no clock runs back, both windows answer from memory exactly how many messages came, or
-- were sent, within the window, this one included, whatever was pruned; what is sent to no target is
-- not counted. The tables stay true to the log, over a reset too.
pub windows-count :
    (agent_id session_id sender_id : String) (device_id target : Option String)
    (limit window now : ℕ) (es : List Event)
    → AreTimed now es
    → (let key = spam_key agent_id session_id sender_id in
        let count = suc (recent window key now es) in
        let target_key = normalize_wa_outbound_target target in
        let sent_key = outbound_key device_id target_key in
        let sent = suc (recent window sent_key now es) in
        (check_wa_spam_window none agent_id session_id sender_id limit window now (after window es)
          ≡ ((ltb limit count, count), after window (checked key now ∷ es)))
        × (reset_wa_spam_window agent_id session_id sender_id (after window es)
            ≡ after window (cleared key ∷ es))
        × (check_wa_outbound_direct_window none device_id target limit window now (after window es)
            ≡ (if target_key == ""
                then ((true, 0), after window es)
                else ((leb sent limit, sent), after window (checked sent_key now ∷ es)))))
unfolding check_wa_spam_window reset_wa_spam_window check_wa_outbound_direct_window after
windows-count agent_id session_id sender_id device_id target limit window now es timed =
    let target_key = normalize_wa_outbound_target target in
    (
      rw (slide-counts (spam_key agent_id session_id sender_id) window now es timed) refl,
      refl,
      rw (slide-counts (outbound_key device_id target_key) window now es timed) refl,
    )
