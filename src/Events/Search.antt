-- ===== src/Events/Search.antt =====
-- Which event the search of common/events.ts returns, and what it throws.
use reserve_protocol.Base.{
  String, ◌≡◌, refl, sym, ◌∙◌, ap, ◌↔◌, ◌⊎◌, inl, inr, true, Option, none, some, List, [], ◌∷◌,
  ◌++◌, All, arith,
}
use reserve_protocol.Base.Text.{Dict, lookup}
use reserve_protocol.Errors.{
  Error, ok, err, or_throw, Result-cases, or_throw-eq-ok, >>=-eq-ok, ok-injective,
}
use reserve_protocol.Events.{
  Chai, agrees, contains, check_entries, find_event, found_event, search_events,
}

module _ (chai : Chai) where
  -- Every expected entry is an argument of the event, with a value that chai accepts.
  abbrev pub HasEntries : Option (Dict chai.Value) → Dict chai.Value → Type 0
  HasEntries args entries =
      All
        (λ (e : String × chai.Value).
          (d : Dict chai.Value) × (args ≡ some d)
          × (a : chai.Value) × (lookup e.0 d ≡ some a)
          × (agrees chai a e.1 ≡ true))
        entries

  check_entries_to :
      (args : Option (Dict chai.Value)) (entries : Dict chai.Value)
      → check_entries chai args entries ≡ ok tt
      → HasEntries args entries
  unfolding check_entries contains
  check_entries_to args [] h = tt
  check_entries_to none ((k, v) ∷ entries) h = cc
  check_entries_to (some d) ((k, v) ∷ entries) h =
      let (u, c, rest) = >>=-eq-ok (contains chai d k v) _ h in
      let (a, l, g) = >>=-eq-ok (or_throw (Error.argument_not_found k) (lookup k d)) _ c in
      ((d, refl, a, or_throw-eq-ok _ _ l, ground arith), check_entries_to (some d) entries rest)

  check_entries_from :
      (args : Option (Dict chai.Value)) (entries : Dict chai.Value)
      → HasEntries args entries
      → check_entries chai args entries ≡ ok tt
  unfolding check_entries contains
  check_entries_from args [] h = refl
  check_entries_from args ((k, v) ∷ entries) ((d, e, a, l, g), hs) =
      let rest = check_entries_from args entries hs in rw (rest, e, l, g)

-- The first element of a list that satisfies `P`.
abbrev pub IsFirst : {A : Type 0} → (A → Type 0) → List A → A → Type 0
IsFirst P [] e = ⊥
IsFirst P (x ∷ xs) e = (P x × (x ≡ e)) ⊎ (¬ P x) × IsFirst P xs e

module _ (chai : Chai) {E : Type 0} (args : E → Option (Dict chai.Value))
    (event_args : Dict chai.Value) where
  abbrev pub Matches : E → Type 0
  Matches e = HasEntries chai (args e) event_args

  not-Matches : (e : E) {x : Error} → check_entries chai (args e) event_args ≡ err x → ¬ Matches e
  not-Matches e h m = let h' = check_entries_from chai (args e) event_args m in cc

  -- The search goes by the callback's result: it stops at a match and goes on after a throw.
  module _ {C : Type 0} (e : E) where
    check-cases :
        (Matches e → check_entries chai (args e) event_args ≡ ok tt → C)
        → ((x : Error) → check_entries chai (args e) event_args ≡ err x → (¬ Matches e) → C)
        → C
    check-cases match miss = elim (Result-cases (check_entries chai (args e) event_args)) [
      | inl (x, h) ↦ miss x h (not-Matches e h)
      | inr (u, h) ↦ match (check_entries_to chai (args e) event_args h) h
    ]

  pub find-hit :
      (x : E) (es : List E) (exceptions : List Error)
      → check_entries chai (args x) event_args ≡ ok tt
      → find_event chai args event_args (x ∷ es) exceptions ≡ (some x, exceptions)
  unfolding find_event
  find-hit x es exceptions h = ground arith

  pub find-miss :
      (x : E) (es : List E) (exceptions : List Error) {e : Error}
      → check_entries chai (args x) event_args ≡ err e
      → find_event chai args event_args (x ∷ es) exceptions
        ≡ find_event chai args event_args es (exceptions ++ e ∷ [])
  unfolding find_event
  find-miss x es exceptions h = ground arith

  found_iff :
      (es : List E) (exceptions : List Error) (e : E)
      → (found_event chai args event_args (find_event chai args event_args es exceptions) ≡ ok e)
        ↔ IsFirst Matches es e
  unfolding find_event found_event
  found_iff [] exceptions e = (λ h. cc, λ h. absurd h)
  found_iff (x ∷ es) exceptions e =
      check-cases x
        (λ m h. (
          λ q. inl (
            m,
            ok-injective
                (sym (ap (found_event chai args event_args) (find-hit x es exceptions h)) ∙ q),
          ),
          λ f. elim f [
            | inl (_, same) ↦
                ap (found_event chai args event_args) (find-hit x es exceptions h) ∙ ap ok same
            | inr (off, _) ↦ absurd (off m)
          ],
        ))
        (λ x' h off.
          let (to, from) = found_iff es (exceptions ++ x' ∷ []) e in
          let step = ap (found_event chai args event_args) (find-miss x es exceptions h) in
          (
            λ q. inr (off, to (sym step ∙ q)),
            λ f. elim f [ inl (m, _) ↦ absurd (off m) | inr (_, rest) ↦ step ∙ from rest ],
          ))

  -- Nothing matches: the exceptions of all events are collected in order.
  missed_err :
      (es : List E) (exceptions : List Error) {y : Error}
      → found_event chai args event_args (find_event chai args event_args es exceptions) ≡ err y
      → All (λ e. ¬ Matches e) es
  unfolding find_event found_event
  missed_err [] exceptions h = tt
  missed_err (x ∷ es) exceptions h =
      check-cases x
        (λ m q.
          let s = sym (ap (found_event chai args event_args) (find-hit x es exceptions q)) ∙ h in
          cc)
        (λ x' q off. (
          off,
          missed_err es (exceptions ++ x' ∷ [])
              (sym (ap (found_event chai args event_args) (find-miss x es exceptions q)) ∙ h),
        ))

  -- the exception in front stays there
  first_kept :
      (es : List E) (x : Error) (exceptions : List Error)
      → All (λ e. ¬ Matches e) es
      → found_event chai args event_args (find_event chai args event_args es (x ∷ exceptions))
        ≡ err x
  unfolding find_event found_event
  first_kept [] x exceptions a = refl
  first_kept (e ∷ es) x exceptions (off, a) =
      check-cases e (λ m q. absurd (off m))
        (λ x' q n.
          ap (found_event chai args event_args) (find-miss e es (x ∷ exceptions) q)
          ∙ first_kept es x (exceptions ++ x' ∷ []) a)

  -- The search throws exactly if no event matches, and then what the first one was refused for.
  pub search_events-err_iff :
      (name : String) (e : E) (es : List E) (x : Error)
      → (search_events chai args event_args name (e ∷ es) ≡ err x)
        ↔ (check_entries chai (args e) event_args ≡ err x) × All (λ e. ¬ Matches e) (e ∷ es)
  unfolding search_events
  search_events-err_iff name e es x = (
    λ h.
        let a = missed_err (e ∷ es) [] h in
        check-cases e (λ m q. absurd (a.0 m))
          (λ x' q n.
            let s =
              sym (
                ap (found_event chai args event_args) (find-miss e es [] q)
                ∙ first_kept es x' [] a.1)
              ∙ h in
            (cc, a)),
    λ (q, a). ap (found_event chai args event_args) (find-miss e es [] q) ∙ first_kept es x [] a.1,
  )

  pub search_events_iff :
      (name : String) (es : List E) (e : E)
      → (search_events chai args event_args name es ≡ ok e) ↔ IsFirst Matches es e
  unfolding search_events
  search_events_iff name [] e = (λ h. cc, λ h. absurd h)
  search_events_iff name (x ∷ es) e = found_iff (x ∷ es) [] e
