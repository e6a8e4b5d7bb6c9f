-- ===== src/Events/Receipt.antt =====
-- What expectInReceipt returns and throws, by the events of the receipt.
use reserve_protocol.Base.{
  String, ◌≡◌, sym, ap, subst, ◌↔◌, inl, inr, true, false, Option, none, some, List, [], ◌∷◌, All,
  Bool-cases,
}
use text.Mathlib.TextEquality.{eq_iff}
use mathlib.Core.Option.{some-injective}
use reserve_protocol.Base.Text.{Dict}
use reserve_protocol.Errors.{Error, ok, err, or_throw, or_throw-eq-ok, >>=-eq-ok}
use reserve_protocol.Events.{
  Chai, Event, ContractReceipt, check_entries, has_name, named_events, expect_in_receipt,
}
use reserve_protocol.Events.Search.{HasEntries, IsFirst, search_events_iff, search_events-err_iff}

module _ (chai : Chai) (name : String) where
  abbrev pub IsNamed : Event chai.Value → Type 0
  IsNamed e = e.event ≡ some name

  has_name_iff : (o : Option String) → (has_name chai name o ≡ true) ↔ (o ≡ some name)
  has_name_iff none = (λ h. cc, λ h. cc)
  has_name_iff (some a) =
      (λ h. ap some ((eq_iff a name).0 h), λ h. (eq_iff a name).1 (some-injective _ _ h))

  module _ (x : Event chai.Value) (es : List (Event chai.Value)) where
    named-kept :
        has_name chai name x.event ≡ true
        → named_events chai name (x ∷ es) ≡ x ∷ named_events chai name es
    unfolding named_events
    named-kept h = rw h

    named-left :
        has_name chai name x.event ≡ false
        → named_events chai name (x ∷ es) ≡ named_events chai name es
    unfolding named_events
    named-left h = rw h

  -- The first one of the filtered list is the first one of the list that has the name as well.
  module _ (P : Event chai.Value → Type 0) (e : Event chai.Value) where
    abbrev NamedFirst : List (Event chai.Value) → Type 0
    NamedFirst es = IsFirst (λ e. IsNamed e × P e) es e

    NamedFirst-iff :
        (es : List (Event chai.Value)) → IsFirst P (named_events chai name es) e ↔ NamedFirst es
    unfolding named_events
    NamedFirst-iff [] = (λ h. absurd h, λ h. absurd h)
    NamedFirst-iff (x ∷ es) =
        let (to, from) = NamedFirst-iff es in
        elim (Bool-cases (has_name chai name x.event)) [
          | inl named ↦
              let n = (has_name_iff x.event).0 named in
              subst (λ l. IsFirst P l e ↔ NamedFirst (x ∷ es)) (sym (named-kept x es named))
                (
                  λ f. elim f [
                    | inl (p, same) ↦ inl ((n, p), same)
                    | inr (off, rest) ↦ inr (λ np. off np.1, to rest)
                  ],
                  λ f. elim f [
                    | inl ((_, p), same) ↦ inl (p, same)
                    | inr (off, rest) ↦ inr (λ p. off (n, p), from rest)
                  ],
                )
          | inr other ↦
              let n : ¬ IsNamed x = λ h. let t = (has_name_iff x.event).1 h in cc in
              subst (λ l. IsFirst P l e ↔ NamedFirst (x ∷ es)) (sym (named-left x es other))
                (
                  λ f. inr (λ np. n np.0, to f),
                  λ f. elim f [ inl ((q, _), _) ↦ absurd (n q) | inr (_, rest) ↦ from rest ],
                )
        ]

module _ (chai : Chai) {Log : Type 0} (receipt : ContractReceipt chai.Value Log) (name : String)
    (event_args : Dict chai.Value) where
  -- expectInReceipt returns an event exactly if the receipt has events and it is the first one of
  -- them that has the name and, for every expected entry, an argument with a value that chai
  -- accepts.
  pub expect_in_receipt_iff :
      (e : Event chai.Value)
      → (expect_in_receipt chai receipt name event_args ≡ ok e)
        ↔ (events : List (Event chai.Value)) × (receipt.events ≡ some events)
          × IsFirst (λ e. IsNamed chai name e × HasEntries chai e.args event_args) events e
  unfolding expect_in_receipt
  expect_in_receipt_iff e = (
    λ h.
        let (events, h₀, h₁) = >>=-eq-ok (or_throw Error.no_events receipt.events) _ h in
        (
          events,
          or_throw-eq-ok _ _ h₀,
          (NamedFirst-iff chai name _ e events).0
              ((search_events_iff chai (λ e. e.args) event_args name _ e).0 h₁),
        ),
    λ (events, there, f). rw there (
        (search_events_iff chai (λ e. e.args) event_args name (named_events chai name events) e).1
          ((NamedFirst-iff chai name _ e events).1 f)),
  )

  -- If the first event of the name is e, and es are the later ones, expectInReceipt throws x exactly
  -- if none of them has the expected entries and x is what e was refused for.
  pub expect_in_receipt-err_iff :
      (events : List (Event chai.Value)) (e : Event chai.Value) (es : List (Event chai.Value))
      (x : Error)
      → receipt.events ≡ some events
      → named_events chai name events ≡ e ∷ es
      → (expect_in_receipt chai receipt name event_args ≡ err x)
        ↔ (check_entries chai e.args event_args ≡ err x)
          × All (λ e. ¬ HasEntries chai e.args event_args) (e ∷ es)
  unfolding expect_in_receipt
  expect_in_receipt-err_iff events e es x there named =
      rw (there, named) (search_events-err_iff chai (λ e. e.args) event_args name e es x)
