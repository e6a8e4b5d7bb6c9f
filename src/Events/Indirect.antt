-- ===== src/Events/Indirect.antt =====
-- The two searches of common/events.ts are one: expectInIndirectReceipt on the logs of a receipt is
-- expectInReceipt on the events that the logs decode to.
use reserve_protocol.Base.{
  String, ◌≡◌, refl, sym, inl, inr, Option, some, List, [], ◌∷◌, ◌++◌, map, Bool-cases,
}
use text.Mathlib.Text.{◌==◌ as str_eq}
use reserve_protocol.Base.Text.{Dict}
use reserve_protocol.Errors.{Error, ok, ◌>>=◌, Result-cases}
use reserve_protocol.Events.{
  Chai, Event, LogDescription, check_entries, find_event, found_event, search_events, named_events,
  expect_in_receipt, named_logs, decoded_events, expect_in_indirect_receipt,
}
use reserve_protocol.Events.Search.{find-hit, find-miss}

module _ (chai : Chai) where
  -- A decoded log as an event of the receipt.
  abbrev pub as_event : LogDescription chai.Value → Event chai.Value
  as_event e = record { event = some e.name; args = e.args }

  named_logs-as_event :
      (name : String) (es : List (LogDescription chai.Value))
      → named_events chai name (map as_event es) ≡ map as_event (named_logs chai name es)
  unfolding named_events named_logs
  named_logs-as_event name [] = refl
  named_logs-as_event name (e ∷ es) =
      let ih = named_logs-as_event name es in
      elim (Bool-cases (str_eq e.name name)) [ inl h ↦ rw (h, ih) | inr h ↦ rw (h, ih) ]

  module _ (event_args : Dict chai.Value) where
    found_as_event :
        (es : List (LogDescription chai.Value)) (exceptions : List Error)
        → found_event chai
            (λ (e : Event chai.Value). e.args)
            event_args
            (find_event chai
              (λ (e : Event chai.Value). e.args)
              event_args
              (map as_event es)
              exceptions)
          ≡ (found_event chai
                (λ (e : LogDescription chai.Value). e.args)
                event_args
                (find_event chai
                  (λ (e : LogDescription chai.Value). e.args)
                  event_args
                  es
                  exceptions)
              >>= λ e. ok (as_event e))
    unfolding find_event found_event
    found_as_event [] exceptions = refl
    found_as_event (e ∷ es) exceptions =
        elim (Result-cases (check_entries chai e.args event_args)) [
          | inl (x, h) ↦
              rw
                (
                  find-miss chai (λ (e : Event chai.Value). e.args) event_args (as_event e)
                      (map as_event es) exceptions h,
                  find-miss chai (λ (e : LogDescription chai.Value). e.args) event_args e es
                      exceptions h,
                )
                (found_as_event es (exceptions ++ x ∷ []))
          | inr (u, h) ↦ rw (
            find-hit chai (λ (e : Event chai.Value). e.args) event_args (as_event e)
                (map as_event es) exceptions h,
            find-hit chai (λ (e : LogDescription chai.Value). e.args) event_args e es exceptions h,
          )
        ]

    search_as_event :
        (name : String) (es : List (LogDescription chai.Value))
        → search_events chai (λ (e : Event chai.Value). e.args) event_args name (map as_event es)
          ≡ (search_events chai (λ (e : LogDescription chai.Value). e.args) event_args name es
              >>= λ e. ok (as_event e))
    unfolding search_events
    search_as_event name [] = refl
    search_as_event name (e ∷ es) = found_as_event (e ∷ es) []

    -- On the logs of a receipt, expectInIndirectReceipt returns or throws what expectInReceipt does
    -- on the events that the logs decode to, in their order, the logs that do not parse left out.
    pub expect_in_indirect_receipt-as_event :
        {Log : Type 0} (parse_log : Log → Option (LogDescription chai.Value)) (logs : List Log)
        (events : Option (List (Event chai.Value))) (name : String)
        → (expect_in_indirect_receipt chai parse_log
              (record { events = events; logs = logs })
              name
              event_args
            >>= λ e. ok (as_event e))
          ≡ expect_in_receipt chai
              (record {
                events = some (map as_event (decoded_events chai parse_log logs));
                logs = logs;
              })
              name
              event_args
    unfolding expect_in_indirect_receipt expect_in_receipt
    expect_in_indirect_receipt-as_event parse_log logs events name =
        let es = decoded_events chai parse_log logs in
        rw (named_logs-as_event name es) (sym (search_as_event name (named_logs chai name es)))
