-- ===== src/Events/Tests.antt =====
-- Receipts with events of a transfer.
use reserve_protocol.Base.{
  ℕ, zero, suc, ◌≡◌, refl, ◌↔◌, true, false, Option, none, some, List, [], ◌∷◌, ◌==◌, map, All,
}
use reserve_protocol.Base.Text.{lookup}
use reserve_protocol.Errors.{Error, ok, err, ◌>>=◌}
use reserve_protocol.Events.{
  Chai, Event, LogDescription, ContractReceipt, IEvent, agrees, contains, check_entries,
  named_events, search_events, find_event, found_event, expect_in_receipt, decoded_events,
  expect_in_indirect_receipt, expect_events,
}
use reserve_protocol.Events.Search.{HasEntries, IsFirst}
use reserve_protocol.Events.Receipt.{IsNamed, expect_in_receipt_iff, expect_in_receipt-err_iff}
use reserve_protocol.Events.Indirect.{as_event, expect_in_indirect_receipt-as_event}
use reserve_protocol.Events.Emitted.{IsAsExpected, expect_events_iff}

-- Values are numbers, and 0 stands for null.
abbrev numbers : Chai
numbers = record {
  Value = ℕ;
  is_null = λ v. v == 0;
  is_big_number = λ v. true;
  equal = ◌==◌;
  deep_equal = ◌==◌;
}

abbrev transfer : ℕ → Event ℕ
transfer amount = record { event = some "Transfer"; args = some (("amount", amount) ∷ []) }

abbrev two_logs : List ℕ
two_logs = 0 ∷ 7 ∷ []

abbrev receipt : ContractReceipt ℕ ℕ
receipt = record {
  events = some (record { event = none; args = none } ∷ transfer 3 ∷ transfer 7 ∷ []);
  logs = two_logs;
}

abbrev parse : ℕ → Option (LogDescription ℕ)
parse zero = none
parse (suc n) = some (record { name = "Transfer"; args = some (("amount", suc n) ∷ []) })

expect_in_receipt_iff_example :
    (expect_in_receipt numbers receipt "Transfer" (("amount", 7) ∷ []) ≡ ok (transfer 7))
    ↔ (events : List (Event ℕ)) × (receipt.events ≡ some events)
      × IsFirst
          (λ e. IsNamed numbers "Transfer" e × HasEntries numbers e.args (("amount", 7) ∷ []))
          events
          (transfer 7)
expect_in_receipt_iff_example =
    expect_in_receipt_iff numbers receipt "Transfer" (("amount", 7) ∷ []) (transfer 7)

finds_second : expect_in_receipt numbers receipt "Transfer" (("amount", 7) ∷ []) ≡ ok (transfer 7)
unfolding expect_in_receipt named_events search_events find_event found_event check_entries contains
    agrees lookup
finds_second = refl

expect_in_receipt-err_iff_example :
    (expect_in_receipt numbers receipt "Transfer" (("amount", 5) ∷ [])
      ≡ err (Error.argument_differs "amount"))
    ↔ (check_entries numbers (transfer 3).args (("amount", 5) ∷ [])
        ≡ err (Error.argument_differs "amount"))
      × All (λ e. ¬ HasEntries numbers e.args (("amount", 5) ∷ [])) (transfer 3 ∷ transfer 7 ∷ [])
unfolding named_events
expect_in_receipt-err_iff_example =
    expect_in_receipt-err_iff numbers receipt "Transfer" (("amount", 5) ∷ [])
      (record { event = none; args = none } ∷ transfer 3 ∷ transfer 7 ∷ []) (transfer 3)
      (transfer 7 ∷ []) (Error.argument_differs "amount") refl refl

expect_in_indirect_receipt-as_event_example :
    (expect_in_indirect_receipt numbers parse
        (record { events = none; logs = two_logs })
        "Transfer"
        (("amount", 7) ∷ [])
      >>= λ e. ok (as_event numbers e))
    ≡ expect_in_receipt numbers
        (record {
          events = some (map (as_event numbers) (decoded_events numbers parse two_logs));
          logs = two_logs;
        })
        "Transfer"
        (("amount", 7) ∷ [])
expect_in_indirect_receipt-as_event_example =
    expect_in_indirect_receipt-as_event numbers (("amount", 7) ∷ []) parse two_logs none "Transfer"

abbrev entries : List (IEvent ℕ ℕ)
entries =
    record { contract = 1; name = "Transfer"; args = some (7 ∷ []); emitted = true }
    ∷ record { contract = 1; name = "Approval"; args = none; emitted = false }
    ∷ []

expect_events_iff_example :
    (expect_events (λ c n. false) (λ c n args. true) entries ≡ ok tt)
    ↔ All (IsAsExpected (λ c n. false) (λ c n args. true)) entries
expect_events_iff_example = expect_events_iff (λ c n. false) (λ c n args. true) entries
