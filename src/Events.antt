-- ===== src/Events.antt =====
-- common/events.ts: looking for an event in the receipt of a transaction. What chai's assertions on
-- values accept is a parameter: `equal` and `deep_equal` tell whether the assertion passes.
pub mod Search
pub mod Indirect
pub mod Receipt
pub mod Emitted
mod Tests
use reserve_protocol.Base.{
  String, Bool, true, false, ◌||◌, not, Option, none, some, List, [], ◌∷◌, ◌++◌, if◌then◌else◌,
}
use text.Mathlib.Text.{◌==◌ as str_eq}
use reserve_protocol.Base.Text.{Dict, lookup}
use reserve_protocol.Errors.{Error, Result, ok, err, ◌>>=◌, ◌>>◌, or_throw}
use reserve_protocol.Deploy.Guards.{throw_if}

pub record Chai : Type 1 where
  pub Value : Type 0
  -- `value === null`, `BigNumber.isBigNumber(value)`
  pub is_null : Value → Bool
  pub is_big_number : Value → Bool
  -- `expect(actual).to.equal(expected)`, `expect(actual).to.be.deep.equal(expected)`
  pub equal : Value → Value → Bool
  pub deep_equal : Value → Value → Bool

-- `Event` of ethers, as far as it is read: `event` is missing on a log that could not be decoded.
pub record Event (V : Type 0) : Type 0 where
  pub event : Option String
  pub args : Option (Dict V)

-- `LogDescription`
pub record LogDescription (V : Type 0) : Type 0 where
  pub name : String
  pub args : Option (Dict V)

-- `ContractReceipt`, over the type of its undecoded logs
pub record ContractReceipt (V : Type 0) (Log : Type 0) : Type 0 where
  pub events : Option (List (Event V))
  pub logs : List Log

module _ (chai : Chai) where
  -- The assertion on a value that is there: null and numbers are compared by `equal`.
  unfoldable pub agrees : chai.Value → chai.Value → Bool
  agrees actual value =
      if chai.is_null value
      then chai.equal actual value
      else if chai.is_big_number actual || chai.is_big_number value
      then chai.equal actual value
      else chai.deep_equal actual value

  unfoldable pub contains : Dict chai.Value → String → chai.Value → Result (Unit {0})
  contains args key value = do
    actual ← or_throw (Error.argument_not_found key) (lookup key args)
    throw_if (not (agrees actual value)) (Error.argument_differs key)

  -- The loop over the expected entries: the first assertion that throws ends it.
  unfoldable pub check_entries : Option (Dict chai.Value) → Dict chai.Value → Result (Unit {0})
  check_entries args [] = ok tt
  check_entries args ((k, v) ∷ entries) = do
    actual ← or_throw Error.no_event_arguments args
    contains actual k v
    check_entries args entries

  -- `exceptions[0]`
  abbrev pub first_exception : List Error → Error
  first_exception [] = Error.undefined_thrown
  first_exception (e ∷ es) = e

  module _ {E : Type 0} (args : E → Option (Dict chai.Value)) (event_args : Dict chai.Value) where
    -- `events.find(…)`, and the exceptions that its callback collects
    unfoldable pub find_event : List E → List Error → Option E × List Error
    find_event [] exceptions = (none, exceptions)
    find_event (e ∷ es) exceptions = elim (check_entries (args e) event_args) [
      | ok u ↦ (some e, exceptions)
      | err x ↦ find_event es (exceptions ++ x ∷ [])
    ]

    unfoldable pub found_event : Option E × List Error → Result E
    found_event (some e, exceptions) = ok e
    found_event (none, exceptions) = err (first_exception exceptions)

    -- What both functions do with the events of the name.
    unfoldable pub search_events : String → List E → Result E
    search_events name [] = err (Error.no_event_named name)
    search_events name (e ∷ es) = found_event (find_event (e ∷ es) [])

  -- `receipt.events.filter((e) => e.event === eventName)`
  abbrev pub has_name : String → Option String → Bool
  has_name name none = false
  has_name name (some event) = str_eq event name

  unfoldable pub named_events : String → List (Event chai.Value) → List (Event chai.Value)
  named_events name [] = []
  named_events name (e ∷ es) =
      let rest = named_events name es in if has_name name e.event then e ∷ rest else rest

  unfoldable pub expect_in_receipt :
      {Log : Type 0}
      → ContractReceipt chai.Value Log
      → String
      → Dict chai.Value
      → Result (Event chai.Value)
  unfolding named_events
  expect_in_receipt receipt name event_args = do
    events ← or_throw Error.no_events receipt.events
    search_events (λ e. e.args) event_args name (named_events name events)

  -- `decodedEvents.filter((event) => event.name === eventName)`
  unfoldable pub named_logs :
      String → List (LogDescription chai.Value) → List (LogDescription chai.Value)
  named_logs name [] = []
  named_logs name (e ∷ es) =
      let rest = named_logs name es in if str_eq e.name name then e ∷ rest else rest

  module _ {Log : Type 0} (parse_log : Log → Option (LogDescription chai.Value)) where
    -- The logs that the interface of the emitter can parse; it throws on the others.
    unfoldable pub decoded_events : List Log → List (LogDescription chai.Value)
    decoded_events [] = []
    decoded_events (l ∷ ls) =
        let rest = decoded_events ls in elim (parse_log l) [ none ↦ rest | some e ↦ e ∷ rest ]

    unfoldable pub expect_in_indirect_receipt :
        ContractReceipt chai.Value Log
        → String
        → Dict chai.Value
        → Result (LogDescription chai.Value)
    expect_in_indirect_receipt receipt name event_args =
        search_events (λ e. e.args) event_args name (named_logs name (decoded_events receipt.logs))

-- `IEvent`, over the type of contracts
pub record IEvent (Contract : Type 0) (V : Type 0) : Type 0 where
  pub contract : Contract
  pub name : String
  pub args : Option (List V)
  pub emitted : Bool

-- What chai's matchers say of a transaction: that it emitted the event, and that it did so with the
-- arguments.
module _ {Contract V : Type 0} (emits : Contract → String → Bool)
    (emits_with : Contract → String → List V → Bool) where
  unfoldable pub expect_event : IEvent Contract V → Result (Unit {0})
  expect_event evt =
      if evt.emitted
      then elim evt.args [
        | some args ↦
            throw_if (not (emits_with evt.contract evt.name args)) (Error.event_expected evt.name)
        | none ↦ throw_if (not (emits evt.contract evt.name)) (Error.event_expected evt.name)
      ]
      else throw_if (emits evt.contract evt.name) (Error.event_unexpected evt.name)

  unfoldable pub expect_events : List (IEvent Contract V) → Result (Unit {0})
  expect_events [] = ok tt
  expect_events (evt ∷ events) = expect_event evt >> expect_events events
