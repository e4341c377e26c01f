-- ===== src/Terminal/Page.antt =====
-- The state of pages/TerminalManagement.tsx, and what happens on it.
use adms_server.Common.{ℕ, String, Bool, false, Option, none, List, []}
use adms_server.Api.Json.{Json}
use adms_server.Api.Request.{Result}
use adms_server.Api.Calls.Admin.{TerminalCall}

-- The members of `TerminalInventoryItem` that the page's buttons read; `none` is an unknown count.
pub record InventoryItem : Type 0 where
  pub device_user_id : String
  pub fingerprint_count : Option ℕ

pub data ReenrollStatus : Type 0 where
  idle pending confirmed failed : ReenrollStatus

-- `intervals` are the intervals that are set, by their numbers, with the device user that each asks for;
-- `timers` is the number of the next one, and `poll_ref` is `pollRef.current`, which keeps the number of
-- an interval that is cleared.
pub record TerminalPage : Type 0 where
  pub action_error : Option String
  pub action_success : Option String
  pub busy_item : Option String
  pub fp_item : Option InventoryItem
  pub acct_item : Option InventoryItem
  pub acknowledge : Bool
  pub reenroll_item : Option InventoryItem
  pub reenroll_status : ReenrollStatus
  pub intervals : List (ℕ × String)
  pub timers : ℕ
  pub poll_ref : Option ℕ
  pub reloads : ℕ

unfoldable pub terminal_start : TerminalPage
terminal_start = record {
  action_error = none;
  action_success = none;
  busy_item = none;
  fp_item = none;
  acct_item = none;
  acknowledge = false;
  reenroll_item = none;
  reenroll_status = idle;
  intervals = [];
  timers = 1;
  poll_ref = none;
  reloads = 0;
}

-- What the operator does, an interval that fires, and the answers to a start, of some device user, and
-- to a poll, each of which comes at any time after its request.
pub data TerminalEvent : Type 0 where
  open_fingerprint open_account open_reenroll : InventoryItem → TerminalEvent
  cancel_fingerprint cancel_account cancel_reenroll : TerminalEvent
  tick : Bool → TerminalEvent
  remove_fingerprint remove_account start_reenroll : TerminalEvent
  start_answer : String → Result Json → TerminalEvent
  poll : ℕ → TerminalEvent
  poll_answer : Result String → TerminalEvent
  -- the page is left
  leave : TerminalEvent

-- A page, and the calls that were made on the way to it.
pub record TerminalRan : Type 0 where
  pub page : TerminalPage
  pub calls : List TerminalCall
