-- ===== src/Terminal.antt =====
-- frontend/src/stores/terminalStore.ts: the tabs, the active tab and the terminals on screen, and
-- frontend/src/hooks/useTerminalCapture.ts, which keeps the tabs as the back end lists them. The
-- xterm objects of `termRefsMap` are of a type `Term` that is a parameter.
pub mod Tabs
pub mod Capture
pub mod Numbers
pub mod Tests
use mathlib.Core.Bool.{not}
use pair_admin.Base.{
  ℕ, ◌+◌, ◌&&◌, Bool, true, false, Option, none, some, List, [], ◌∷◌, ◌++◌, Text, ◌==◌,
  if◌then◌else◌, nat_eq, or_else, length, any, filter, modify_first,
}

-- `unset` is the empty string that a saved local session has here.
pub data AuthType : Type 0 where
  password privatekey unset : AuthType

pub data TabKind : Type 0 where
  local ssh winrm : TabKind

pub record TerminalRemoteConnection : Type 0 where
  pub host : Text
  pub port : ℕ
  pub username : Text
  pub auth_type : AuthType
  pub private_key_path : Text
  pub use_tmux : Bool
  pub tmux_session_name : Text

-- The optional fields, as `addTab` takes them.
pub record TabDetails : Type 0 where
  pub degraded : Option Bool
  pub degraded_msg : Option Text
  pub kind : Option TabKind
  pub saved_host_id : Option Text
  pub host : Option Text
  pub port : Option ℕ
  pub remote : Option TerminalRemoteConnection

pub record TerminalTab : Type 0 where
  pub id : Text
  pub name : Text
  pub details : TabDetails

pub record TerminalState (Term : Type 0) : Type 0 where
  pub tabs : List TerminalTab
  pub active_tab_id : Text
  pub next_tab_number : ℕ
  pub new_terminal_dialog_open : Bool
  pub copy_mode_open : Bool
  -- `termRefsMap`, which stands outside the store
  pub term_refs : Text → Option Term

abbrev pub no_details : TabDetails
no_details = record {
  degraded = none;
  degraded_msg = none;
  kind = none;
  saved_host_id = none;
  host = none;
  port = none;
  remote = none;
}

abbrev pub has_id : Text → TerminalTab → Bool
has_id id t = t.id == id

-- `tabs.length > 0 ? tabs[0].id : ""`
abbrev pub first_id : List TerminalTab → Text
first_id [] = []
first_id (t ∷ ts) = t.id

abbrev pub with_saved_host : Text → TerminalTab → TerminalTab
with_saved_host host t =
    let d = t.details in record t { details = record d { saved_host_id = some host } }

module _ {Term : Type 0} where
  abbrev pub initial : TerminalState Term
  initial = record {
    tabs = [];
    active_tab_id = [];
    next_tab_number = 1;
    new_terminal_dialog_open = false;
    copy_mode_open = false;
    term_refs = λ id. none;
  }

  abbrev pub set_copy_mode_open : Bool → TerminalState Term → TerminalState Term
  set_copy_mode_open opened s = record s { copy_mode_open = opened }

  abbrev pub set_new_terminal_dialog_open : Bool → TerminalState Term → TerminalState Term
  set_new_terminal_dialog_open opened s = record s { new_terminal_dialog_open = opened }

  abbrev pub set_active_tab : Text → TerminalState Term → TerminalState Term
  set_active_tab id s = record s { active_tab_id = id }

  unfoldable pub add_tab : Text → Text → TabDetails → TerminalState Term → TerminalState Term
  add_tab id name details s =
      let tabs' = s.tabs ++ record { id = id; name = name; details = details } ∷ [] in
      if any (has_id id) s.tabs then s else record s {
        tabs = tabs';
        active_tab_id =
            if nat_eq (length tabs') 1 && not (or_else details.degraded false)
            then id
            else s.active_tab_id;
      }

  abbrev pub delete_ref : Text → (Text → Option Term) → Text → Option Term
  delete_ref id refs t = if id == t then none else refs t

  unfoldable pub remove_tab : Text → TerminalState Term → TerminalState Term
  remove_tab id s =
      let rest = filter (λ t. not (has_id id t)) s.tabs in
      record s {
        tabs = rest;
        active_tab_id = if s.active_tab_id == id then first_id rest else s.active_tab_id;
        term_refs = delete_ref id s.term_refs;
      }

  unfoldable pub rename_tab : Text → Text → TerminalState Term → TerminalState Term
  rename_tab id name s = record s {
    tabs = modify_first (has_id id) (λ t. record t { name = name }) s.tabs;
  }

  unfoldable pub set_saved_host_id : Text → Text → TerminalState Term → TerminalState Term
  set_saved_host_id id host s = record s {
    tabs = modify_first (has_id id) (with_saved_host host) s.tabs;
  }

  unfoldable pub clear_tabs : TerminalState Term → TerminalState Term
  clear_tabs s = record s { tabs = []; active_tab_id = []; term_refs = λ id. none }

  unfoldable pub set_term_ref : Text → Option Term → TerminalState Term → TerminalState Term
  set_term_ref id (some term) s = record s {
    term_refs = λ t. if id == t then some term else s.term_refs t;
  }
  set_term_ref id none s = record s { term_refs = delete_ref id s.term_refs }

  abbrev pub get_term_ref : Text → TerminalState Term → Option Term
  get_term_ref id s = s.term_refs id

  -- The number, and the state in which it is used up.
  unfoldable pub take_next_tab_number : TerminalState Term → TerminalState Term × ℕ
  take_next_tab_number s = (record s { next_tab_number = s.next_tab_number + 1 }, s.next_tab_number)

-- An entry of the event `terminal:tabs`.
pub record TabInfo : Type 0 where
  pub id : Text
  pub name : Text

abbrev pub listed : Text → List TabInfo → Bool
listed id infos = any (λ (i : TabInfo). i.id == id) infos

module _ {Term : Type 0} where
  -- `for (const id of currentIds) if (!newIds.has(id)) store.removeTab(id)`
  unfoldable pub remove_missing :
      List TabInfo → List TerminalTab → TerminalState Term → TerminalState Term
  remove_missing infos [] s = s
  remove_missing infos (t ∷ ts) s =
      remove_missing infos ts (if listed t.id infos then s else remove_tab t.id s)

  -- `for (const tab of event.tabs) if (!currentIds.has(tab.id)) store.addTab(tab.id, tab.name)`;
  -- `current` are the tabs from before the event.
  unfoldable pub add_new : List TerminalTab → List TabInfo → TerminalState Term → TerminalState Term
  add_new current [] s = s
  add_new current (i ∷ is) s =
      add_new current is (if any (has_id i.id) current then s else add_tab i.id i.name no_details s)

  unfoldable pub handle_tabs : List TabInfo → TerminalState Term → TerminalState Term
  handle_tabs infos s = add_new s.tabs infos (remove_missing infos s.tabs s)
