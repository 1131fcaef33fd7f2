-- ===== src/Lib.antt =====
-- PairAdmin's desktop front end: terminal tabs, a chat with a language model about what the terminals
-- show, a sidebar of suggested commands, and a network scanner. The Go back end does the work and
-- reports by events; the front end keeps six Zustand stores, and its hooks fold the events into them.
-- This library models the stores, the hooks that change them, and what the components decide.
--
--   Chat       frontend/src/stores/chatStore.ts: the messages of each tab
--   Stream     frontend/src/hooks/useLLMStream.ts: the events of a response, applied to the chat store
--              and to the connection indicator
--   Settings   frontend/src/stores/settingsStore.ts, and frontend/src/utils/connectionProbe.ts in
--              Settings/Probe
--   Command    frontend/src/stores/commandStore.ts: the sidebar's commands
--   Terminal   frontend/src/stores/terminalStore.ts, and the tab events of
--              frontend/src/hooks/useTerminalCapture.ts
--   Scanner    frontend/src/stores/scannerStore.ts under the events of frontend/src/hooks/useScanner.ts
--   Hotkey     frontend/src/utils/hotkey.ts, frontend/src/hooks/useConfiguredHotkey.ts,
--              frontend/src/hooks/useDefaultTerminalFocus.ts, and the capture field of
--              frontend/src/components/settings/HotkeysTab.tsx
--   QuickSelect  frontend/src/hooks/useQuickSelect.ts, frontend/src/stores/quickSelectStore.ts and
--              frontend/src/utils/sendToTerminal.ts: F-keys for commands and tabs
--   Context    frontend/src/utils/terminalContext.ts: the text of a terminal
--   Pane       the handler of frontend/src/components/chat/ChatPane.tsx: slash commands, and what is
--              sent to the model
--   Connect    frontend/src/components/terminal/NewTerminalDialog.tsx, with frontend/src/utils/wailsError.ts:
--              local terminals, the connection to a remote host and the prompt for its key (Dialog), the
--              saved hosts with their search and pages, and the form with its reset and its Enter key
--              (Local, Wizard); what each step of the dialog shows (Fields, Screen), and what the user
--              can do with it over time (History)
--   CopyMode   frontend/src/components/terminal/CopyModeDialog.tsx: what is copied or sent of a terminal,
--              raw or filtered, and what the dialog shows of it (Shown)
--   TabMenu    frontend/src/components/terminal/TerminalTab.tsx: the menu of a tab, its new name, and
--              the connection saved from it and used again
--   Sidebar    frontend/src/components/sidebar, frontend/src/components/chat/CodeBlock.tsx, and the part
--              of frontend/src/components/layout/ThreeColumnLayout.tsx that loads the saved commands; a
--              card with its menu and dialogs (Card), and the foot of the list (Footer)
--   Config     frontend/src/utils/settingsSync.ts and the tabs of frontend/src/components/settings:
--              reading, merging and saving the configuration, what each tab makes of its fields, and the
--              hotkeys that the hooks then read (Fired); what the tabs "LLM", "Terminals" and "Appearance"
--              show (LlmView, TerminalsView, AppearanceView), and the types that AppConfig of frontend/wailsjs/go/models.ts declares
--              (Types)
--   Gate       frontend/src/App.tsx with MasterPasswordDialog.tsx and ChangeMasterPasswordDialog.tsx of
--              frontend/src/components/settings: the start behind the master password
--   Network    frontend/src/components/scanner: ports.ts, and the fields, rows and buttons of
--              NetworkPanel.tsx (Panel)
--   Preview    frontend/src/components/terminal/TerminalPreview.tsx: the traffic of a terminal
--   View       the input, the list of messages and the status bar (ChatInput.tsx and
--              ChatMessageList.tsx of frontend/src/components/chat, and
--              frontend/src/components/layout/StatusBar.tsx), and the hooks that run an action by a hotkey
--   Layout     frontend/src/theme/theme-provider.tsx, frontend/src/components/settings/SecurityTab.tsx, and
--              of frontend/src/components/layout/ThreeColumnLayout.tsx the widths of the sidebars and the
--              terminals that are displayed (Panes)
--   Base       what these share: tests, lists, strings, numbers in decimal, ids that are used once
--
-- A file named for a part holds its state as a record and one function per operation, with the
-- source's names in snake case (appendChunk is append_chunk); the files below it hold the proofs,
-- and its Tests the theorems at concrete inputs. An operation takes the state last and returns the new
-- one, with a result beside it where the source returns one. A mutation of an immer draft is the
-- update of the record; an early return gives back the state.
--
-- A string is the list of its UTF-16 code units. Letter case is mapped for ASCII letters only, and
-- the theorem on hotkeys asks for ASCII keys. What
-- crypto.randomUUID and Date.now return are arguments of the operation that calls them; that ids are
-- fresh is a hypothesis where it is needed. Objects that the stores only hold (xterm terminals) are of
-- a type that is a parameter. Code that waits for the back end is cut at the await: each part is a
-- function, and the back end's answers are events between which others may come.
--
-- What a component shows, where it is modelled, is a function view into lists of widgets (Base/Widgets):
-- texts, fields, boxes and buttons, each with the action that its handler is, and whether it is disabled.
-- An action is offered if some widget that is shown and enabled has it, and press does what its handler
-- does. Histories in which the user does only what is offered are step relations: Move with Reach or Run.
--
-- Fuel stands in two places. The loop of flushPending has the number of entries that wait, which is
-- enough since each round deletes one. The digits of n are written in n + 1 rounds, which is enough since
-- each divides what is left by ten. parseInt is exact here, where JavaScript rounds beyond 2 ^ 53.
--
-- The components are joined as in the source: Stream writes Chat and Settings; Pane writes Chat, Terminal
-- and Settings and reads a terminal through Context; QuickSelect uses up texts of Command and selects in
-- Terminal; Connect, TabMenu and Preview change Terminal; CopyMode reads a terminal as Pane does; Network
-- hands its hosts to Connect; Sidebar, Config and Layout read and write one stored configuration.
--
-- A rejected call of the back end is a string, an Error with a message, or another value. The parser of
-- URLs (hostname_of) and the conversion Number (integer_of) are arguments of what uses them, and so are
-- the lines of an xterm buffer.
--
-- Not modelled: the markup of the other components, layout, styling and icons, the base components under
-- frontend/src/components/ui, the list of terminals, the frame of the settings dialog and its tab "About",
-- the xterm objects, the focus of fields, timers that only take a label back, the Go services, and the
-- generated bindings under frontend/wailsjs but for the declared types of the configuration.
pub mod Base
pub mod Chat
pub mod Settings
pub mod Command
pub mod Terminal
pub mod Scanner
pub mod Hotkey
pub mod Stream
pub mod QuickSelect
pub mod Context
pub mod Pane
pub mod Connect
pub mod CopyMode
pub mod TabMenu
pub mod Sidebar
pub mod Config
pub mod Gate
pub mod Network
pub mod Preview
pub mod View
pub mod Layout
