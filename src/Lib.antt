-- ===== src/Lib.antt =====
-- The terminal of Termethis, at both ends, and the lists that its connections are kept in. The
-- page tool/web_terminal/src/terminal.js shows xterm.js in a web view: the application calls
-- `window.termethisTerminal`, the page answers by messages, and xterm.js and the browser call
-- back. All of that file is modelled; each part shares the state of the page (`Page`), and each
-- entry point is one action of `Step`. On the side of the application, SshSessionController
-- (lib/features/terminal/application/ssh_session_controller.dart) receives the output of a
-- connection, keeps what a new page needs to replay it, and hands it as numbered events to
-- XtermWebTerminalState (lib/features/terminal/presentation/widgets/xterm_web_terminal.dart),
-- which writes it to the page in chunks and holds the session back while too much is queued.
-- Which hosts a session passes is kept by SshRoutesController, and the tabs that show sessions by
-- ConnectionTabsController (both in lib/features/connections/application/); AppBackupController
-- (lib/features/data_management/application/app_backup_controller.dart) checks and restores both.
--
-- Base       shared names, Boolean tests, lists over the native numbers, UTF-16 text (lists of code
--            units), results that may throw, integers and rounded doubles.
-- Browser    what the file calls and does not implement, one record: doubles, TextEncoder and
--            TextDecoder, atob and btoa, Object.prototype, the emulator (`apply`: a call gives a new
--            screen, the callbacks made meanwhile, and an exception if any) and the layout.
--            `CodersWork` states the documented laws of the coders.
-- Codec      decodeBase64Bytes, decodeBase64Text, encodeBase64; Codec/RoundTrip their properties.
-- Key        specialKeySequence; Key/Sequences has a reader of the sequences.
-- Prompt     the handler of OSC 133: promptActive, commandOutputStart, lastCommandOutput.
-- Page       the module variables, post, and the handlers of onData, onResize, onTitleChange and
--            OSC 133. `perform` is a call with its callbacks, `>>` one statement behind another,
--            skipped if the first has thrown. Page/Effects reads the log of calls and messages,
--            Page/Frame has what a call leaves alone.
-- Fit        fit, the ResizeObserver and its animation frame (resizeFrame).
-- Writer     enqueueWrite and requestSnapshot. `writeChain` is a list of jobs and the write that
--            runs; a write is cut at its two waits, the callback of terminal.write and the
--            animation frame (write_from, after_write, after_frame). The children follow one write
--            (Progress), one step of the chain (Advance, Steps, Steps/Resumes) and the steps that
--            are left (Work, Work/Decreases); Snapshots is about the answer to a request.
-- Pointer    dispatchMouse, movePromptCursor and the listeners for pointerdown, pointerup,
--            pointercancel and contextmenu, with the timer of a long press.
-- Api        the methods of window.termethisTerminal; Api/Texts what is pasted.
-- Startup    the top-level statements, onContextLoss, the listener for errors, document.fonts.ready.
-- Step       an action for each entry point, and runs of actions in any order. Frame and Whole carry
--            a relation over every step; Unseen, Accounts, Writes and Drain are about the write
--            chain, Input and Direct about what is sent as input, Resize about animation frames.
-- Scrollback the events, the kept chunks and the snapshot of a session: _flushTerminalWrites,
--            _appendWebTerminalDelta, webTerminalReplay, webTerminalReplayAfter and
--            saveWebTerminalSnapshot. Loops has the lemmas on its loops, History relates the kept
--            chunks to all events, Bounds is about sizes, Stale about snapshots that come late.
-- Session    the other state of SshSessionController: output and its write timer, input with armed
--            modifiers, backpressure; Session/Connection what happens to the connection. Run has an
--            action for each entry point; Output and Replays carry Scrollback over runs, Emits
--            says what an action hands to the listeners.
-- Widget     the state of XtermWebTerminalState, _appendOutputChunks, _setOutputBackpressure and
--            _reportFatal; Drains has _queueOutput and _drainOperations, cut at its waits (`Drain`).
--            Actions has the messages of the page, keys, events and the ends of waits, Suspensions
--            suspend, resume and dispose cut at their waits (`Suspension`), Runs an action for each.
--            Chunks is about the cutting; Steady carries a property over the steps that queue
--            nothing; Paced and Held are about the counts and the backpressure, Awake and Wakes
--            that no work is left at rest; Flow, Advances, Answers and Settled follow a page that
--            answers; Shown, Shows and Queued are about what a page shows that gets the writes;
--            Gone is about a disposed widget.
-- Link       a session and a widget that listens to it, with the actions of both in any order;
--            Follows is one action, Runs any number of them.
-- Routes     SshRouteConfiguration and SshRoutesController (ssh_routes_controller.dart): saveRoute,
--            removeFor, routeFor, and _ensureAcyclic, whose map, sets and recursion are explicit.
--            Graphs has walks and cycles, Visits and Descent the search, Cycles its answer; Jumps
--            reads jump hosts off the routes, Changes and Shapes follow the two operations, Runs
--            any number of them.
-- Tabs       ConnectionTab and ConnectionTabsController (connection_tabs_controller.dart): open,
--            openShizukuShell and _markActive; Edits has close, rename, move and selectedTab, Load
--            build with _withoutDuplicateProfiles, Runs an action for each. Pairs is about tabs
--            that clash, Searches and Latest about what is found, Newest, Entries and Keeps about
--            what a load keeps, Opens and Invariant about all operations; Names, Ids and
--            Clock are about the ids of tabs.
-- Backup     _ensureValidRelationships, the numbers of preview and the tabs and routes of restore.
--            Searches compares its search for cycles with that of Routes, Names is about ids,
--            Checks about the answer, Restores about what is stored behind restore, Shadows about
--            two routes for one profile.
-- Examples   runs on a sample browser, and an input for each property.
--
-- Bounds. Numbers are unbounded naturals; a store into a Uint8Array keeps the low eight bits. The
-- loop of encodeBase64 runs on as many rounds as there are bytes, and one more, where each round
-- takes 0x8000 bytes. The loop of enqueueWrite needs no fuel: each of its waits is an action, and
-- `work` bounds how many the chain still takes (Writer/Work). The loop of _appendOutputChunks runs on
-- one round more than there are bytes, where each round takes 128 KiB. `answered` runs on the number
-- of answers of the page; `answers_left` counts how many suffice.
--
-- The searches for cycles run with one more than the number of ids in the map as their depth; each
-- call meets an id for the first time, or returns (Routes/Visits counts the ids left).
--
-- Not modelled: arithmetic of doubles (any operations, no laws); JSON.stringify in post (messages
-- are values); the CSS selector of dispatchMouse; the order of promises of other tasks between
-- two actions, which the arbitrary order of actions covers; the options of the Terminal
-- constructor. A method's exception goes back to the application and is not kept. Of the session:
-- the gateway (its answers are actions), mosh, tunnels, the log of connections, the close of a
-- released connection; the codec of the input is a parameter. Of the widget: checkpoints,
-- copyLastCommandOutput, a change of the session, the text of scripts and messages (both are
-- values). A snapshot arrives decoded. Of the controllers of connections and backups: JSON, saves
-- that fail or overlap, and what restore writes besides tabs and routes; the store of tabs is the one
-- in memory, and times are numbers. The other parts of the application in Dart, Rust and Kotlin, and
-- the generated bundle assets/web_terminal/terminal.js, are no part of this library.
pub mod Base
pub mod Browser
pub mod Codec
pub mod Key
pub mod Prompt
pub mod Page
pub mod Fit
pub mod Writer
pub mod Pointer
pub mod Api
pub mod Startup
pub mod Step
pub mod Scrollback
pub mod Session
pub mod Widget
pub mod Link
pub mod Routes
pub mod Tabs
pub mod Backup
pub mod Examples
