-- ===== src/Lib.antt =====
-- The administration panel of the notification service (frontend/src): a verification library of
-- its own logic.
--
-- Prelude: shared names, Boolean tests, list functions over the native numbers, permutations,
--   association lists, texts, and results that may throw.
-- Structure: frontend/src/pages/tabs/TemplateBuilder.tsx. Data holds the interfaces and blocksOf,
--   Fonts the two tables of fonts, Variables the detection of `{{x}}` in texts (scanInto,
--   detectVariablesInText, detectVariables); Variables/Field with Variables/Insertion is
--   frontend/src/components/VariableField.tsx, which writes such a text.
-- Builder: frontend/src/pages/tabs/EmailBuilder.tsx. Palette holds its tables, Locate findBlock,
--   findColumn and lastColumn, State the component's state with its simplest setters, Edit the
--   operations on rows and blocks, Drag the handlers of drag and drop. Actions holds the user's
--   actions in any order, which Soundness, Steps, Growth and Runs are about (Drawn on the ids,
--   Shape on rows and widths, LayoutIds on the ids of a new layout), and which Bags, Holds,
--   BagAdds, BagSteps and Refinement compare with a machine on bags of blocks. The proofs on single
--   operations are in Ids, Move, Layout, Blocks, AddBlock, Duplicate, DragEnd, Rows and Keeping;
--   Landing is about the place of a dragged block (with Splices, Columns, Once and Targets),
--   Inspector about what the inspector writes. Samples has data for the tests. View is BlockView,
--   what the canvas draws for a block (its bounds are in View/Bounds), Canvas the rest of the
--   canvas and the inspector, with its proofs in Canvas/Layouts and Canvas/Lines.
-- Template: frontend/src/pages/templateEditor.utils.ts (Normalize, Defaults, Body, Samples, Html)
--   and frontend/src/pages/TemplateEditor.tsx: Editor is the state of the form and of the modes,
--   Page the messages and the saving around it, Loading and Preview are its effects, Channels the
--   content of the channels without blocks, Markup what is rendered and the request for a preview;
--   the proofs are in Contents, Reload, Saving, Submit, Modes, Loading, Pausing, Payload and
--   Specs, and Sessions follows a structure from the builder to the server and back.
-- Client: frontend/src/api/client.ts and the handler that frontend/src/auth/auth.tsx registers
--   with it. The code between two awaits is one handler on the record Client; Steps is the step
--   relation of all interleavings of calls, responses and renewals; the proofs are in SingleFlight,
--   Calls, Parse and Reports (with Handler and Dead).
-- Session: AuthProvider of frontend/src/auth/auth.tsx on the state of the client: loadAdmin, the
--   check of the shared session, login and logout.
-- Routes: frontend/src/pages/tabs/Routes.tsx: the forms, the requests they send, the labels.
-- Tabs: the other tabs and pages with a form. Tabs itself is the dialog they share, with its
--   requests and answers; ApiKeys, Webhooks, Suppressions, Recurring, Providers, Smtp, Privacy,
--   Notifications, Audit and Metrics are the files of frontend/src/pages/tabs of these names,
--   Families and Previews are Templates.tsx there, RouteForms the dialogs of Routes.tsx; Admins,
--   Applications and AppHeader with AppMenu are AdminUsers.tsx, Applications.tsx and AppDetail.tsx
--   of frontend/src/pages. A handler with a request is two functions, start_ up to the request and
--   end_ for its answer.
-- Monitor: frontend/src/pages/tabs/Monitor.tsx: Stream reads the event stream, Rounds is the loop
--   that connects again; the proofs on the stream are in Draining, Chunks and Frames.
-- Shell: frontend/src/App.tsx, pages/Login.tsx, components/UserMenu.tsx, theme.tsx and, in
--   Screens, hooks/use-pantalla-chica.ts.
-- Controls: the controls of frontend/src/ui.tsx and of frontend/src/components.
-- Async: useAsync of frontend/src/ui.tsx, with one flag for each run of its effect.
--
-- The parts interact as in the source: the template page opens a saved structure (Normalize), the
-- builder edits it and hands it to onChange (the field value of Builder.State), the detection of
-- variables reads it, and buildTemplateBody puts it into the request that the client sends.
--
-- Correspondence: names are those of the source in lower case with underscores; setX of a React
-- state is a record update; an undefined value is none; code that may read a field of undefined
-- returns an Outcome. uid() is a parameter, the text of its n-th call, and a number in the state
-- counts the calls. A text is its characters. Loops are structural recursion; only two use fuel:
-- the loop that takes the events out of the buffer of the monitor, for which the size of the
-- buffer is enough (each event takes two characters at least), and the moves between routes, for
-- which three are enough. The numbers are indices, widths, sizes in pixels, milliseconds and
-- status codes, which are small and not negative; the pointer's coordinates are floats and stay a
-- parameter (Builder.Drag.Floats), and so do the sizes that Number reads from the texts of a block
-- (Builder.View.Numbers).
--
-- Parameters: arrayMove of @dnd-kit/sortable, js-beautify, JSON.parse, Number, String,
-- toLowerCase, toUpperCase, encodeURIComponent, sort by the locale, fetch (its responses are the
-- steps of the environment), and the logo image.
--
-- Not modelled: markup and styles, the wrappers of the component library
-- (frontend/src/components/ui), the HTML editor's frame, the Go backend, the generated database
-- client and the deployment files.
pub mod Prelude
pub mod Structure
pub mod Builder
pub mod Client
pub mod Template
pub mod Session
pub mod Async
pub mod Routes
pub mod Monitor
pub mod Controls
pub mod Tabs
pub mod Shell
