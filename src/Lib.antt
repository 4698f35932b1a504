-- ===== src/Lib.antt =====
-- Verification of the Cinder project: the logic of the student app (apps/forge) and of what it shares
-- with the other apps (packages/ui), on the student's own device; of the client of the Host, which all
-- apps share; and of the stored session, the gradebook's assistant, the papers and their PDF
-- in the teacher's app (apps/teacher).
--
-- The parts, and the files that model them:
-- - Base.antt and Base/: shared names, Boolean tests, lists, strings as lists of UTF-16 code units,
--   numbers of JavaScript as fractions with NaN and infinity, regular expressions by backtracking,
--   JSON values, and dictionaries.
-- - Model.antt: the user of packages/ui/src/types.ts.
-- - Timer.antt and Timer/: the study countdown, apps/forge/src/components/studentTools.ts and the
--   hook `useCountdown` of Countdown.tsx. `tick`, `choose`, `toggle` and `pause` are its handlers,
--   `restore_countdown` is `restoreCountdown`.
-- - Session/Storage.antt and its children: packages/ui/src/session.ts. A `Device` holds the native
--   session store and localStorage; the failures of the native calls are arguments.
-- - Session/Gate.antt and Session/Gate/: `MatchboxSessionGate` of apps/forge/src/matchboxSession.tsx.
--   Begin.antt has the handlers up to their first `await`, Answers.antt the continuations after it
--   (`refresh`, `login`, the password change), Run.antt the switch of the account, `saveConnection`
--   and the events in any order, Startup.antt the effect that restores the session.
-- - Classroom/Scope.antt and Classroom/Live.antt: apps/forge/src/classrooms/classroomState.ts.
-- - Classroom/Outbox.antt: the outbox of packages/ui/src/cache.ts, and how `submit`, `withdraw` and
--   `flushCurrentStudent` of apps/forge/src/classrooms/StudentClassrooms.tsx use it.
-- - Workspace.antt and Workspace/: apps/forge/src/forgeData.ts. Workspace.antt has the data and the
--   changes that `useForgeData` offers, Migrate.antt `textToHtml` and `migrateNotes`, Decode.antt
--   `decodeWorkspace`, Readable.antt what it promises, Encode.antt the value that is saved and its
--   reading back, Store.antt the saving, `resetWorkspace` and `relativeTime`. What decoding does not
--   look into stays a JSON value; the time and fresh ids of a change are its arguments.
-- - Gradebook.antt and Gradebook/: apps/teacher/src/gradebookIntent.ts. Gradebook.antt has the cell
--   addresses, Sheet.antt the headers and `resolveGradebookCellTarget`, Edit.antt the request for one
--   cell with its value, Resolve.antt `resolveCellEdit`, Bulk.antt `resolveBulkGrades` and
--   `resolveGradebookIntent`, CellMap.antt `buildGradebookCellMap`; Headers.antt reads its header
--   cells back, Allowed.antt and its children about what may be proposed.
-- - Api.antt and Api/: packages/ui/src/api.ts, health.ts and hostTransport.ts. Request.antt has
--   `CinderApi.request` up to `hostFetch` and what is made of its answer; Transport.antt the frames of
--   hostTransport.ts; Account.antt, Classrooms.antt, Work.antt and Content.antt have the methods, each
--   as the request that it sends, Calls.antt all of them.
--   Api/Routing/ holds them against the routes of the Host, and Answers.antt puts the client under
--   the outbox.
-- - Host/Routes.antt: the `router` functions of crates/host/src/routes, as a table of patterns.
-- - Paper.antt and Paper/: apps/teacher/src/paperLogic.ts. Clean.antt has `cleanModelText`, its
--   regular expressions as scans, Normalize.antt and Parse.antt `normalizeGeneratedPaper` and the
--   repair of JSON, Recover.antt `parseGeneratedPaperResponse`, Print.antt the texts of a paper.
-- - Session/Teacher.antt: the stored session of teacherSession.ts in apps/teacher/src.
-- - Address.antt and Address/: the addresses of a Host that the apps accept, of matchboxConnection.ts
--   in apps/forge/src, which teacherSession.ts in apps/teacher/src repeats.
-- - Classroom/Quiz.antt: how apps/forge/src/classrooms/StudentQuizzes.tsx saves the answers to a quiz
--   and submits it, with its events in any order; Quiz/Course.antt and
--   Quiz/Sending.antt are about a submission that goes through.
-- - Paper/Export.antt and Paper/Export/: the PDF of a paper, apps/teacher/src/paperExport.ts. Wrap.antt
--   has `pdfSafeText` and `wrapLine`, Layout.antt the closures of `createPaperPdf` that move down a
--   page, Question.antt `drawQuestion`, Document.antt the whole, up to the list of what is drawn;
--   Figures.antt says what a paper shows of a question, apart from where it goes.
--
-- How they interact: the gate keeps the session in the session store and hands its address, user and
-- API object to the classrooms, whose keys begin with the scope of that address and user; the
-- outbox holds submissions of every account of the device, told apart by that scope. What it sends
-- goes over the client, whose requests are held against the routes of the Host.
--
-- Asynchronous code is a list of waiting continuations with what they captured. An event starts a
-- handler or lets any one of the continuations go on with any answer, so a list of events is an
-- interleaving. API objects are named by numbers in a store, since a continuation sets the token of
-- the object that it captured. Writes to the session store take effect in the order in which the
-- queue of session.ts takes them; a failed write leaves the store as it was. A handler sees the
-- state of the last rendering. The form for the address can be closed while it is busy and opened
-- again, so saves of the address may overlap.
--
-- Bounds: loops over a list are recursion on it. The loop of `columnName` runs on fuel, as much as
-- the value that it starts with, which goes down with each pass. The digits of a number are found
-- on fuel that is one more than the number, which a division by ten brings down. A repetition in a
-- regular expression takes a character with each turn that counts, so it has as much fuel as there
-- are characters left. Lengths in the PDF are thousandths of a point. Times are whole
-- milliseconds, and a date that is not valid has none; minutes, seconds and generations are natural
-- numbers, far below the bound up to which a JavaScript number is exact.
--
-- Parameters: `JSON.parse` with its message, `JSON.stringify`, `Number`, `parseInt`,
-- `toUpperCase`, the parsers of dates and URLs, `===` on answers to a quiz, the letters and digits
-- of Unicode with their cases and the normal form NFKD, `String` of a number or a cell, the widths
-- of texts and the pictures of diagrams in the PDF, the native side of the transport, what
-- `hostFetch` comes back with, and whether native calls succeed. The router of the Host, which is
-- another project's, is taken to prefer a fixed segment to one in braces. Not modelled: the
-- rendering, the third-party editors and spreadsheet, the handlers of the Host and the native
-- shells, which are written in Rust, the browser's IndexedDB beyond its order of keys (it does not
-- fail here), and so far the teacher's app but for the stored session, the gradebook's assistant,
-- the papers and their PDF, of which the drawings in SVG, the file formats and the bytes of the
-- PDF are left out.
--

pub mod Base
pub mod Model
pub mod Timer
pub mod Session
pub mod Classroom
pub mod Workspace
pub mod Gradebook
pub mod Api
pub mod Host
pub mod Paper
pub mod Address
