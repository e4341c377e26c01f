-- ===== src/Lib.antt =====
-- The web frontend of the ADMS server (frontend/src): what its client, its session, its hooks, its texts
-- and its pages compute, modelled in functions that run, with what is proved of them.
--
-- The frontend is a set of React pages over a REST API. api/client.ts makes the calls and turns answers
-- into values or errors; auth.tsx keeps the user and derives what each role may do; the hooks fetch
-- pages (hooks/useApi.ts) and follow the scans (hooks/useAttendanceStream.ts); i18n holds the texts in
-- two languages and puts errors in words; the pages run the workflows over these.
--
-- Common: names shared by all files: tests, lists, sets, and texts measured as JavaScript measures them.
-- Api: api/client.ts. Json and Query are the values sent; Request is request and requestAuth; Files the
--   downloads and uploads; Calls has one constructor for each call of the api object.
-- Auth: auth.tsx. auth_state is the context's value; Provider is AuthProvider as a step function on
--   events (effects, answers, the poll's timer), with calls under way counted.
-- Session: pages/Login.tsx and the logout of components/Layout.tsx, over the events of Auth.Provider.
-- Hooks: UseApi is useApi as events; Stream.Events is the reading loop, Stream.Connection the life of
--   the connections that connect opens.
-- I18n: Translations are the records of i18n/types.ts, English and Thai the texts of i18n/en.ts and
--   i18n/th.ts in the same parts, Language the provider of i18n/index.tsx, EnumLabels i18n/enumLabels.ts,
--   ApiErrors i18n/apiErrors.ts.
-- Handlers: what a handler of a page leaves behind (its state, its calls, its reloads), shared by pages.
-- TerminalName: lib/terminalName.ts.
-- Enrollments: pages/Enrollments.tsx. Queue is the list and the selection, Workspace is runAction with
--   its messages, Inspector is ActiveEnrollmentInspector, Forms the reservation, the verification and
--   the English name; Transitions is the server's table in app/enrollment.py.
-- Personnel: pages/Personnel.tsx (Listing, Hub, Policy, Names) and its components: Offboard, Policy and Names
--   are components/PersonnelLifecycle.tsx, Form is components/PersonnelFormModal.tsx, Import
--   components/CsvImportModal.tsx, Combobox components/PersonCombobox.tsx.
-- Terminal: pages/TerminalManagement.tsx as events: its clicks, the answers of the start and of the
--   polls, and the intervals that it sets.
-- Mappings: pages/Mappings.tsx: the two lists, and the creation of a mapping.
-- System: pages/System.tsx (Password, Operators, Reports, Departments), WriteSession
--   components/WriteSessionControl.tsx, Scheduler components/SchedulerControl.tsx.
-- Absences: pages/Absences.tsx: the register's pages, the form, the cancellation and the import
--   (Changes), the holiday calendar (Calendar is its arithmetic, Holidays its actions).
-- Overview: the weekdays of pages/Dashboard.tsx and the list of pages/DailyRoster.tsx.
-- Shell: App.tsx and components/Layout.tsx: the pages, the guards and the navigation.
--
-- State is passed explicitly: a setter of React is a field of a record, an effect or a callback a
-- function on it, and an asynchronous call an answer that a parameter gives (fetch, serve) or an event
-- that comes later. The browser's operations (fetch, URLSearchParams, JSON.parse, toLowerCase, dates)
-- are parameters. Numbers are natural numbers; no code modelled here has negative ones, and where it
-- subtracts, the case of 0 is written out. A day is its number since 1970, so earlier days have none.
--
-- Fuel: drain takes one unit for each block and is given the number of characters, of which a block
-- takes two at least; run_action takes one unit for each action of a chain, and chains have two;
-- weekdays_loop takes one unit for each day it looks at and is given three for each weekday wanted, as
-- no weekend has more than two days.
--
-- Not modelled: rendering, the attendance, monthly, device and audit pages, the generated types,
-- and the server, whose table of transitions alone stands here.
pub mod Common
pub mod TerminalName
pub mod Api
pub mod Auth
pub mod Hooks
pub mod I18n
pub mod Enrollments
pub mod Absences
pub mod Shell
pub mod Handlers
pub mod Personnel
pub mod Terminal
pub mod Mappings
pub mod Session
pub mod Overview
pub mod System
