-- ===== src/Lib.antt =====
-- SIGECAT: the logic of the web client (client/src), which declares workloads of employees, reviews
-- them, and shows what happens in the system. The client is written in TypeScript over React; the
-- API behind it is PHP and enters here only as a parameter of the definitions that call it.
--
-- The parts and their files, with paths below client/src:
--   Prelude      tests on numbers, lists and texts, results; Js is what the source uses of
--                JavaScript strings and numbers, Paging the slices of a list
--   Status       services/declarationConstants.ts: STATUS_TRANSITIONS and canChangeStatus; History
--                is the sequences of changes that canChangeStatus lets through
--   Time         services/common.ts: parseOracleToTimeInput, parseOracleDate, formatOracleDate,
--                formatOracleTime, formatDateForBackend, over the browser's Date (Time/Host)
--   Declarations the records that the API sends for a declaration and its parts
--   RestTime     services/restTimeService.ts: validateRestTimeDuration; RestTime/Page is
--                features/employee/DeclarationRestTimes.tsx, and Licenses DeclarationLicenses.tsx
--   Services     the requests of the services of the administration: areaService.ts,
--                departmentService.ts, sectionService.ts, unitService.ts, jobService.ts,
--                jobClassService.ts, officialFunctionService.ts, licenseTypeService.ts,
--                userService.ts, with extractApiError of common.ts
--   Catalogue    the pages app/pages/admin/AreasPage.tsx, LicenseTypesPage.tsx,
--                DepartmentsPage.tsx, SectionsPage.tsx, UnitsPage.tsx, JobPage.tsx and
--                JobClassPage.tsx: the state and the handlers that they share, with what differs in
--                a record (Kind); Events is a run of handlers, each awaited before the next, and
--                Crossing the loads with several requests under way; Pages each page over its
--                service; Functions is FunctionsPage.tsx, and Users/Page UsersPage.tsx
--   Details      features/admin/declarations/DeclarationsDetailsModal.tsx: the change of a status,
--                and the answers to its effect in any order; Loading, its loading marks; Totals and
--                Durations, the hours against the shift and the texts of durations, which are those
--                of features/employee/EmployeesDeclarationsModal.tsx too
--   Accessibility context/AccessibilityProvider.tsx, services/accessibilityStorage.ts and, in
--                Speech, utils/speech.ts
--   Hours        utils/declarationExport.ts: calcTotalDeclaredHours, calcWeeklyShiftHours,
--                sumDurationsInHours; the weekly minutes of DeclarationFunctions.tsx
--   Csv, Export  utils/declarationExport.ts: csvField, csvRow and buildDeclarationCsv; Csv/Reader
--                is an independent reader of such files
--   Session      services/tokenStorage.ts, services/authService.ts, context/AuthProvider.tsx and
--                the guards components/PrivateRoute.tsx and RoleRoute.tsx as app/App.tsx nests them
--   ApiClient    services/apiClient.ts: the response interceptor with its queue. It is cut at its
--                await, and ApiClient/Events has every order of failures and answers
--   Activity     services/activityLog.ts; Logs and Users are logService.listRecent and
--                userService.getUsers; LogsPage is app/pages/admin/LogsPage.tsx
--   Reports      the report form of DeclarationFunctions.tsx, its handlers in Reports/Handlers
--   Shift        the first form of a declaration, app/pages/EmployeeFormPage.tsx
--   Completion   its last step, app/pages/AdditionalInformationPage.tsx
--   Positions    app/pages/admin/JobPositionsPage.tsx: its form; Dashboard the two dashboard
--                services
--   Passwords    utils/validation.ts and the forms of app/pages/auth
--
-- How they interact: Export reads Hours, Time, Status and RestTime; Completion reads Hours; Session
-- and ApiClient share the token storage, and the calls of Session.Provider may change the storage
-- before they answer, as the interceptor does; LogsPage reads Activity and Time. A catalogue page
-- takes its service as a record of operations (Services.Service), which Services builds over the
-- API; what the results ask of the API behind it is another record (Catalogue/Refinement: Serves).
-- Details offers the moves of Status.
--
-- State is a record, and a handler is a function from a state to a state; a component of React
-- whose handler awaits a call is one step, with the call as a parameter that answers or throws:
-- what happens while it waits is modelled where it is named above (ApiClient/Events, Details,
-- Catalogue/Crossing). Texts are lists of UTF-16 units. Numbers are whole: hours are kept in a unit
-- in which the source's divisions are exact, so that its floating-point rounding errors are not
-- modelled (a total that the source rounds may differ by a hundredth from the model where it lies
-- on half a hundredth), entries of a form are whole but for the rest times, which count in any
-- parts of a minute, and a number that is not whole reads as NaN where a text is parsed. Maps are
-- association lists or functions; a table has the keys that it lists itself, not those of
-- Object.prototype. Upper and lower case are those of the letters that the tables use. No
-- definition runs on fuel: the loops over pages recurse on the number of pages that are left, which
-- the source computes before the loop.
--
-- Not modelled: rendering and styles, the PDF layout, single requests without logic of their own,
-- the lists that fill the menus of the catalogue pages, and the API. The administration of job
-- positions is modelled in its form only, and the page of the custom functions, which lists, not at
-- all.
mod Prelude
mod Js
mod Paging
pub mod Time
pub mod Declarations
pub mod RestTime
pub mod Hours
pub mod Csv
pub mod Export
pub mod Services
pub mod Catalogue
pub mod Session
pub mod ApiClient
pub mod Activity
pub mod Shift
pub mod Licenses
pub mod Details
pub mod Accessibility
pub mod Positions
pub mod Passwords
pub mod Completion
pub mod Users
pub mod Logs
pub mod LogsPage
pub mod Dashboard
pub mod Reports
pub mod Status
