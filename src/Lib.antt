-- ===== src/Lib.antt =====
-- The administration interface of the group manager: the parts of frontend/ that hold its logic.
--
-- The program is a React front end in TypeScript. Its pages call an HTTP client, keep what they are
-- sent in component state, and hand it to sections, tables and modal forms; four stores live outside
-- the components: the resource policies, the device profiles and the sign-in policy, each under its
-- own key of `localStorage`, and the toasts in a module.
--
--   Prelude           shared names: tests and the conditional, lists, texts, lists with a key
--   Json              JSON values and JavaScript numbers
--   Storage           a cell of `localStorage`
--   Types             frontend/lib/types.ts
--   ResourcePolicies  frontend/lib/resource-policies.ts: listing, creating, saving and deleting; in
--                     ResourcePolicies/Page the pages over it, ResourcePoliciesPage.tsx and
--                     ResourcePolicyDetailPage.tsx of frontend/src/pages/policy, and
--                     create-resource-policy-modal.tsx of
--                     frontend/components/dashboard/policy/resource-policies
--   DeviceProfiles    frontend/lib/device-profiles.ts, and in DeviceProfiles/Page
--                     frontend/src/pages/policy/DeviceProfilesPage.tsx
--   SignInPolicy      frontend/lib/sign-in-policy.ts, and in SignInPolicy/Page
--                     frontend/src/pages/policy/SignInPolicyPage.tsx
--   Api               frontend/lib/mock-api.ts: `request`, `requestLocal` and, in Api/Calls, one
--                     function for each exported call; the paths, the bodies, the outcomes
--   Toasts            frontend/hooks/use-toast.ts, and its copy frontend/components/ui/use-toast.ts
--   SubjectPicker     frontend/components/subjects/subject-picker.tsx
--   AddMembers        frontend/components/dashboard/groups/add-members-modal.tsx
--   GroupMembers      frontend/components/dashboard/groups/group-members-section.tsx
--   AddResource       frontend/components/dashboard/resources/add-resource-modal.tsx
--   EditResource      frontend/components/dashboard/resources/edit-resource-modal.tsx
--   AccessRules       frontend/components/dashboard/resources/access-rules-table.tsx, and in
--                     AccessRules/Adding add-access-rule-modal.tsx beside it
--   Navigation        frontend/components/dashboard/sidebar.tsx and policy/policy-type-dropdown.tsx
--                     beside it
--   Diagnostics       connectivity-panel.tsx and access-trace-panel.tsx of
--                     frontend/components/dashboard/diagnostics, and
--                     frontend/src/pages/diagnostics/NetworkDiagnosticsPage.tsx
--   Installing        frontend/components/dashboard/tunnelers/tunneler-install.tsx, and of
--                     frontend/src/pages/connectors/ConnectorDetailPage.tsx its command
--   ConnectorPage     the rest of that page
--   GroupResources    frontend/components/dashboard/groups/add-resources-modal.tsx
--   Resources         frontend/src/pages/resources/ResourcesPage.tsx put together with the modals of
--                     AddResource and EditResource
--   Routing           the table of routes of frontend/src/App.tsx; in Routing/Router the router that
--                     reads it, as an interface with its laws for this table, and in
--                     Routing/Matching one that keeps them
--   Users             frontend/src/pages/users/UsersPage.tsx with add-user-modal.tsx and
--                     edit-user-modal.tsx of frontend/components/dashboard/users
--   Groups            frontend/src/pages/groups/GroupsPage.tsx with add-group-modal.tsx and
--                     edit-group-modal.tsx of frontend/components/dashboard/groups
--   Networks          add-remote-network-modal.tsx and add-connector-modal.tsx of
--                     frontend/components/dashboard/remote-networks, and add-connector-modal.tsx of
--                     frontend/components/dashboard/connectors
--   Pages             the loads and views of the list and detail pages under frontend/src/pages; in
--                     Pages/Rows, Pages/Tables and Pages/Cards the rows of the tables and the cards
--                     under frontend/components/dashboard, and in Pages/Sections what the pages of a
--                     group, a network and a resource make of them; Pages/Rules puts the page of a
--                     resource together with the table of AccessRules
--
-- A definition has the name of the function that it models, in snake_case. The state of a component
-- is a record with a field for each `useState` and for what it reports to its parent; a handler is
-- a function on that record. A handler with an `await` is two functions, `start_` up to the request
-- and `finish_` after it, with the outcome of the request as an argument; what its closure has
-- captured is passed from the first to the second, so that other handlers may run in between.
-- What a component renders is a record of what is shown and which buttons are disabled.
-- An effect is a function on the state, run where React runs it: after the first render or after
-- what it depends on has changed. What can happen to a page is a data type of events in its module
-- Events, Closing, Requesting or Beating, of which any sequence may happen. A page that shows a
-- spinner while it loads unmounts its modals, whose state is then new; what was in flight carries
-- the number of the mount that it belongs to.
-- The picker takes its props from the modals that show it; the forms for resources take the body
-- of their request from Api and the policies from ResourcePolicies.
--
-- Parameters stand for what is not in the repository: `fetch` (an answer, or what it throws),
-- `compare` for `localeCompare`, of which the order of the rows asks that it is an order, the host
-- name of the location and the identifiers in the path, the router with its laws, `lower` for
-- `toLowerCase`, `date_text` for `toLocaleString`, `number_of`, `of_text` and `text_of` for
-- `Number` and `String`, and the sources of fresh identifiers. A text is a sequence of code points;
-- one in `localStorage` is represented by what `JSON.parse` makes of it.
-- A number of seconds is exact, in billionths: the rounding of the division by a unit is that of the
-- quotient, which binary numbers of 64 bits do not change for times below 2 ^ 50 seconds.
-- Counters are natural numbers, with the remainder by 2 ^ 53 - 1 where the source takes it. The only
-- fuel is that of writing a number in decimal: a number n is given n + 1, and has no more digits.
--
-- Not modelled: styling, icons and logging; most headings, placeholders and other fixed texts; the
-- casts of answers to their types; the libraries Radix, sonner and React, of which the state and
-- effect hooks are rendered as above, and in AccessRules the button that closes its dialog; the
-- layouts and the header, which show nothing that changes; the print of a date in the diagnostics;
-- frontend/components/ui, copies of the wrappers of another library; frontend/dist, which the build
-- generates; the programs under backend/, which the client sees only through `fetch`.
pub mod AccessRules
pub mod AddMembers
pub mod AddResource
pub mod Api
pub mod ConnectorPage
pub mod DeviceProfiles
pub mod Diagnostics
pub mod EditResource
pub mod GroupMembers
pub mod GroupResources
pub mod Groups
pub mod Installing
pub mod Json
pub mod Navigation
pub mod Networks
pub mod Pages
pub mod Prelude
pub mod ResourcePolicies
pub mod Resources
pub mod Routing
pub mod SignInPolicy
pub mod Storage
pub mod SubjectPicker
pub mod Toasts
pub mod Types
pub mod Users
