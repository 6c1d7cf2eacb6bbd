-- ===== src/Lib.antt =====
-- Verification library of the asset tracker's web interface, the TypeScript program under
-- web-ui/src, and of the Node service behind it, the JavaScript program under node-service/src. The
-- interface is a React application in front of two services, a Go service for devices behind
-- /api/go and the Node service for events behind /api/node. The parts of the interface:
--
-- * Api models the clients of web-ui/src/lib/api: client.ts, auth.ts, devices.ts, events.ts,
--   health.ts and metrics.ts, a file for each. A call is a record of the request that is sent, the
--   events that it dispatches on `window` and how its promise settles.
-- * Storage is the browser's localStorage, which the session and the settings share; Number is the
--   part of JavaScript's numbers that the program compares.
-- * Auth models the session: AuthProvider of web-ui/src/context/AuthContext.tsx (login, logout, the
--   listener for auth:logout), Auth/Guard the route guard `checkAuth` of
--   web-ui/src/routes/__root.tsx, Auth/Login the page of web-ui/src/routes/login.tsx with
--   `useLogin` of web-ui/src/hooks/use-auth.ts, and Auth/Session how these steps follow each other.
-- * Settings models SettingsProvider of web-ui/src/context/SettingsContext.tsx, and Settings/Panel
--   web-ui/src/components/layout/SettingsPanel.tsx.
-- * Health models web-ui/src/lib/utils/health-status.ts, Health/Live
--   web-ui/src/components/layout/LiveMetrics.tsx and Health/Cards the cards of
--   web-ui/src/components/dashboards. Trace models web-ui/src/components/layout/TraceTable.tsx.
-- * Shared models web-ui/src/components/shared: the modal, the error boundary and placeholders.
-- * Forms models the input schemas of web-ui/src/lib/schemas, Forms/Replies the schemas of replies
--   there, and Forms/Device and Forms/Event the forms DeviceForm.tsx, DeviceFormModal.tsx and
--   EventForm.tsx that submit by the input schemas.
-- * Devices models web-ui/src/components/devices, the page of web-ui/src/routes/devices.tsx
--   (Devices/Page, Devices/PageView) and the page of web-ui/src/routes/devices.$id.tsx
--   (Devices/Detail, Devices/DetailView). Events models web-ui/src/components/events and
--   web-ui/src/routes/events.tsx.
-- * Hooks models the keys, conditions, times and invalidations of use-devices.ts, use-events.ts,
--   use-health.ts and use-metrics.ts in web-ui/src/hooks with the defaults of the query client in
--   web-ui/src/App.tsx, Hooks/Calls the calls that they make and Hooks/Cache what `onSuccess` does
--   to the cache; Query is the result that a query hands to a component.
-- * Shell models `App` of web-ui/src/App.tsx, RootComponent of web-ui/src/routes/__root.tsx with
--   AppLayout.tsx, TopBar.tsx and the handlers of SettingsPanel.tsx that reach outside it, in
--   web-ui/src/components/layout, Shell/Routes the routes that redirect or show a fixed text, and
--   Shell/Main the start of the page in web-ui/src/main.tsx.
-- * View is what a component renders: headings, texts, alerts, buttons and fields in the order of
--   the JSX, each control with the event that it raises. Colours, icons and other style are left
--   out except where a function computes them. Prelude holds shared names and lemmas, and Tests
--   runs at concrete inputs.
--
-- The parts of the Node service, all under Node:
--
-- * Node/Event models `createEvent` of node-service/src/domain/event.js, Node/Uuid its regular
--   expression, and Node/Value the values of JavaScript that a parsed body holds.
-- * Node/Repository models the port of node-service/src/domain/event-repository.js with what its
--   comments promise, and the adapter of node-service/src/infrastructure/mongo-event-repository.js.
--   Node/Repository/Memory is an instance of the collection that it works on.
-- * Node/UseCases models the use cases of node-service/src/application, over any repository.
-- * Node/Handler, Node/Metrics and Node/Health model event-handler.js, metrics-handler.js and
--   health-handler.js of node-service/src/interfaces, and Node/Reply their replies.
-- * Node/Server models the listener of node-service/src/index.js, from the request to the reply
--   and to the event `finish`; Node/Server/Counting is any traffic on it, and Node/Logging adds the
--   log of node-service/src/interfaces/middleware.js. Node/Lifecycle is the
--   start and the shutdown of the process.
-- * Node/Consumer models node-service/src/infrastructure/kafka-event-consumer.js and its port.
-- * Node/Gateway is the input of the form as the service's handler reads it.
--
-- The whole, under System: System/Proxy models the rules of web-ui/vite.config.ts that hand the
-- interface's requests to the services, and System/Wire sends a client's request through them to
-- the listener of Node/Server and its reply back. System/Answering is what the service answers to
-- a listing, and System/Listing, System/Creating, System/Settling and System/Probing are the
-- clients' calls on that path; System/Deletions adds the messages of Kafka and what
-- `handleDeleteDevice` of web-ui/src/routes/devices.tsx does to the cache, System/Timeline the
-- hooks and the cache, and System/Typing holds what is sent against the schemas of Forms/Replies.
--
-- How the code corresponds: a component's `useState` variables are the fields of a record, its
-- handlers the branches of an `update` function over a type of events or functions of their own. A
-- handler that awaits is cut at each `await` into the part before it and one part for each way in
-- which the promise settles, so that any order of events can be stated. Names are the source's in
-- snake case. An exception is an explicit result. All functions are total: every loop of the
-- program runs over a list, a text or a count and is structural recursion, so there is no fuel and
-- no bound.
--
-- Parameters, since their code is not part of the program: `fetch` and the decoded bodies, zod's
-- `safeParse` (Forms.Zod, with the laws that its documentation gives; Forms/Reference has an
-- instance), `atob` and `JSON.parse` (Auth.Guard.Platform), the conversions between texts and
-- numbers (Settings.Conversions), which keys the query library matches (Hooks.Matching),
-- `toLowerCase`, where the router goes, and the formats of dates and numbers. In the Node service:
-- the collection of the MongoDB driver with its documented laws (Node.Repository.Collection),
-- `JSON.parse` and `JSON.stringify`, the parser of URLs, `crypto.randomUUID`, the clock, how the
-- ping of the database settles, and which calls of the Kafka client resolve. Between the two
-- (System.Wire): which rule of the proxy a request meets, `encodeURIComponent` and the parser of
-- URLs on the addresses that the interface asks for, and `JSON` on an object of texts, each with
-- its documented law. The cache of the query library is Hooks.Cache.QueryCache, an entry for each
-- key with the laws that its documentation gives.
--
-- Not modelled: the Go service, which is written in another language; the logs of the Node service
-- but the one of its requests, the headers of its replies and a port that is taken; React's
-- scheduling, and when the query library retries, polls or forgets; the router; the proxy's socket
-- errors, the plugins and the test settings of vite.config.ts; CSS; fractions and rounding of
-- numbers; a second tab that writes the same storage; a storage that can be read but is full; a
-- login reply that is an object without a token.
pub mod Prelude
pub mod View
pub mod Storage
pub mod Number
pub mod Query
pub mod Api
pub mod Auth
pub mod Settings
pub mod Health
pub mod Trace
pub mod Shared
pub mod Forms
pub mod Devices
pub mod Events
pub mod Hooks
pub mod Shell
pub mod Node
pub mod System
pub mod Tests
