-- ===== src/Lib.antt =====
-- FissionPlane: a model of the TypeScript SDK, of the host of the console API, of the shared names
-- and of the files that the marketing site makes and reads.
--
-- The SDK (src/sdks/typescript/src) talks to a control plane and to the agent in each sandbox. A
-- method such as Commands.run describes its call; the request pipeline runs it with retries; around
-- that a rejected capability token is replaced once and the call run again; and an answer that is no
-- success becomes an error value. Attached processes and watched files are streams over a WebSocket.
-- The host (src/apps/console-api) decides who a caller is before a handler of
-- src/libs/typescript/api runs, and the handler asks for a permission of src/libs/typescript/core.
-- The console's forms turn what is typed in into names and slugs of src/libs/typescript/core. The
-- scripts of the marketing site read a font and write PNG images.
--
-- Which file models which part:
--   Sdk/Value       values of JSON
--   Sdk/Errors      errors.ts: FissionPlaneError and its subclasses, errorFromResponse
--   Sdk/Effect      a promise-returning function as a step on a world, with try and catch
--   Sdk/Http        http.ts: options, shouldRetry, retryDelayMs; Http/Retry has sleep and
--                   RequestPipeline.send, Http/Loop the loop as a relation, Http/Replay and
--                   Http/Bounds what it costs, Http/Fetch createHttpFetch and its race
--   Sdk/Api         api/index.ts and api/metadata.ts: default headers, unwrap
--   Sdk/Client      index.ts: the constructor of FissionPlane and its checks
--   Sdk/DataPlane   dataplane.ts: withFreshToken, capabilityToken, dataPlaneOrigin; DataPlane/Calls
--                   has the methods `dataplane` and `call` that commands.ts and files.ts share,
--                   DataPlane/Socket base64Url, openDataPlaneWebSocket and
--                   NativeWebSocketConnection
--   Sdk/Frames      streaming.ts: parseJsonObject and the tests on numbers
--   Sdk/Streaming   streaming.ts: StreamingEvents, each callback and method as a function on the
--                   state of Streaming/State
--   Sdk/Commands    commands.ts: parseProcessStreamEvent; Commands/Operations has the HTTP methods,
--                   Commands/Attaching attach, the control frames and ProcessHandle
--   Sdk/Files       files.ts: Files/Operations has the HTTP methods on the generated client,
--                   Files/Contents the raw requests of read and write, and watch, Files/Watching the
--                   frames of a watch
--   Sdk/Sandbox     sandbox.ts: the handle of a sandbox and the class Sandboxes; Sandbox/Pages has
--                   iterate
--   Sdk/Ports       ports.ts: the ports of a sandbox
--   Sdk/Templates   templates.ts: the handle of a build and its polling loop; Templates/Operations has
--                   the calls on templates
--   Core            src/libs/typescript/core: organizations/permissions.ts, auth/models.ts, and
--                   shared/names.ts and shared/identifiers.ts (Names)
--   Console         src/apps/console-api/src/server.ts (Gate), modules/authorization (Member, Routes)
--                   and modules/sandboxes (Sandboxes) of src/libs/typescript/api, and
--                   http/node-server.ts (its dispatch in Gate, the rest in Server)
--   Forms           src/apps/console-web/src/features: parse-organization-name.ts and
--                   parse-user-display-name.ts (DisplayNames), create-organization-slug.ts (Slug)
--   Assets          src/apps/marketing-site/scripts/lib: raster.mjs (Crc, Scanlines, Png),
--                   woff.mjs (Fonts) and shapes.mjs (Shapes)
--   Web             what the Fetch API's headers and regular expressions do, as far as they are used
--
-- State and parameters. A world type `W` holds what the code does not own: the network, the timers,
-- Math.random, the handle's info and token and the mutable fields of a client. The code reads and
-- changes it only through parameters: `Runtime` for timers and signals, `TokenSource` for the handle,
-- `Transport` for openapi-fetch over fetch, `json_parse` for JSON.parse, `WebHeaders` for the Fetch
-- API's headers, `SocketPlatform` for WebSocket and `btoa`, `AuthHost` for Better Auth; `deflate`
-- and `inflate` stand for zlib, and `Floats` and `Numbers` for the arithmetic of numbers that are no
-- integers. What a theorem needs of them it takes as a hypothesis.
--
-- Bounds and fuel. The retry loop recurs on the retries that are left, from the pipeline's
-- `max_retries`, which is the bound of the source's own test. The polling loop of a build recurs on
-- fuel, one for each round; a round sleeps for a millisecond at least, so that with a timeout as
-- many rounds as it has milliseconds and one more are enough. Reading the pages of sandboxes recurs
-- on fuel, one for each page, and reading the components of a glyph on fuel, one for each byte of
-- the glyph, of which a component takes six at least, reading path data on one for each token;
-- glyphs within glyphs are five levels deep at most. Delays are natural numbers, and a draw of
-- Math.random is a numerator over 2 ^ 53. A stream and the race of a request are run over a finite
-- list of inputs in any order. The length of a text counts UTF-16 units. Words of files keep their
-- wrap-around, `% 2 ^ 32` in the CRC and `% 2 ^ 16` in the map of a font.
--
-- Not modelled: the painting of raster.mjs and the curves and rounded corners of shapes.mjs, which
-- compute with floating-point numbers; the generators, which call them; the web applications and the
-- database, which are rendering and declarations; the generated schemas; a `maxRetries` or a timeout
-- that is no natural number, such as Infinity, with which the retry loop need not end; the programs
-- in other languages. A listener of a stream may close, pull, send and unsubscribe while it is
-- called; one that subscribes another listener is left out.
mod Prelude
pub mod Web
pub mod Sdk
pub mod Core
pub mod Assets
pub mod Console
pub mod Forms
