-- ===== src/Lib.antt =====
-- The client of AILens360 shows the requests that a gateway recorded and the responses to them. What
-- it computes on its own is how a recorded body becomes the messages and the tools of a conversation,
-- how the tokens that the upstream served from its cache are spread over them, what the pages ask the
-- backend for and what they make of its replies, and which texts they show in which language. This
-- library models that part, under `frontend/src`. A file of this library bears the name of what it
-- models, and a definition the name of the function or type, in snake case; the files in a folder are
-- about what their first line says, and `Tests` holds runs.
--
-- The parts and how they meet:
--   * Value: the JavaScript values that `JSON.parse` returns, property reads and truthiness. Json:
--     `stableStringify`.
--   * Sse: `parseSSE` cuts a recorded body into frames. Stream: `assembleStream` and
--     `parseJSONObject` look at the frames and call one of OpenAi (`assembleOpenAIStream`), Anthropic
--     (`assembleAnthropicStream`) and Responses (`assembleResponsesStream`, `captureResponsesItem`,
--     `captureResponsesObject`), which fold the events into messages. A variable of a loop is a
--     field of a state record, and a `Map` with the list of its keys is a `Keyed` (Base/Keyed).
--   * Messages: `extractMessages` and the Responses normalisers, for a body that is one document.
--     Tools: `extractToolDefinitions`, `findCacheControl` and the normalisers of a tool. Schema:
--     `extractParameterSchema`, the table of a tool's parameters.
--   * ChatViewer: what `ChatViewer` shows of all that; `MessageBubble`, `ContentPartView` and `TextBlock`,
--     what is shown of a message, are the files in its folder, and Cards has the tools and the calls.
--   * Estimator: `estimateRequestTokenSegments` and the ways to count; its segments go to Cache,
--     `annotateCachedPrefix`, which marks tools and messages.
--   * Session: `frontend/src/lib/auth.ts` and `frontend/src/lib/api.ts`, the stored token and `req`.
--   * Login: `RequireAuth` of `frontend/src/App.tsx` and `frontend/src/components/LoginModal.tsx`, on
--     top of Session. App: the titles of the document. AppShell:
--     `Sidebar` of `frontend/src/components/AppShell.tsx`, with its menus. BodyViewer:
--     `frontend/src/components/BodyViewer.tsx`, which loads the bodies that the viewer shows.
--   * I18n: `frontend/src/i18n/index.tsx`, with the dictionaries of `frontend/src/i18n/locales.ts` in
--     I18n/Zh and I18n/En, cut into pieces of a section or two.
--   * Types: `frontend/src/lib/types.ts`. Fmt: `frontend/src/lib/fmt.ts`. TokenCell:
--     `frontend/src/components/TokenCell.tsx`. SecretField: `frontend/src/components/SecretField.tsx`.
--     AnalysisPrompt: `frontend/src/lib/aiAnalysisPrompt.ts`.
--   * Traces and TraceDetail: the pages of that name under `frontend/src/pages/project`. The state of a
--     page is a record, what a click does is a function on it, and what it shows is a record or a data
--     type of the texts and numbers in it, without the markup around them. The parameters of a URL
--     are Base/Params, and the button that starts an analysis is a step relation.
--   * Base: Boolean tests, lists and texts, `Outcome` for code that may throw a TypeError, and the
--     decimal digits of a number. Their fuel is one more than the number, which has fewer digits; all
--     other loops are structural.
--
-- Bounds. Numbers are naturals: what the code reads from a body are indices and token counts, so
-- there is no overflow, and a negative or a fractional index is outside the model. Differences of times are integers (Base/Int),
-- percentages are fractions, and numbers with fractions, such as costs, are of a type of their own. A text is a list of
-- code points without lone surrogates, and its length, its parts and the characters of a spread text
-- are counted in them: a character outside the basic plane counts once, and twice in the code. Where a value leaves the declared types and the code would
-- coerce it, the outcome is `untyped`. An object has each field once.
--
-- Parameters: `parse` is `JSON.parse` (`none` where it throws); a tokenizer is the count of the tokens
-- of a text, `none` where it cannot be loaded; `fetch` gives the reply to a request, `none` where it
-- is rejected; `time` reads a date, as an integer that is negative before 1970; the rounding and the printing of floating-point numbers.
--
-- Not modelled: the markup of the components and the drawings in it, the routes, which a library
-- matches, the pages for the projects and their settings, the formatting that the
-- browser's locale functions do, and the backend, which is written in Go.
mod Base
pub mod I18n
pub mod Types
pub mod Fmt
pub mod TokenCell
pub mod TraceDetail
pub mod Traces
pub mod AnalysisPrompt
pub mod SecretField
pub mod ChatViewer
pub mod Login
pub mod App
pub mod AppShell
pub mod BodyViewer
pub mod Value
pub mod Json
pub mod Session
pub mod Sse
pub mod Anthropic
pub mod Messages
pub mod OpenAi
pub mod Responses
pub mod Schema
pub mod Stream
pub mod Tools
pub mod Cache
pub mod Estimator
