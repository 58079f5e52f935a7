-- ===== src/I18n/En/Detail.antt =====
-- Half of the dictionary `en` (frontend/src/i18n/locales.ts).
use ailens.Base.{String, List, [], ◌∷◌}

abbrev pub en_detail : List (String × String)
en_detail =
    ("detail.back", "Traces")
    ∷ ("detail.unnamed", "(unnamed)")
    ∷ ("detail.spans", "SPANS")
    ∷ ("detail.span.root", "root")
    ∷ ("detail.summary.title", "Trace summary")
    ∷ ("detail.input", "Trace input · from the first request")
    ∷ ("detail.output", "Trace output · from the last response")
    ∷ ("detail.spanHint", "Click any span on the left to inspect its request / response.")
    ∷ ("detail.section.request", "Request body")
    ∷ ("detail.section.response", "Generate response")
    ∷ ("detail.section.streamResponse", "Stream response")
    ∷ ("detail.section.more", "Timeline · upstream URL")
    ∷ ("detail.section.timeline", "Timeline")
    ∷ ("detail.section.upstreamURL", "Upstream URL")
    ∷ ("detail.section.errorReason", "Interruption reason")
    ∷ ("detail.body.unavailable", "Body not archived (object store unavailable or upload failed)")
    ∷ ("detail.body.error", "Body fetch failed")
    ∷ ("detail.metric.latency", "latency")
    ∷ ("detail.metric.ttft", "TTFT")
    ∷ ("detail.metric.tokens", "tokens")
    ∷ ("detail.metric.cost", "cost")
    ∷ ("detail.metric.spans", "spans")
    ∷ ("detail.metric.totalDur", "total")
    ∷ ("detail.viewMode.pretty", "Pretty")
    ∷ ("detail.viewMode.raw", "Raw")
    ∷ ("detail.timelineEvent.request_received", "request received")
    ∷ ("detail.timelineEvent.upstream_request_sent", "upstream request sent")
    ∷ ("detail.timelineEvent.upstream_first_byte", "upstream first byte")
    ∷ ("detail.timelineEvent.upstream_done", "upstream done")
    ∷ ("detail.timelineEvent.response_out", "response out")
    ∷ ("overview.byModel.col.model", "Model")
    ∷ ("overview.byModel.col.calls", "Calls")
    ∷ ("overview.byModel.col.cost", "Cost")
    ∷ ("detail.tile.spans", "Spans")
    ∷ ("detail.tile.totalDur", "Total")
    ∷ ("detail.tile.tokens", "Tokens")
    ∷ ("detail.tile.cost", "Cost")
    ∷ ("detail.tile.latency", "Latency")
    ∷ ("detail.tile.reasoning", "Reasoning")
    ∷ ("detail.tile.cacheRead", "Cache read")
    ∷ ("detail.tile.cacheWrite", "Cache write")
    ∷ ("token.tip.title", "Token breakdown")
    ∷ ("token.tip.input", "Input tokens")
    ∷ ("token.tip.output", "Output tokens")
    ∷ ("token.tip.cacheRead", "Cache read tokens")
    ∷ ("token.tip.cacheWrite", "Cache write tokens")
    ∷ ("token.tip.reasoning", "Reasoning tokens")
    ∷ ("token.tip.total", "Total tokens")
    ∷ ("detail.spans.empty", "No spans")
    ∷ ("detail.noData", "No data")
    ∷ ("detail.text.expand", "…expand ({count} more characters)")
    ∷ ("detail.text.collapse", "collapse")
    ∷ ("detail.chat.thinking", "Reasoning")
    ∷ ("detail.chat.expand", "Expand")
    ∷ ("settings.section.basic", "Basics")
    ∷ ("settings.basic.hint", "The project name is for display only.")
    ∷ ("settings.basic.nameLabel", "Project name")
    ∷ ("settings.basic.save", "Save")
    ∷ ("settings.basic.saving", "Saving…")
    ∷ ("settings.basic.saved", "✓ Saved")
    ∷ ("settings.section.key", "Project key")
    ∷ ("settings.key.label", "Key")
    ∷ (
      "settings.key.hint",
      "The key is an sk-prefixed project credential. Clients can send it in X-AILens-Project-Key, as a URL path prefix, or as the ?sk= query parameter. Resetting it invalidates the old key immediately (clients get 401); every app calling this project must switch to the new value.",
    )
    ∷ ("settings.key.reset", "Reset key")
    ∷ ("settings.key.resetting", "Resetting…")
    ∷ ("settings.key.confirmReset", "Yes, reset it")
    ∷ ("settings.key.resetExpire", "The old key is revoked immediately.")
    ∷ ("settings.key.resetSuccess", "✓ New key generated: ")
    ∷ ("settings.section.danger", "Danger zone")
    ∷ (
      "settings.danger.hint",
      "Deleting a project also wipes every trace and the request / response bodies in object storage that belong to it, and revokes the key immediately (clients get 401). This action cannot be undone.",
    )
    ∷ ("settings.danger.delete", "Delete project \"{name}\"")
    ∷ ("settings.danger.deleting", "Deleting…")
    ∷ ("settings.danger.confirmDelete", "Yes, delete it")
    ∷ ("settings.danger.irreversible", "This action cannot be undone.")
    ∷ []

abbrev pub en_setup : List (String × String)
en_setup =
    ("setup.step1.title", "Copy the project key")
    ∷ (
      "setup.step1.hint",
      "Clients send this sk key in X-AILens-Project-Key, as a URL path prefix, or as the ?sk= query parameter, so AILens360 can attribute each call to this project. Treat it as a secret — rotate it immediately if leaked.",
    )
    ∷ ("setup.step1.reset", "Reset key")
    ∷ ("setup.step1.cancel", "Cancel")
    ∷ ("setup.step1.resetting", "Resetting…")
    ∷ ("setup.step1.confirm", "Yes, reset it")
    ∷ (
      "setup.step1.resetNotice",
      "The old key is revoked immediately; every client must roll to the new value.",
    )
    ∷ ("setup.step1.resetDone", "✓ New key generated")
    ∷ ("setup.step2.title", "Choose how to pass the project key")
    ∷ (
      "setup.step2.hint",
      "Header mode keeps existing integrations stable; path mode works when custom headers are hard; query mode is for tools that only accept a complete URL. Keep your real upstream API Key in the Authorization header.",
    )
    ∷ ("setup.step2.gateway", "Gateway URL")
    ∷ (
      "setup.step2.gatewayHint",
      "For SDKs / tools that only accept a bare prefix, copy the gateway URL and prepend it to the upstream URL yourself.",
    )
    ∷ ("setup.step2.modeHeader", "Header mode")
    ∷ ("setup.step2.modePath", "Path mode")
    ∷ ("setup.step2.modeQuery", "Query mode")
    ∷ ("setup.step2.genericPath", "Generic prefix")
    ∷ ("setup.step3.title", "Swap baseURL in code + pass the project key")
    ∷ (
      "setup.step3.hint",
      "A few common SDK examples below — your real API Key stays and base_url changes. Examples use headers by default; use the path URL when a client cannot add custom headers.",
    )
    ∷ ("setup.optional.label", "Optional · add trace metadata")
    ∷ ("setup.optional.title", "Make traces more searchable")
    ∷ (
      "setup.optional.hint",
      "Adding these headers tags traces with user / session / trace grouping info, which you can filter on in the Traces page.",
    )
    ∷ ("setup.meta.user.desc", "End-user identifier; becomes the trace's user field")
    ∷ ("setup.meta.session.desc", "Session id; traces with the same session id group together")
    ∷ (
      "setup.meta.trace.desc",
      "Logical trace id shared by multiple LLM calls inside the same agent run",
    )
    ∷ ("setup.meta.traceName.desc", "Human-readable trace name, e.g. customer_agent_turn")
    ∷ ("secret.clickToCopy", "Click to copy")
    ∷ ("secret.show", "Show")
    ∷ ("secret.hide", "Hide")
    ∷ ("projects.card.settingsTooltip", "Settings")
    ∷ ("login.errorFallback", "Login failed")
    ∷ ("common.empty", "(empty)")
    ∷ ("common.copy", "Copy")
    ∷ ("common.copied", "Copied")
    ∷ ("common.confirm", "Confirm")
    ∷ ("common.cancel", "Cancel")
    ∷ ("common.delete", "Delete")
    ∷ ("common.loading", "Loading…")
    ∷ ("common.noData", "no data")
    ∷ []
