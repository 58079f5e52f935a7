-- ===== src/I18n/En/Pages.antt =====
-- Half of the dictionary `en` (frontend/src/i18n/locales.ts).
use ailens.Base.{String, List, [], ◌∷◌}

abbrev pub en_shell : List (String × String)
en_shell =
    ("lang.label", "Language")
    ∷ ("lang.zh", "中文")
    ∷ ("lang.en", "English")
    ∷ ("nav.section.observability", "OBSERVABILITY")
    ∷ ("nav.section.config", "CONFIGURATION")
    ∷ ("nav.module.overview", "Overview")
    ∷ ("nav.module.traces", "Traces")
    ∷ ("nav.module.sessions", "Sessions")
    ∷ ("nav.module.users", "Users")
    ∷ ("nav.module.setup", "Setup")
    ∷ ("nav.module.settings", "Settings")
    ∷ ("nav.allProjects", "Projects")
    ∷ ("nav.tag.soon", "SOON")
    ∷ ("nav.collapse", "Collapse sidebar")
    ∷ ("nav.expand", "Expand sidebar")
    ∷ ("nav.loggedIn", "Signed in")
    ∷ ("nav.logout", "Sign out")
    ∷ ("nav.switchProject", "Switch project")
    ∷ ("nav.manageProjects", "Manage · new project")
    ∷ ("nav.realtime", "Live")
    ∷ ("nav.allProjectsBack", "ALL PROJECTS")
    ∷ ("landing.nav.home", "Back to home")
    ∷ ("landing.nav.features", "Features")
    ∷ ("landing.nav.howItWorks", "How it works")
    ∷ ("landing.nav.github", "GitHub")
    ∷ ("landing.nav.signin", "Sign in")
    ∷ ("landing.nav.openConsole", "Open console")
    ∷ ("landing.hero.badge", "OPEN SOURCE · APACHE 2.0")
    ∷ ("landing.hero.title1", "Make every LLM call")
    ∷ ("landing.hero.title2", "visible.")
    ∷ (
      "landing.hero.subtitle",
      "AILens360 is a self-hosted observability platform for AI apps. Swap one baseURL and pass the sk project key via header, path or query — prompts, tokens, latency, cost and errors stop being a black box.",
    )
    ∷ ("landing.hero.cta", "Open console")
    ∷ ("landing.hero.ctaGithub", "View source")
    ∷ ("landing.hero.codeHint", "Swap the baseURL, AILens360 handles the rest")
    ∷ ("landing.hero.statTraces", "Traces indexed")
    ∷ ("landing.hero.statSDK", "SDK changes")
    ∷ ("landing.hero.statSDKVal", "0 lines")
    ∷ ("landing.hero.statSelf", "Data ownership")
    ∷ ("landing.hero.statSelfVal", "100% self-hosted")
    ∷ ("landing.feature.title", "Why AILens360")
    ∷ (
      "landing.feature.subtitle",
      "No vendor lock-in, no third-party telemetry, no code changes — it just helps you see your own AI app clearly.",
    )
    ∷ ("landing.feature.zero.title", "Zero-touch integration")
    ∷ (
      "landing.feature.zero.body",
      "No SDK to install. Point your baseURL at the proxy and pass the project key via header, path or query — OpenAI / Anthropic / Gemini clients all work.",
    )
    ∷ ("landing.feature.full.title", "End-to-end traces")
    ∷ (
      "landing.feature.full.body",
      "Full request and response bodies (streaming included), grouped by user / session / trace, with a per-span timeline visualization.",
    )
    ∷ ("landing.feature.cost.title", "Token & cost x-ray")
    ∷ (
      "landing.feature.cost.body",
      "Aggregate tokens / cache hits / cost by model, project and user. Find the most expensive feature, the slowest model, the strangest call.",
    )
    ∷ ("landing.feature.privacy.title", "Fully self-hosted")
    ∷ (
      "landing.feature.privacy.body",
      "Data stays in your Postgres / Redis / object store. Upstream API keys are forwarded transparently and redacted before persistence — nothing leaves your infra.",
    )
    ∷ ("landing.feature.stream.title", "Streaming, first-class")
    ∷ (
      "landing.feature.stream.body",
      "Built-in SSE parsers for OpenAI, Anthropic and Gemini — picked automatically based on upstream host. Your client code stays the same.",
    )
    ∷ ("landing.feature.stack.title", "Minimal stack")
    ∷ (
      "landing.feature.stack.body",
      "Postgres + Redis + MinIO via one docker-compose. The app is stateless — scale horizontally by adding replicas.",
    )
    ∷ ("landing.how.title", "How it works")
    ∷ ("landing.how.subtitle", "One reverse proxy. One console. Three steps to start.")
    ∷ ("landing.how.step1.tag", "01")
    ∷ ("landing.how.step1.title", "Create a project")
    ∷ (
      "landing.how.step1.body",
      "Spin up a project in the console and grab the sk-prefixed project_key — that's how the proxy attributes traffic.",
    )
    ∷ ("landing.how.step2.tag", "02")
    ∷ ("landing.how.step2.title", "Swap the baseURL")
    ∷ (
      "landing.how.step2.body",
      "Replace your SDK baseURL with \"gateway + upstream URL\". Your real Authorization header passes through untouched.",
    )
    ∷ ("landing.how.step3.tag", "03")
    ∷ ("landing.how.step3.title", "Open Traces")
    ∷ (
      "landing.how.step3.body",
      "Calls appear instantly with a span timeline, token breakdown and cost attribution attached.",
    )
    ∷ ("landing.footer.tag", "Built for teams shipping trustworthy AI")
    ∷ ("landing.footer.copy", "© 2026 AILens360 · Apache 2.0 License")
    ∷ []

abbrev pub en_pages : List (String × String)
en_pages =
    ("login.welcome", "Welcome back")
    ∷ ("login.welcomeRole", "Commander")
    ∷ ("login.subtitle", "Sign in to see your projects, traces and cost view.")
    ∷ ("login.username", "Username")
    ∷ ("login.password", "Password")
    ∷ ("login.submit", "Sign in")
    ∷ ("login.submitting", "Signing in…")
    ∷ ("login.error", "Login failed")
    ∷ ("login.backHome", "Back to home")
    ∷ ("projects.title", "Projects")
    ∷ ("projects.new", "New project")
    ∷ ("projects.empty.title", "No projects yet")
    ∷ (
      "projects.empty.body",
      "Create a project. AILens360 gives you a proxy_prefix you prepend to your upstream baseURL.",
    )
    ∷ ("projects.empty.cta", "Create the first project")
    ∷ ("projects.card.enter", "Open project")
    ∷ ("projects.card.settings", "Settings")
    ∷ ("projects.card.created", "created")
    ∷ ("projects.create.title", "New project")
    ∷ ("projects.create.hint", "Name is for display. Next step shows the proxy_prefix.")
    ∷ ("projects.create.cancel", "Cancel")
    ∷ ("projects.create.submit", "Create & open")
    ∷ ("projects.create.busy", "Creating…")
    ∷ ("overview.kpi.calls", "Calls")
    ∷ ("overview.kpi.inTokens", "Input tokens")
    ∷ ("overview.kpi.outTokens", "Output tokens")
    ∷ ("overview.kpi.cacheTokens", "Cache tokens")
    ∷ ("overview.kpi.cost", "Cost")
    ∷ ("overview.health", "Health")
    ∷ ("overview.health.latency", "Avg. latency")
    ∷ ("overview.health.errRate", "Error rate")
    ∷ ("overview.health.models", "Models")
    ∷ ("overview.health.active", "Active traces")
    ∷ ("overview.byModel", "By model")
    ∷ ("overview.byModel.empty", "No data yet.")
    ∷ ("overview.recent", "Recent traces")
    ∷ (
      "overview.recent.empty",
      "No calls yet. Prepend proxy_prefix to your client baseURL and fire a request.",
    )
    ∷ ("overview.viewAll", "View all")
    ∷ ("traces.title", "Traces")
    ∷ ("traces.total", "{n} traces")
    ∷ ("traces.filter.refresh", "Refresh")
    ∷ ("traces.filter.refreshing", "Refreshing…")
    ∷ ("traces.filter.autoRefresh", "Auto-refresh")
    ∷ ("traces.filter.clear", "Clear")
    ∷ ("traces.filter.timeRange", "Time range")
    ∷ ("traces.filter.status", "Status")
    ∷ ("traces.filter.model", "Model")
    ∷ ("traces.filter.user", "User")
    ∷ ("traces.filter.session", "Session")
    ∷ ("traces.filter.name", "Trace name")
    ∷ ("traces.filter.all", "All")
    ∷ ("traces.filter.time.1h", "1h")
    ∷ ("traces.filter.time.24h", "24h")
    ∷ ("traces.filter.time.3d", "3d")
    ∷ ("traces.filter.time.7d", "7d")
    ∷ ("traces.filter.time.30d", "30d")
    ∷ ("traces.filter.time.custom", "Custom")
    ∷ ("traces.filter.time.quick", "Quick")
    ∷ ("traces.filter.time.start", "From")
    ∷ ("traces.filter.time.end", "To")
    ∷ ("traces.filter.time.apply", "Apply")
    ∷ ("traces.filter.time.all", "All time")
    ∷ ("traces.col.time", "Time")
    ∷ ("traces.col.trace", "Trace")
    ∷ ("traces.col.user", "user")
    ∷ ("traces.col.session", "session")
    ∷ ("traces.col.spans", "spans")
    ∷ ("traces.col.status", "Status")
    ∷ ("traces.col.latency", "latency")
    ∷ ("traces.col.tokens", "tokens")
    ∷ ("traces.col.cost", "cost")
    ∷ ("traces.status.success", "success")
    ∷ ("traces.status.error", "error")
    ∷ ("traces.status.aborted", "aborted")
    ∷ ("traces.empty.title", "No traces in this project")
    ∷ (
      "traces.empty.body",
      "Go to Setup, copy proxy_prefix, prepend it to your client baseURL, send a request.",
    )
    ∷ ("traces.noMatch.title", "No traces match the current filter")
    ∷ (
      "traces.noMatch.body",
      "The time window may be too narrow or the filters too strict. Try widening the range or clearing filters.",
    )
    ∷ ("traces.noMatch.reset", "Clear filters")
    ∷ []
