-- ===== src/I18n/Zh/Pages.antt =====
-- Half of the dictionary `zh` (frontend/src/i18n/locales.ts).
use ailens.Base.{String, List, [], ◌∷◌}

abbrev pub zh_shell : List (String × String)
zh_shell =
    ("lang.label", "语言")
    ∷ ("lang.zh", "中文")
    ∷ ("lang.en", "English")
    ∷ ("nav.section.observability", "观测")
    ∷ ("nav.section.config", "配置")
    ∷ ("nav.module.overview", "项目概览")
    ∷ ("nav.module.traces", "Traces")
    ∷ ("nav.module.sessions", "Sessions")
    ∷ ("nav.module.users", "Users")
    ∷ ("nav.module.setup", "接入指南")
    ∷ ("nav.module.settings", "项目设置")
    ∷ ("nav.allProjects", "项目列表")
    ∷ ("nav.tag.soon", "SOON")
    ∷ ("nav.collapse", "收起侧栏")
    ∷ ("nav.expand", "展开侧栏")
    ∷ ("nav.loggedIn", "登录中")
    ∷ ("nav.logout", "退出登录")
    ∷ ("nav.switchProject", "切换项目")
    ∷ ("nav.manageProjects", "管理 · 新建项目")
    ∷ ("nav.realtime", "实时观测中")
    ∷ ("nav.allProjectsBack", "ALL PROJECTS")
    ∷ ("landing.nav.home", "回到首页")
    ∷ ("landing.nav.features", "能力")
    ∷ ("landing.nav.howItWorks", "原理")
    ∷ ("landing.nav.github", "GitHub")
    ∷ ("landing.nav.signin", "登录控制台")
    ∷ ("landing.nav.openConsole", "进入控制台")
    ∷ ("landing.hero.badge", "OPEN SOURCE · APACHE 2.0")
    ∷ ("landing.hero.title1", "让每一次 LLM 调用")
    ∷ ("landing.hero.title2", "都被看见")
    ∷ (
      "landing.hero.subtitle",
      "AILens360 是一个自部署的 AI 应用可观测平台。只改一行 baseURL，并用 Header、路径或 Query 带上 sk 项目密钥 —— Prompt、Token、延迟、花费、错误，从此不再是黑盒。",
    )
    ∷ ("landing.hero.cta", "进入控制台")
    ∷ ("landing.hero.ctaGithub", "查看源码")
    ∷ ("landing.hero.codeHint", "替换 baseURL，剩下的交给 AILens360")
    ∷ ("landing.hero.statTraces", "已索引 trace")
    ∷ ("landing.hero.statSDK", "需要的 SDK 改动")
    ∷ ("landing.hero.statSDKVal", "0 行")
    ∷ ("landing.hero.statSelf", "数据归属")
    ∷ ("landing.hero.statSelfVal", "100% 自托管")
    ∷ ("landing.feature.title", "为什么是 AILens360")
    ∷ ("landing.feature.subtitle", "不绑定厂商、不上报第三方、不需要改业务代码 —— 它只想帮你看清自己的 AI 应用。")
    ∷ ("landing.feature.zero.title", "零侵入接入")
    ∷ (
      "landing.feature.zero.body",
      "不引入任何 SDK。把 baseURL 换成代理地址，项目密钥可放 Header、路径或 Query，OpenAI / Anthropic / Gemini 风格的客户端都能跑。",
    )
    ∷ ("landing.feature.full.title", "全链路 Trace")
    ∷ (
      "landing.feature.full.body",
      "完整记录请求体与响应体（含流式），按 user / session / trace 维度聚合，时间轴可视化展示每个 span 的耗时。",
    )
    ∷ ("landing.feature.cost.title", "Token 与成本透视")
    ∷ ("landing.feature.cost.body", "按模型、项目、用户聚合 Token / 缓存命中 / 花费，找出最贵的功能、最慢的模型、最异常的调用。")
    ∷ ("landing.feature.privacy.title", "数据完全自托管")
    ∷ (
      "landing.feature.privacy.body",
      "数据落在你自己的 Postgres / Redis / 对象存储里。上游 API Key 透传，落库前强制 REDACT，不会经过任何第三方 SaaS。",
    )
    ∷ ("landing.feature.stream.title", "流式响应原生支持")
    ∷ (
      "landing.feature.stream.body",
      "内置 OpenAI / Anthropic / Gemini 三家的 SSE 解析器，按上游 host 自动选择，调用方完全无感。",
    )
    ∷ ("landing.feature.stack.title", "极简部署")
    ∷ (
      "landing.feature.stack.body", "Postgres + Redis + MinIO 一键 docker compose；应用进程无状态，水平扩展只需加副本。",
    )
    ∷ ("landing.how.title", "它是怎么工作的")
    ∷ ("landing.how.subtitle", "一个反向代理 + 一个控制台。三步起步。")
    ∷ ("landing.how.step1.tag", "01")
    ∷ ("landing.how.step1.title", "创建项目")
    ∷ ("landing.how.step1.body", "在控制台新建项目，拿到一个 sk- 开头的 project_key。这是客户端的唯一身份。")
    ∷ ("landing.how.step2.tag", "02")
    ∷ ("landing.how.step2.title", "改 baseURL")
    ∷ ("landing.how.step2.body", "把 SDK 里的 baseURL 改成「网关地址 + 上游 URL」，原 Authorization 透传到上游。")
    ∷ ("landing.how.step3.tag", "03")
    ∷ ("landing.how.step3.title", "打开 Traces")
    ∷ ("landing.how.step3.body", "请求即刻出现在 Traces 页面，附带完整时间轴、token 明细和成本归因。")
    ∷ ("landing.footer.tag", "为构建可信 AI 应用而生")
    ∷ ("landing.footer.copy", "© 2026 AILens360 · Apache 2.0 License")
    ∷ []

abbrev pub zh_pages : List (String × String)
zh_pages =
    ("login.welcome", "欢迎回来")
    ∷ ("login.welcomeRole", "指挥官")
    ∷ ("login.subtitle", "登录以查看你的项目、Traces 与花费视图。")
    ∷ ("login.username", "用户名")
    ∷ ("login.password", "密码")
    ∷ ("login.submit", "登录")
    ∷ ("login.submitting", "登录中…")
    ∷ ("login.error", "登录失败")
    ∷ ("login.backHome", "返回首页")
    ∷ ("projects.title", "项目列表")
    ∷ ("projects.new", "新建项目")
    ∷ ("projects.empty.title", "还没有项目")
    ∷ ("projects.empty.body", "新建一个项目，AILens360 会给你一个 proxy_prefix。把它拼到客户端的 baseURL 前面，开始观测。")
    ∷ ("projects.empty.cta", "创建第一个项目")
    ∷ ("projects.card.enter", "进入项目")
    ∷ ("projects.card.settings", "设置")
    ∷ ("projects.card.created", "创建于")
    ∷ ("projects.create.title", "新建项目")
    ∷ ("projects.create.hint", "项目名仅用于显示。下一步会拿到 proxy_prefix。")
    ∷ ("projects.create.cancel", "取消")
    ∷ ("projects.create.submit", "创建并进入")
    ∷ ("projects.create.busy", "创建中…")
    ∷ ("overview.kpi.calls", "调用次数")
    ∷ ("overview.kpi.inTokens", "输入 tokens")
    ∷ ("overview.kpi.outTokens", "输出 tokens")
    ∷ ("overview.kpi.cacheTokens", "缓存 tokens")
    ∷ ("overview.kpi.cost", "累计花费")
    ∷ ("overview.health", "健康")
    ∷ ("overview.health.latency", "平均延迟")
    ∷ ("overview.health.errRate", "错误率")
    ∷ ("overview.health.models", "模型数")
    ∷ ("overview.health.active", "活跃 trace")
    ∷ ("overview.byModel", "按模型聚合")
    ∷ ("overview.byModel.empty", "还没有数据。")
    ∷ ("overview.recent", "最近 trace")
    ∷ ("overview.recent.empty", "还没有调用。把 proxy_prefix 拼到客户端 baseURL 前面发一次请求试试。")
    ∷ ("overview.viewAll", "查看全部")
    ∷ ("traces.title", "Traces")
    ∷ ("traces.total", "共 {n} 条 trace")
    ∷ ("traces.filter.refresh", "刷新")
    ∷ ("traces.filter.refreshing", "刷新中…")
    ∷ ("traces.filter.autoRefresh", "自动刷新")
    ∷ ("traces.filter.clear", "清空过滤")
    ∷ ("traces.filter.timeRange", "时间范围")
    ∷ ("traces.filter.status", "状态")
    ∷ ("traces.filter.model", "模型")
    ∷ ("traces.filter.user", "用户")
    ∷ ("traces.filter.session", "会话")
    ∷ ("traces.filter.name", "Trace 名")
    ∷ ("traces.filter.all", "全部")
    ∷ ("traces.filter.time.1h", "1 小时")
    ∷ ("traces.filter.time.24h", "24 小时")
    ∷ ("traces.filter.time.3d", "3 天")
    ∷ ("traces.filter.time.7d", "7 天")
    ∷ ("traces.filter.time.30d", "30 天")
    ∷ ("traces.filter.time.all", "全部")
    ∷ ("traces.filter.time.custom", "自定义")
    ∷ ("traces.filter.time.quick", "快捷")
    ∷ ("traces.filter.time.start", "起")
    ∷ ("traces.filter.time.end", "止")
    ∷ ("traces.filter.time.apply", "应用")
    ∷ ("traces.col.time", "时间")
    ∷ ("traces.col.trace", "Trace")
    ∷ ("traces.col.user", "user")
    ∷ ("traces.col.session", "session")
    ∷ ("traces.col.spans", "spans")
    ∷ ("traces.col.status", "状态")
    ∷ ("traces.col.latency", "耗时")
    ∷ ("traces.col.tokens", "Token")
    ∷ ("traces.col.cost", "花费")
    ∷ ("traces.status.success", "成功")
    ∷ ("traces.status.error", "错误")
    ∷ ("traces.status.aborted", "中断")
    ∷ ("traces.empty.title", "这个项目还没有 trace")
    ∷ ("traces.empty.body", "到「接入」页拷贝 proxy_prefix，把它拼到客户端的 baseURL 前面发一次请求，trace 就会出现。")
    ∷ ("traces.noMatch.title", "当前筛选下没有匹配的 trace")
    ∷ ("traces.noMatch.body", "可能是时间范围太窄或筛选条件过严。试试拉宽时间范围，或清空筛选。")
    ∷ ("traces.noMatch.reset", "清空筛选")
    ∷ []
