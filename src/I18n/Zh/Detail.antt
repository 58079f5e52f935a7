-- ===== src/I18n/Zh/Detail.antt =====
-- Half of the dictionary `zh` (frontend/src/i18n/locales.ts).
use ailens.Base.{String, List, [], ◌∷◌}

abbrev pub zh_detail : List (String × String)
zh_detail =
    ("detail.back", "返回列表")
    ∷ ("detail.unnamed", "(未命名)")
    ∷ ("detail.spans", "调用链")
    ∷ ("detail.span.root", "根节点")
    ∷ ("detail.summary.title", "调用概要")
    ∷ ("detail.input", "调用输入 · 来自第一次请求")
    ∷ ("detail.output", "调用输出 · 来自最后一次响应")
    ∷ ("detail.spanHint", "点击左侧任意节点查看该次调用的请求/响应详情。")
    ∷ ("detail.section.request", "请求体")
    ∷ ("detail.section.response", "响应")
    ∷ ("detail.section.streamResponse", "流式响应")
    ∷ ("detail.section.more", "时间线 · 上游 URL")
    ∷ ("detail.section.timeline", "时间线")
    ∷ ("detail.section.upstreamURL", "上游 URL")
    ∷ ("detail.section.errorReason", "中断原因")
    ∷ ("detail.body.unavailable", "正文未存档（对象存储不可用或上传失败）")
    ∷ ("detail.body.error", "正文加载失败")
    ∷ ("detail.metric.latency", "耗时")
    ∷ ("detail.metric.ttft", "首字节")
    ∷ ("detail.metric.tokens", "Token")
    ∷ ("detail.metric.cost", "花费")
    ∷ ("detail.metric.spans", "调用数")
    ∷ ("detail.metric.totalDur", "总耗时")
    ∷ ("detail.viewMode.pretty", "格式化")
    ∷ ("detail.viewMode.raw", "原始")
    ∷ ("detail.timelineEvent.request_received", "收到请求")
    ∷ ("detail.timelineEvent.upstream_request_sent", "已发送至上游")
    ∷ ("detail.timelineEvent.upstream_first_byte", "上游首字节")
    ∷ ("detail.timelineEvent.upstream_done", "上游已完成")
    ∷ ("detail.timelineEvent.response_out", "响应已返回")
    ∷ ("overview.byModel.col.model", "模型")
    ∷ ("overview.byModel.col.calls", "调用")
    ∷ ("overview.byModel.col.cost", "花费")
    ∷ ("detail.tile.spans", "调用数")
    ∷ ("detail.tile.totalDur", "总耗时")
    ∷ ("detail.tile.tokens", "Token")
    ∷ ("detail.tile.cost", "花费")
    ∷ ("detail.tile.latency", "耗时")
    ∷ ("detail.tile.reasoning", "思考")
    ∷ ("detail.tile.cacheRead", "缓存读")
    ∷ ("detail.tile.cacheWrite", "缓存写")
    ∷ ("token.tip.title", "Token 明细")
    ∷ ("token.tip.input", "输入 Token")
    ∷ ("token.tip.output", "输出 Token")
    ∷ ("token.tip.cacheRead", "缓存读取 Token")
    ∷ ("token.tip.cacheWrite", "缓存写入 Token")
    ∷ ("token.tip.reasoning", "思考 Token")
    ∷ ("token.tip.total", "总 Token")
    ∷ ("detail.spans.empty", "没有 spans")
    ∷ ("detail.noData", "没有数据")
    ∷ ("detail.text.expand", "…展开（还有 {count} 个字符）")
    ∷ ("detail.text.collapse", "收起")
    ∷ ("detail.chat.thinking", "思考过程")
    ∷ ("detail.chat.expand", "展开")
    ∷ ("settings.section.basic", "基本信息")
    ∷ ("settings.basic.hint", "项目名仅用于显示。")
    ∷ ("settings.basic.nameLabel", "项目名")
    ∷ ("settings.basic.save", "保存")
    ∷ ("settings.basic.saving", "保存中…")
    ∷ ("settings.basic.saved", "✓ 已保存")
    ∷ ("settings.section.key", "项目密钥")
    ∷ ("settings.key.label", "密钥")
    ∷ (
      "settings.key.hint",
      "密钥是 sk- 开头的项目凭据，客户端可通过 X-AILens-Project-Key、URL 路径前缀或 ?sk= 查询参数发送。重置后旧密钥立即失效（客户端将收到 401），所有调用该项目的应用都需要换上新值。",
    )
    ∷ ("settings.key.reset", "重置密钥")
    ∷ ("settings.key.resetting", "重置中…")
    ∷ ("settings.key.confirmReset", "我已确认，重置")
    ∷ ("settings.key.resetExpire", "旧密钥会立即失效。")
    ∷ ("settings.key.resetSuccess", "✓ 已生成新的密钥：")
    ∷ ("settings.section.danger", "危险区")
    ∷ (
      "settings.danger.hint",
      "删除项目会一并清除该项目下的全部 trace 记录和对象存储中的请求 / 响应体，项目密钥随即失效（客户端将收到 401）。该操作不可撤销。",
    )
    ∷ ("settings.danger.delete", "删除项目「{name}」")
    ∷ ("settings.danger.deleting", "删除中…")
    ∷ ("settings.danger.confirmDelete", "我已确认，删除")
    ∷ ("settings.danger.irreversible", "这个操作不可撤销。")
    ∷ []

abbrev pub zh_setup : List (String × String)
zh_setup =
    ("setup.step1.title", "复制项目密钥")
    ∷ (
      "setup.step1.hint",
      "客户端把这个 sk- 密钥放到 X-AILens-Project-Key、URL 路径前缀或 ?sk= 查询参数里，AILens360 据此把每次调用记录到本项目下。视同密钥，泄露请立即重置。",
    )
    ∷ ("setup.step1.reset", "重置密钥")
    ∷ ("setup.step1.cancel", "取消")
    ∷ ("setup.step1.resetting", "重置中…")
    ∷ ("setup.step1.confirm", "我已确认，重置")
    ∷ ("setup.step1.resetNotice", "旧密钥会立即失效，所有客户端需要同步换上新值。")
    ∷ ("setup.step1.resetDone", "✓ 已生成新密钥")
    ∷ ("setup.step2.title", "选择一种项目密钥传递方式")
    ∷ (
      "setup.step2.hint",
      "Header 模式兼容旧接入；路径模式适合不方便加自定义 Header 的 SDK；Query 模式适合只支持完整 URL 的工具。Authorization 头里继续放你真实的上游 API Key。",
    )
    ∷ ("setup.step2.gateway", "网关地址")
    ∷ ("setup.step2.gatewayHint", "只接受裸前缀的 SDK / 工具可以单独复制网关地址，再自行拼接上游 URL。")
    ∷ ("setup.step2.modeHeader", "Header 模式")
    ∷ ("setup.step2.modePath", "路径模式")
    ∷ ("setup.step2.modeQuery", "Query 模式")
    ∷ ("setup.step2.genericPath", "通用前缀")
    ∷ ("setup.step3.title", "在代码里替换 baseURL + 传入项目密钥")
    ∷ (
      "setup.step3.hint",
      "下面是几种常见 SDK 的接入示例 —— 真实 API Key 不变，base_url 换掉；默认示例使用 Header，不能加 Header 时可改用路径模式 URL。",
    )
    ∷ ("setup.optional.label", "可选 · 加上 trace 元数据")
    ∷ ("setup.optional.title", "让 trace 更可搜")
    ∷ (
      "setup.optional.hint",
      "请求头里加上这些字段，trace 就会带上 user / session / trace 分组信息，可以在 Traces 页面按维度过滤。",
    )
    ∷ ("setup.meta.user.desc", "终端用户标识，会作为 trace 的 user 字段")
    ∷ ("setup.meta.session.desc", "会话 id；同 session 下的多条 trace 会聚在一起")
    ∷ ("setup.meta.trace.desc", "逻辑 trace id；同一次 agent 运行内的多次 LLM 调用共享")
    ∷ ("setup.meta.traceName.desc", "trace 的人类可读名字，例如 customer_agent_turn")
    ∷ ("secret.clickToCopy", "点击复制")
    ∷ ("secret.show", "显示")
    ∷ ("secret.hide", "隐藏")
    ∷ ("projects.card.settingsTooltip", "设置")
    ∷ ("login.errorFallback", "登录失败")
    ∷ ("common.empty", "(empty)")
    ∷ ("common.copy", "复制")
    ∷ ("common.copied", "已复制")
    ∷ ("common.confirm", "确认")
    ∷ ("common.cancel", "取消")
    ∷ ("common.delete", "删除")
    ∷ ("common.loading", "加载中…")
    ∷ ("common.noData", "no data")
    ∷ []
