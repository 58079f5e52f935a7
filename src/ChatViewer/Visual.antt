-- ===== src/ChatViewer/Visual.antt =====
-- The looks of a message by its role, `ROLE_VISUAL` in frontend/src/components/ChatViewer.tsx.
use ailens.Base.{String, Option, none, some, ◌==◌, string_has_eq, if◌then◌else◌}

pub record RoleVisual : Type 0 where
  pub label : String
  pub align : String
  pub bubble : String
  pub shell : String
  pub icon : String

abbrev pub system_visual : RoleVisual
system_visual = record {
  label = "System";
  align = "justify-start";
  bubble = "w-full sm:w-[82%] max-w-[720px]";
  shell =
      "bg-slate-50/90 border-slate-200/85 text-slate-950 shadow-[0_18px_42px_-28px_rgba(15,23,42,0.45)]";
  icon = "bg-slate-700 text-white";
}

abbrev pub developer_visual : RoleVisual
developer_visual = record {
  label = "Developer";
  align = "justify-start";
  bubble = "w-full sm:w-[82%] max-w-[720px]";
  shell =
      "bg-amber-50/90 border-amber-200/85 text-amber-950 shadow-[0_18px_42px_-28px_rgba(180,83,9,0.45)]";
  icon = "bg-amber-500 text-white";
}

abbrev pub user_visual : RoleVisual
user_visual = record {
  label = "User";
  align = "justify-end";
  bubble = "w-full sm:w-[72%] max-w-[660px]";
  shell =
      "bg-amber-50/90 border-amber-200/85 text-amber-950 shadow-[0_18px_42px_-28px_rgba(217,119,6,0.50)]";
  icon = "bg-orange-500 text-white";
}

abbrev pub assistant_visual : RoleVisual
assistant_visual = record {
  label = "Assistant";
  align = "justify-start";
  bubble = "w-full sm:w-[78%] max-w-[720px]";
  shell =
      "bg-blue-50/90 border-blue-200/90 text-blue-950 shadow-[0_18px_42px_-28px_rgba(37,99,235,0.45)]";
  icon = "bg-blue-500 text-white";
}

abbrev pub tool_visual : RoleVisual
tool_visual = record {
  label = "Tool";
  align = "justify-start";
  bubble = "w-full sm:w-[78%] max-w-[720px]";
  shell =
      "bg-violet-50/90 border-violet-200/85 text-violet-950 shadow-[0_18px_42px_-28px_rgba(109,40,217,0.45)]";
  icon = "bg-violet-500 text-white";
}

abbrev pub function_visual : RoleVisual
function_visual = record {
  label = "Function";
  align = "justify-start";
  bubble = "w-full sm:w-[78%] max-w-[720px]";
  shell =
      "bg-violet-50/90 border-violet-200/85 text-violet-950 shadow-[0_18px_42px_-28px_rgba(109,40,217,0.45)]";
  icon = "bg-violet-500 text-white";
}

abbrev pub fallback_visual : RoleVisual
fallback_visual = record {
  label = "Message";
  align = "justify-start";
  bubble = "w-full sm:w-[78%] max-w-[720px]";
  shell = "bg-white/80 border-white/90 text-ink shadow-[0_18px_42px_-30px_rgba(15,23,42,0.42)]";
  icon = "bg-slate-500 text-white";
}

-- `ROLE_VISUAL[role]`
unfoldable pub role_visual : String → Option RoleVisual
role_visual role =
    if role == "system"
    then some system_visual
    else if role == "developer"
    then some developer_visual
    else if role == "user"
    then some user_visual
    else if role == "assistant"
    then some assistant_visual
    else if role == "tool"
    then some tool_visual
    else if role == "function"
    then some function_visual
    else none
