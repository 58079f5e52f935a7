-- ===== src/Tools/Tests.antt =====
-- The tools of a request.
use ailens.Base.{◌≡◌, refl, All, [], ◌∷◌, map}
use ailens.Cache.{ToolDefinition}
use ailens.Tools.Named.{IsNamed, extract_tool_definitions-IsNamed}
use ailens.Tools.{extract_tool_definitions}
use ailens.Value.{Value, str, obj, arr, of_list, field, end}

abbrev grouped : Value
grouped = obj (
    field "function_declarations"
      (arr (of_list (obj (field "name" (str "ls") end) ∷ obj (field "name" (str "cat") end) ∷ [])))
      end)

abbrev request : Value
request =
    obj
      (field "tools" (arr (of_list (grouped ∷ obj (field "type" (str "web_search") end) ∷ []))) end)

names :
    map (λ (d : ToolDefinition). d.name) (extract_tool_definitions request)
    ≡ "ls" ∷ "cat" ∷ "web_search" ∷ []
unfolding extract_tool_definitions
names = refl

extract_tool_definitions-IsNamed_example : All IsNamed (extract_tool_definitions request)
extract_tool_definitions-IsNamed_example = extract_tool_definitions-IsNamed request
