-- ===== src/Schema/Tests.antt =====
-- A table of parameters.
use ailens.Base.{List, string_has_eq, ◌≡◌, refl, true, false, none, some, [], ◌∷◌}
use ailens.Schema.{extract_parameter_schema}
use ailens.Schema.Declared.{Param, typed, one_of}
use ailens.Value.{Value, undefined, num, str, obj, arr, of_list, field, end}

abbrev schema : Value
schema = obj (
    field "properties"
      (obj (
        field "path" (obj (field "type" (str "string") (field "description" (str "a file") end))) (
          field "depth"
            (obj (field "enum" (arr (of_list (num 1 ∷ num 2 ∷ []))) (field "default" (num 1) end)))
            end)))
      (field "required" (arr (of_list (str "path" ∷ []))) end))

table :
    extract_parameter_schema schema
    ≡ record {
      name = "path";
      type = "string";
      required = true;
      description = some "a file";
      default_value = undefined;
    }
      ∷ record {
        name = "depth";
        type = "enum";
        required = false;
        description = none;
        default_value = num 1;
      }
      ∷ []
unfolding extract_parameter_schema
table = refl

abbrev params : List Param
params =
    record {
      name = "path";
      kind = typed "string";
      description = some "a file";
      default = none;
      required = true;
    }
    ∷ record {
      name = "depth";
      kind = one_of (of_list (num 1 ∷ num 2 ∷ []));
      description = none;
      default = some (num 1);
      required = false;
    }
    ∷ []
