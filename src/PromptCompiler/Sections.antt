-- ===== src/PromptCompiler/Sections.antt =====
-- `compile_baseline_prompt`: the sections that a task's policy asks for, in their order.
use Prim.Native.String.{◌++◌ as str_append}
use rule_kiln.Prelude.{
  Bool, true, false, not, ◌&&◌, Option, none, some, List, [], ◌∷◌, ◌++◌, map, String, str_eq,
  if◌then◌else◌,
}

-- `sep.join(texts)`
unfoldable pub join : String → List String → String
join sep [] = ""
join sep (t ∷ []) = t
join sep (t ∷ u ∷ ts) = str_append t (str_append sep (join sep (u ∷ ts)))

-- A text after another.
infixr 65 ◌+++◌
abbrev pub ◌+++◌ : String → String → String
s +++ t = str_append s t

-- Python's `str.strip`, `json.dumps` of a dictionary of texts, and `hashlib.sha256`.
pub record Texts : Type 0 where
  pub strip : String → String
  pub dumps : List (String × String) → String
  pub sha256 : String → String

-- A property of the output schema: something that is no dictionary, one whose `enum` is a list (an
-- empty one, if there is none), given by the texts of its values, and one whose `enum` is another
-- value, true or false as a condition.
pub data PropertySchema : Type 0 where
  no_dict : PropertySchema
  with_enum : List String → PropertySchema
  other_enum : Bool → PropertySchema

pub record OutputSchema : Type 0 where
  pub properties : List (String × PropertySchema)
  pub required : List String

-- `BaselinePromptPolicy`, with the switches that the compiler reads.
pub record BaselinePromptPolicy : Type 0 where
  pub include_role : Bool
  pub include_task_description : Bool
  pub include_input_template : Bool
  pub include_output_schema : Bool
  pub include_allowed_values : Bool
  pub include_prompt_scaffold : Bool
  pub include_input_boundary : Bool

-- The fields of `RuleKilnTask` that the compiler reads, with those of its scaffold: what is missing
-- there, or false as a condition, is the empty text or list. No schema stands for an empty one.
pub record PromptTask : Type 0 where
  pub description : String
  pub input_template : String
  pub output_schema : Option OutputSchema
  pub policy : BaselinePromptPolicy
  pub role : String
  pub task_scope : List String
  pub non_scope : List String
  pub prompt_injection_boundary : List String

-- `d[k] = v`, where a key that stands keeps its place.
unfoldable pub put : String → String → List (String × String) → List (String × String)
put k v [] = (k, v) ∷ []
put k v ((j, w) ∷ d) = if str_eq j k then (k, v) ∷ d else (j, w) ∷ put k v d

-- `properties.get(name, {})`
unfoldable pub property_of : String → List (String × PropertySchema) → PropertySchema
property_of name [] = with_enum []
property_of name ((j, p) ∷ ps) = if str_eq j name then p else property_of name ps

-- `isinstance(prop_schema, dict) and prop_schema.get("enum")`, as a condition.
abbrev pub has_enum : PropertySchema → Bool
has_enum no_dict = false
has_enum (with_enum []) = false
has_enum (with_enum (v ∷ vs)) = true
has_enum (other_enum b) = b

abbrev pub placeholder : String → PropertySchema → String
placeholder name p = if has_enum p then "<one allowed value>" else "<" +++ name +++ ">"

example_of :
    List (String × PropertySchema) → List String → List (String × String) → List (String × String)
example_of properties [] example = example
example_of properties (name ∷ names) example =
    example_of properties names (put name (placeholder name (property_of name properties)) example)

abbrev enum_list : PropertySchema → List String
enum_list no_dict = []
enum_list (with_enum vs) = vs
enum_list (other_enum b) = []

-- `_extract_enum_values`
unfoldable pub extract_enum_values : List (String × PropertySchema) → List String
extract_enum_values [] = []
extract_enum_values (p ∷ ps) = enum_list p.1 ++ extract_enum_values ps

-- `bool(text)`
abbrev pub nonblank : String → Bool
nonblank s = not (str_eq s "")

-- A section where the condition holds.
abbrev pub section_if : Bool → String → List String
section_if true s = s ∷ []
section_if false s = []

abbrev pub bullets : List String → String
bullets texts = join "\n" (map (λ t. "- " +++ t) texts)

-- A section that lists texts, if there are any.
abbrev pub listed : Bool → String → List String → List String
listed b title [] = []
listed b title (t ∷ ts) = section_if b (title +++ bullets (t ∷ ts))

module _ (py : Texts) where
  -- `_render_output_schema_example`
  unfoldable pub render_output_schema_example : OutputSchema → String
  unfolding example_of property_of put
  render_output_schema_example s = py.dumps (example_of s.properties s.required [])

  abbrev pub schema_sections : BaselinePromptPolicy → Option OutputSchema → List String
  schema_sections policy none = []
  schema_sections policy (some s) =
      section_if policy.include_output_schema (
        "# Output Format\n\nReturn only valid JSON matching this schema:\n\n```json\n"
        +++ render_output_schema_example s
        +++ "\n```")
      ++ listed policy.include_allowed_values
          "# Allowed Values\n\nThe output field must be exactly one of:\n\n"
          (extract_enum_values s.properties)

  unfoldable pub baseline_sections : PromptTask → List String
  baseline_sections task =
      let policy = task.policy in
      section_if (policy.include_role && nonblank task.role) ("# Role\n\n" +++ py.strip task.role)
      ++ (section_if (policy.include_task_description && nonblank task.description)
            ("# Task\n\n" +++ py.strip task.description)
          ++ (section_if (policy.include_input_template && nonblank task.input_template)
                ("# Input\n\n" +++ py.strip task.input_template)
              ++ (schema_sections policy task.output_schema
                  ++ (listed policy.include_prompt_scaffold "# Rules\n\n"
                        (task.task_scope ++ task.non_scope)
                      ++ listed policy.include_input_boundary "# Input Boundary\n\n"
                          task.prompt_injection_boundary))))

  unfoldable pub compile_baseline_prompt : PromptTask → String
  unfolding baseline_sections render_output_schema_example extract_enum_values join
  compile_baseline_prompt task = join "\n\n" (baseline_sections task)
