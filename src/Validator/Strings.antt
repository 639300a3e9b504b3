-- ===== src/Validator/Strings.antt =====
-- The template strings of an operation, as src/template/validator.rs collects them. The `Vec` that
-- the source appends to is the list that is returned.
use earl.Prelude.{Option, none, some, List, [], ◌∷◌, ◌++◌}
use earl.Text.{Text}
use earl.Text.Keys.{Map}
use earl.Json.{
  Value, Items, Fields, null, bool, number, string, array, object, nil, cons, end, field,
}
use earl.Schema.{
  BodyTemplate, json, form_urlencoded, multipart, raw_text, raw_bytes_base64, file_stream,
  MultipartPartTemplate,
}
use earl.Schema.Commands.{OperationTemplate, http, graphql, grpc, bash, sql, browser}

unfoldable mutual
  pub collect_value_strings : Value → List Text
  collect_value_strings (string s) = s ∷ []
  collect_value_strings (array vs) = collect_items vs
  collect_value_strings (object fs) = collect_fields fs
  collect_value_strings null = []
  collect_value_strings (bool b) = []
  collect_value_strings (number n) = []

  collect_items : Items → List Text
  collect_items nil = []
  collect_items (cons v vs) = collect_value_strings v ++ collect_items vs

  collect_fields : Fields → List Text
  collect_fields end = []
  collect_fields (field k v fs) = collect_value_strings v ++ collect_fields fs

unfoldable pub collect_values : Map Value → List Text
unfolding collect_value_strings
collect_values [] = []
collect_values ((k, v) ∷ m) = collect_value_strings v ++ collect_values m

collect_list : List Value → List Text
unfolding collect_value_strings
collect_list [] = []
collect_list (v ∷ vs) = collect_value_strings v ++ collect_list vs

-- `if let Some(x) = option { .. }`.
abbrev pub if_some {ℓ} : {A : Type ℓ} → (A → List Text) → Option A → List Text
if_some f none = []
if_some f (some a) = f a

abbrev pub one : Text → List Text
one s = s ∷ []

part_strings : MultipartPartTemplate → List Text
part_strings part =
    if_some one part.value
    ++ (if_some one part.bytes_base64 ++ (if_some one part.file_path ++ if_some one part.filename))

collect_parts : List MultipartPartTemplate → List Text
unfolding part_strings
collect_parts [] = []
collect_parts (part ∷ parts) = part_strings part ++ collect_parts parts

unfoldable pub collect_body_strings : BodyTemplate → List Text
unfolding collect_value_strings collect_values collect_parts
collect_body_strings BodyTemplate.none = []
collect_body_strings (json value) = collect_value_strings value
collect_body_strings (form_urlencoded fields) = collect_values fields
collect_body_strings (multipart parts) = collect_parts parts
collect_body_strings (raw_text value content_type) = one value
collect_body_strings (raw_bytes_base64 value content_type) = one value
collect_body_strings (file_stream path content_type) = one path

unfoldable pub collect_operation_strings : OperationTemplate → List Text
unfolding collect_values collect_list collect_value_strings collect_body_strings
collect_operation_strings (http op) =
    op.url
    ∷ (if_some one op.path
        ++ (if_some collect_values op.query
            ++ (if_some collect_values op.headers
                ++ (if_some collect_values op.cookies ++ if_some collect_body_strings op.body))))
collect_operation_strings (graphql op) =
    op.url
    ∷ (if_some one op.path
        ++ (if_some collect_values op.query
            ++ (if_some collect_values op.headers
                ++ (if_some collect_values op.cookies
                    ++ (op.graphql.query
                        ∷ (if_some one op.graphql.operation_name
                            ++ if_some collect_value_strings op.graphql.variables))))))
collect_operation_strings (grpc op) =
    op.url
    ∷ (if_some collect_values op.headers
        ++ (op.grpc.service
            ∷ op.grpc.method
            ∷ (if_some collect_value_strings op.grpc.body
                ++ if_some one op.grpc.descriptor_set_file)))
collect_operation_strings (bash op) =
    op.bash.script ∷ (if_some collect_values op.bash.env ++ if_some one op.bash.cwd)
collect_operation_strings (sql op) = if_some collect_list op.sql.params
collect_operation_strings browser = []
