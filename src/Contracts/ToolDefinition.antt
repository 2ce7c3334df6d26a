-- ===== src/Contracts/ToolDefinition.antt =====
-- The operations and the model-facing definitions of the tools: packages/contracts/src/pi-bash.ts,
-- pi-read.ts, pi-write.ts, pi-edit.ts and codex-apply-patch.ts.
use managed_agents.Common.{String, List, [], ◌∷◌, false}
use managed_agents.Contracts.Json.{
  Json, bool, num, str, arr, obj, Items, nil, cons, Fields, end, field, whole,
}
use managed_agents.Contracts.Operation.{OperationDefinition}

unfoldable pub texts : List String → Items
texts [] = nil
texts (s ∷ rest) = cons (str s) (texts rest)

-- `{ type, description }`
unfoldable pub described : String → String → Json
described type description =
    obj (field "type" (str type) (field "description" (str description) end))

-- a schema of an object with no other properties
unfoldable pub closed_object : Fields → List String → Json
closed_object properties required = obj (
    field "type" (str "object") (
      field "properties" (obj properties)
        (field "required" (arr (texts required)) (field "additionalProperties" (bool false) end))))

unfoldable pub function_definition : String → String → Json → Json
function_definition name description parameters = obj (
    field "type" (str "function") (
      field "name" (str name)
        (field "description" (str description) (field "parameters" parameters end))))

abbrev pub pi_bash_operation : OperationDefinition
pi_bash_operation = record { provider = "tool-pi-bash"; type = "bash"; version = "v1" }

abbrev pub pi_bash_tool : Json
pi_bash_tool =
    function_definition "bash"
      "Execute a bash command in the current working directory. Returns stdout and stderr. Output is truncated to last 2000 lines or 50KB (whichever is hit first). If truncated, full output is saved to a temp file. Optionally provide a timeout in seconds."
      (closed_object
        (field "command" (described "string" "Shell command to execute") (
          field "timeout" (described "number" "Timeout in seconds (optional, no default timeout)")
            end))
        ("command" ∷ []))

abbrev pub pi_read_tool : Json
pi_read_tool =
    function_definition "read"
      "Read the contents of a file (maximum 5 MiB). Supports text files and images (jpg, png, gif, webp, bmp). Images are returned as URL attachments. For text files, output is truncated to 2000 lines or 50KB (whichever is hit first). Use offset/limit for large files. When you need the full file, continue with offset until complete."
      (closed_object
        (field "path" (described "string" "Path to the file to read (relative or absolute)") (
          field "offset" (described "number" "Line number to start reading from (1-indexed)")
            (field "limit" (described "number" "Maximum number of lines to read") end)))
        ("path" ∷ []))

abbrev pub pi_write_tool : Json
pi_write_tool =
    function_definition "write"
      "Write content to a file. Creates the file if it doesn't exist, overwrites if it does. Automatically creates parent directories. Content must be at most 5 MiB in UTF-8. Use write only for new files or complete rewrites."
      (closed_object
        (field "path" (described "string" "Path to the file to write (relative or absolute)")
          (field "content" (described "string" "Content to write to the file") end))
        ("path" ∷ "content" ∷ []))

abbrev pub pi_edit_tool : Json
pi_edit_tool =
    function_definition "edit"
      "Make precise edits to an existing file using exact text replacements. Each oldText must match uniquely in the original file. Edits must not overlap. Files must be at most 5 MiB before and after editing; at most 256 replacements per call."
      (closed_object
        (field "path" (described "string" "Path to the file to edit (relative or absolute)") (
          field "edits"
            (obj (
              field "type" (str "array") (
                field "minItems" (num (whole 1)) (
                  field "maxItems" (num (whole 256)) (
                    field "items"
                      (closed_object
                        (field "oldText"
                          (obj (
                            field "type" (str "string") (
                              field "minLength" (num (whole 1)) (
                                field "description"
                                  (str
                                    "Exact text, unique in the original file and disjoint from other edits")
                                  end))))
                          (field "newText"
                            (described "string"
                              "Replacement text; empty to delete the matched text")
                            end))
                        ("oldText" ∷ "newText" ∷ []))
                      end)))))
            end))
        ("path" ∷ "edits" ∷ []))

abbrev pub codex_apply_patch_grammar : String
codex_apply_patch_grammar =
    "start: begin_patch hunk+ end_patch\nbegin_patch: \"*** Begin Patch\" LF\nend_patch: \"*** End Patch\" LF?\n\nhunk: add_hunk | delete_hunk | update_hunk\nadd_hunk: \"*** Add File: \" filename LF add_line+\ndelete_hunk: \"*** Delete File: \" filename LF\nupdate_hunk: \"*** Update File: \" filename LF change_move? change?\n\nfilename: /(.+)/\nadd_line: \"+\" /(.*)/ LF -> line\n\nchange_move: \"*** Move to: \" filename LF\nchange: (change_context | change_line)+ eof_line?\nchange_context: (\"@@\" | \"@@ \" /(.+)/) LF\nchange_line: (\"+\" | \"-\" | \" \") /(.*)/ LF\neof_line: \"*** End of File\" LF\n\n%import common.LF\n"

abbrev pub codex_apply_patch_tool : Json
codex_apply_patch_tool = obj (
    field "type" (str "custom") (
      field "name" (str "apply_patch") (
        field "description"
          (str
            "The `apply_patch` tool can be used to edit files. This is a FREEFORM tool, so do not wrap the patch in JSON. Patch text must be at most 2 MiB; files at most 5 MiB before and after changes; at most 32 sections and 256 hunks per call.")
          (field "format"
            (obj (
              field "syntax" (str "lark") (field "definition" (str codex_apply_patch_grammar) end)))
            end))))
