-- ===== src/Contracts/ToolResult.antt =====
-- What the tools answer: packages/contracts/src/pi-bash.ts, pi-read.ts, pi-write.ts, pi-edit.ts and
-- codex-apply-patch.ts. A text part is its text.
use managed_agents.Common.{ℕ, String, Bool, Option, List}
use managed_agents.Contracts.Json.{Json, Number}

pub data ExitReason : Type 0 where
  exited timed_out terminated start_failed lost : ExitReason

pub data TruncatedBy : Type 0 where
  lines bytes upstream : TruncatedBy

pub record OutputFile : Type 0 where
  pub artifact_id : String
  pub size_bytes : ℕ
  pub complete : Bool
  pub expires_at : Option String

pub record BashTruncation : Type 0 where
  pub truncated : Bool
  pub truncated_by : Option TruncatedBy
  pub output_lines : ℕ
  pub output_bytes : ℕ
  pub max_lines : ℕ
  pub max_bytes : ℕ
  pub total_lines : Option ℕ
  pub total_text_bytes : Option ℕ
  pub upstream_truncated : Bool
  pub last_line_partial : Bool

pub record BashDetails : Type 0 where
  pub request_id : String
  pub machine_id : String
  pub runtime_generation : String
  pub wall_time_seconds : Number
  pub original_bytes : ℕ
  pub reason : ExitReason
  pub exit_code : Option ℕ
  pub signal : Option String
  pub timed_out : Bool
  pub full_output_path : String
  pub output_file : OutputFile
  pub truncation : BashTruncation

-- a tool's answer: its content, whether it is an error, and its details
pub record ToolResult (Part Details : Type 0) : Type 0 where
  pub content : List Part
  pub is_error : Bool
  pub details : Details

abbrev pub BashResult : Type 0
BashResult = ToolResult String BashDetails

pub record ReadTruncation : Type 0 where
  pub content : String
  pub truncated : Bool
  pub truncated_by : Option TruncatedBy
  pub total_lines : ℕ
  pub total_bytes : ℕ
  pub output_lines : ℕ
  pub output_bytes : ℕ
  pub first_line_exceeds_limit : Bool
  pub max_lines : ℕ
  pub max_bytes : ℕ

pub record ReadFile : Type 0 where
  pub size_bytes : ℕ
  pub sha256 : String
  pub modified_at : Option Number
  pub is_symlink : Bool

pub record ReadImage : Type 0 where
  pub id : String
  pub url : String
  pub mime_type : String
  pub original_mime_type : String

pub record ToolError : Type 0 where
  pub code : String
  pub message : String

pub record ReadDetails : Type 0 where
  pub request_id : String
  pub machine_id : String
  pub path : String
  pub file : Option ReadFile
  pub truncation : Option ReadTruncation
  pub image : Option ReadImage
  pub error : Option ToolError

-- the content parts of a read may be images
abbrev pub ReadResult : Type 0
ReadResult = ToolResult Json ReadDetails

pub data Disposition : Type 0 where
  applied already_applied : Disposition

pub record WrittenFile : Type 0 where
  pub path : String
  pub mutation_id : String
  pub sha256 : String
  pub bytes_written : ℕ
  pub disposition : Disposition

pub record WriteDetails : Type 0 where
  pub request_id : Option String
  pub machine_id : String
  pub path : String
  pub file : Option WrittenFile
  pub error : Option ToolError

abbrev pub WriteResult : Type 0
WriteResult = ToolResult String WriteDetails

pub data PatchStatus : Type 0 where
  applied rejected partial : PatchStatus

pub record EditFileChange : Type 0 where
  pub path : String
  pub before_sha256 : String
  pub after_sha256 : String
  pub bytes_before : ℕ
  pub bytes_after : ℕ
  pub first_changed_line : Option ℕ

-- an error of an edit or a patch, with the section and the edit that it is about
pub record PatchError : Type 0 where
  pub code : String
  pub message : String
  pub section : Option ℕ
  pub edit : Option ℕ

pub record EditDetails : Type 0 where
  pub request_id : Option String
  pub machine_id : String
  pub path : String
  pub diff : Option String
  pub patch : Option String
  pub first_changed_line : Option ℕ
  pub diff_truncated : Option Bool
  pub mutation_id : Option String
  pub status : Option PatchStatus
  pub changes_exact : Option Bool
  pub changes : Option (List EditFileChange)
  pub error : Option PatchError

abbrev pub EditResult : Type 0
EditResult = ToolResult String EditDetails

pub data ChangeKind : Type 0 where
  add update delete move : ChangeKind

-- `destination_before_sha256` and `destination_bytes_before` are absent, null or a value.
pub record ApplyPatchFileChange : Type 0 where
  pub kind : ChangeKind
  pub path : String
  pub destination_path : Option String
  pub before_sha256 : Option String
  pub after_sha256 : Option String
  pub bytes_before : Option ℕ
  pub bytes_after : Option ℕ
  pub destination_before_sha256 : Option (Option String)
  pub destination_bytes_before : Option (Option ℕ)
  pub first_changed_line : Option ℕ

pub record ApplyPatchDetails : Type 0 where
  pub request_id : Option String
  pub machine_id : String
  pub diff : Option String
  pub diff_truncated : Option Bool
  pub summary_truncated : Option Bool
  pub mutation_id : Option String
  pub status : Option PatchStatus
  pub changes_exact : Option Bool
  pub changes : Option (List ApplyPatchFileChange)
  pub error : Option PatchError

abbrev pub ApplyPatchResult : Type 0
ApplyPatchResult = ToolResult String ApplyPatchDetails
