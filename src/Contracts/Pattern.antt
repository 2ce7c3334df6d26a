-- ===== src/Contracts/Pattern.antt =====
-- The regular expressions of packages/contracts/src/llm.ts, pi-bash.ts and tool-execution.ts.
use managed_agents.Common.{
  ℕ, zero, suc, code, String, Bool, true, false, not, ◌&&◌, ◌||◌, List, [], ◌∷◌, ◌++◌, leb, ◌==◌,
  if◌then◌else◌, starts_with,
}

abbrev pub digit : ℕ → Bool
digit c = leb b'0' c && leb c b'9'

abbrev pub letter : ℕ → Bool
letter c = (leb b'a' c && leb c b'z') || (leb b'A' c && leb c b'Z')

-- `[0-9a-f]` under the flag `i`
abbrev pub hexadecimal : ℕ → Bool
hexadecimal c = digit c || (leb b'a' c && leb c b'f') || (leb b'A' c && leb c b'F')

abbrev pub dash : ℕ → Bool
dash c = c == b'-'

abbrev pub version_digit : ℕ → Bool
version_digit c = leb b'1' c && leb c b'8'

abbrev pub variant_digit : ℕ → Bool
variant_digit c = c == b'8' || c == b'9' || c == b'a' || c == b'b' || c == b'A' || c == b'B'

-- a text that is one character of each class in turn
unfoldable pub matches : List (ℕ → Bool) → String → Bool
matches [] String.[] = true
matches (p ∷ ps) (String.◌∷◌ c rest) = p (code c) && matches ps rest
matches _ _ = false

unfoldable pub times : ℕ → (ℕ → Bool) → List (ℕ → Bool)
times zero p = []
times (suc n) p = p ∷ times n p

unfoldable pub uuid_pattern : List (ℕ → Bool)
unfolding times
uuid_pattern =
    times 8 hexadecimal
    ++ dash ∷ times 4 hexadecimal
    ++ dash ∷ version_digit ∷ times 3 hexadecimal
    ++ dash ∷ variant_digit ∷ times 3 hexadecimal
    ++ dash ∷ times 12 hexadecimal

unfoldable pub is_uuid : String → Bool
unfolding uuid_pattern matches
is_uuid s = matches uuid_pattern s

-- every character is of the class
unfoldable pub all_of : (ℕ → Bool) → String → Bool
all_of p String.[] = true
all_of p (String.◌∷◌ c rest) = p (code c) && all_of p rest

-- `value.includes("\0")`
unfoldable pub has_nul : String → Bool
unfolding all_of
has_nul s = not (all_of (λ c. not (c == 0)) s)

abbrev pub separator : ℕ → Bool
separator c = c == 0x2f || c == 0x5c

-- `^[a-z]:[\\/]`
unfoldable pub is_drive_rooted : String → Bool
is_drive_rooted (String.◌∷◌ c (String.◌∷◌ d (String.◌∷◌ e rest))) =
    letter (code c) && code d == b':' && separator (code e)
is_drive_rooted _ = false

unfoldable pub starts_other : String → Bool
starts_other String.[] = false
starts_other (String.◌∷◌ c rest) = not (code c == 0x5c)

-- `[^\\]+\\[^\\]+` at the start of a text whose first character was read
unfoldable pub share_behind : String → Bool
share_behind String.[] = false
share_behind (String.◌∷◌ c rest) =
    let more = share_behind rest in if code c == 0x5c then starts_other rest else more

-- `^\\\\[^\\]+\\[^\\]+`
unfoldable pub is_unc : String → Bool
is_unc (String.◌∷◌ c (String.◌∷◌ d rest)) =
    code c == 0x5c && code d == 0x5c && starts_other rest && share_behind rest
is_unc _ = false

-- `isAbsoluteMachinePath`
unfoldable pub is_absolute_machine_path : String → Bool
is_absolute_machine_path value =
    not (has_nul value) && (starts_with value "/" || is_drive_rooted value || is_unc value)
