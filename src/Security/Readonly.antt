-- ===== src/Security/Readonly.antt =====
-- internal/security/commands.go: the commands that are allowed without a rule because they only
-- read the workspace.
pub mod Arguments
pub mod Examples
use mcpx.Base.{
  ℕ, zero, suc, ◌-◌, Bool, true, false, not, ◌&&◌, ◌||◌, List, [], ◌∷◌, ◌++◌, if◌then◌else◌, ◌==◌,
  Bytes, codes, str_eq, has_prefix, any, all, trim_space, space_width,
}
use mcpx.Security.Segments.{CommandSegment, Segments, safe, unsafe, command_segments}

-- strings.Fields; `skip` counts the bytes of a white space rune that are still to pass.
add_field : Bytes → List Bytes → List Bytes
add_field [] fields = fields
add_field (c ∷ s) fields = (c ∷ s) ∷ fields

fields_from : ℕ → Bytes → Bytes → List Bytes
unfolding space_width add_field
fields_from skip field [] = add_field field []
fields_from (suc n) field (c ∷ s) = fields_from n field s
fields_from zero field (c ∷ s) = elim (space_width (c ∷ s)) [
  | zero ↦ fields_from zero (field ++ c ∷ []) s
  | suc n ↦ add_field field (fields_from n [] s)
]

pub fields : Bytes → List Bytes
unfolding fields_from
fields s = fields_from 0 [] s

abbrev pub member : ℕ → Bytes → Bool
member c set = any (λ d. c == d) set

-- strings.ContainsAny, for ASCII characters.
abbrev pub contains_any : Bytes → Bytes → Bool
contains_any s set = any (λ c. member c set) s

-- strings.Contains
unfoldable pub contains_text : Bytes → Bytes → Bool
contains_text [] t = str_eq t []
contains_text (c ∷ s) t = has_prefix (c ∷ s) t || contains_text s t

-- The bytes of "$~{}\*?[]'" and the double quotation mark.
abbrev pub expansions : Bytes
expansions = codes "$~{}" ++ 92 ∷ codes "*?[]" ++ 39 ∷ 34 ∷ []

unfoldable pub safe_readonly_argument : Bytes → Bool
unfolding contains_text
safe_readonly_argument arg =
    if str_eq arg [] || has_prefix arg (codes "/") || contains_text arg (codes "..")
    then false
    else not (contains_any arg expansions)

pub all_readonly_arguments : List Bytes → Bool
all_readonly_arguments args = all safe_readonly_argument args

pub readonly_options : List Bytes
readonly_options =
    codes "--short"
    ∷ codes "-s"
    ∷ codes "--branch"
    ∷ codes "-b"
    ∷ codes "--porcelain"
    ∷ codes "--porcelain=v1"
    ∷ codes "--porcelain=v2"
    ∷ codes "--oneline"
    ∷ codes "--stat"
    ∷ codes "--shortstat"
    ∷ codes "--numstat"
    ∷ codes "--name-only"
    ∷ codes "--name-status"
    ∷ codes "--summary"
    ∷ codes "--check"
    ∷ codes "--cached"
    ∷ codes "--staged"
    ∷ codes "--no-ext-diff"
    ∷ codes "--no-textconv"
    ∷ codes "--no-color"
    ∷ codes "--color=never"
    ∷ codes "--patch"
    ∷ codes "-p"
    ∷ codes "--no-patch"
    ∷ codes "--raw"
    ∷ codes "--abbrev-commit"
    ∷ codes "--graph"
    ∷ codes "--decorate"
    ∷ codes "--no-decorate"
    ∷ codes "--all"
    ∷ codes "--reverse"
    ∷ codes "--date-order"
    ∷ codes "--topo-order"
    ∷ []

-- The loop of readonlyGitArguments; `paths` is its variable.
readonly_git_loop : Bool → List Bytes → Bool
unfolding readonly_options
readonly_git_loop paths [] = true
readonly_git_loop paths (arg ∷ args) =
    let rest = readonly_git_loop (paths || str_eq arg (codes "--")) args in
    if not (safe_readonly_argument arg)
    then false
    else if str_eq arg (codes "--")
    then rest
    else if paths || not (has_prefix arg (codes "-"))
    then rest
    else any (str_eq arg) readonly_options && rest

unfoldable pub readonly_git_arguments : List Bytes → Bool
unfolding readonly_git_loop
readonly_git_arguments args = readonly_git_loop false args

-- Whether an option stands among the arguments before `--`.
pub has_option : Bytes → List Bytes → Bool
has_option option [] = false
has_option option (arg ∷ args) =
    if str_eq arg (codes "--") then false else str_eq arg option || has_option option args

git_subcommand : Bytes → List Bytes → Bool
unfolding has_option
git_subcommand name args =
    if str_eq name (codes "status")
    then readonly_git_arguments args
    else if str_eq name (codes "diff") || str_eq name (codes "log") || str_eq name (codes "show")
    then has_option (codes "--no-ext-diff") args
      && has_option (codes "--no-textconv") args
      && readonly_git_arguments args
    else false

-- isReadonlyGit
unfoldable pub is_readonly_git : List Bytes → Bool
unfolding git_subcommand
is_readonly_git [] = false
is_readonly_git (name ∷ []) = if str_eq name (codes "-C") then false else git_subcommand name []
is_readonly_git (name ∷ arg ∷ args) =
    let rest = is_readonly_git args in
    if str_eq name (codes "-C")
    then safe_readonly_argument arg && rest
    else git_subcommand name (arg ∷ args)

-- The bytes of "|&><", the backtick and the line end.
abbrev pub shell_bytes : Bytes
shell_bytes = codes "|&><" ++ 96 ∷ 10 ∷ []

is_nil : List Bytes → Bool
is_nil [] = true
is_nil (a ∷ args) = false

-- The `switch` on the command's name.
pub readonly_fields : List Bytes → Bool
unfolding is_nil
readonly_fields [] = false
readonly_fields (name ∷ args) =
    if str_eq name (codes "ls")
    then all_readonly_arguments args
    else if str_eq name (codes "pwd")
    then is_nil args
    else if str_eq name (codes "cat") || str_eq name (codes "head") || str_eq name (codes "tail")
    then all_readonly_arguments args
    else if str_eq name (codes "git")
    then is_readonly_git args
    else false

-- isReadonlySegment
pub is_readonly_segment : Bytes → Bool
unfolding contains_text
is_readonly_segment segment =
    let trimmed = trim_space segment in
    if str_eq trimmed []
    then false
    else if contains_any trimmed shell_bytes || contains_text trimmed (codes "$(")
    then false
    else readonly_fields (fields trimmed)

all_readonly : List CommandSegment → Bool
all_readonly segments = all (λ (s : CommandSegment). is_readonly_segment s.command) segments

-- isReadonlyCommand
pub is_readonly_command : Bytes → Bool
unfolding all_readonly
is_readonly_command command = elim (command_segments command) [
  | unsafe ↦ false
  | safe segments ↦ elim segments [ [] ↦ false | s ∷ rest ↦ all_readonly (s ∷ rest) ]
]
