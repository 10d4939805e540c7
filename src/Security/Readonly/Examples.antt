-- ===== src/Security/Readonly/Examples.antt =====
-- Commands that are passed without a rule, and commands that are not.
use mcpx.Base.{◌≡◌, refl, false, codes, trim_space, Bytes}
use mcpx.Security.Readonly.{
  contains_text, contains_any, shell_bytes, fields, is_readonly_segment, readonly_fields,
  is_readonly_git, readonly_git_arguments, all_readonly_arguments, safe_readonly_argument,
}
use mcpx.Security.Readonly.Arguments.{Reads, is_readonly_segment-Reads}

abbrev diff : Bytes
diff = codes "git diff --no-ext-diff --no-textconv --stat -- -a.txt"

is_readonly_segment-Reads_example :
    (contains_any (trim_space diff) shell_bytes ≡ false)
    × (contains_text (trim_space diff) (codes "$(") ≡ false)
    × Reads (fields (trim_space diff))
unfolding is_readonly_segment readonly_fields fields contains_text trim_space is_readonly_git
    readonly_git_arguments safe_readonly_argument
is_readonly_segment-Reads_example = is_readonly_segment-Reads diff refl

writing : is_readonly_segment (codes "git diff --no-ext-diff --no-textconv --output=x") ≡ false
unfolding is_readonly_segment readonly_fields fields contains_text trim_space is_readonly_git
    readonly_git_arguments safe_readonly_argument
writing = refl

hidden : is_readonly_segment (codes "git diff -- --no-ext-diff --no-textconv") ≡ false
unfolding is_readonly_segment readonly_fields fields contains_text trim_space is_readonly_git
    readonly_git_arguments safe_readonly_argument
hidden = refl

outside : is_readonly_segment (codes "cat ../a") ≡ false
unfolding is_readonly_segment readonly_fields fields contains_text trim_space all_readonly_arguments
    safe_readonly_argument
outside = refl
