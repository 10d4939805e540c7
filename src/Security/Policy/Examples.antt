-- ===== src/Security/Policy/Examples.antt =====
-- Decisions under a pattern language of plain words.
use mcpx.Base.{
  arith, ◌≡◌, ◌≢◌, refl, ◌↔◌, true, false, Bool, Option, none, some, [], ◌∷◌, inl, inr, Bytes,
  codes, trim_space, is_blank,
}
use mcpx.Security.Segments.{and_then, last, CommandSegment, command_segments, quoted_heredoc}
use mcpx.Security.Readonly.{contains_text}
use mcpx.Security.Policy.{
  allow, deny, CommandRules, FileRules, match_any, match_command, match_file,
}
use mcpx.Security.Policy.Decisions.{
  AllAllowed, match_command-allow, denied_segment-denies, match_file-allow,
}

-- A pattern matches the texts that contain it.
abbrev words : Bytes → Option (Bytes → Bool)
words p = some (λ text. contains_text text p)

abbrev rules : CommandRules
rules = record {
  default = codes "allow";
  allowed = codes "go test" ∷ [];
  confirmed = [];
  denied = codes "rm" ∷ [];
  auto_allow_readonly = none;
}

abbrev list_segment : CommandSegment
list_segment = record { command = codes "ls"; operator = and_then }

abbrev remove_segment : CommandSegment
remove_segment = record { command = codes "rm x"; operator = last }

match_command-allow_example :
    (match_command words rules (codes "ls && go test") ≡ allow)
    ↔ AllAllowed words rules (command_segments (codes "ls && go test"))
match_command-allow_example = match_command-allow words rules (codes "ls && go test")

denied_segment-denies_example : match_command words rules (codes "ls && rm x") ≡ deny
unfolding command_segments trim_space is_blank quoted_heredoc match_any contains_text
denied_segment-denies_example =
    denied_segment-denies words rules (codes "ls && rm x") (list_segment ∷ remove_segment ∷ [])
      remove_segment refl (inr (inl refl)) refl

abbrev file_rules : FileRules
file_rules = record {
  allowed_paths = codes "src/" ∷ [];
  confirmed_paths = [];
  denied_paths = codes ".env" ∷ [];
}

rule≢nil : codes "src/" ∷ codes ".env" ∷ [] ≢ []
rule≢nil = grind arith

match_file-allow_example : (match_file words file_rules (codes "src/a") ≡ allow) ↔ (
    (match_any words file_rules.allowed_paths (codes "src/a") ≡ true)
    × (match_any words file_rules.confirmed_paths (codes "src/a") ≡ false)
    × (match_any words file_rules.denied_paths (codes "src/a") ≡ false))
match_file-allow_example = match_file-allow words file_rules (codes "src/a") rule≢nil
