-- ===== src/Security/Policy.antt =====
-- internal/security/commands.go: the decision on a command or on a file path. The engine of the
-- regular expressions is the parameter `compile`: what regexp.Compile makes of a pattern is none or
-- its MatchString.
pub mod Decisions
pub mod Examples
use mcpx.Base.{
  ℕ, ◌+◌, Bool, true, false, ◌&&◌, ◌||◌, Option, none, some, List, [], ◌∷◌, ◌++◌, map,
  if◌then◌else◌, leb, Bytes, codes, str_eq, trim_space,
}
use mcpx.Security.Segments.{Operator, CommandSegment, Segments, safe, unsafe, command_segments}
use mcpx.Security.Readonly.{is_readonly_command}

pub data Decision : Type 0 where
  allow confirm deny : Decision

-- Decision.String
pub decision_string : Decision → Bytes
decision_string allow = codes "allow"
decision_string confirm = codes "confirm"
decision_string deny = codes "deny"

-- HasUnsafeShellOperator
pub has_unsafe_shell_operator : Bytes → Bool
has_unsafe_shell_operator command = elim (command_segments command) [
  | safe segments ↦ false
  | unsafe ↦ true
]

-- internal/config/config.go
pub record CommandRules : Type 0 where
  pub default : Bytes
  pub allowed : List Bytes
  pub confirmed : List Bytes
  pub denied : List Bytes
  pub auto_allow_readonly : Option Bool

pub record FileRules : Type 0 where
  pub allowed_paths : List Bytes
  pub confirmed_paths : List Bytes
  pub denied_paths : List Bytes

pub record CommandSegmentDecision : Type 0 where
  pub segment : Bytes
  pub follows : Operator
  pub verdict : Decision

pub record CommandAnalysis : Type 0 where
  pub decision : Decision
  pub reviewed : List CommandSegmentDecision
  pub is_unsafe : Bool

-- strings.ToLower, as far as the words below can tell: no letter outside ASCII has a lower case
-- among the letters of "allow" and "deny".
lower_byte : ℕ → ℕ
lower_byte c = if leb 65 c && leb c 90 then c + 32 else c

pub parse_default : Bytes → Decision
unfolding lower_byte
parse_default s =
    let word = map lower_byte (trim_space s) in
    if str_eq word (codes "allow")
    then allow
    else if str_eq word (codes "deny")
    then deny
    else confirm

-- autoAllowReadonlyEnabled
pub auto_allow_readonly_enabled : CommandRules → Bool
auto_allow_readonly_enabled rules = elim rules.auto_allow_readonly [ none ↦ true | some b ↦ b ]

-- What the loop makes of the decision so far, at a segment's decision.
combine : Decision → Decision → Decision
combine deny before = deny
combine confirm allow = confirm
combine confirm before = before
combine allow before = before

-- A path that no rule matches, from all the rules.
unmatched : List Bytes → Decision
unmatched [] = allow
unmatched (p ∷ patterns) = confirm

-- The analysis before the first segment.
abbrev pub unreviewed : CommandAnalysis
unreviewed = record { decision = allow; reviewed = []; is_unsafe = false }

matches : Option (Bytes → Bool) → Bytes → Bool
matches none text = false
matches (some re) text = re text

module _ (compile : Bytes → Option (Bytes → Bool)) where
  pub match_any : List Bytes → Bytes → Bool
  unfolding matches
  match_any [] text = false
  match_any (p ∷ patterns) text =
      let rest = match_any patterns text in
      if str_eq p [] then rest else if matches (compile p) text then true else rest

  pub match_segment : CommandRules → Bytes → Decision
  unfolding match_any
  match_segment rules segment =
      if match_any rules.denied segment
      then deny
      else if match_any rules.confirmed segment
      then confirm
      else if match_any rules.allowed segment
      then allow
      else if auto_allow_readonly_enabled rules && is_readonly_command segment
      then allow
      else parse_default rules.default

  review : CommandRules → CommandSegment → CommandSegmentDecision
  review rules s = record {
    segment = s.command;
    follows = s.operator;
    verdict = match_segment rules s.command;
  }

  -- The body of the loop of AnalyzeCommand.
  pub analyze_segment : CommandRules → CommandAnalysis → CommandSegment → CommandAnalysis
  unfolding review combine
  analyze_segment rules analysis s = record {
    decision = combine (match_segment rules s.command) analysis.decision;
    reviewed = analysis.reviewed ++ review rules s ∷ [];
    is_unsafe = analysis.is_unsafe;
  }

  analyze_from : CommandRules → CommandAnalysis → List CommandSegment → CommandAnalysis
  unfolding analyze_segment
  analyze_from rules analysis [] = analysis
  analyze_from rules analysis (s ∷ segments) =
      analyze_from rules (analyze_segment rules analysis s) segments

  analyze_segments : CommandRules → Segments → CommandAnalysis
  unfolding analyze_from
  analyze_segments rules unsafe = record { decision = deny; reviewed = []; is_unsafe = true }
  analyze_segments rules (safe []) = record { decision = deny; reviewed = []; is_unsafe = false }
  analyze_segments rules (safe (s ∷ rest)) = analyze_from rules unreviewed (s ∷ rest)

  pub analyze_command : CommandRules → Bytes → CommandAnalysis
  unfolding analyze_segments
  analyze_command rules command = analyze_segments rules (command_segments command)

  pub match_command : CommandRules → Bytes → Decision
  unfolding analyze_command
  match_command rules command = (analyze_command rules command).decision

  pub match_file : FileRules → Bytes → Decision
  unfolding match_any unmatched
  match_file rules path =
      if match_any rules.denied_paths path
      then deny
      else if match_any rules.confirmed_paths path
      then confirm
      else if match_any rules.allowed_paths path
      then allow
      else unmatched (rules.allowed_paths ++ rules.confirmed_paths ++ rules.denied_paths)
