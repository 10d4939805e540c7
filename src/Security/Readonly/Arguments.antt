-- ===== src/Security/Readonly/Arguments.antt =====
-- What the arguments of an automatically allowed command are like.
use mcpx.Base.{
  ◌≡◌, Bool, true, false, ◌||◌, List, [], ◌∷◌, if◌then◌else◌, refl, not, all, arith, Bool-cases,
  inl, inr, any, All, All-at, In, sym, Bytes, codes, str_eq, str_eq→eq, has_prefix, trim_space,
}
use mathlib.Core.Path.{subst}
use mathlib.Core.Bool.{false≢true}
use mcpx.Security.Readonly.{
  contains_text, contains_any, expansions, shell_bytes, safe_readonly_argument,
  all_readonly_arguments, readonly_options, readonly_git_loop, readonly_git_arguments,
  git_subcommand, has_option, is_readonly_git, readonly_fields, is_nil, fields, is_readonly_segment,
}

-- An argument that names nothing outside the workspace and that the shell takes literally.
pub record IsLocal (arg : Bytes) : Type 0 where
  pub relative : has_prefix arg (codes "/") ≡ false
  pub no_parent : contains_text arg (codes "..") ≡ false
  pub literal : contains_any arg expansions ≡ false

safe-IsLocal : (arg : Bytes) → safe_readonly_argument arg ≡ true → IsLocal arg
unfolding safe_readonly_argument
safe-IsLocal arg h = record {
  relative = ground arith;
  no_parent = ground arith;
  literal = ground arith;
}

All-IsLocal : (args : List Bytes) → all_readonly_arguments args ≡ true → All IsLocal args
unfolding all_readonly_arguments
All-IsLocal [] h = tt
All-IsLocal (a ∷ args) h = (safe-IsLocal a (ground arith), All-IsLocal args (ground arith))

loop-IsLocal :
    (paths : Bool) (args : List Bytes) → readonly_git_loop paths args ≡ true → All IsLocal args
unfolding readonly_git_loop
loop-IsLocal paths [] h = tt
loop-IsLocal paths (a ∷ args) h = (
  safe-IsLocal a (ground arith),
  loop-IsLocal (paths || str_eq a (codes "--")) args (ground arith),
)

git_subcommand-IsLocal :
    (name : Bytes) (args : List Bytes) → git_subcommand name args ≡ true → All IsLocal args
unfolding git_subcommand readonly_git_arguments
git_subcommand-IsLocal name args h = loop-IsLocal false args (ground arith)

-- A name that is compared with one of the names it may have.
among : (name : Bytes) (names : List Bytes) → any (str_eq name) names ≡ true → In name names
among name [] h = absurd (false≢true h)
among name (n ∷ names) h = elim (Bool-cases (str_eq name n)) [
  | inl e ↦ inl (str_eq→eq name n e)
  | inr e ↦ inr (among name names (ground arith))
]

-- The arguments that git may take as options: those before the first `--`.
abbrev pub before_paths : List Bytes → List Bytes
before_paths [] = []
before_paths (a ∷ args) =
    let rest = before_paths args in if str_eq a (codes "--") then [] else a ∷ rest

-- An option that is found stands where git takes it as one.
has_option-In :
    (option : Bytes) (args : List Bytes)
    → has_option option args ≡ true
    → In option (before_paths args)
unfolding has_option
has_option-In option [] h = absurd (false≢true h)
has_option-In option (a ∷ args) h = elim (Bool-cases (str_eq a (codes "--"))) [
  | inl d ↦ absurd (false≢true (rw d at h))
  | inr d ↦ elim (Bool-cases (str_eq a option)) [
    | inl e ↦ rw d (inl (sym (str_eq→eq a option e)))
    | inr e ↦ rw d (inr (has_option-In option args (ground arith)))
  ]
]

-- What begins an option that lets git write a file, run another program or leave the repository.
abbrev pub acting : List Bytes
acting =
    codes "--output"
    ∷ codes "--ext-diff"
    ∷ codes "--textconv"
    ∷ codes "--no-index"
    ∷ codes "-O"
    ∷ codes "-o"
    ∷ codes "-c"
    ∷ []

-- An argument that is no option, or one of the listed ones and none of those above.
abbrev pub IsHarmless : Bytes → Type 0
IsHarmless a =
    has_prefix a (codes "-") ≡ true → In a readonly_options × (any (has_prefix a) acting ≡ false)

none_of :
    (test : Bytes → Bool) (options : List Bytes)
    → all (λ o. not (test o)) options ≡ true
    → All (λ o. test o ≡ false) options
none_of test [] h = tt
none_of test (o ∷ options) h = (ground arith, none_of test options (ground arith))

listed-IsHarmless : (a : Bytes) → any (str_eq a) readonly_options ≡ true → IsHarmless a
unfolding readonly_options
listed-IsHarmless a h d =
    let i = among a readonly_options h in
    (
      i,
      All-at (λ o. any (has_prefix o) acting ≡ false) a readonly_options
          (none_of (λ o. any (has_prefix o) acting) readonly_options refl) i,
    )

loop-IsHarmless :
    (args : List Bytes) → readonly_git_loop false args ≡ true → All IsHarmless (before_paths args)
unfolding readonly_git_loop
loop-IsHarmless [] h = tt
loop-IsHarmless (a ∷ args) h = elim (Bool-cases (str_eq a (codes "--"))) [
  | inl d ↦ rw d tt
  | inr d ↦
      rw d (λ dash. listed-IsHarmless a (ground arith) dash, loop-IsHarmless args (ground arith))
]

git_subcommand-IsHarmless :
    (name : Bytes) (args : List Bytes)
    → git_subcommand name args ≡ true
    → All IsHarmless (before_paths args)
unfolding git_subcommand readonly_git_arguments
git_subcommand-IsHarmless name args h = loop-IsHarmless args (ground arith)

abbrev pub showing : List Bytes
showing = codes "diff" ∷ codes "log" ∷ codes "show" ∷ []

-- The git commands that are passed: local arguments, and only harmless options.
pub data ReadsGit : List Bytes → Type 0 where
  inside :
      {dir : Bytes} {args : List Bytes}
      → IsLocal dir
      → ReadsGit args
      → ReadsGit (codes "-C" ∷ dir ∷ args)
  status :
      {args : List Bytes}
      → All IsLocal args
      → All IsHarmless (before_paths args)
      → ReadsGit (codes "status" ∷ args)
  shows :
      {name : Bytes} {args : List Bytes}
      → All IsLocal args
      → All IsHarmless (before_paths args)
      → In name showing
      → In (codes "--no-ext-diff") (before_paths args)
      → In (codes "--no-textconv") (before_paths args)
      → ReadsGit (name ∷ args)

git_subcommand-ReadsGit :
    (name : Bytes) (args : List Bytes) → git_subcommand name args ≡ true → ReadsGit (name ∷ args)
unfolding git_subcommand
git_subcommand-ReadsGit name args h = elim (Bool-cases (str_eq name (codes "status"))) [
  | inl e ↦
      subst (λ n. ReadsGit (n ∷ args)) (sym (str_eq→eq name (codes "status") e))
        (status (git_subcommand-IsLocal name args h) (git_subcommand-IsHarmless name args h))
  | inr e ↦
      shows (git_subcommand-IsLocal name args h) (git_subcommand-IsHarmless name args h)
        (among name showing (ground arith))
        (has_option-In (codes "--no-ext-diff") args (ground arith))
        (has_option-In (codes "--no-textconv") args (ground arith))
]

is_readonly_git-ReadsGit : (args : List Bytes) → is_readonly_git args ≡ true → ReadsGit args
unfolding is_readonly_git
is_readonly_git-ReadsGit [] h = absurd (false≢true h)
is_readonly_git-ReadsGit (name ∷ []) h = git_subcommand-ReadsGit name [] (ground arith)
is_readonly_git-ReadsGit (name ∷ arg ∷ args) h = elim (Bool-cases (str_eq name (codes "-C"))) [
  | inl e ↦
      subst (λ n. ReadsGit (n ∷ arg ∷ args)) (sym (str_eq→eq name (codes "-C") e))
        (inside (safe-IsLocal arg (ground arith)) (is_readonly_git-ReadsGit args (ground arith)))
  | inr e ↦ git_subcommand-ReadsGit name (arg ∷ args) (ground arith)
]

abbrev pub printing : List Bytes
printing = codes "ls" ∷ codes "cat" ∷ codes "head" ∷ codes "tail" ∷ []

-- The commands that are passed.
pub data Reads : List Bytes → Type 0 where
  prints :
      {name : Bytes} {args : List Bytes} → In name printing → All IsLocal args → Reads (name ∷ args)
  where_am_i : Reads (codes "pwd" ∷ [])
  git : {args : List Bytes} → ReadsGit args → Reads (codes "git" ∷ args)

pwd-Reads : (args : List Bytes) → is_nil args ≡ true → Reads (codes "pwd" ∷ args)
unfolding is_nil
pwd-Reads [] h = where_am_i
pwd-Reads (a ∷ args) h = absurd (false≢true h)

prints_with :
    (name : Bytes) (args : List Bytes)
    → In name printing
    → all_readonly_arguments args ≡ true
    → Reads (name ∷ args)
prints_with name args named h = prints named (All-IsLocal args h)

readonly_fields-Reads : (words : List Bytes) → readonly_fields words ≡ true → Reads words
unfolding readonly_fields
readonly_fields-Reads [] h = absurd (false≢true h)
readonly_fields-Reads (name ∷ args) h = elim (Bool-cases (str_eq name (codes "ls"))) [
  | inl e ↦ prints_with name args (inl (str_eq→eq name (codes "ls") e)) (ground arith)
  | inr l ↦ elim (Bool-cases (str_eq name (codes "pwd"))) [
    | inl e ↦
        subst (λ n. Reads (n ∷ args)) (sym (str_eq→eq name (codes "pwd") e))
          (pwd-Reads args (ground arith))
    | inr p ↦ elim (Bool-cases (any (str_eq name) printing)) [
      | inl e ↦ prints_with name args (among name printing e) (ground arith)
      | inr e ↦
          subst (λ n. Reads (n ∷ args)) (sym (str_eq→eq name (codes "git") (ground arith)))
            (git (is_readonly_git-ReadsGit args (ground arith)))
    ]
  ]
]

-- A segment that is passed without a rule has none of the bytes | & > <, backtick and line end and
-- no `$(`, and its words are one of: `ls`, `cat`, `head`, `tail` with local arguments, a bare `pwd`,
-- or, behind any number of `-C` with a local directory, `git status`, `git diff`, `git log` or
-- `git show` with local arguments. A local argument is relative, without `..` and without shell
-- expansion. Of the git arguments before the first `--`, each that begins with a dash is in the list
-- of read-only options and begins with none of `--output`, `--ext-diff`, `--textconv`, `--no-index`,
-- `-O`, `-o` and `-c`; and `diff`, `log` and `show` have `--no-ext-diff` and `--no-textconv` there.
pub is_readonly_segment-Reads :
    (segment : Bytes)
    → is_readonly_segment segment ≡ true
    → (contains_any (trim_space segment) shell_bytes ≡ false)
      × (contains_text (trim_space segment) (codes "$(") ≡ false)
      × Reads (fields (trim_space segment))
unfolding is_readonly_segment
is_readonly_segment-Reads segment h =
    (ground arith, ground arith, readonly_fields-Reads (fields (trim_space segment)) (ground arith))
