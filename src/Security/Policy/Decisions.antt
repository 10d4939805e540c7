-- ===== src/Security/Policy/Decisions.antt =====
-- The decision on a command, from those on its segments; the decision on a path.
use mcpx.Base.{
  ◌≡◌, ◌≢◌, refl, sym, ◌∙◌, ap, ◌↔◌, Bool, true, false, Option, List, [], ◌∷◌, ◌++◌, map,
  append_assoc, append-nil, All, In, inl, inr, arith, Bytes,
}
use mathlib.Core.Bool.{false≢true}
use mcpx.Security.Segments.{CommandSegment, Segments, safe, unsafe, command_segments}
use mcpx.Security.Policy.{
  Decision, allow, confirm, deny, CommandRules, FileRules, CommandAnalysis, combine, unmatched,
  unreviewed, review, match_any, match_segment, analyze_from, analyze_segment, analyze_segments,
  analyze_command, match_command, match_file,
}

is_deny : Decision → Bool
is_deny deny = true
is_deny _ = false

deny≢allow : deny ≢ allow
unfolding is_deny
deny≢allow e = false≢true (sym (ap is_deny e))

is_allow : Decision → Bool
is_allow allow = true
is_allow _ = false

confirm≢allow : confirm ≢ allow
unfolding is_allow
confirm≢allow e = false≢true (ap is_allow e)

combine-allow : (d before : Decision) → combine d before ≡ allow → (d ≡ allow) × (before ≡ allow)
unfolding combine
combine-allow deny before h = absurd (deny≢allow h)
combine-allow confirm allow h = absurd (confirm≢allow h)
combine-allow confirm confirm h = absurd (confirm≢allow h)
combine-allow confirm deny h = absurd (deny≢allow h)
combine-allow allow before h = (refl, h)

combine-deny : (d : Decision) → combine d deny ≡ deny
unfolding combine
combine-deny deny = refl
combine-deny confirm = refl
combine-deny allow = refl

module _ (compile : Bytes → Option (Bytes → Bool)) (rules : CommandRules) where
  abbrev pub IsAllowed : CommandSegment → Type 0
  IsAllowed s = match_segment compile rules s.command ≡ allow

  analyze_from-allow :
      (a : CommandAnalysis) (segments : List CommandSegment)
      → (analyze_from compile rules a segments).decision ≡ allow
      → (a.decision ≡ allow) × All IsAllowed segments
  unfolding analyze_from analyze_segment
  analyze_from-allow a [] h = (h, tt)
  analyze_from-allow a (s ∷ segments) h =
      let (now, later) = analyze_from-allow (analyze_segment compile rules a s) segments h in
      let (this, before) = combine-allow (match_segment compile rules s.command) a.decision now in
      (before, (this, later))

  allow-analyze_from :
      (a : CommandAnalysis) (segments : List CommandSegment)
      → a.decision ≡ allow
      → All IsAllowed segments
      → (analyze_from compile rules a segments).decision ≡ allow
  unfolding analyze_from analyze_segment combine
  allow-analyze_from a [] h p = h
  allow-analyze_from a (s ∷ segments) h (p, ps) =
      allow-analyze_from (analyze_segment compile rules a s) segments
        (ap (λ d. combine d a.decision) p ∙ h) ps

  deny-stays :
      (a : CommandAnalysis) (segments : List CommandSegment)
      → a.decision ≡ deny
      → (analyze_from compile rules a segments).decision ≡ deny
  unfolding analyze_from analyze_segment
  deny-stays a [] h = h
  deny-stays a (s ∷ segments) h = deny-stays (analyze_segment compile rules a s) segments (
      ap (combine (match_segment compile rules s.command)) h
      ∙ combine-deny (match_segment compile rules s.command))

  deny-analyze_from :
      (a : CommandAnalysis) (segments : List CommandSegment) (s : CommandSegment)
      → In s segments
      → match_segment compile rules s.command ≡ deny
      → (analyze_from compile rules a segments).decision ≡ deny
  unfolding analyze_from analyze_segment combine
  deny-analyze_from a [] s i h = absurd i
  deny-analyze_from a (t ∷ segments) s (inl e) h =
      deny-stays (analyze_segment compile rules a t) segments (
        ap (λ d. combine d a.decision)
          (ap (λ u. match_segment compile rules u.command) (sym e) ∙ h))
  deny-analyze_from a (t ∷ segments) s (inr i) h =
      deny-analyze_from (analyze_segment compile rules a t) segments s i h

  reviews-all :
      (a : CommandAnalysis) (segments : List CommandSegment)
      → (analyze_from compile rules a segments).reviewed
        ≡ a.reviewed ++ map (review compile rules) segments
  unfolding analyze_from analyze_segment
  reviews-all a [] = sym (append-nil a.reviewed)
  reviews-all a (s ∷ segments) =
      reviews-all (analyze_segment compile rules a s) segments
      ∙ append_assoc a.reviewed (review compile rules s ∷ []) (map (review compile rules) segments)

  -- Every segment is allowed by itself, and there is one.
  abbrev pub AllAllowed : Segments → Type 0
  AllAllowed unsafe = ⊥
  AllAllowed (safe []) = ⊥
  AllAllowed (safe (s ∷ segments)) = All IsAllowed (s ∷ segments)

  analyze_segments-allow :
      (r : Segments) → ((analyze_segments compile rules r).decision ≡ allow) ↔ AllAllowed r
  unfolding analyze_segments
  analyze_segments-allow unsafe = (λ h. absurd (deny≢allow h), λ h. absurd h)
  analyze_segments-allow (safe []) = (λ h. absurd (deny≢allow h), λ h. absurd h)
  analyze_segments-allow (safe (s ∷ rest)) = (
    λ h. let (before, each) = analyze_from-allow unreviewed (s ∷ rest) h in each,
    λ p. allow-analyze_from unreviewed (s ∷ rest) refl p,
  )

  -- A command is allowed exactly when it can be split into segments, at least one, and each of
  -- them is allowed by itself.
  pub match_command-allow :
      (command : Bytes)
      → (match_command compile rules command ≡ allow) ↔ AllAllowed (command_segments command)
  unfolding match_command analyze_command
  match_command-allow command = analyze_segments-allow (command_segments command)

  denied_segment :
      (segment : Bytes)
      → match_any compile rules.denied segment ≡ true
      → match_segment compile rules segment ≡ deny
  unfolding match_segment
  denied_segment segment h = rw (h) refl

  deny-analyze_segments :
      (r : Segments) (segments : List CommandSegment) (s : CommandSegment)
      → r ≡ safe segments
      → In s segments
      → match_any compile rules.denied s.command ≡ true
      → (analyze_segments compile rules r).decision ≡ deny
  unfolding analyze_segments
  deny-analyze_segments r [] s e i h = absurd i
  deny-analyze_segments r (t ∷ segments) s e i h =
      rw (e) (deny-analyze_from unreviewed (t ∷ segments) s i (denied_segment s.command h))

  -- Where a command is split into segments, a deny rule that matches one of them denies the whole
  -- command, whatever the other rules and segments are.
  pub denied_segment-denies :
      (command : Bytes) (segments : List CommandSegment) (s : CommandSegment)
      → command_segments command ≡ safe segments
      → In s segments
      → match_any compile rules.denied s.command ≡ true
      → match_command compile rules command ≡ deny
  unfolding match_command analyze_command
  denied_segment-denies command segments s e i h =
      deny-analyze_segments (command_segments command) segments s e i h

confirms_unmatched : (patterns : List Bytes) → patterns ≢ [] → unmatched patterns ≡ confirm
unfolding unmatched
confirms_unmatched [] h = absurd (h refl)
confirms_unmatched (p ∷ patterns) h = refl

module _ (compile : Bytes → Option (Bytes → Bool)) where
  abbrev HasRules : FileRules → Type 0
  HasRules rules = rules.allowed_paths ++ rules.confirmed_paths ++ rules.denied_paths ≢ []

  -- Once a path rule is configured, a path is allowed exactly when an allow rule matches it and no
  -- confirm or deny rule does.
  pub match_file-allow :
      (rules : FileRules) (path : Bytes)
      → HasRules rules
      → (match_file compile rules path ≡ allow) ↔ (
          (match_any compile rules.allowed_paths path ≡ true)
          × (match_any compile rules.confirmed_paths path ≡ false)
          × (match_any compile rules.denied_paths path ≡ false))
  unfolding match_file
  match_file-allow rules path h =
      let c = confirms_unmatched _ h in
      (λ e. (ground arith, ground arith, ground arith), λ (a, b, d). rw (a, b, d) refl)
