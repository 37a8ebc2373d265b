-- ===== src/Controller/Retention/Script/Lines.antt =====
-- The retention script beside the commands it is made of.
use Prim.Native.Char.{code}
use text.Mathlib.Text.{starts_with}
use text.Mathlib.TextEquality.{starts_with_iff}
use text.Mathlib.TextLemmas.{cons-append}
use restic_backup_operator.Restic.Command.{build}
use restic_backup_operator.Controller.Retention.Script.Laws.{
  spaced, forget_builder, forget_command-build,
}
use restic_backup_operator.Base.{
  map, ◌++◌, sym, ap, ◌∙◌, arith, if◌then◌else◌, ℕ, ◌+◌, String, ◌<>◌, Bool, true, false, Option,
  none, some, List, [], ◌∷◌, ◌≡◌, refl, ℤ, is_positive, to_nat, itoa, non_empty, All, All-append,
  Bool-cases, inl, inr, split_lines, one_line, IsLine, one_line-append, one_line-itoa,
  split_lines-join,
}
use restic_backup_operator.Api.Retention.{GlobalRetentionPolicy, RetentionPolicyEntry}
use restic_backup_operator.Controller.Retention.Script.{
  tag_filters, host_filter, keep_rule, forget_command, policy_commands, prune_commands,
  script_commands, build_retention_script,
}

-- Each text that stands in the code is checked by computation.
literal : (s : String) → one_line s ≡ true → IsLine s
literal s h = record { unbroken = h }

-- Neither the host nor a tag of the selector has a line break.
abbrev pub HasPlainSelector : RetentionPolicyEntry → Type 0
HasPlainSelector p = IsLine p.selector.hostname × All IsLine p.selector.tags

behind-IsLine :
    {cmd : String} (flag : String) {value : String}
    → one_line flag ≡ true
    → IsLine cmd
    → IsLine value
    → IsLine (cmd <> (flag <> value))
behind-IsLine {cmd} flag {value} hf hc hv = record {
  unbroken =
      one_line-append cmd (flag <> value) hc.unbroken (one_line-append flag value hf hv.unbroken);
}

tag_filters-IsLine :
    (tags : List String) (cmd : String)
    → IsLine cmd
    → All IsLine tags
    → IsLine (tag_filters cmd tags)
unfolding tag_filters
tag_filters-IsLine [] cmd h _ = h
tag_filters-IsLine (tag ∷ tags) cmd h (ht, hs) =
    tag_filters-IsLine tags (cmd <> (" --tag " <> tag))
      (behind-IsLine " --tag " (unfold one_line in refl) h ht) hs

host_filter-IsLine :
    (cmd hostname : String) → IsLine cmd → IsLine hostname → IsLine (host_filter cmd hostname)
unfolding host_filter
host_filter-IsLine cmd hostname h hh = elim (Bool-cases (non_empty hostname)) [
  | inl given ↦ rw given (behind-IsLine " --host " (unfold one_line in refl) h hh)
  | inr absent ↦ rw absent h
]

keep_rule-IsLine :
    {cmd : String} (flag : String) (o : Option ℤ)
    → one_line flag ≡ true
    → IsLine cmd
    → IsLine (keep_rule cmd flag o)
unfolding keep_rule
keep_rule-IsLine flag none hf h = h
keep_rule-IsLine {cmd} flag (some n) hf h = elim (Bool-cases (is_positive n)) [
  | inl kept ↦ rw kept (behind-IsLine flag hf h (record { unbroken = one_line-itoa (to_nat n) }))
  | inr zero_ ↦ rw zero_ h
]

forget_command-IsLine : (p : RetentionPolicyEntry) → HasPlainSelector p → IsLine (forget_command p)
unfolding forget_command
forget_command-IsLine p (host, tags) =
    keep_rule-IsLine " --keep-yearly " p.retention.keep_yearly (unfold one_line in refl) (
      keep_rule-IsLine " --keep-monthly " p.retention.keep_monthly (unfold one_line in refl) (
        keep_rule-IsLine " --keep-weekly " p.retention.keep_weekly (unfold one_line in refl) (
          keep_rule-IsLine " --keep-daily " p.retention.keep_daily (unfold one_line in refl) (
            keep_rule-IsLine " --keep-hourly " p.retention.keep_hourly (unfold one_line in refl) (
              keep_rule-IsLine " --keep-last " p.retention.keep_last (unfold one_line in refl) (
                host_filter-IsLine _ p.selector.hostname
                  (tag_filters-IsLine p.selector.tags "restic forget"
                    (record { unbroken = unfold one_line in refl }) tags)
                  host))))))

policy_commands-IsLine :
    (ps : List RetentionPolicyEntry) (i : ℕ)
    → All HasPlainSelector ps
    → All IsLine (policy_commands i ps)
unfolding policy_commands
policy_commands-IsLine [] i _ = tt
policy_commands-IsLine (p ∷ ps) i (plain, rest) = (
  record {
    unbroken =
        one_line-append "echo 'Executing policy " (itoa (i + 1) <> "'") (unfold one_line in refl)
          (one_line-append (itoa (i + 1)) "'" (one_line-itoa (i + 1)) (unfold one_line in refl));
  },
  (forget_command-IsLine p plain, policy_commands-IsLine ps (i + 1) rest),
)

prune_commands-IsLine : (prune : Bool) → All IsLine (prune_commands prune)
unfolding one_line
prune_commands-IsLine true = (literal _ refl, (literal _ refl, tt))
prune_commands-IsLine false = tt

split_lines-script :
    (policy : GlobalRetentionPolicy)
    → All HasPlainSelector policy.spec.policies
    → split_lines (build_retention_script policy) ≡ script_commands policy
unfolding build_retention_script script_commands one_line
split_lines-script policy plain = split_lines-join "set -e" _ (
  literal _ refl,
  (
    literal _ refl,
    All-append IsLine (policy_commands 0 policy.spec.policies) _
        (policy_commands-IsLine policy.spec.policies 0 plain)
        (All-append IsLine (prune_commands policy.spec.prune) _
          (prune_commands-IsLine policy.spec.prune) (literal _ refl, tt)),
  ),
)

-- The lines that begin with restic.
abbrev pub restic_lines : List String → List String
restic_lines [] = []
restic_lines (line ∷ lines) =
    let rest = restic_lines lines in if starts_with line "restic" then line ∷ rest else rest

head_code : String → ℕ
head_code String.[] = 0
head_code (String.◌∷◌ c s) = code c

echo-starts_with : (s : String) → starts_with ("echo 'Executing policy " <> s) "restic" ≡ false
unfolding head_code
echo-starts_with s = elim (Bool-cases (starts_with ("echo 'Executing policy " <> s) "restic")) [
  | inr other ↦ other
  | inl same ↦
      let (rest, starts) = (starts_with_iff ("echo 'Executing policy " <> s) "restic").0 same in
      absurd (omega (arith, codes_agree rest starts))
]
  where
    codes_agree :
        (rest : String) → "restic" <> rest ≡ "echo 'Executing policy " <> s → ◌≡◌ {A = ℕ} b'e' b'r'
    codes_agree rest starts =
        sym (ap head_code (cons-append "e" "cho 'Executing policy " s))
        ∙ (ap head_code (sym starts) ∙ ap head_code (cons-append "r" "estic" rest))

abbrev pub NoEmptyTag : RetentionPolicyEntry → Type 0
NoEmptyTag p = All (λ tag. non_empty tag ≡ true) p.selector.tags

-- The command line of the builder for a policy.
abbrev pub builder_line : RetentionPolicyEntry → String
builder_line p = "restic" <> spaced (build (forget_builder p))

builder_line-starts_with : (p : RetentionPolicyEntry) → starts_with (builder_line p) "restic" ≡ true
builder_line-starts_with p =
    (starts_with_iff (builder_line p) "restic").1 (spaced (build (forget_builder p)), refl)

restic_lines-policy_commands :
    (ps : List RetentionPolicyEntry) (i : ℕ) (rest : List String)
    → All NoEmptyTag ps
    → restic_lines (policy_commands i ps ++ rest) ≡ map builder_line ps ++ restic_lines rest
unfolding policy_commands
restic_lines-policy_commands [] i rest _ = refl
restic_lines-policy_commands (p ∷ ps) i rest (given, others) =
    rw
      (
        forget_command-build p given,
        builder_line-starts_with p,
        restic_lines-policy_commands ps (i + 1) rest others,
        echo-starts_with (itoa (i + 1) <> "'"),
      )
      refl

abbrev pub prune_line : Bool → List String
prune_line true = "restic prune" ∷ []
prune_line false = []

restic_lines-prune_commands :
    (prune : Bool)
    → restic_lines (prune_commands prune ++ ("echo 'Retention policy execution completed'" ∷ []))
      ≡ prune_line prune
restic_lines-prune_commands true = refl
restic_lines-prune_commands false = refl

-- If no tag of a policy is empty and no tag and no host has a line break, the lines of the
-- retention script that begin with restic are, in this order, the command line that the command
-- builder gives for the tags, the host and the retention rules of each policy, and `restic prune`
-- where the policy asks for it and only there. The first line is `set -e`.
pub split_lines-build_retention_script :
    (policy : GlobalRetentionPolicy)
    → All HasPlainSelector policy.spec.policies
    → All NoEmptyTag policy.spec.policies
    → let lines = split_lines (build_retention_script policy) in
      (restic_lines lines ≡ map builder_line policy.spec.policies ++ prune_line policy.spec.prune)
      × ((rest : List String) × (lines ≡ "set -e" ∷ rest))
unfolding script_commands
split_lines-build_retention_script policy plain given =
    rw
      (
        split_lines-script policy plain,
        restic_lines-policy_commands policy.spec.policies 0
            (prune_commands policy.spec.prune
              ++ ("echo 'Retention policy execution completed'" ∷ []))
            given,
        restic_lines-prune_commands policy.spec.prune,
      )
      (refl, (_, refl))
