-- ===== src/Controller/Retention/Script/Laws.antt =====
-- The retention script beside the argument lists of the command builder.
use restic_backup_operator.Base.{
  String, ◌<>◌, true, Option, none, some, List, [], ◌∷◌, ◌++◌, ◌≡◌, refl, sym, subst, ℤ, pos,
  is_positive, to_nat, itoa, non_empty, All, Bool-cases, inl, inr, if◌then◌else◌,
}
use text.Mathlib.TextLemmas.{append_assoc as text_assoc, nil-append, append-nil}
use restic_backup_operator.Restic.Command.{
  CommandBuilder, add, build, new_command, with_tag, with_tags, with_host, with_keep_last,
  with_keep_hourly, with_keep_daily, with_keep_weekly, with_keep_monthly, with_keep_yearly,
}
use restic_backup_operator.Api.Retention.{RetentionPolicyEntry}
use restic_backup_operator.Controller.Pods.{or_default}
use restic_backup_operator.Controller.Retention.Script.{
  tag_filters, host_filter, keep_rule, forget_command,
}

-- Words after a command, each behind a space.
abbrev pub spaced : List String → String
spaced [] = ""
spaced (w ∷ ws) = " " <> (w <> spaced ws)

spaced-append : (xs ys : List String) → spaced (xs ++ ys) ≡ spaced xs <> spaced ys
spaced-append [] ys = sym (nil-append (spaced ys))
spaced-append (x ∷ xs) ys =
    rw
      (
        spaced-append xs ys,
        text_assoc " " (x <> spaced xs) (spaced ys),
        text_assoc x (spaced xs) (spaced ys),
      )
      refl

-- The text is the command line of the builder.
record Renders (cmd : String) (b : CommandBuilder) : Type 0 where
  line : cmd ≡ "restic" <> spaced b.args

abbrev pair_text : String → String → String
pair_text flag v = spaced (flag ∷ v ∷ [])

add-Renders :
    {cmd : String} {b : CommandBuilder} (ws : List String)
    → Renders cmd b
    → Renders (cmd <> spaced ws) (add b ws)
add-Renders {cmd} {b} ws r = record {
  line = rw (r.line, spaced-append b.args ws) (text_assoc "restic" (spaced b.args) (spaced ws));
}

-- The text of a flag with its space, its name and a space, and a value.
pair-Renders :
    {cmd : String} {b : CommandBuilder} (flag v : String)
    → Renders cmd b
    → Renders (cmd <> ((" " <> (flag <> " ")) <> v)) (add b (flag ∷ v ∷ []))
pair-Renders {cmd} {b} flag v r =
    rw (text_assoc " " (flag <> " ") v, text_assoc flag " " v)
      (subst (λ u. Renders (cmd <> (" " <> (flag <> (" " <> u)))) (add b (flag ∷ v ∷ [])))
        (append-nil v) (add-Renders (flag ∷ v ∷ []) r))

tag_filters-Renders :
    (tags : List String) {cmd : String} {b : CommandBuilder}
    → All (λ tag. non_empty tag ≡ true) tags
    → Renders cmd b
    → Renders (tag_filters cmd tags) (with_tags b tags)
unfolding tag_filters with_tags with_tag
tag_filters-Renders [] _ r = r
tag_filters-Renders (tag ∷ tags) {cmd} {b} (given, rest) r =
    tag_filters-Renders tags rest (rw given (pair-Renders "--tag" tag r))

host_filter-Renders :
    {cmd : String} {b : CommandBuilder} (hostname : String)
    → Renders cmd b
    → Renders (host_filter cmd hostname) (with_host b hostname)
unfolding host_filter with_host
host_filter-Renders hostname r = elim (Bool-cases (non_empty hostname)) [
  | inl given ↦ rw given (pair-Renders "--host" hostname r)
  | inr absent ↦ rw absent r
]

-- An optional rule, beside the builder's rule for the number with 0 for nil.
keep_rule-Renders :
    {cmd : String} {b : CommandBuilder} (flag : String) (o : Option ℤ)
    → Renders cmd b
    → Renders (keep_rule cmd (" " <> (flag <> " ")) o) (
        if is_positive (or_default o (pos 0))
        then add b (flag ∷ itoa (to_nat (or_default o (pos 0))) ∷ [])
        else b)
unfolding keep_rule
keep_rule-Renders flag none r = r
keep_rule-Renders {cmd} {b} flag (some n) r = elim (Bool-cases (is_positive n)) [
  | inr zero_ ↦ rw zero_ r
  | inl kept ↦ rw kept (pair-Renders flag (itoa (to_nat n)) r)
]

-- The argument list of the builder for the rules of a policy, without the output format.
abbrev pub forget_builder : RetentionPolicyEntry → CommandBuilder
forget_builder p =
    let kept : Option ℤ → ℤ = λ o. or_default o (pos 0) in
    let b = with_host (with_tags (new_command "forget") p.selector.tags) p.selector.hostname in
    let b = with_keep_last b (kept p.retention.keep_last) in
    let b =
      with_keep_daily (with_keep_hourly b (kept p.retention.keep_hourly))
        (kept p.retention.keep_daily) in
    let b =
      with_keep_monthly (with_keep_weekly b (kept p.retention.keep_weekly))
        (kept p.retention.keep_monthly) in
    with_keep_yearly b (kept p.retention.keep_yearly)

forget_command-Renders :
    (p : RetentionPolicyEntry)
    → All (λ tag. non_empty tag ≡ true) p.selector.tags
    → Renders (forget_command p) (forget_builder p)
unfolding forget_command with_keep_last with_keep_hourly with_keep_daily with_keep_weekly
    with_keep_monthly with_keep_yearly new_command
forget_command-Renders p given = keep_rule-Renders "--keep-yearly" p.retention.keep_yearly (
    keep_rule-Renders "--keep-monthly" p.retention.keep_monthly (
      keep_rule-Renders "--keep-weekly" p.retention.keep_weekly (
        keep_rule-Renders "--keep-daily" p.retention.keep_daily (
          keep_rule-Renders "--keep-hourly" p.retention.keep_hourly (
            keep_rule-Renders "--keep-last" p.retention.keep_last (
              host_filter-Renders p.selector.hostname
                (tag_filters-Renders p.selector.tags given (record { line = refl }))))))))

-- If no tag is empty, the command of a policy is restic with the words of the argument list that
-- the command builder gives for the same tags, host and retention rules, each after a space.
pub forget_command-build :
    (p : RetentionPolicyEntry)
    → All (λ tag. non_empty tag ≡ true) p.selector.tags
    → forget_command p ≡ "restic" <> spaced (build (forget_builder p))
unfolding build
forget_command-build p given = (forget_command-Renders p given).line
