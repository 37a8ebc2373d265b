-- ===== src/Restic/Command/Laws.antt =====
-- What the built argument lists say to a parser of long options.
use restic_backup_operator.Base.{
  String, Bool, true, false, List, [], ◌∷◌, ◌++◌, ◌≡◌, refl, ◌∙◌, sym, subst, ap, ℤ, is_positive,
  to_nat, itoa, non_empty, if◌then◌else◌,
}
use mathlib.Core.List.{append_assoc, append-nil}
use restic_backup_operator.Restic.Command.{
  CommandBuilder, add, with_arg, new_command, with_json, with_tag, with_tags, with_host,
  with_exclude, with_excludes, with_include, with_includes, with_target, with_keep_last,
  with_keep_hourly, with_keep_daily, with_keep_weekly, with_keep_monthly, with_keep_yearly,
  with_group_by, with_prune, with_dry_run, with_mode,
}
use restic_backup_operator.Restic.Command.Words.{Word, plain, option, takes_value, words}

-- The arguments so far are read as `ws`, whatever follows them.
pub record Says (b : CommandBuilder) (ws : List Word) : Type 0 where
  pub reads : (rest : List String) → words (b.args ++ rest) ≡ ws ++ words rest

words-switch :
    (a : String)
    → takes_value a ≡ false
    → (rest : List String) → words (a ∷ rest) ≡ plain a ∷ words rest
unfolding words
words-switch a h [] = refl
words-switch a h (x ∷ xs) = rw (h, words)

words-option :
    (a v : String)
    → takes_value a ≡ true
    → (rest : List String) → words (a ∷ v ∷ rest) ≡ option a v ∷ words rest
unfolding words
words-option a v h rest = rw (h, words)

pub Says-new_command :
    (cmd : String) → takes_value cmd ≡ false → Says (new_command cmd) (plain cmd ∷ [])
unfolding new_command
Says-new_command cmd h = record { reads = words-switch cmd h }

pub Says-plain :
    {b : CommandBuilder} {ws : List Word} (a : String)
    → takes_value a ≡ false
    → Says b ws
    → Says (add b (a ∷ [])) (ws ++ (plain a ∷ []))
Says-plain {b} {ws} a h s = record {
  reads = λ rest.
      rw (append_assoc b.args, append_assoc ws)
        (s.reads (a ∷ rest) ∙ ap (λ t. ws ++ t) (words-switch a h rest));
}

pub Says-option :
    {b : CommandBuilder} {ws : List Word} (a v : String)
    → takes_value a ≡ true
    → Says b ws
    → Says (add b (a ∷ v ∷ [])) (ws ++ (option a v ∷ []))
Says-option {b} {ws} a v h s = record {
  reads = λ rest.
      rw (append_assoc b.args, append_assoc ws)
        (s.reads (a ∷ v ∷ rest) ∙ ap (λ t. ws ++ t) (words-option a v h rest));
}

pub Says-nothing : {b : CommandBuilder} {ws : List Word} → Says b ws → Says b (ws ++ [])
Says-nothing {b} {ws} s = subst (Says b) (sym (append-nil ws)) s

-- What an optional text says, and an optional number.
abbrev pub text_word : String → String → List Word
text_word flag value = if non_empty value then option flag value ∷ [] else []

abbrev pub number_word : String → ℤ → List Word
number_word flag n = if is_positive n then option flag (itoa (to_nat n)) ∷ [] else []

abbrev pub text_words : String → List String → List Word
text_words flag [] = []
text_words flag (value ∷ values) = text_word flag value ++ text_words flag values

-- The methods that add an option under a test.
Says-if :
    (test : Bool) {b : CommandBuilder} {ws : List Word} (a v : String)
    → takes_value a ≡ true
    → Says b ws
    → Says (if test then add b (a ∷ v ∷ []) else b) (ws ++ (if test then option a v ∷ [] else []))
Says-if true a v h s = Says-option a v h s
Says-if false a v h s = Says-nothing s

pub Says-with_host :
    {b : CommandBuilder} {ws : List Word} (v : String)
    → Says b ws
    → Says (with_host b v) (ws ++ text_word "--host" v)
unfolding with_host takes_value
Says-with_host v s = Says-if _ "--host" _ refl s

pub Says-with_tag :
    {b : CommandBuilder} {ws : List Word} (v : String)
    → Says b ws
    → Says (with_tag b v) (ws ++ text_word "--tag" v)
unfolding with_tag takes_value
Says-with_tag v s = Says-if _ "--tag" _ refl s

pub Says-with_tags :
    (vs : List String) {b : CommandBuilder} {ws : List Word}
    → Says b ws
    → Says (with_tags b vs) (ws ++ text_words "--tag" vs)
unfolding with_tags
Says-with_tags [] s = Says-nothing s
Says-with_tags (v ∷ vs) {ws = ws} s =
    subst (Says _) (append_assoc ws (text_word "--tag" v) (text_words "--tag" vs))
      (Says-with_tags vs (Says-with_tag v s))

pub Says-with_exclude :
    {b : CommandBuilder} {ws : List Word} (v : String)
    → Says b ws
    → Says (with_exclude b v) (ws ++ text_word "--exclude" v)
unfolding with_exclude takes_value
Says-with_exclude v s = Says-if _ "--exclude" _ refl s

pub Says-with_excludes :
    (vs : List String) {b : CommandBuilder} {ws : List Word}
    → Says b ws
    → Says (with_excludes b vs) (ws ++ text_words "--exclude" vs)
unfolding with_excludes
Says-with_excludes [] s = Says-nothing s
Says-with_excludes (v ∷ vs) {ws = ws} s =
    subst (Says _) (append_assoc ws (text_word "--exclude" v) (text_words "--exclude" vs))
      (Says-with_excludes vs (Says-with_exclude v s))

pub Says-with_include :
    {b : CommandBuilder} {ws : List Word} (v : String)
    → Says b ws
    → Says (with_include b v) (ws ++ text_word "--include" v)
unfolding with_include takes_value
Says-with_include v s = Says-if _ "--include" _ refl s

pub Says-with_includes :
    (vs : List String) {b : CommandBuilder} {ws : List Word}
    → Says b ws
    → Says (with_includes b vs) (ws ++ text_words "--include" vs)
unfolding with_includes
Says-with_includes [] s = Says-nothing s
Says-with_includes (v ∷ vs) {ws = ws} s =
    subst (Says _) (append_assoc ws (text_word "--include" v) (text_words "--include" vs))
      (Says-with_includes vs (Says-with_include v s))

pub Says-with_target :
    {b : CommandBuilder} {ws : List Word} (v : String)
    → Says b ws
    → Says (with_target b v) (ws ++ text_word "--target" v)
unfolding with_target takes_value
Says-with_target v s = Says-if _ "--target" _ refl s

pub Says-with_keep_last :
    {b : CommandBuilder} {ws : List Word} (v : ℤ)
    → Says b ws
    → Says (with_keep_last b v) (ws ++ number_word "--keep-last" v)
unfolding with_keep_last takes_value
Says-with_keep_last v s = Says-if _ "--keep-last" _ refl s

pub Says-with_keep_hourly :
    {b : CommandBuilder} {ws : List Word} (v : ℤ)
    → Says b ws
    → Says (with_keep_hourly b v) (ws ++ number_word "--keep-hourly" v)
unfolding with_keep_hourly takes_value
Says-with_keep_hourly v s = Says-if _ "--keep-hourly" _ refl s

pub Says-with_keep_daily :
    {b : CommandBuilder} {ws : List Word} (v : ℤ)
    → Says b ws
    → Says (with_keep_daily b v) (ws ++ number_word "--keep-daily" v)
unfolding with_keep_daily takes_value
Says-with_keep_daily v s = Says-if _ "--keep-daily" _ refl s

pub Says-with_keep_weekly :
    {b : CommandBuilder} {ws : List Word} (v : ℤ)
    → Says b ws
    → Says (with_keep_weekly b v) (ws ++ number_word "--keep-weekly" v)
unfolding with_keep_weekly takes_value
Says-with_keep_weekly v s = Says-if _ "--keep-weekly" _ refl s

pub Says-with_keep_monthly :
    {b : CommandBuilder} {ws : List Word} (v : ℤ)
    → Says b ws
    → Says (with_keep_monthly b v) (ws ++ number_word "--keep-monthly" v)
unfolding with_keep_monthly takes_value
Says-with_keep_monthly v s = Says-if _ "--keep-monthly" _ refl s

pub Says-with_keep_yearly :
    {b : CommandBuilder} {ws : List Word} (v : ℤ)
    → Says b ws
    → Says (with_keep_yearly b v) (ws ++ number_word "--keep-yearly" v)
unfolding with_keep_yearly takes_value
Says-with_keep_yearly v s = Says-if _ "--keep-yearly" _ refl s

pub Says-with_group_by :
    {b : CommandBuilder} {ws : List Word} (v : String)
    → Says b ws
    → Says (with_group_by b v) (ws ++ text_word "--group-by" v)
unfolding with_group_by takes_value
Says-with_group_by v s = Says-if _ "--group-by" _ refl s

pub Says-with_mode :
    {b : CommandBuilder} {ws : List Word} (v : String)
    → Says b ws
    → Says (with_mode b v) (ws ++ text_word "--mode" v)
unfolding with_mode takes_value
Says-with_mode v s = Says-if _ "--mode" _ refl s

pub Says-with_json :
    {b : CommandBuilder} {ws : List Word}
    → Says b ws
    → Says (with_json b) (ws ++ (plain "--json" ∷ []))
unfolding with_json takes_value
Says-with_json s = Says-plain "--json" refl s

pub Says-with_prune :
    {b : CommandBuilder} {ws : List Word}
    → Says b ws
    → Says (with_prune b) (ws ++ (plain "--prune" ∷ []))
unfolding with_prune takes_value
Says-with_prune s = Says-plain "--prune" refl s

pub Says-with_dry_run :
    {b : CommandBuilder} {ws : List Word}
    → Says b ws
    → Says (with_dry_run b) (ws ++ (plain "--dry-run" ∷ []))
unfolding with_dry_run takes_value
Says-with_dry_run s = Says-plain "--dry-run" refl s

Says-plain_if :
    (test : Bool) {b : CommandBuilder} {ws : List Word} (a : String)
    → takes_value a ≡ false
    → Says b ws
    → Says (if test then add b (a ∷ []) else b) (ws ++ (if test then plain a ∷ [] else []))
Says-plain_if true a h s = Says-plain a h s
Says-plain_if false a h s = Says-nothing s

pub Says-with_arg :
    {b : CommandBuilder} {ws : List Word} (a : String)
    → takes_value a ≡ false
    → Says b ws
    → Says (with_arg b a) (ws ++ (if non_empty a then plain a ∷ [] else []))
unfolding with_arg
Says-with_arg a h s = Says-plain_if (non_empty a) a h s
