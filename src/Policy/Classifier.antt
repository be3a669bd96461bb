-- ===== src/Policy/Classifier.antt =====
-- internal/controlplane/core/approvalpolicy/capacity_policy.go and internal/probe/executor/classifier.go:
-- the control plane's classifier against the probe's, which is written apart from it.
use Prim.Native.Char.{Char, code}
use Prim.Native.String as Str
use legator.Common.{
  String, Bool, true, false, ◌&&◌, ◌||◌, ◌==◌, ◌≡◌, ◌≢◌, refl, sym, ap, ◌∙◌, inl, inr, List, [],
  ◌∷◌, arith, str_eq, eq_iff, starts_with, some_of, some_of-append, if◌then◌else◌, Bool-cases,
}
use legator.Common.Text.{trim_space, join_space, has_prefix_in}
use text.Mathlib.TextEquality.{starts_with_iff}
use text.Mathlib.TextLemmas.{append_assoc}
use legator.Protocol.{observe, diagnose, remediate}
use legator.Executor.Tables.{observe_commands}
use legator.Executor.Classifier.{
  contains, full_line, base_word, word_of, base_of, with_args, is_remediate, has_observe_prefix,
  is_observe_command, has_diagnose_prefix, is_diagnose_command, finds_and_changes, wget_writes,
  rule_of, remediate_prefix, observe_prefix, find_mutation_flags, observe_command, wget_output_file,
  diagnose_prefix, diagnose_command, unknown_mutation_signature, answer_of,
  classify_command_with_metadata,
}
use legator.Policy.Commands.{
  control_observe_commands, control_remediate_prefixes, control_observe_prefixes,
  control_diagnose_prefixes, control_diagnose_commands, is_in, control_result, classify_parts,
  up_to_blank, cut_base, full_text, normalize_command_parts, classify_for_control,
}

starts_with_shorter : (s : String) → starts_with s " -o " ≡ true → starts_with s " -o" ≡ true
starts_with_shorter s h =
    let (rest, e) = (starts_with_iff s " -o ").0 h in
    (starts_with_iff s " -o").1 (Str.◌++◌ " " rest, sym (append_assoc " -o" " " rest) ∙ e)

contains_shorter : (s : String) → contains s " -o " ≡ true → contains s " -o" ≡ true
unfolding contains
contains_shorter String.[] h = starts_with_shorter "" h
contains_shorter (String.◌∷◌ c s) h =
    ground (arith, h, contains_shorter s, starts_with_shorter (String.◌∷◌ c s))

wget_writes_lem :
    (full base : String) → wget_writes full base ≡ (starts_with base "wget" && contains full " -o")
unfolding wget_writes
wget_writes_lem full base = ground (arith, contains_shorter full)

shells : List String
shells = "sh" ∷ "bash" ∷ []

no_shell :
    (base : String) → base ≢ "sh" → base ≢ "bash" → some_of (λ c. str_eq base c) shells ≡ false
unfolding shells
no_shell base sh bash = ground (arith, eq_iff base "sh", eq_iff base "bash")

or_false : (a b : Bool) → b ≡ false → (a || b) ≡ a
or_false true b h = refl
or_false false b h = h

is_in-control_observe_commands :
    (base : String)
    → base ≢ "sh"
    → base ≢ "bash"
    → is_in base control_observe_commands ≡ is_observe_command base
unfolding shells is_observe_command
is_in-control_observe_commands base sh bash =
    some_of-append (λ c. str_eq base c) observe_commands shells
    ∙ or_false (some_of (λ c. str_eq base c) observe_commands) _ (no_shell base sh bash)

-- The returns of the two functions agree, whatever their tests give.
same_rules :
    (a b c d e f g : Bool)
    → (if a
        then control_result remediate "mutation" true "classifier.remediate_prefix"
        else if b
        then control_result observe "observe" true "classifier.observe_prefix"
        else if c
        then if d
          then control_result remediate "mutation" true "classifier.find_mutation_flags"
          else control_result observe "observe" true "classifier.observe_command"
        else if e
        then if f
          then control_result remediate "mutation" true "classifier.wget_output_file"
          else control_result diagnose "diagnose" true "classifier.diagnose_prefix"
        else if g
        then control_result diagnose "diagnose" true "classifier.diagnose_command"
        else control_result remediate "mutation" false "classifier.unknown_mutation_signature")
      ≡ answer_of (
          if a
          then remediate_prefix
          else if b
          then observe_prefix
          else if c
          then if d then find_mutation_flags else observe_command
          else if e
          then if f then wget_output_file else diagnose_prefix
          else if g
          then diagnose_command
          else unknown_mutation_signature)
unfolding answer_of
same_rules true b c d e f g = refl
same_rules false true c d e f g = refl
same_rules false false true true e f g = refl
same_rules false false true false e f g = refl
same_rules false false false d true true g = refl
same_rules false false false d true false g = refl
same_rules false false false d false f true = refl
same_rules false false false d false f false = refl

classify_parts-answer_of :
    (full base : String)
    → base ≢ "sh"
    → base ≢ "bash"
    → classify_parts full base ≡ answer_of (rule_of full base)
unfolding classify_parts answer_of rule_of is_remediate has_observe_prefix has_diagnose_prefix
    is_diagnose_command finds_and_changes
classify_parts-answer_of full base sh bash =
    rw (is_in-control_observe_commands base sh bash, wget_writes_lem full base)
      (same_rules
        (has_prefix_in full control_remediate_prefixes
          || has_prefix_in base control_remediate_prefixes)
        (has_prefix_in full control_observe_prefixes) (is_observe_command base)
        (str_eq base "find" && (contains full "-exec" || contains full "-delete"))
        (has_prefix_in full control_diagnose_prefixes)
        (starts_with base "wget" && contains full " -o") (is_in base control_diagnose_commands))

up_to_blank-word_of : (s : String) → up_to_blank s ≡ word_of s
unfolding up_to_blank word_of
up_to_blank-word_of String.[] = refl
up_to_blank-word_of (String.◌∷◌ c s) = rw (up_to_blank-word_of s) refl

cons-ne-blank : (c : Char) (s : String) → String.◌∷◌ c s ≢ ""
cons-ne-blank c s h = cc

cons-not_blank : (c : Char) (s : String) → str_eq (String.◌∷◌ c s) "" ≡ false
cons-not_blank c s = elim (Bool-cases (str_eq (String.◌∷◌ c s) "")) [
  | inl e ↦ absurd (cons-ne-blank c s ((eq_iff _ _).0 e))
  | inr e ↦ e
]

cut_base-base_of : (s : String) → cut_base s ≡ base_of s
unfolding cut_base base_of
cut_base-base_of String.[] = refl
cut_base-base_of (String.◌∷◌ c s) = elim (Bool-cases ((code c == 32) || (code c == 9))) [
  | inl e ↦ rw e refl
  | inr e ↦ rw (e, cons-not_blank c (up_to_blank s)) (ap (String.◌∷◌ c) (up_to_blank-word_of s))
]

full_text-with_args : (s : String) (args : List String) → full_text s args ≡ with_args s args
unfolding full_text with_args join_space
full_text-with_args s [] = refl
full_text-with_args s (a ∷ args) = refl

-- The control plane and the probe classify every command alike, but where the first word of the
-- command is `sh` or `bash`.
pub classify_for_control_lem :
    (lower : Char → Char) (command : String) (args : List String)
    → base_word lower command ≢ "sh"
    → base_word lower command ≢ "bash"
    → classify_for_control lower command args ≡ classify_command_with_metadata lower command args
unfolding classify_for_control normalize_command_parts classify_command_with_metadata full_line
    base_word
classify_for_control_lem lower command args sh bash =
    rw (full_text-with_args (trim_space command) args, cut_base-base_of (trim_space command))
      (classify_parts-answer_of (full_line lower command args) (base_word lower command) sh bash)
