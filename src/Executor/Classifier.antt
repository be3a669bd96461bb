-- ===== src/Executor/Classifier.antt =====
-- internal/probe/executor/classifier.go: the capability level that a command line needs.
-- strings.ToLower works character by character, by a case map `lower`.
use Prim.Native.Char.{Char, code}
use legator.Common.{
  String, Bool, true, false, ◌&&◌, ◌||◌, ◌≡◌, ◌↔◌, ◌⊎◌, ◌≢◌, ◌==◌, List, [], ◌∷◌, arith, str_eq,
  starts_with, some_of, if◌then◌else◌, inl, inr, refl,
}
use legator.Common.Text.{trim_space, map_chars, join_space, has_prefix_in}
use legator.Executor.Tables.{
  observe_commands, observe_prefixes, diagnose_commands, diagnose_prefixes, remediate_prefixes,
}
use legator.Protocol.{CapabilityLevel, observe, diagnose, remediate, other}

pub record CommandClassification : Type 0 where
  pub level : CapabilityLevel
  pub category : String
  pub signature_known : Bool
  pub reason_code : String

-- strings.Contains
unfoldable pub contains : String → String → Bool
contains String.[] part = starts_with String.[] part
contains (String.◌∷◌ c s) part =
    let inside = contains s part in starts_with (String.◌∷◌ c s) part || inside

abbrev is_blank_char : Char → Bool
is_blank_char c = (code c == 32) || (code c == 9)

-- A text up to its first space or tab.
unfoldable pub word_of : String → String
word_of String.[] = String.[]
word_of (String.◌∷◌ c s) =
    let rest = word_of s in if is_blank_char c then String.[] else String.◌∷◌ c rest

-- The cut of normalizedCommand at strings.IndexAny, where that is not the first character.
unfoldable pub base_of : String → String
unfolding word_of
base_of String.[] = String.[]
base_of (String.◌∷◌ c s) = if is_blank_char c then String.◌∷◌ c s else String.◌∷◌ c (word_of s)

-- The full text of a command with its arguments.
unfoldable pub with_args : String → List String → String
with_args command [] = command
with_args command (a ∷ args) = join_space (command ∷ a ∷ args)

abbrev known : CapabilityLevel → String → String → CommandClassification
known level category reason = record {
  level = level;
  category = category;
  signature_known = true;
  reason_code = reason;
}

-- The flags that make of `find` a mutation.
unfoldable pub finds_and_changes : String → String → Bool
finds_and_changes full base =
    str_eq base "find" && (contains full "-exec" || contains full "-delete")

unfoldable pub wget_writes : String → String → Bool
wget_writes full base = starts_with base "wget" && (contains full " -o" || contains full " -o ")

-- The loops of ClassifyCommandWithMetadata over the tables, in order.
unfoldable pub is_remediate : String → String → Bool
is_remediate full base =
    has_prefix_in full remediate_prefixes || has_prefix_in base remediate_prefixes

unfoldable pub has_observe_prefix : String → Bool
has_observe_prefix full = has_prefix_in full observe_prefixes

unfoldable pub is_observe_command : String → Bool
is_observe_command base = some_of (λ c. str_eq base c) observe_commands

unfoldable pub has_diagnose_prefix : String → Bool
has_diagnose_prefix full = has_prefix_in full diagnose_prefixes

unfoldable pub is_diagnose_command : String → Bool
is_diagnose_command base = some_of (λ c. str_eq base c) diagnose_commands

-- The returns of ClassifyCommandWithMetadata.
pub data Rule : Type 0 where
  remediate_prefix observe_prefix find_mutation_flags observe_command : Rule
  wget_output_file diagnose_prefix diagnose_command unknown_mutation_signature : Rule

-- The tests of ClassifyCommandWithMetadata, on the lower-cased line and its first word.
unfoldable pub rule_of : String → String → Rule
rule_of full base =
    if is_remediate full base
    then remediate_prefix
    else if has_observe_prefix full
    then observe_prefix
    else if is_observe_command base
    then if finds_and_changes full base then find_mutation_flags else observe_command
    else if has_diagnose_prefix full
    then if wget_writes full base then wget_output_file else diagnose_prefix
    else if is_diagnose_command base
    then diagnose_command
    else unknown_mutation_signature

-- What each return answers.
unfoldable pub answer_of : Rule → CommandClassification
answer_of remediate_prefix = known remediate "mutation" "classifier.remediate_prefix"
answer_of observe_prefix = known observe "observe" "classifier.observe_prefix"
answer_of find_mutation_flags = known remediate "mutation" "classifier.find_mutation_flags"
answer_of observe_command = known observe "observe" "classifier.observe_command"
answer_of wget_output_file = known remediate "mutation" "classifier.wget_output_file"
answer_of diagnose_prefix = known diagnose "diagnose" "classifier.diagnose_prefix"
answer_of diagnose_command = known diagnose "diagnose" "classifier.diagnose_command"
answer_of unknown_mutation_signature = record {
  level = remediate;
  category = "mutation";
  signature_known = false;
  reason_code = "classifier.unknown_mutation_signature";
}

module _ (lower : Char → Char) where
  -- The first result of normalizedCommand.
  unfoldable pub full_line : String → List String → String
  full_line command args = map_chars lower (trim_space (with_args (trim_space command) args))

  -- The second result of normalizedCommand.
  unfoldable pub base_word : String → String
  base_word command = map_chars lower (trim_space (base_of (trim_space command)))

  -- ClassifyCommandWithMetadata
  unfoldable pub classify_command_with_metadata : String → List String → CommandClassification
  classify_command_with_metadata command args =
      answer_of (rule_of (full_line command args) (base_word command))

  -- ClassifyCommand
  unfoldable pub classify_command : String → List String → CapabilityLevel
  unfolding classify_command_with_metadata
  classify_command command args = (classify_command_with_metadata command args).level

-- The tables know the line as read-only, and none of the mutations matches.
abbrev pub IsReadOnly : String → String → Type 0
IsReadOnly full base =
    (is_remediate full base ≡ false)
    × ((has_observe_prefix full ≡ true)
        ⊎ (is_observe_command base ≡ true) × (finds_and_changes full base ≡ false))

-- The tables know the line as a probing of the host that is not read-only.
abbrev pub IsProbing : String → String → Type 0
IsProbing full base =
    (is_remediate full base ≡ false)
    × (has_observe_prefix full ≡ false)
    × (is_observe_command base ≡ false)
    × ((has_diagnose_prefix full ≡ true) × (wget_writes full base ≡ false)
        ⊎ (has_diagnose_prefix full ≡ false) × (is_diagnose_command base ≡ true))

observing :
    (r : Rule) → ((answer_of r).level ≡ observe) ↔ ((r ≡ observe_prefix) ⊎ (r ≡ observe_command))
unfolding answer_of
observing remediate_prefix = (λ h. ground arith, λ h. ground arith)
observing observe_prefix = (λ h. inl refl, λ h. refl)
observing find_mutation_flags = (λ h. ground arith, λ h. ground arith)
observing observe_command = (λ h. inr refl, λ h. refl)
observing wget_output_file = (λ h. ground arith, λ h. ground arith)
observing diagnose_prefix = (λ h. ground arith, λ h. ground arith)
observing diagnose_command = (λ h. ground arith, λ h. ground arith)
observing unknown_mutation_signature = (λ h. ground arith, λ h. ground arith)

rule_of-IsReadOnly :
    (full base : String)
    → (((rule_of full base ≡ observe_prefix) ⊎ (rule_of full base ≡ observe_command))
        ↔ IsReadOnly full base)
unfolding rule_of
rule_of-IsReadOnly full base = (λ h. ground arith, λ h. ground arith)

answer_of_known : (r : Rule) (s : String) → (answer_of r).level ≢ other s
unfolding answer_of
answer_of_known remediate_prefix s h = ground arith
answer_of_known observe_prefix s h = ground arith
answer_of_known find_mutation_flags s h = ground arith
answer_of_known observe_command s h = ground arith
answer_of_known wget_output_file s h = ground arith
answer_of_known diagnose_prefix s h = ground arith
answer_of_known diagnose_command s h = ground arith
answer_of_known unknown_mutation_signature s h = ground arith

module _ (lower : Char → Char) where
  -- A command is classified as observe exactly if no mutation prefix matches its line or its first
  -- word, and either an observe prefix matches the line or the first word is an observe command,
  -- and then not `find` with a flag that changes files.
  pub classify_command_lem :
      (command : String) (args : List String)
      → (classify_command lower command args ≡ observe)
        ↔ IsReadOnly (full_line lower command args) (base_word lower command)
  unfolding classify_command
  classify_command_lem command args =
      let rule = rule_of (full_line lower command args) (base_word lower command) in
      let (to, from) = observing rule in
      let (to', from') =
        rule_of-IsReadOnly (full_line lower command args) (base_word lower command) in
      (λ h. to' (to h), λ h. from (from' h))

  -- The classifier answers one of the three levels.
  pub classify_command_known :
      (command : String) (args : List String) (s : String)
      → classify_command lower command args ≢ other s
  unfolding classify_command
  classify_command_known command args s h =
      answer_of_known (rule_of (full_line lower command args) (base_word lower command)) s h
