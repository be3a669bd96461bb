-- ===== src/Executor/Tests.antt =====
-- internal/probe/executor: commands that a probe classifies, runs and refuses.
use legator.Common.{false, ◌≡◌, ◌↔◌, refl, [], ◌∷◌, ok, err}
use legator.Common.Ascii.{ascii_lower}
use legator.Common.Text.{trim_space, map_chars, join_space, has_prefix_in}
use legator.Protocol.{observe, remediate, CommandPayload}
use legator.Executor.Classifier.{
  IsReadOnly, classify_command, full_line, base_word, classify_command_lem, contains, word_of,
  base_of, with_args, finds_and_changes, wget_writes, is_remediate, has_observe_prefix,
  is_observe_command, has_diagnose_prefix, rule_of, answer_of, classify_command_with_metadata,
}
use legator.Executor.Spec.{ExecSpec, build_exec_spec}
use legator.Executor.Gate.{
  Policy, Launch, IsPermitted, execute, effective_level, level_rank, matches_prefix, is_empty,
  level_refused, execute_iff, observe_probe_reads,
}

abbrev listing : CommandPayload
listing = record {
  request_id = "r1";
  command = " LS";
  args = "-l" ∷ [];
  timeout = 0;
  level = observe;
  stream = false;
}

-- A deletion that its caller declares as observe.
abbrev deletion : CommandPayload
deletion = record listing { command = "rm"; args = "-rf" ∷ "/data" ∷ [] }

abbrev watching : Policy
watching = record { level = observe; allowed = []; blocked = "cat /etc/shadow" ∷ []; paths = [] }

abbrev listing_spec : ExecSpec
listing_spec = record { name = " LS"; args = "-l" ∷ [] }

abbrev launched : Launch
launched = record { spec = listing_spec; timeout = 30_000_000_000 }

listing_runs : execute ascii_lower false watching listing ≡ ok launched
unfolding execute effective_level level_rank matches_prefix is_empty classify_command
    classify_command_with_metadata full_line base_word with_args base_of word_of trim_space
    map_chars join_space rule_of answer_of is_remediate has_observe_prefix is_observe_command
    has_prefix_in finds_and_changes contains ascii_lower build_exec_spec
listing_runs = refl

deletion_refused : execute ascii_lower false watching deletion ≡ err (level_refused remediate)
unfolding execute effective_level level_rank matches_prefix is_empty classify_command
    classify_command_with_metadata full_line base_word with_args base_of word_of trim_space
    map_chars join_space rule_of answer_of is_remediate has_observe_prefix is_observe_command
    has_prefix_in finds_and_changes contains ascii_lower build_exec_spec
deletion_refused = refl

-- A command that `env` runs is classified by `env`.
env_hides : classify_command ascii_lower "env" ("rm" ∷ "-rf" ∷ "/data" ∷ []) ≡ observe
unfolding classify_command classify_command_with_metadata full_line base_word with_args base_of
    word_of trim_space map_chars join_space rule_of answer_of is_remediate has_observe_prefix
    is_observe_command has_prefix_in finds_and_changes contains ascii_lower
env_hides = refl

wget_known : classify_command ascii_lower "wget" ("-O" ∷ "x" ∷ "u" ∷ []) ≡ remediate
unfolding classify_command classify_command_with_metadata full_line base_word with_args base_of
    word_of trim_space map_chars join_space rule_of answer_of is_remediate has_observe_prefix
    is_observe_command has_prefix_in finds_and_changes contains ascii_lower has_diagnose_prefix
    wget_writes
wget_known = refl

classify_command_lem_example :
    (classify_command ascii_lower "find" ("." ∷ "-delete" ∷ []) ≡ observe)
    ↔ IsReadOnly
        (full_line ascii_lower "find" ("." ∷ "-delete" ∷ []))
        (base_word ascii_lower "find")
classify_command_lem_example = classify_command_lem ascii_lower "find" ("." ∷ "-delete" ∷ [])

execute_iff_example :
    ((l : Launch) × (execute ascii_lower false watching listing ≡ ok l) × (l.spec ≡ listing_spec))
    ↔ (IsPermitted ascii_lower watching listing
        × (build_exec_spec ascii_lower false listing ≡ ok listing_spec))
execute_iff_example = execute_iff ascii_lower false watching listing listing_spec

observe_probe_reads_example :
    IsReadOnly (full_line ascii_lower " LS" ("-l" ∷ [])) (base_word ascii_lower " LS")
observe_probe_reads_example =
    observe_probe_reads ascii_lower false watching listing launched refl listing_runs
