-- ===== src/CommandLine/Screens.antt =====
-- What the command line prints: proj/subpjx/CommandLine/src/imp.rs. The text of specs/help.md is a
-- parameter.
use kitchensync.Base.{
  codes, Text, Bool, true, false, ◌||◌, Option, none, some, ◌++◌, split_once_text,
}
use kitchensync.CommandLine.Types.{
  CommandLineValidationError, CommandLineVerbosity, error, info, debug, trace,
  CommandLineProcessOutput,
}

abbrev pub same_verbosity : CommandLineVerbosity → CommandLineVerbosity → Bool
same_verbosity error error = true
same_verbosity info info = true
same_verbosity debug debug = true
same_verbosity trace trace = true
same_verbosity _ _ = false

unfoldable pub should_emit : CommandLineVerbosity → CommandLineVerbosity → Bool
should_emit error message_verbosity = same_verbosity message_verbosity error
should_emit info message_verbosity =
    same_verbosity message_verbosity error || same_verbosity message_verbosity info
should_emit debug message_verbosity =
    same_verbosity message_verbosity error || same_verbosity message_verbosity info
should_emit trace message_verbosity = true

-- The text between the first fence and the next; `none` is a panic of `expect`.
unfoldable pub help_text : Text → Option Text
unfolding split_once_text
help_text help_spec = elim (split_once_text (codes "```\n") help_spec) [
  | none ↦ none
  | some (_, rest) ↦ elim (split_once_text (codes "```") rest) [
    | none ↦ none
    | some (screen, _) ↦ some screen
  ]
]

unfoldable pub help_output : Text → Option CommandLineProcessOutput
unfolding help_text
help_output help_spec = elim (help_text help_spec) [
  | none ↦ none
  | some screen ↦ some (record { stdout = screen; exit_code = 0 })
]

unfoldable pub validation_error_output :
    Text → CommandLineValidationError → Option CommandLineProcessOutput
unfolding help_text
validation_error_output help_spec failure = elim (help_text help_spec) [
  | none ↦ none
  | some screen ↦
      some (record { stdout = failure.message ++ (codes "\n\n" ++ screen); exit_code = 1 })
]

unfoldable pub sync_complete_output : CommandLineProcessOutput
sync_complete_output = record { stdout = codes "sync complete\n"; exit_code = 0 }
