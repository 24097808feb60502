-- ===== src/Discovery/Tests.antt =====
-- The discovery at a small disk.
use forksan.Prelude.{
  arith, wrapping_mul, trim_start, trim_end, trim, text_leb, strip_prefix, is_whitespace, to_string,
  parse_u64, parse_digits, is_digit, decimal, contains, any, find, sort_by, join, filter, split,
  starts_with, text_beq, ◌≡◌, refl, true, false, [], ◌∷◌, none, some, Text, codes, text_eq, ◌==◌,
  if◌then◌else◌, Option,
}
use forksan.Yaml.{get_key, boolean, string, number, mapping, entry, end}
use forksan.Frontmatter.{label, is_supported, idle, context_tokens}
use forksan.Frontmatter.File.{
  throttle_of, run_on_of, run_on_entries, parse_front, or_default, list_of, has_fork_like_keys,
  define_fork, is_marked, parse_raw, split_frontmatter, parse_fork_file, RawFork,
}
use forksan.FileSystem.{is_absolute, join_path, ancestors, canonical, FileSystem}
use forksan.Discovery.Scan.{scan_forks_dir-terminates}
use forksan.Discovery.Names.{
  IsDiscovered, discover_forks-IsDiscovered, discover_forks-project_first,
}
use forksan.Discovery.Project.{IsRoot, project_root_lem}
use forksan.Discovery.{
  with_user_root, project_roots, scan_fuel, Found, project_root, warn, skipped, shadowed,
  read_failed, not_treated, named, insert_read, push_fork, insert_parse, insert_entry, insert_bare,
  scan_item, scan_items, scan_names, scan_forks_dir, or_nothing, ForkEntry, fork_roots,
  discover_forks, scan_roots, none_yet,
}
use forksan.Duration.{parse_duration_yaml, parse_duration_str}
use forksan.Frontmatter.Parse.{
  trim_end_percent, push_tags, push_split, push_pieces, push_deps, plain_trigger, percent_of,
  parse_token_count, parse_tags, parse_run_on_entry, parse_percent, parse_after_entry, parse_after,
  keyed_trigger, checked, about_fork,
}

-- Frontmatter with an idle trigger and a context threshold.
abbrev pub two_triggers : RawFork
two_triggers = record {
  marker = some (boolean true);
  description = none;
  run_on = some (
      string (codes "idle")
      ∷ mapping (entry (string (codes "context_tokens")) (number (some 10)) end)
      ∷ []);
  throttle = none;
  after = none;
  overlap = none;
  tags = none;
  delivery = none;
  model = none;
  allowed_tools = none;
  permission_mode = none;
  rag = none;
  triggers = none;
}

-- One definition file, in the project's folder.
abbrev pub disk : FileSystem
disk = record {
  canonicalize = λ path. some path;
  is_dir = λ path. path == codes "/p/.autofork/forks";
  is_file = λ path. false;
  exists = λ path. false;
  read_dir = λ path. some (codes "learner.md" ∷ []);
  read_to_string = λ path.
      if path == codes "/p/.autofork/forks/learner.md"
      then some (codes "---\nfork: true\n---\nlearn")
      else none;
  read_error = λ path. [];
}

abbrev pub two_triggers_of : Text → Option RawFork
two_triggers_of yaml = some two_triggers

abbrev pub learner_entry : ForkEntry
learner_entry = record {
  name = codes "learner";
  path = codes "/p/.autofork/forks/learner.md";
  root = codes "/p/.autofork/forks";
  parsed = record {
    def = record {
      description = none;
      run_on = idle none ∷ context_tokens 10 ∷ [];
      throttle_secs = none;
      after = [];
      overlap = false;
      tags = [];
    };
    body = codes "learn";
    warnings = [];
  };
}

fork_roots-learner :
    fork_roots disk (codes "/p") (some (codes "/home/.autofork/forks"))
    ≡ codes "/p/.autofork/forks" ∷ []
unfolding fork_roots text_beq canonical ancestors join_path starts_with split filter join
fork_roots-learner = refl

scan_roots-learner :
    scan_roots disk two_triggers_of (codes "/p/.autofork/forks" ∷ []) none_yet
    ≡ some (record { entries = learner_entry ∷ []; warnings = [] })
unfolding scan_roots scan_forks_dir scan_names scan_items sort_by scan_item starts_with text_beq
    join_path insert_bare insert_entry insert_parse parse_fork_file split_frontmatter parse_raw
    is_marked push_fork find insert_read named not_treated read_failed shadowed skipped warn
    parse_duration_str parse_duration_yaml is_absolute define_fork has_fork_like_keys list_of
    or_default parse_front run_on_entries run_on_of throttle_of about_fork checked keyed_trigger
    parse_after parse_after_entry parse_percent parse_run_on_entry parse_tags parse_token_count
    percent_of plain_trigger push_deps push_pieces push_split push_tags trim_end_percent
    is_supported label any contains decimal is_digit parse_digits parse_u64 to_string split
    is_whitespace strip_prefix text_leb trim trim_end trim_start wrapping_mul get_key
scan_roots-learner = refl

pub discover_forks-learner :
    discover_forks disk two_triggers_of (codes "/p") (some (codes "/home/.autofork/forks"))
    ≡ record { entries = learner_entry ∷ []; warnings = [] }
unfolding discover_forks or_nothing
discover_forks-learner = rw (fork_roots-learner, scan_roots-learner) refl

scan_forks_dir-terminates_example :
    (result : Found) × (scan_forks_dir disk two_triggers_of 12
        (codes "/p/.autofork/forks")
        (codes "/p/.autofork/forks")
        0
        none_yet
      ≡ some result)
    × (scan_forks_dir disk two_triggers_of scan_fuel
          (codes "/p/.autofork/forks")
          (codes "/p/.autofork/forks")
          0
          none_yet
        ≡ some result)
scan_forks_dir-terminates_example =
    scan_forks_dir-terminates disk two_triggers_of 12 (codes "/p/.autofork/forks")
      (codes "/p/.autofork/forks") none_yet (omega arith)

discover_forks-IsDiscovered_example :
    IsDiscovered disk two_triggers_of
      (fork_roots disk (codes "/p") (some (codes "/home/.autofork/forks")))
      (discover_forks disk two_triggers_of
        (codes "/p")
        (some (codes "/home/.autofork/forks"))).entries
discover_forks-IsDiscovered_example =
    discover_forks-IsDiscovered disk two_triggers_of (codes "/p")
      (some (codes "/home/.autofork/forks"))

find-learner :
    find (named (codes "learner")) (discover_forks disk two_triggers_of (codes "/p") none).entries
    ≡ some learner_entry
unfolding find discover_forks or_nothing scan_roots fork_roots ancestors text_beq join_path
    starts_with canonical scan_forks_dir scan_names scan_items sort_by scan_item split filter
    insert_bare insert_entry insert_parse insert_read named not_treated project_roots push_fork
    read_failed shadowed skipped warn with_user_root parse_duration_str parse_duration_yaml
    is_absolute define_fork has_fork_like_keys is_marked list_of or_default parse_fork_file
    parse_front parse_raw run_on_entries run_on_of split_frontmatter throttle_of about_fork checked
    keyed_trigger parse_after parse_after_entry parse_percent parse_run_on_entry parse_tags
    parse_token_count percent_of plain_trigger push_deps push_pieces push_split push_tags
    trim_end_percent is_supported label any contains decimal is_digit parse_digits parse_u64
    to_string join is_whitespace strip_prefix text_leb trim trim_end trim_start wrapping_mul get_key
find-learner = refl

discover_forks-project_first_example :
    find
      (named (codes "learner"))
      (discover_forks disk two_triggers_of
        (codes "/p")
        (some (codes "/home/.autofork/forks"))).entries
    ≡ some learner_entry
discover_forks-project_first_example =
    discover_forks-project_first disk two_triggers_of (codes "/p")
      (some (codes "/home/.autofork/forks")) (codes "learner") learner_entry find-learner

-- A repository with a nearer `.autofork`.
abbrev nested : FileSystem
nested = record disk {
  is_dir = λ path. path == codes "/r/a/.autofork";
  exists = λ path. path == codes "/r/.git";
}

project_root-nested : project_root nested (codes "/r/a/b") ≡ codes "/r/a"
unfolding project_root find ancestors text_beq join_path starts_with canonical split filter join
project_root-nested = refl

project_root-git : project_root nested (codes "/r/c") ≡ codes "/r"
unfolding project_root find ancestors text_beq join_path starts_with canonical split filter join
project_root-git = refl

project_root_lem_example :
    IsRoot nested (canonical nested (codes "/r/a/b")) (project_root nested (codes "/r/a/b"))
project_root_lem_example = project_root_lem nested (codes "/r/a/b")
