-- ===== src/Frontmatter/Tests.antt =====
-- Labels of concrete triggers.
use forksan.Prelude.{◌↔◌, true, [], none, some, strip_prefix, text_beq}
use forksan.Duration.{parse_duration_yaml}
use forksan.Yaml.{boolean, number, string, mapping, entry, end}
use forksan.Frontmatter.{idle, ParsedFork, fork}
use forksan.Frontmatter.Parse.{parse_percent, parse_run_on_entry}
use forksan.Frontmatter.File.{RawFork, split_frontmatter, parse_fork_file}
use forksan.Frontmatter.Checked.{IsChecked, IsMarked, parse_fork_file_lem}
use forksan.Prelude.{◌≡◌, refl, codes, to_string}
use forksan.Frontmatter.{context_used_pct, label}

used_label : label (context_used_pct 80) ≡ codes "context_used:80%"
unfolding label to_string
used_label = refl

split_frontmatter-closed :
    split_frontmatter (codes "---\nfork: true\n---\nhi") ≡ (some (codes "fork: true"), codes "hi")
unfolding split_frontmatter strip_prefix
split_frontmatter-closed = refl

split_frontmatter-open :
    split_frontmatter (codes "---\nfork: true\n----\n") ≡ (none, codes "---\nfork: true\n----\n")
unfolding split_frontmatter strip_prefix
split_frontmatter-open = refl

parse_run_on_entry-idle :
    parse_run_on_entry (mapping (entry (string (codes "idle")) (number (some 1200)) end))
    ≡ (some (idle (some 1200)), [])
unfolding parse_run_on_entry text_beq parse_duration_yaml
parse_run_on_entry-idle = refl

-- Frontmatter that is marked and names itself.
abbrev own_name : RawFork
own_name = record {
  marker = some (boolean true);
  description = none;
  run_on = none;
  throttle = none;
  after = some (string (codes "j"));
  overlap = none;
  tags = none;
  delivery = none;
  model = none;
  allowed_tools = none;
  permission_mode = none;
  rag = none;
  triggers = none;
}

eighty : parse_percent (number (some 80)) ≡ some 80
unfolding parse_percent
eighty = refl

parse_fork_file_example :
    ((p : ParsedFork)
      → parse_fork_file (λ yaml. some own_name) (codes "j") (codes "---\nfork: true\n---\nhi")
        ≡ fork p
      → IsChecked (codes "j") p.def)
    × (((p : ParsedFork) × (parse_fork_file
              (λ yaml. some own_name)
              (codes "j")
              (codes "---\nfork: true\n---\nhi")
            ≡ fork p))
        ↔ ((raw : RawFork) × IsMarked
              (λ yaml. some own_name)
              (codes "j")
              (codes "---\nfork: true\n---\nhi")
              raw))
parse_fork_file_example =
    parse_fork_file_lem (λ yaml. some own_name) (codes "j") (codes "---\nfork: true\n---\nhi")
