-- ===== src/Client/Tests.antt =====
-- Versions as the command line compares them.
use forksan.Prelude.{
  arith, is_digit, is_whitespace, [], ◌↔◌, parse_u64, trim, split, true, codes, ◌≡◌, refl,
}
use forksan.Protocol.{hello_info}
use forksan.Client.{Version, leading_digits, version_lt, parse_version, semver_lt, is_outdated, ok}
use forksan.Client.Order.{print, IsSuffix, IsBelow, is_outdated-print}

semver_lt-numbers : semver_lt (codes "0.1.9") (codes "0.1.10") ≡ true
unfolding semver_lt version_lt parse_version split trim parse_u64 leading_digits
semver_lt-numbers = refl

semver_lt-garbage : semver_lt (codes "garbage") (codes "0.0.1") ≡ true
unfolding semver_lt version_lt parse_version split trim parse_u64 leading_digits
semver_lt-garbage = refl

abbrev older : Version
older = record { major = 0; minor = 1; patch = 9 }

abbrev newer : Version
newer = record { major = 0; minor = 1; patch = 10 }

released-IsSuffix : IsSuffix []
unfolding leading_digits
released-IsSuffix = record { solid = tt; no_dot = λ m. m; no_digit = refl }

dev-IsSuffix : IsSuffix (codes "-dev")
unfolding leading_digits is_digit is_whitespace
dev-IsSuffix = record {
  solid = (refl, (refl, (refl, (refl, tt))));
  no_dot = λ m. ground (arith, m);
  no_digit = refl;
}

is_outdated-print_example :
    is_outdated (print newer []) (ok (hello_info (print older (codes "-dev")))) ≡ true
    ↔ IsBelow older newer
is_outdated-print_example =
    is_outdated-print newer older [] (codes "-dev") (omega arith, omega arith, omega arith)
      (omega arith, omega arith, omega arith) released-IsSuffix dev-IsSuffix
