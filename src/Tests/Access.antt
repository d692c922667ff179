-- ===== src/Tests/Access.antt =====
-- permission.py at concrete requests.
use hermes_channel_octo.Prelude.{◌≡◌, ◌≢◌, ◌↔◌, refl, none, some, [], ◌∷◌, arith}
use hermes_channel_octo.Prelude.Text.{lit}
use hermes_channel_octo.Permission.{Fetcher, allowed, check_permission}
use hermes_channel_octo.Permission.Laws.{MayRead, check_permission_iff, check_permission-fail}

-- Everybody asks about a group whose only member is "ab".
abbrev one_member : Fetcher
one_member group_no = some (record { uid = lit "ab" } ∷ [])

abbrev unreachable : Fetcher
unreachable group_no = none

check_permission_iff_example :
    (check_permission one_member none (some (lit "ab")) (lit "g____t") 5 ≡ allowed)
    ↔ MayRead one_member none (lit "ab") (lit "g____t") 5
check_permission_iff_example = check_permission_iff one_member none 97 (lit "b") (lit "g____t") 5

check_permission-fail_example :
    check_permission unreachable (some (lit "ab")) (some (lit "ab")) (lit "g") 2 ≢ allowed
check_permission-fail_example =
    check_permission-fail unreachable (some (lit "ab")) (some (lit "ab")) (lit "g") 2 (λ g. refl)
      (λ e. ground arith)
