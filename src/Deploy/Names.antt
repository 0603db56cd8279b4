-- ===== src/Deploy/Names.antt =====
-- `sanitizeName` and the paths of deploy/templates.ts.
use swkoo_kr.Prelude.{ℕ, Bool, true, false, ◌||◌, [], ◌∷◌, ◌++◌, if◌then◌else◌, ◌==◌, nat_eq, take}
use swkoo_kr.Prelude.Texts.{Text, lit, to_lower, is_digit, is_lower}

-- `[a-z0-9-]`
abbrev pub is_name_unit : ℕ → Bool
is_name_unit c = is_lower c || is_digit c || c == b'-'

-- `.replace(/[^a-z0-9-]+/g, '-')`; `in_run` tells that the unit before was replaced.
unfoldable pub replace_runs : Bool → Text → Text
replace_runs in_run [] = []
replace_runs in_run (c ∷ s) =
    let kept = c ∷ replace_runs false s in
    let skipped = replace_runs true s in
    if is_name_unit c then kept else if in_run then skipped else b'-' ∷ skipped

-- `.replace(/^-+|-+$/g, '')`
unfoldable pub drop_dashes : Text → Text
drop_dashes [] = []
drop_dashes (c ∷ s) = if c == b'-' then drop_dashes s else c ∷ s

abbrev pub push_before : ℕ → Text → Text
push_before c [] = if c == b'-' then [] else c ∷ []
push_before c (d ∷ s) = c ∷ d ∷ s

unfoldable pub drop_end_dashes : Text → Text
drop_end_dashes [] = []
drop_end_dashes (c ∷ s) = push_before c (drop_end_dashes s)

-- `sanitizeName(input, maxLength)`
unfoldable pub sanitize_name_to : ℕ → Text → Text
sanitize_name_to max_length input =
    take max_length (drop_end_dashes (drop_dashes (replace_runs false (to_lower input))))

-- The default of `maxLength` is 53.
abbrev pub sanitize_name : Text → Text
sanitize_name input = sanitize_name_to 53 input

abbrev pub get_user_registration_path : Text → Text
get_user_registration_path login = lit "deploy/users/" ++ login ++ lit ".yaml"

abbrev pub get_user_deploy_repo_name : Text → Text
get_user_deploy_repo_name login = login
