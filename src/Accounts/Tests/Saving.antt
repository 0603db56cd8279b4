-- ===== src/Accounts/Tests/Saving.antt =====
-- Ann's tokens, saved and read.
use swkoo_kr.Prelude.{◌≡◌, refl, some, ok}
use swkoo_kr.Prelude.Texts.{lit}
use swkoo_kr.Accounts.Tokens.{TokenSet, get_tokens, save_tokens}
use swkoo_kr.Accounts.Saved.{get_tokens-save_tokens, normal}
use swkoo_kr.Accounts.Tests.{run, toy, toy-IsCipher, busy, ann}

abbrev tokens : TokenSet
tokens = record {
  access_token = lit "gho_x";
  refresh_token = some (lit "ghr_y");
  expires_at = lit "2026-11-27";
}

get_tokens-save_tokens_example :
    get_tokens toy 1 (save_tokens toy 1 tokens busy)
    ≡ ok (some (record tokens { refresh_token = normal tokens.refresh_token }))
unfolding run
get_tokens-save_tokens_example =
    get_tokens-save_tokens toy 1 tokens ann busy toy-IsCipher refl refl refl
