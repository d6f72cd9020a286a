-- ===== src/Tests/CommandLines.antt =====
-- Command lines.
use session_restore.Common.{◌≡◌, refl, String, true, false, none, some}
use session_restore.Common.Texts.{any_char, split_once}
use session_restore.Watcher.Redaction.{
  sentinel, split_args, redact_command_line, names_secret, is_credential, fold_env,
}
use session_restore.Watcher.Redaction.Secrecy.{
  Alike, none_left, next, same, secret, credential, redact_command_line-AllAlike,
}

abbrev unchanged : String → String
unchanged s = s

credential-Alike : Alike unchanged "eyJab==" "eyJcd=="
unfolding names_secret split_once is_credential
credential-Alike = credential refl refl refl refl refl

redact_command_line-AllAlike_example :
    redact_command_line unchanged "app.exe --password=abc eyJab=="
    ≡ redact_command_line unchanged "app.exe --password=xyz eyJcd=="
redact_command_line-AllAlike_example =
    redact_command_line-AllAlike unchanged "app.exe --password=abc eyJab=="
      "app.exe --password=xyz eyJcd=="
      (unfold split_args in
        next (same refl) (
          next
            (secret "--password" "=" "abc" "xyz" refl refl (unfold any_char in refl) refl
              (unfold names_secret in refl) refl refl refl)
            (next credential-Alike none_left)))

-- A credential whose text before its first separator ends like the name of a secret is stored with
-- that text.
credential_named : redact_command_line unchanged "eyJAkey=1" ≡ ("eyJAkey=<redacted:1>", true)
unfolding redact_command_line sentinel
credential_named = refl

-- A secret that is an argument of its own is kept.
separate_secret :
    redact_command_line unchanged "app.exe --password hunter2"
    ≡ ("app.exe --password hunter2", false)
separate_secret = unfold redact_command_line in refl

-- The value has six bytes, and the sixth byte of the path lies inside a character.
fold_env_panics : fold_env (λ var. some "C:\\abc") "C:\\abéd" ≡ none
fold_env_panics = unfold fold_env in refl
