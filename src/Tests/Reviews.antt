-- ===== src/Tests/Reviews.antt =====
-- The restore review.
use session_restore.Common.{◌≡◌, refl, true, none, some, [], ◌∷◌, map, select, any, ◌*◌, String_eq}
use session_restore.Common.Int.{pos, ◌-ℤ◌}
use session_restore.Common.Paths.{file_name, components, last_name}
use session_restore.Common.Texts.{to_decimal, digits_of}
use session_restore.Store.Schema.{PrivateRow}
use session_restore.Store.Db.{Db, setting_bool}
use session_restore.Restore.Payload.{build_payload}
use session_restore.Ui.Review.{
  humanize_age, collect, private_summary_of, summary, count_distinct, soonest,
}
use session_restore.Ui.Review.Blind.{masked, collect-masked}
use session_restore.Ui.Review.Offered.{
  outline_of_review, outline_of_offer, shown_of, collect-build_payload,
}
use session_restore.Tests.Fixtures.{two_snapshots}

abbrev hidden_row : PrivateRow
hidden_row = record {
  snapshot_id = 1;
  tab_key = "t9";
  browser_window_id = "w9";
  tab_index = pos 4;
  nonce = 1 ∷ 2 ∷ [];
  ciphertext = 3 ∷ [];
  key_id = 1;
  expires_at = pos 7200500;
  updated_at = pos 3;
}

abbrev with_private : Db
with_private = record two_snapshots { tabs_private = hidden_row ∷ [] }

private_summary_of-with_private :
    private_summary_of (pos 100) 1 with_private
    ≡ record { windows = 1; tabs = 1; expires_in_hours = 2; available = true }
unfolding private_summary_of summary count_distinct select soonest any ◌-ℤ◌ setting_bool
private_summary_of-with_private = refl

file_name_path : file_name "C:\\Users\\a\\notes.txt" ≡ some "notes.txt"
unfolding file_name last_name components
file_name_path = refl

file_name_folder : file_name "D:/papers/./draft/" ≡ some "draft"
unfolding file_name last_name components
file_name_folder = refl

file_name_drive : file_name "C:\\" ≡ none
unfolding file_name last_name components
file_name_drive = refl

humanize_age_day : humanize_age (pos (26 * 3600000)) ≡ "1 day ago"
unfolding humanize_age to_decimal digits_of
humanize_age_day = refl

collect-masked_example :
    collect
      (λ j. none)
      (pos 100)
      1
      (record with_private { tabs_private = map masked with_private.tabs_private })
    ≡ collect (λ j. none) (pos 100) 1 with_private
collect-masked_example = collect-masked (λ j. none) (pos 100) 1 with_private

collect-build_payload_example :
    map outline_of_review (
      select
        (shown_of "chrome" "p")
        (collect (λ j. none) (pos 100) 1 two_snapshots).browser_windows)
    ≡ map outline_of_offer (build_payload two_snapshots 1 "chrome" "p")
collect-build_payload_example =
    collect-build_payload (λ j. none) (pos 100) 1 "chrome" "p" two_snapshots
