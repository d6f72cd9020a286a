-- ===== src/Tests/Wire.antt =====
-- Frames, settings and tiers.
use session_restore.Common.{
  ℕ, String, ◌≡◌, ◌<◌, ◌≤◌, refl, true, false, none, some, List, [], ◌∷◌, ◌++◌, arith, length,
  String_eq,
}
use session_restore.Proto.Utf8.{is_utf8}
use session_restore.Proto.Frame.{ok, err, io, to_le_bytes, read_frame, write_frame}
use session_restore.Proto.Frame.RoundTrip.{
  read_frame-write_frame, read_frame_sound, read_frame_truncated,
}
use session_restore.Watcher.Identity.{win32, TierInput}

abbrev hello_bytes : List ℕ
hello_bytes = 123 ∷ 125 ∷ []

abbrev hello_frame : List ℕ
hello_frame = 2 ∷ 0 ∷ 0 ∷ 0 ∷ 123 ∷ 125 ∷ []

read_frame-write_frame_example :
    read_frame (hello_frame ++ (7 ∷ [])) 1024 ≡ ok (hello_bytes, 7 ∷ [])
read_frame-write_frame_example =
    read_frame-write_frame hello_bytes hello_frame (7 ∷ []) 1048576 1024
      (unfold write_frame to_le_bytes in refl) (omega arith) (omega arith) (unfold is_utf8 in refl)

read_frame_truncated_example : read_frame (to_le_bytes 5 ++ (123 ∷ 125 ∷ [])) 1024 ≡ err io
read_frame_truncated_example =
    read_frame_truncated 5 1024 (123 ∷ 125 ∷ []) (omega arith) (omega arith) (omega arith)
      (omega arith)

read_frame_sound_example :
    (hello_frame ≡ to_le_bytes (length hello_bytes) ++ (hello_bytes ++ []))
    × (0 < length hello_bytes)
    × (length hello_bytes ≤ 1024)
    × (is_utf8 hello_bytes ≡ true)
read_frame_sound_example =
    read_frame_sound hello_frame hello_bytes [] 1024
      (omega arith, (omega arith, (omega arith, (omega arith, (omega arith, (omega arith, tt))))))
      (unfold read_frame is_utf8 in refl)

abbrev mode_key : String
mode_key = "restore_mode"

abbrev notes_input : TierInput
notes_input = record {
  kind = win32;
  exe_path = some "C:\\notes.exe";
  aumid = none;
  has_command_line = true;
  command_line_redacted = true;
  elevated = false;
  never_restore = false;
  has_documents = true;
}
