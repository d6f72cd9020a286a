-- ===== src/Store/Db.antt =====
-- The database as the agent uses it: agent/crates/sr-agent/src/store/db.rs.
use Prim.Native.Char.{code}
use Prim.Native.String
use mathlib.Core.Option
use session_restore.Common.{
  ℕ, zero, suc, ◌+◌, ◌*◌, ◌-◌, ◌^◌, String, Bool, true, false, ◌||◌, ◌&&◌, Option, none, some, List,
  [], ◌∷◌, ◌==◌, ℕ_eq, String_eq, if◌then◌else◌, leb,
}
use session_restore.Common.Int.{ℤ, pos, negsuc}
use session_restore.Store.Schema.{
  StatusRow, WindowRow, TabRow, PrivateRow, GroupRow, DisplayRow, AppRow, DesktopRow,
}
pub mod Settings
pub mod Numbers

-- Reserved snapshot id meaning "live current state".
abbrev pub live : ℕ
live = 0

pub record Setting : Type 0 where
  pub key : String
  pub value : String
  pub updated_at : ℤ

pub data SnapshotKind : Type 0 where
  live_kind shutdown periodic manual pre_restore : SnapshotKind

pub record SnapshotRow : Type 0 where
  pub id : ℕ
  pub captured_at : ℤ
  pub kind : SnapshotKind
  pub label : Option String
  pub machine_id : String
  pub pinned : Bool
  pub app_count : ℕ
  pub tab_count : ℕ

pub record KeyRow : Type 0 where
  pub id : ℕ
  pub purpose : String
  pub wrapped_key : List ℕ
  pub wrap_method : String
  pub created_at : ℤ
  pub retired_at : Option ℤ

pub record RunRow : Type 0 where
  pub id : ℕ
  pub snapshot_id : ℕ
  pub started_at : ℤ
  pub finished_at : Option ℤ
  pub mode : String
  pub undo_snapshot_id : Option ℕ

pub data ItemKind : Type 0 where
  app browser_window tab : ItemKind

pub data ItemStatus : Type 0 where
  pending launched placed skipped failed : ItemStatus

pub record ItemRow : Type 0 where
  pub run_id : ℕ
  pub item_kind : ItemKind
  pub item_key : String
  pub status : ItemStatus
  pub detail : Option String

-- Beside the tables: `keys_bin` is the file of that name in the data directory (none until it is
-- written), and `draws` counts the random values that were taken so far.
pub record Db : Type 0 where
  pub meta : List (String × String)
  pub settings : List Setting
  pub snapshots : List SnapshotRow
  pub browser_windows : List WindowRow
  pub tabs : List TabRow
  pub tabs_private : List PrivateRow
  pub tab_groups : List GroupRow
  pub displays : List DisplayRow
  pub apps : List AppRow
  pub windows : List DesktopRow
  pub crypto_keys : List KeyRow
  pub restore_runs : List RunRow
  pub restore_items : List ItemRow
  pub browser_status : List StatusRow
  pub keys_bin : Option (List ℕ)
  pub draws : ℕ

-- The id that SQLite gives the next row of an INTEGER PRIMARY KEY column: one above the largest.
unfoldable pub next_id : List ℕ → ℕ
next_id [] = 1
next_id (i ∷ is) = let rest = next_id is in if leb rest i then suc i else rest

-- `Db::meta`
unfoldable pub lookup_meta : String → List (String × String) → Option String
lookup_meta k [] = none
lookup_meta k ((j, v) ∷ rest) = if j == k then some v else lookup_meta k rest

-- `Db::setting`
unfoldable pub setting : String → List Setting → Option String
setting k [] = none
setting k (s ∷ rest) = if s.key == k then some s.value else setting k rest

-- `Db::setting_bool`
unfoldable pub setting_bool : String → Bool → List Setting → Bool
unfolding setting
setting_bool k default settings = elim (setting k settings) [
  | none ↦ default
  | some v ↦ v == "true" || v == "1"
]

-- The digits of `str::parse::<i64>`: a run of them, read from the left.
unfoldable pub parse_digits : ℕ → List ℕ → Option ℕ
parse_digits n [] = some n
parse_digits n (c ∷ cs) =
    if leb b'0' c && leb c b'9' then parse_digits (n * 10 + (c - b'0')) cs else none

abbrev negated : ℕ → ℤ
negated zero = pos 0
negated (suc n) = negsuc n

abbrev pub checked : Bool → (ℕ → ℤ) → Option ℕ → Option ℤ
checked fits sign none = none
checked fits sign (some n) = if fits then some (sign n) else none

-- The values of an i64, from the size of the number and its sign.
abbrev pub within : ℕ → Option ℕ → Bool
within limit none = false
within limit (some n) = leb n limit

-- `str::parse::<i64>`: an optional sign, at least one digit, and no overflow.
unfoldable pub parse_unsigned : List ℕ → Option ℕ
unfolding parse_digits
parse_unsigned [] = none
parse_unsigned (c ∷ cs) = parse_digits 0 (c ∷ cs)

unfoldable pub parse_i64 : List ℕ → Option ℤ
unfolding parse_unsigned
parse_i64 [] = none
parse_i64 (c ∷ cs) =
    if c == b'-'
    then checked (within (2 ^ 63) (parse_unsigned cs)) negated (parse_unsigned cs)
    else if c == b'+'
    then checked (within (2 ^ 63 - 1) (parse_unsigned cs)) pos (parse_unsigned cs)
    else checked (within (2 ^ 63 - 1) (parse_unsigned (c ∷ cs))) pos (parse_unsigned (c ∷ cs))

-- The code points of a text.
abbrev pub codes : String → List ℕ
codes String.[] = []
codes (String.◌∷◌ c s) = code c ∷ codes s

-- `Db::setting_i64`
unfoldable pub setting_i64 : String → ℤ → List Setting → ℤ
unfolding setting parse_i64
setting_i64 k default settings = elim (setting k settings) [
  | none ↦ default
  | some v ↦ Option.get_or (parse_i64 (codes v)) default
]

-- `Db::set_setting`
unfoldable pub set_setting : ℤ → String → String → List Setting → List Setting
set_setting now k v [] = record { key = k; value = v; updated_at = now } ∷ []
set_setting now k v (s ∷ rest) =
    if s.key == k
    then record s { value = v; updated_at = now } ∷ rest
    else s ∷ set_setting now k v rest
