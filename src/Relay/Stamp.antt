-- ===== src/Relay/Stamp.antt =====
-- What the relay says of a message cannot be influenced by the message.
use session_restore.Common.{
  ℕ, ◌≡◌, refl, sym, ap, ◌∙◌, String, false, Option, some, List, ◌==◌, String_eq, if◌then◌else◌,
  arith, ==-refl,
}
use text.Mathlib.TextEquality.{eq_iff}
use session_restore.Relay.{
  Json, Fields, no_fields, field, object, get_field, insert_field, Serde, source, stamped,
  stamp_source,
}

get_field-insert_field :
    (k j : String) (v : Json) (fs : Fields)
    → get_field j (insert_field k v fs) ≡ (if k == j then some v else get_field j fs)
unfolding get_field insert_field
get_field-insert_field k j v no_fields = refl
get_field-insert_field k j v (field i w rest) =
    ground (arith, eq_iff i k, eq_iff i j, eq_iff k j, get_field-insert_field k j v rest)

insert_field_twice :
    (k : String) (v w : Json) (fs : Fields)
    → insert_field k v (insert_field k w fs) ≡ insert_field k v fs
unfolding insert_field
insert_field_twice k v w no_fields = rw (==-refl k) refl
insert_field_twice k v w (field i u rest) =
    ground (arith, eq_iff i k, ==-refl k, insert_field_twice k v w rest)

-- A message that is a JSON object reaches the agent with the relay's own account of the browser, and
-- otherwise as it was: of what it says, only the version of the extension is taken up, and a `src`
-- of its own is lost.
pub stamp_source-source :
    (serde : Serde) (browser : String) (pid : Option ℕ) (raw : List ℕ) (fs : Fields)
    → serde.parse raw ≡ some (object fs)
    → (gs : Fields) × (stamp_source serde browser pid raw ≡ serde.print (object gs))
      × (get_field "src" gs ≡ some (source browser pid fs))
      × ((k : String) → ("src" == k) ≡ false → get_field k gs ≡ get_field k fs)
unfolding stamp_source
stamp_source-source serde browser pid raw fs h =
    let gs = insert_field "src" (source browser pid fs) fs in
    (
      gs,
      ap (stamped serde browser pid raw) h,
      get_field-insert_field "src" "src" (source browser pid fs) fs,
      (λ k apart. get_field-insert_field "src" k (source browser pid fs) fs ∙ rw apart refl),
    )

source_forged :
    (browser : String) (pid : Option ℕ) (x : Json) (fs : Fields)
    → source browser pid (insert_field "src" x fs) ≡ source browser pid fs
unfolding source
source_forged browser pid x fs = rw (get_field-insert_field "src" "body" x fs) refl

-- Two messages that differ only in the `src` that they claim are passed on as the same bytes.
pub stamp_source_forged :
    (serde : Serde) (browser : String) (pid : Option ℕ) (raw forged : List ℕ) (x : Json)
    (fs : Fields)
    → serde.parse raw ≡ some (object fs)
    → serde.parse forged ≡ some (object (insert_field "src" x fs))
    → stamp_source serde browser pid forged ≡ stamp_source serde browser pid raw
unfolding stamp_source
stamp_source_forged serde browser pid raw forged x fs h k =
    ap (stamped serde browser pid forged) k
    ∙ ap (λ s. serde.print (object (insert_field "src" s (insert_field "src" x fs))))
        (source_forged browser pid x fs)
    ∙ ap (λ gs. serde.print (object gs)) (insert_field_twice "src" (source browser pid fs) x fs)
    ∙ sym (ap (stamped serde browser pid raw) h)
