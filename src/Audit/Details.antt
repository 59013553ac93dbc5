-- ===== src/Audit/Details.antt =====
-- internal/audit/logger.go: what a log line holds.
use kakao_relay.Prelude.{Str, ◌≡◌, refl, List, [], ◌∷◌, ◌++◌, map}
use mathlib.Core.List.{append_assoc, append-nil}
use kakao_relay.Audit.{
  Value, str, int, int64, bool, interface, LogField, str_field, int_field, int64_field, bool_field,
  interface_field, add_field, add_details,
}

-- The field that a detail becomes.
abbrev pub field_of : Str × Value → LogField
field_of (k, str v) = str_field k v
field_of (k, int v) = int_field k v
field_of (k, int64 v) = int64_field k v
field_of (k, bool v) = bool_field k v
field_of (k, interface v) = interface_field k v

add_field-append :
    (e : List LogField) (k : Str) (v : Value) → add_field e k v ≡ e ++ field_of (k, v) ∷ []
unfolding add_field
add_field-append e k (str v) = refl
add_field-append e k (int v) = refl
add_field-append e k (int64 v) = refl
add_field-append e k (bool v) = refl
add_field-append e k (interface v) = refl

pub add_details-append :
    (ds : List (Str × Value)) (e : List LogField) → add_details ds e ≡ e ++ map field_of ds
unfolding add_details
add_details-append [] e = simp (append-nil) refl
add_details-append ((k, v) ∷ ds) e =
    rw (add_details-append ds (add_field e k v), add_field-append e k v)
      (append_assoc e (field_of (k, v) ∷ []) (map field_of ds))
