-- ===== src/Address.antt =====
-- Saved addresses of a customer (backend/internal/address): the validation, the transactions on the table
-- user_addresses. The handlers are in Handler.
pub mod Defaults
pub mod Handler
use Prim.Native.String.{String}
use plant_shop.Base.{
  ℕ, zero, suc, ◌+◌, ◌-◌, ◌*◌, ◌/◌, ◌%◌, ◌^◌, ◌≤◌, ◌<◌, min, ◌≡◌, refl, sym, ap, ◌∙◌, ◌≢◌, ◌↔◌, ◌⊎◌,
  inl, inr, Bool, true, false, not, ◌&&◌, ◌||◌, Option, none, some, List, [], ◌∷◌, ◌++◌, map, arith,
  ltb, leb, ◌==◌, if◌then◌else◌, ==_iff, ==_refl, Bool-cases, Option-cases, is_some, All, length,
  take, Result, ok, err, ◌>>=◌, ◌>>◌, fail_if, >>=-eq-ok, fail_if-eq-ok, Result-cases,
}
use plant_shop.Base.Table.{
  exists?, count, select, select_one, update_where, sum_by, sum_by-append, count-append, find,
  modify, find_key, find-append_none, find-append_some, find-modify_self, find-modify-none,
  find-modify_ne, sum_by-modify, All-select_one, All-append, All-find, All-modify, All-select,
  count-no_row, count-modify, exists?-append, select_one-append_new, select_one-append_other,
  select_one-modify_other,
}
use plant_shop.Text.{
  Text, codes, byte_len, text_eq, is_empty, trim_space, parse_int, text_eq_refl, eq_of_text_eq,
  text_eq_iff,
}

-- The Go struct; `AddressRow` is a row of the table, in which one column can be NULL.
pub record Address : Type 0 where
  pub id : ℕ
  pub user_id : ℕ
  pub label : Text
  pub recipient_name : Text
  pub phone : Text
  pub address_line1 : Text
  pub address_line2 : Text
  pub city : Text
  pub postal_code : Text
  pub country : Text
  pub is_default : Bool

pub record AddressRow : Type 0 where
  pub id : ℕ
  pub user_id : ℕ
  pub label : Text
  pub recipient_name : Text
  pub phone : Text
  pub address_line1 : Text
  pub address_line2 : Option Text
  pub city : Text
  pub postal_code : Text
  pub country : Text
  pub is_default : Bool

-- `CreateInput`, and `UpdateInput` with the same fields.
pub record AddressInput : Type 0 where
  pub label : Text
  pub recipient_name : Text
  pub phone : Text
  pub address_line1 : Text
  pub address_line2 : Text
  pub city : Text
  pub postal_code : Text
  pub country : Text
  pub is_default : Bool

-- The table and its sequence.
pub record AddressBook : Type 0 where
  pub rows : List AddressRow
  pub next_id : ℕ

pub record ErrValidation : Type 0 where
  pub field : String
  pub message : String

pub data Error : Type 0 where
  address_not_found duplicate_default cannot_scan : Error

unfoldable pub trimmed : AddressInput → AddressInput
trimmed i = record {
  label = trim_space i.label;
  recipient_name = trim_space i.recipient_name;
  phone = trim_space i.phone;
  address_line1 = trim_space i.address_line1;
  address_line2 = trim_space i.address_line2;
  city = trim_space i.city;
  postal_code = trim_space i.postal_code;
  country = trim_space i.country;
  is_default = i.is_default;
}

pub record Required : Type 0 where
  pub field : String
  pub value : Text
  pub max_len : ℕ

-- The `required` table of `Validate`.
unfoldable pub required : AddressInput → List Required
required t =
    record { field = "recipient_name"; value = t.recipient_name; max_len = 255 }
    ∷ record { field = "phone"; value = t.phone; max_len = 20 }
    ∷ record { field = "address_line1"; value = t.address_line1; max_len = 255 }
    ∷ record { field = "city"; value = t.city; max_len = 128 }
    ∷ record { field = "postal_code"; value = t.postal_code; max_len = 20 }
    ∷ record { field = "country"; value = t.country; max_len = 128 }
    ∷ []

unfoldable pub check_required : List Required → Option ErrValidation
check_required [] = none
check_required (f ∷ fs) =
    let rest = check_required fs in
    if is_empty f.value
    then some (record { field = f.field; message = "is required" })
    else if ltb f.max_len (byte_len f.value)
    then some (record { field = f.field; message = "is too long" })
    else rest

unfoldable pub check_optional : AddressInput → Option ErrValidation
check_optional t =
    if ltb 255 (byte_len t.label)
    then some (record { field = "label"; message = "is too long" })
    else if ltb 255 (byte_len t.address_line2)
    then some (record { field = "address_line2"; message = "is too long" })
    else none

-- `Validate`, on the trimmed copy; `none` is a nil error.
unfoldable pub validate : AddressInput → Option ErrValidation
unfolding trimmed required check_required check_optional
validate i = elim (check_required (required (trimmed i))) [
  | some e ↦ some e
  | none ↦ check_optional (trimmed i)
]

abbrev pub nullable_string : Text → Option Text
nullable_string [] = none
nullable_string (c ∷ s) = some (c ∷ s)

-- `user_id = $1 AND is_default = true`.
abbrev pub default_of : ℕ → AddressRow → Bool
default_of user a = a.user_id == user && a.is_default

abbrev pub unset : AddressRow → AddressRow
unset a = record a { is_default = false }

-- The UPDATE that clears the default address of a user.
unfoldable pub clear_default : ℕ → List AddressRow → List AddressRow
clear_default user rows = update_where (default_of user) unset rows

-- The row that is written for an input.
abbrev pub row_of : ℕ → ℕ → AddressInput → AddressRow
row_of id user i = record {
  id = id;
  user_id = user;
  label = i.label;
  recipient_name = i.recipient_name;
  phone = i.phone;
  address_line1 = i.address_line1;
  address_line2 = nullable_string i.address_line2;
  city = i.city;
  postal_code = i.postal_code;
  country = i.country;
  is_default = i.is_default;
}

-- What `row.Scan` makes of a column for a field of type string. What the driver makes of a NULL is the parameter
-- `null_text`; `none` is an error.
unfoldable pub scan_text : Option Text → Option Text → Option Text
scan_text null_text none = null_text
scan_text null_text (some l) = some l

abbrev pub struct_of : Text → AddressRow → Address
struct_of line2 a = record {
  id = a.id;
  user_id = a.user_id;
  label = a.label;
  recipient_name = a.recipient_name;
  phone = a.phone;
  address_line1 = a.address_line1;
  address_line2 = line2;
  city = a.city;
  postal_code = a.postal_code;
  country = a.country;
  is_default = a.is_default;
}

-- `row.Scan` of a row into the struct.
unfoldable pub scan : Option Text → AddressRow → Result Error Address
scan null_text a = elim (scan_text null_text a.address_line2) [
  | none ↦ err cannot_scan
  | some l ↦ ok (struct_of l a)
]

-- `Repository.Create`; the unique index allows one default address of a user.
unfoldable pub create :
    Option Text → ℕ → AddressInput → AddressBook → Result Error (Address × AddressBook)
unfolding clear_default
create null_text user i s = do
  let rows = (if i.is_default then clear_default user s.rows else s.rows)
  let row : AddressRow = row_of s.next_id user i
  fail_if (i.is_default && exists? (default_of user) rows) duplicate_default
  a ← scan null_text row
  ok (a, record { rows = rows ++ row ∷ []; next_id = suc s.next_id })

abbrev pub find_row : ℕ → List AddressRow → Option AddressRow
find_row = find (λ (a : AddressRow). a.id)

abbrev pub modify_row : ℕ → (AddressRow → AddressRow) → List AddressRow → List AddressRow
modify_row = modify (λ (a : AddressRow). a.id)

-- `WHERE id = $1 AND user_id = $2`.
unfoldable pub find_own : ℕ → ℕ → AddressBook → Result Error AddressRow
find_own user id s = elim (find_row id s.rows) [
  | none ↦ err address_not_found
  | some a ↦ if a.user_id == user then ok a else err address_not_found
]

unfoldable get_by_id : Option Text → ℕ → ℕ → AddressBook → Result Error Address
get_by_id null_text user id s = do row ← find_own user id s; scan null_text row

-- The part of `Repository.Update` after the row is locked.
unfoldable pub save :
    Option Text
    → ℕ
    → ℕ
    → AddressInput
    → AddressRow
    → AddressBook
    → Result Error (Address × AddressBook)
unfolding clear_default
save null_text user id i current s = do
  let rows = (if i.is_default && not current.is_default then clear_default user s.rows else s.rows)
  fail_if (i.is_default && exists? (λ (a : AddressRow). default_of user a && not (a.id == id)) rows)
      duplicate_default
  a ← scan null_text (row_of id user i)
  ok (a, record s { rows = modify_row id (λ a. row_of a.id a.user_id i) rows })

-- `Repository.Update`.
unfoldable pub update :
    Option Text → ℕ → ℕ → AddressInput → AddressBook → Result Error (Address × AddressBook)
update null_text user id i s = do current ← find_own user id s; save null_text user id i current s

-- `Repository.Delete`.
unfoldable pub delete : ℕ → ℕ → AddressBook → Result Error AddressBook
delete user id s = do
  _ ← find_own user id s
  ok (record s { rows = select (λ (a : AddressRow). not (a.id == id && a.user_id == user)) s.rows })

-- `GetDefault`.
unfoldable get_default : Option Text → ℕ → AddressBook → Result Error Address
get_default null_text user s = elim (select_one (default_of user) s.rows) [
  | none ↦ err address_not_found
  | some a ↦ scan null_text a
]
