-- ===== src/Address/Handler.antt =====
-- The handlers of the saved addresses (backend/internal/address/handler.go). The user that `Authenticate` finds and the
-- body that the JSON decoder returns are parameters.
use plant_shop.Address.{
  Address, AddressInput, AddressBook, Error, address_not_found, duplicate_default, cannot_scan,
  trimmed, validate, create, update, delete,
}
use plant_shop.Address.Defaults.{OneDefault, created, create-Saved}
use plant_shop.Base.Int.{ℤ, pos, negsuc}
use plant_shop.Base.{ℕ, ◌≢◌, ◌≡◌, refl, ◌⊎◌, inl, inr, Option, none, some, [], Result, ok, err}
use plant_shop.Text.{Text, parse_int}

pub data Reply : Type 0 where
  address_reply : ℕ → Address → Reply
  no_content : Reply
  error_reply : ℕ → Reply

-- The status of an error of the transactions; the handler of Create does not see `address_not_found`.
unfoldable pub error_status : Error → ℕ
error_status address_not_found = 404
error_status duplicate_default = 409
error_status cannot_scan = 500

abbrev saved_reply : ℕ → AddressBook → Result Error (Address × AddressBook) → Reply × AddressBook
saved_reply status s (err e) = (error_reply (error_status e), s)
saved_reply status s (ok (a, t)) = (address_reply status a, t)

-- `Handler.Create`.
unfoldable pub create_address :
    Option Text → Option ℕ → Option AddressInput → AddressBook → Reply × AddressBook
create_address null_text none body s = (error_reply 401, s)
create_address null_text (some user) none s = (error_reply 400, s)
create_address null_text (some user) (some i) s = elim (validate (trimmed i)) [
  | some e ↦ (error_reply 400, s)
  | none ↦ saved_reply 201 s (create null_text user (trimmed i) s)
]

-- A path id is taken as it parses: a negative one is in no row.
abbrev row_id : ℤ → Option ℕ
row_id (pos n) = some n
row_id (negsuc n) = none

abbrev update_row :
    Option Text → ℕ → Option ℕ → AddressInput → AddressBook → Result Error (Address × AddressBook)
update_row null_text user none i s = err address_not_found
update_row null_text user (some id) i s = update null_text user id i s

-- `Handler.Update`.
unfoldable update_address :
    Option Text → Option ℕ → Text → Option AddressInput → AddressBook → Reply × AddressBook
update_address null_text none raw body s = (error_reply 401, s)
update_address null_text (some user) raw body s = elim (parse_int raw) [
  | none ↦ (error_reply 400, s)
  | some id ↦ elim body [
    | none ↦ (error_reply 400, s)
    | some i ↦ elim (validate (trimmed i)) [
      | some e ↦ (error_reply 400, s)
      | none ↦ saved_reply 200 s (update_row null_text user (row_id id) (trimmed i) s)
    ]
  ]
]

abbrev delete_row : ℕ → Option ℕ → AddressBook → Result Error AddressBook
delete_row user none s = err address_not_found
delete_row user (some id) s = delete user id s

abbrev deleted_reply : AddressBook → Result Error AddressBook → Reply × AddressBook
deleted_reply s (err e) = (error_reply (error_status e), s)
deleted_reply s (ok t) = (no_content, t)

-- `Handler.Delete`.
unfoldable delete_address : Option ℕ → Text → AddressBook → Reply × AddressBook
delete_address none raw s = (error_reply 401, s)
delete_address (some user) raw s = elim (parse_int raw) [
  | none ↦ (error_reply 400, s)
  | some id ↦ deleted_reply s (delete_row user (row_id id) s)
]

-- If the driver does not scan a NULL into a string and every customer has at most one default
-- address, a valid body whose second line is blank is answered with 500 and changes nothing; any
-- other valid body is answered with 201, its row is added, and every customer still has at most
-- one default address.
pub create_address-stored :
    {null_text : Option Text} (user : ℕ) (i : AddressInput) (s : AddressBook)
    → null_text ≡ none
    → validate (trimmed i) ≡ none
    → OneDefault s
    → ((trimmed i).address_line2 ≡ []
        × create_address null_text (some user) (some i) s ≡ (error_reply 500, s))
      ⊎ (((trimmed i).address_line2 ≢ [])
          × (a : Address) × (create_address null_text (some user) (some i) s
              ≡ (address_reply 201 a, created user (trimmed i) s))
          × OneDefault (created user (trimmed i) s))
unfolding create_address error_status
create_address-stored user i s n v h = elim (create-Saved user (trimmed i) s n h) [
  | inl (e, r) ↦ inl (e, rw (create_address, v, r) refl)
  | inr (e, a, r, _, t) ↦ inr (e, a, rw (create_address, v, r) refl, t)
]
