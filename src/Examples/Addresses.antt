-- ===== src/Examples/Addresses.antt =====
-- A customer with one saved address, which is the default.
use plant_shop.Address.{
  Address, AddressInput, AddressBook, trimmed, required, check_required, check_optional, validate,
  update, row_of,
}
use plant_shop.Address.Defaults.{OneDefault, Saved, created, updated, update-Saved}
use plant_shop.Address.Handler.{create_address, create_address-stored, address_reply, error_reply}
use plant_shop.Base.{◌≢◌, ◌≡◌, refl, ◌⊎◌, true, none, some, [], ◌∷◌, arith}
use plant_shop.Text.{codes, is_space, rune_len, byte_len, trim_left, trim_right, trim_space}

abbrev home : AddressInput
home = record {
  label = codes "home";
  recipient_name = codes " Sara ";
  phone = codes "0912";
  address_line1 = codes "1 Rose St";
  address_line2 = codes "Unit 2";
  city = codes "Tehran";
  postal_code = codes "11";
  country = codes "Iran";
  is_default = true;
}

-- No second line.
abbrev short : AddressInput
short = record home { address_line2 = codes "  " }

abbrev book : AddressBook
book = record { rows = row_of 1 5 home ∷ []; next_id = 2 }

one_default : OneDefault book
one_default user = ground arith

valid : validate (trimmed short) ≡ none
unfolding validate trimmed required check_required check_optional trim_space trim_left trim_right
    is_space byte_len rune_len
valid = refl

create_address-stored_example :
    ((trimmed short).address_line2 ≡ []
      × create_address none (some 5) (some short) book ≡ (error_reply 500, book))
    ⊎ (((trimmed short).address_line2 ≢ [])
        × (a : Address) × (create_address none (some 5) (some short) book
            ≡ (address_reply 201 a, created 5 (trimmed short) book))
        × OneDefault (created 5 (trimmed short) book))
create_address-stored_example = create_address-stored 5 short book refl valid one_default

update-Saved_example :
    Saved home (updated 5 1 home (row_of 1 5 home) book) (update none 5 1 home book)
update-Saved_example = update-Saved 5 1 home book (row_of 1 5 home) refl one_default refl refl
