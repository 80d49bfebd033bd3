-- ===== src/Address/Defaults.antt =====
-- A customer has at most one default address, and the code never runs into the index that ensures it.
use plant_shop.Address.{
  Address, AddressRow, AddressInput, AddressBook, Error, cannot_scan, default_of, clear_default,
  row_of, scan, scan_text, struct_of, create, find_row, modify_row, find_own, save, update,
}
use plant_shop.Text.{Text}
use plant_shop.Base.{
  ℕ, suc, ◌+◌, ◌≤◌, ◌≢◌, ◌≡◌, refl, ◌⊎◌, inl, inr, Bool, false, not, ◌&&◌, Option, none, some, List,
  [], ◌∷◌, ◌++◌, arith, ◌==◌, if◌then◌else◌, ==_refl, Bool-cases, Result, ok, err, ◌>>=◌,
}
use plant_shop.Base.Table.{exists?, count, count-append}

-- At most one default address of each user.
abbrev pub OneDefault : AddressBook → Type 0
OneDefault s = (user : ℕ) → count (default_of user) s.rows ≤ 1

clear_default-count :
    (user v : ℕ) (rows : List AddressRow)
    → count (default_of v) (clear_default user rows)
      ≡ (if v == user then 0 else count (default_of v) rows)
unfolding clear_default
clear_default-count user v [] = ground arith
clear_default-count user v (a ∷ rows) = ground (arith, clear_default-count user v rows)

count-exists :
    {A : Type 0} (p : A → Bool) (rows : List A) → count p rows ≡ 0 → exists? p rows ≡ false
count-exists p [] h = refl
count-exists p (a ∷ rows) h = ground (arith, count-exists p rows)

-- What a call returns that stores `rows`, if the row `a` can be scanned.
abbrev pub Saved : AddressInput → AddressBook → Result Error (Address × AddressBook) → Type 0
Saved i t r =
    (i.address_line2 ≡ [] × r ≡ err cannot_scan)
    ⊎ ((i.address_line2 ≢ [])
        × (b : Address) × (r ≡ ok (b, t))
        × (b.address_line2 ≡ i.address_line2)
        × OneDefault t)

Text-cases : (l : Text) → (l ≡ []) ⊎ ((c : ℕ) × (m : Text) × (l ≡ c ∷ m))
Text-cases [] = inl refl
Text-cases (c ∷ m) = inr (c, m, refl)

scanned :
    {null_text : Option Text} (id user : ℕ) (i : AddressInput) (t : AddressBook)
    → null_text ≡ none
    → OneDefault t
    → Saved i t (scan null_text (row_of id user i) >>= (λ b. ok (b, t)))
unfolding scan scan_text
scanned id user i t n h = elim (Text-cases i.address_line2) [
  | inl e ↦ inl (e, rw (e, n) refl)
  | inr (c, m, e) ↦
      inr (λ empty. ground arith, struct_of i.address_line2 (row_of id user i), rw e refl, refl, h)
]

-- The table after an address is created, and after one is updated.
abbrev pub created : ℕ → AddressInput → AddressBook → AddressBook
created user i s = record {
  rows =
      (if i.is_default then clear_default user s.rows else s.rows) ++ row_of s.next_id user i ∷ [];
  next_id = suc s.next_id;
}

create-rows :
    (null_text : Option Text) (user : ℕ) (i : AddressInput) (s : AddressBook)
    → create null_text user i s
      ≡ (scan null_text (row_of s.next_id user i) >>= (λ b. ok (b, created user i s)))
unfolding create
create-rows null_text user i s = elim (Bool-cases i.is_default) [
  | inr b ↦ rw b refl
  | inl b ↦
      let none_left = clear_default-count user user s.rows in
      let no = count-exists (default_of user) (clear_default user s.rows) (ground arith) in
      rw (b, no) refl
]

created-count :
    (user v : ℕ) (i : AddressInput) (s : AddressBook)
    → count (default_of v) s.rows ≤ 1
    → count (default_of v) (
        (if i.is_default then clear_default user s.rows else s.rows)
        ++ row_of s.next_id user i ∷ [])
      ≤ 1
created-count user v i s h =
    let cleared = clear_default-count user v s.rows in
    let rows = if i.is_default then clear_default user s.rows else s.rows in
    let grown = count-append (default_of v) rows (row_of s.next_id user i ∷ []) in
    elim (Bool-cases i.is_default) [ inl b ↦ ground arith | inr b ↦ ground arith ]

-- An update of the row that is found.
count-modify_found :
    (p : AddressRow → Bool) (id : ℕ) (f : AddressRow → AddressRow) (rows : List AddressRow)
    (r : AddressRow)
    → find_row id rows ≡ some r
    → count p (modify_row id f rows) + (if p r then 1 else 0)
      ≡ count p rows + (if p (f r) then 1 else 0)
count-modify_found p id f [] r h = cc
count-modify_found p id f (a ∷ rows) r h = ground (arith, count-modify_found p id f rows r)

-- Clearing leaves a row that is no default.
clear_default-find :
    (user id : ℕ) (rows : List AddressRow) (r : AddressRow)
    → find_row id rows ≡ some r
    → r.is_default ≡ false
    → find_row id (clear_default user rows) ≡ some r
unfolding clear_default
clear_default-find user id [] r h d = cc
clear_default-find user id (a ∷ rows) r h d = ground (arith, clear_default-find user id rows r)

none-others :
    (user id : ℕ) (rows : List AddressRow)
    → count (default_of user) rows ≡ 0
    → exists? (λ (a : AddressRow). default_of user a && not (a.id == id)) rows ≡ false
none-others user id [] h = refl
none-others user id (a ∷ rows) h = ground (arith, none-others user id rows)

count-found :
    (p : AddressRow → Bool) (id : ℕ) (rows : List AddressRow) (r : AddressRow)
    → find_row id rows ≡ some r
    → (if p r then 1 else 0) ≤ count p rows
count-found p id [] r h = cc
count-found p id (a ∷ rows) r h = ground (arith, count-found p id rows r)

-- The other default addresses of the user: none where there is at most one and it is this one.
others-none :
    (user id : ℕ) (rows : List AddressRow) (r : AddressRow)
    → find_row id rows ≡ some r
    → count (default_of user) rows ≤ (if default_of user r then 1 else 0)
    → exists? (λ (a : AddressRow). default_of user a && not (a.id == id)) rows ≡ false
others-none user id [] r h c = cc
others-none user id (a ∷ rows) r h c = elim (Bool-cases (a.id == id)) [
  | inl e ↦
      let rest : count (default_of user) rows ≡ 0 = ground arith in
      let no = none-others user id rows rest in rw e (ground arith)
  | inr e ↦
      let later : find_row id rows ≡ some r = ground arith in
      let some_row = count-found (default_of user) id rows r later in
      let other : default_of user a ≡ false = ground arith in
      let no = others-none user id rows r later (ground arith) in ground arith
]

-- The rows of which an update writes one.
abbrev base_rows : ℕ → AddressInput → AddressRow → List AddressRow → List AddressRow
base_rows user i r rows = if i.is_default && not r.is_default then clear_default user rows else rows

base_rows-find :
    (user id : ℕ) (i : AddressInput) (r : AddressRow) (rows : List AddressRow)
    → find_row id rows ≡ some r
    → find_row id (base_rows user i r rows) ≡ some r
base_rows-find user id i r rows h = elim (Bool-cases (i.is_default && not r.is_default)) [
  | inr b ↦ rw b h
  | inl b ↦ rw b (clear_default-find user id rows r h (ground arith))
]

base_rows-count :
    (user v : ℕ) (i : AddressInput) (r : AddressRow) (rows : List AddressRow)
    → count (default_of v) rows ≤ 1
    → count (default_of v) (base_rows user i r rows)
      ≤ (if v == user && i.is_default && not r.is_default then 0 else 1)
base_rows-count user v i r rows h =
    let cleared = clear_default-count user v rows in
    elim (Bool-cases (i.is_default && not r.is_default)) [
      | inl b ↦ ground arith
      | inr b ↦ ground arith
    ]

abbrev pub updated : ℕ → ℕ → AddressInput → AddressRow → AddressBook → AddressBook
updated user id i r s = record s {
  rows = modify_row id (λ a. row_of a.id a.user_id i) (base_rows user i r s.rows);
}

save-rows :
    (null_text : Option Text) (user id : ℕ) (i : AddressInput) (s : AddressBook) (r : AddressRow)
    → OneDefault s
    → find_row id s.rows ≡ some r
    → r.user_id ≡ user
    → save null_text user id i r s
      ≡ (scan null_text (row_of id user i) >>= (λ b. ok (b, updated user id i r s)))
unfolding save
save-rows null_text user id i s r h f o =
    let found = base_rows-find user id i r s.rows f in
    let few = base_rows-count user user i r s.rows (h user) in
    let free : (i.is_default
          && exists? (λ (a : AddressRow). default_of user a && not (a.id == id))
              (base_rows user i r s.rows))
        ≡ false =
      elim (Bool-cases i.is_default) [
        | inr b ↦ rw b refl
        | inl b ↦
            let no = others-none user id (base_rows user i r s.rows) r found (ground arith) in
            ground arith
      ] in
    rw free refl

updated-count :
    (user v id : ℕ) (i : AddressInput) (rows : List AddressRow) (r : AddressRow)
    → count (default_of v) rows ≤ 1
    → find_row id rows ≡ some r
    → r.user_id ≡ user
    → count (default_of v) (modify_row id (λ a. row_of a.id a.user_id i) (base_rows user i r rows))
      ≤ 1
updated-count user v id i rows r h f o =
    let few = base_rows-count user v i r rows h in
    let found = base_rows-find user id i r rows f in
    let counted =
      count-modify_found (default_of v) id (λ a. row_of a.id a.user_id i) (base_rows user i r rows)
        r found in
    let held = count-found (default_of v) id rows r f in
    elim (Bool-cases i.is_default) [ inl b ↦ ground arith | inr b ↦ ground arith ]

-- Creating an address with an empty second line fails in the scan; any other address is stored, and each user keeps
-- at most one default address.
pub create-Saved :
    {null_text : Option Text} (user : ℕ) (i : AddressInput) (s : AddressBook)
    → null_text ≡ none
    → OneDefault s
    → Saved i (created user i s) (create null_text user i s)
create-Saved {null_text} user i s n h =
    rw (create-rows null_text user i s)
      (scanned s.next_id user i (created user i s) n (λ v. created-count user v i s (h v)))

own-found :
    (user id : ℕ) (s : AddressBook) (r : AddressRow)
    → find_row id s.rows ≡ some r
    → r.user_id ≡ user
    → find_own user id s ≡ ok r
unfolding find_own
own-found user id s r f o = let own = ==_refl user in rw (find_own, f, o, own) refl

-- If the driver does not scan a NULL into a string and every customer has at most one default
-- address, an update of an own address with an empty second line fails in the scan; any other is
-- written, and every customer still has at most one default address.
pub update-Saved :
    {null_text : Option Text} (user id : ℕ) (i : AddressInput) (s : AddressBook) (r : AddressRow)
    → null_text ≡ none
    → OneDefault s
    → find_row id s.rows ≡ some r
    → r.user_id ≡ user
    → Saved i (updated user id i r s) (update null_text user id i s)
unfolding update
update-Saved {null_text} user id i s r n h f o =
    rw (own-found user id s r f o, save-rows null_text user id i s r h f o)
      (scanned id user i (updated user id i r s) n
        (λ v. updated-count user v id i s.rows r (h v) f o))
