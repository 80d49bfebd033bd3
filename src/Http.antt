-- ===== src/Http.antt =====
-- What the handlers share: the caller's rights and the id in the path.
use plant_shop.Base.{ℕ, Option, none, some, ltb, if◌then◌else◌}
use plant_shop.Base.Int.{ℤ, pos, negsuc}
use plant_shop.Text.{Text, parse_int}

-- The outcome of `auth.Handler.RequireAdmin`, which the handlers take as a parameter.
pub data Access : Type 0 where
  admin : ℕ → Access
  forbidden unauthorized : Access

-- `if err != nil || id <= 0`.
abbrev positive : Option ℤ → Option ℕ
positive none = none
positive (some (pos n)) = if ltb 0 n then some n else none
positive (some (negsuc n)) = none

-- `strconv.ParseInt(r.PathValue("id"), 10, 64)` with its check.
unfoldable pub path_id : Text → Option ℕ
path_id raw = positive (parse_int raw)
