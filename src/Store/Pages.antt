-- ===== src/Store/Pages.antt =====
-- adapters/memory-store.ts: `pageFromMap`, the pages of every list of the store.
pub mod Laws
use hayasend.Base.{
  ℕ, ◌+◌, String, Bool, true, false, ◌&&◌, List, [], ◌∷◌, Option, none, some, Result, ok, err,
  ◌>>=◌, invalid_cursor, ltb, if◌then◌else◌, ◌==◌, string_eq, length, take, sort, not,
}
use hayasend.Base.Slices.{drop, last, find_index}
use hayasend.Platform.{Platform}

pub record Page {ℓ} (T : Type ℓ) : Type ℓ where
  pub entries : List T
  pub has_more : Bool
  pub next_cursor : Option String

-- A text in a condition: `undefined` and the empty text are false.
unfoldable pub truthy : Option String → Option String
truthy none = none
truthy (some c) = if c == "" then none else some c

-- a.localeCompare(b) || c.localeCompare(d), at most 0
unfoldable pub locale_le_then : Platform → String → String → String → String → Bool
locale_le_then p a b c d =
    if p.locale_le a b && p.locale_le b a then p.locale_le c d else p.locale_le a b

-- cursorIndex + 1, where a cursor that is given has to be found
unfoldable pub found_offset : Option ℕ → Result ℕ
found_offset none = err invalid_cursor
found_offset (some i) = ok (i + 1)

module _ {ℓ} {T : Type ℓ} (id : T → String) where
  unfoldable pub given_offset : Option String → List T → Result ℕ
  given_offset none sorted = ok 0
  given_offset (some c) sorted = found_offset (find_index (λ r. id r == c) sorted)

  unfoldable pub page_offset : Option String → List T → Result ℕ
  page_offset cursor sorted = given_offset (truthy cursor) sorted

  -- The page that shows `shown` from `offset` on, by the last record that it shows.
  unfoldable pub page_ending : ℕ → List T → List T → Option T → Page T
  page_ending offset sorted shown none = record {
    entries = shown;
    has_more = false;
    next_cursor = none;
  }
  page_ending offset sorted shown (some final) =
      if ltb (offset + length shown) (length sorted)
      then record { entries = shown; has_more = true; next_cursor = some (id final) }
      else record { entries = shown; has_more = false; next_cursor = none }

  unfoldable pub page_at : ℕ → ℕ → List T → Page T
  page_at offset limit sorted =
      let shown : List T = take limit (drop offset sorted) in
      page_ending offset sorted shown (last shown)

  module _ (p : Platform) (created_at : T → String) where
    -- The comparison of `sort` gives at most 0: the newer first, then the greater identifier.
    unfoldable pub newer_first : T → T → Bool
    newer_first left right =
        locale_le_then p (created_at right) (created_at left) (id right) (id left)

    unfoldable pub page_from_map : List T → ℕ → Option String → Result (Page T)
    page_from_map values limit cursor = do
      offset ← page_offset cursor (sort newer_first values)
      ok (page_at offset limit (sort newer_first values))
