-- ===== src/Store/Pages/Laws.antt =====
-- The cursor of a page leads to the place where the page ended.
use hayasend.Base.{
  ℕ, suc, ◌+◌, ◌≤◌, ◌<◌, ◌≡◌, ◌≢◌, refl, ap, ◌∙◌, String, List, Option, none, some, ok, beq_ne,
  ◌==◌, string_eq, length, take, All, arith, none-ne-some,
}
use hayasend.Base.Slices.{
  drop, last, find_index, get_elem?, last-take, get_elem-some, get_elem-drop, get_elem-All,
  find_index-get_elem, length-take, length-drop, take_all,
}
use hayasend.Base.Assoc.Keyed.{AreApart}
use hayasend.Store.Pages.{truthy, page_offset, page_at, page_ending, given_offset, found_offset}

pub truthy_of_ne : (c : String) → c ≢ "" → truthy (some c) ≡ some c
unfolding truthy
truthy_of_ne c h = rw (beq_ne c "" h) refl

-- A cursor that is not empty and is found leads past its record.
page_offset_found {ℓ} :
    {T : Type ℓ} (id : T → String) (c : String) (sorted : List T) (i : ℕ)
    → c ≢ ""
    → find_index (λ r. id r == c) sorted ≡ some i
    → page_offset id (some c) sorted ≡ ok (i + 1)
unfolding page_offset given_offset found_offset
page_offset_found id c sorted i given found = rw (truthy_of_ne c given) (rw found refl)

module _ {ℓ} {T : Type ℓ} (id : T → String) where
  ending_more :
      (offset : ℕ) (sorted shown : List T) (r : T) (e : Option T)
      → e ≡ some r
      → offset + length shown < length sorted
      → (page_ending id offset sorted shown e).next_cursor ≡ some (id r)
  unfolding page_ending
  ending_more offset sorted shown r none e h = absurd (none-ne-some e)
  ending_more offset sorted shown r (some x) e h = ground arith

  ending_last :
      (offset : ℕ) (sorted shown : List T) (e : Option T)
      → length sorted ≤ offset + length shown
      → (page_ending id offset sorted shown e).next_cursor ≡ none
  unfolding page_ending
  ending_last offset sorted shown none h = refl
  ending_last offset sorted shown (some x) h = ground arith

  ending-entries :
      (offset : ℕ) (sorted shown : List T) (e : Option T)
      → (page_ending id offset sorted shown e).entries ≡ shown
  unfolding page_ending
  ending-entries offset sorted shown none = refl
  ending-entries offset sorted shown (some x) = ground arith

  pub page_at-entries :
      (offset limit : ℕ) (sorted : List T)
      → (page_at id offset limit sorted).entries ≡ take limit (drop offset sorted)
  unfolding page_at
  page_at-entries offset limit sorted = ending-entries offset sorted _ _

  -- The record at the end of a page that is not the last one.
  page_end :
      (offset limit : ℕ) (sorted : List T) (r : T)
      → offset + suc limit < length sorted
      → get_elem? sorted (offset + limit) ≡ some r
      → (page_at id offset (suc limit) sorted).next_cursor ≡ some (id r)
  unfolding page_at
  page_end offset limit sorted r more at =
      let rest : List T = drop offset sorted in
      let room : offset + length rest ≡ length sorted = length-drop offset sorted (omega arith) in
      let full : length (take (suc limit) rest) ≡ suc limit =
        length-take (suc limit) rest (omega arith) in
      let ends : last (take (suc limit) rest) ≡ some r =
        last-take limit rest (omega arith) ∙ get_elem-drop offset limit sorted ∙ at in
      ending_more offset sorted (take (suc limit) rest) r (last (take (suc limit) rest)) ends
        (omega arith)

  -- A page that is not the last one gives its last identifier, which is found again: the next
  -- page starts where this one ends.
  pub page_at_more :
      (offset limit : ℕ) (sorted : List T)
      → AreApart id sorted
      → All (λ r. id r ≢ "") sorted
      → offset + suc limit < length sorted
      → (c : String) × ((page_at id offset (suc limit) sorted).next_cursor ≡ some c)
        × (truthy (some c) ≡ some c)
        × (page_offset id (some c) sorted ≡ ok (offset + suc limit))
  page_at_more offset limit sorted apart named more =
      let (r, at) = get_elem-some (offset + limit) sorted (omega arith) in
      let given : id r ≢ "" = get_elem-All _ (offset + limit) sorted r named at in
      let found : find_index (λ y. id y == id r) sorted ≡ some (offset + limit) =
        find_index-get_elem id (offset + limit) sorted r apart at in
      let place : offset + limit + 1 ≡ offset + suc limit = omega arith in
      (
        id r,
        page_end offset limit sorted r more at,
        truthy_of_ne (id r) given,
        page_offset_found id (id r) sorted (offset + limit) given found ∙ ap ok place,
      )

  -- The last page has no cursor, and shows the rest of the list.
  pub page_at_last :
      (offset limit : ℕ) (sorted : List T)
      → offset ≤ length sorted
      → length sorted ≤ offset + limit
      → ((page_at id offset limit sorted).next_cursor ≡ none)
        × ((page_at id offset limit sorted).entries ≡ drop offset sorted)
  unfolding page_at
  page_at_last offset limit sorted start done =
      let rest : List T = drop offset sorted in
      let room : offset + length rest ≡ length sorted = length-drop offset sorted start in
      let whole : take limit rest ≡ rest = take_all limit rest (omega arith) in
      (
        ending_last offset sorted (take limit rest) (last (take limit rest))
            (omega (arith, ap length whole)),
        ending-entries offset sorted (take limit rest) (last (take limit rest)) ∙ whole,
      )
