-- ===== src/Input/Keyboard/Laws.antt =====
-- What the scancodes of kernel/src/userinput/keyboard.cpp mean.
use mates_os.Base.{
  List, ℕ, Bool, get_or, ◌≡◌, length, true, ◌<◌, arith, false, ◌∷◌, [], ltb, suc, refl, zero, ◌&&◌,
  ap,
}
use mates_os.Input.Keyboard.{translate, ascii_table, shifted}

abbrev all_below : ℕ → List ℕ → Bool
all_below n [] = true
all_below n (x ∷ xs) = ltb x n && all_below n xs

get_or-below :
    (n : ℕ) (xs : List ℕ) (i d e : ℕ)
    → all_below n xs ≡ true
    → i < length xs
    → (get_or xs i d < n) × (get_or xs i d ≡ get_or xs i e)
get_or-below n [] i d e h p = ground arith
get_or-below n (x ∷ xs) zero d e h p = (ground arith, refl)
get_or-below n (x ∷ xs) (suc i) d e h p = get_or-below n xs i d e (ground arith) (omega arith)

get_or-past : (xs : List ℕ) (d : ℕ) → get_or xs (length xs) d ≡ d
get_or-past [] d = refl
get_or-past (x ∷ xs) d = get_or-past xs d

-- A scancode below 58 is translated to a character below 128 that comes from the table, whatever
-- follows the table; one above 58 is translated to no character; but 58 itself, which the guard
-- lets through, is translated to the byte that follows the table.
pub translate_lem :
    (past scancode : ℕ) (uppercase : Bool)
    → (scancode < 58
        → (translate past scancode uppercase < 128)
          × ((other : ℕ) → translate past scancode uppercase ≡ translate other scancode uppercase))
      × (58 < scancode → translate past scancode uppercase ≡ 0)
      × (translate past 58 false ≡ past)
unfolding translate
translate_lem past scancode uppercase = (
  (λ p.
      let b = get_or-below 128 ascii_table scancode past past refl p in
      (
        below uppercase b.0 p,
        λ other. same uppercase other p (get_or-below 128 ascii_table scancode past other refl p).1,
      )),
  (λ p. ground arith),
  get_or-past ascii_table past,
)
  where
    below :
        (u : Bool)
        → get_or ascii_table scancode past < 128
        → scancode < 58
        → translate past scancode u < 128
    below true h p =
        let e : ltb 58 scancode ≡ false = ground arith in
        let c : ℕ = get_or ascii_table scancode past in rw e (shifted-lt c h)
      where
        shifted-lt : (c : ℕ) → c < 128 → shifted c < 128
        shifted-lt c h = ground arith
    below false h p = let e : ltb 58 scancode ≡ false = ground arith in rw e h

    same :
        (u : Bool) (other : ℕ)
        → scancode < 58
        → get_or ascii_table scancode past ≡ get_or ascii_table scancode other
        → translate past scancode u ≡ translate other scancode u
    same true other p h = let e : ltb 58 scancode ≡ false = ground arith in rw e (ap shifted h)
    same false other p h = let e : ltb 58 scancode ≡ false = ground arith in rw e h
