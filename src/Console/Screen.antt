-- ===== src/Console/Screen.antt =====
-- console.c: cgaputc, on the cursor that the CGA's registers hold and the text memory.
use os192_ass2_multi_thread.Console.{newline, backspace}
use os192_ass2_multi_thread.Base.{
  ℕ, if◌then◌else◌, Option, leb, ◌==◌, ltb, ◌+◌, ◌*◌, ◌/◌, ◌-◌, none, ◌%◌, some, ◌&&◌, ◌<◌, ◌≡◌,
  ◌⊎◌, ◌≤◌,
}

-- The cursor and `crt`.
pub record Screen : Type 0 where
  pub cursor : ℕ
  pub crt : ℕ → ℕ

-- `pos` and `crt` behind the character itself; the attribute 7 is black on white.
abbrev pub placed : ℕ → Screen → Screen
placed c s =
    if c == newline
    then record s { cursor = s.cursor + (80 - s.cursor % 80) }
    else if c == backspace
    then record s { cursor = s.cursor - 1 }
    else record {
      cursor = s.cursor + 1;
      crt = λ i. if i == s.cursor then c % 256 + 0x700 else s.crt i;
    }

-- The memmove and the memset of `Scroll up`.
abbrev pub scrolled : Screen → Screen
scrolled s =
    if leb 24 (s.cursor / 80)
    then record {
      cursor = s.cursor - 80;
      crt = λ i.
          if leb (s.cursor - 80) i && ltb i (24 * 80)
          then 0
          else if ltb i (23 * 80)
          then s.crt (i + 80)
          else s.crt i;
    }
    else s

-- The blank under the cursor.
abbrev pub blanked : Screen → Screen
blanked s = record s { crt = λ i. if i == s.cursor then 32 + 0x700 else s.crt i }

-- cgaputc; `none` is the panic.
unfoldable pub cgaputc : ℕ → Screen → Option Screen
cgaputc c s =
    if ltb (25 * 80) (placed c s).cursor then none else some (blanked (scrolled (placed c s)))

-- What the rest of cgaputc makes of the screen `p` with the character placed.
abbrev pub Shows : Screen → Screen → Type 0
Shows p t =
    (t.cursor < 24 * 80)
    × (t.crt t.cursor ≡ 32 + 0x700)
    × ((p.cursor < 24 * 80) × (t.cursor ≡ p.cursor) × ((i : ℕ) → i < t.cursor → t.crt i ≡ p.crt i)
        ⊎ (24 * 80 ≤ p.cursor)
          × (t.cursor + 80 ≡ p.cursor)
          × ((i : ℕ) → i < t.cursor → t.crt i ≡ p.crt (i + 80)))
