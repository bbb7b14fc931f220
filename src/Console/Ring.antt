-- ===== src/Console/Ring.antt =====
-- console.c: the input ring as two lists, what can be read and the line that is being edited.
use mathlib.Core.Path.{ap₂}
use os192_ass2_multi_thread.Console.{Console, input_buf, behind, newline}
use os192_ass2_multi_thread.Base.{
  ℕ, List, ◌<◌, length, [], suc, ◌≡◌, ◌+◌, ◌^◌, ap, ◌-◌, ◌%◌, ◌≤◌, ◌++◌, if◌then◌else◌, All, ◌∷◌,
  zero, ◌==◌, ◌≢◌, refl, arith, ◌∙◌,
}

-- The `n` characters from place `i` on.
abbrev pub window : (ℕ → ℕ) → ℕ → ℕ → List ℕ
window buf i zero = []
window buf i (suc n) = buf (i % input_buf) ∷ window buf (behind i) n

abbrev pub ready_size : Console → ℕ
ready_size s = (s.w + 2 ^ 32 - s.r) % 2 ^ 32

abbrev pub line_size : Console → ℕ
line_size s = (s.e + 2 ^ 32 - s.w) % 2 ^ 32

pub record Input : Type 0 where
  pub ready : List ℕ
  pub line : List ℕ

abbrev pub view : Console → Input
view s = record { ready = window s.buf s.r (ready_size s); line = window s.buf s.w (line_size s) }

pub record IsValid (s : Console) : Type 0 where
  pub r_fits : s.r < 2 ^ 32
  pub w_fits : s.w < 2 ^ 32
  pub e_fits : s.e < 2 ^ 32
  pub room : ready_size s + line_size s ≤ input_buf
  pub one_line : All (λ c. c ≢ newline) (view s).line

pub length-window : (buf : ℕ → ℕ) (i n : ℕ) → length (window buf i n) ≡ n
length-window buf i zero = refl
length-window buf i (suc n) = ap suc (length-window buf (behind i) n)

pub window-append :
    (buf : ℕ → ℕ) (i k m n j : ℕ)
    → k ≡ m + n
    → i < 2 ^ 32
    → j ≡ (i + m) % 2 ^ 32
    → window buf i k ≡ window buf i m ++ window buf j n
window-append buf i k zero n j q h e =
    ap (window buf i) (omega arith) ∙ ap (λ x. window buf x n) (omega arith)
window-append buf i zero (suc m) n j q h e = absurd (omega arith)
window-append buf i (suc k) (suc m) n j q h e =
    ap (λ l. buf (i % input_buf) ∷ l)
      (window-append buf (behind i) k m n j (omega arith) (omega arith) (omega arith))

-- A character stored at a distance of less than 128 in front is not in the window.
pub window-stored :
    (buf : ℕ → ℕ) (c i n w : ℕ) (d : ℕ)
    → i < 2 ^ 32
    → n ≤ d
    → d < input_buf
    → w ≡ (i + d) % 2 ^ 32
    → window (λ k. if k == w % input_buf then c else buf k) i n ≡ window buf i n
window-stored buf c i zero w d h l k e = refl
window-stored buf c i (suc n) w d h l k e = ap₂ ◌∷◌ (ground arith) (
    window-stored buf c (behind i) n w (d - 1) (omega arith) (omega arith) (omega arith)
      (omega arith))
