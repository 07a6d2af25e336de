-- ===== src/Tests/Display.antt =====
-- A console in the first column of its third row, for the theorems on src/display.
use aijak.Common.{some, ℕ, ◌%◌, List, [], ◌∷◌, arith}
use aijak.Display.{Console}
use aijak.Display.Print.{int, kprintf}
use aijak.Display.Print.Laws.{OnScreen, kprintf-OnScreen}

abbrev console : Console
console = record { mem = λ a. a % 256; bgcol = 0; fgcol = 15; cx = 0; cy = 2 }

-- The format "a%d\n" with its end.
abbrev format : List ℕ
format = 97 ∷ 37 ∷ 100 ∷ 10 ∷ 0 ∷ []

kprintf-OnScreen_example : OnScreen console (kprintf console (some format) (int 7 ∷ [])).0
kprintf-OnScreen_example =
    kprintf-OnScreen console (some format) (int 7 ∷ []) (omega arith, omega arith)
