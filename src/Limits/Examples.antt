-- ===== src/Limits/Examples.antt =====
-- Runs of the limiter on a limit of two a minute.
use forjd.Prelude.{ℕ, ◌≤◌, ◌≡◌, refl, true, List, [], ◌∷◌, arith, length, select}
use forjd.Limits.Window.{too_many, connected, enforce_sliding_window, admit_all}
use forjd.Limits.Bound.{in_window, admitted-le}

abbrev four_times : List ℕ
four_times = 1000 ∷ 2000 ∷ 3000 ∷ 61500 ∷ []

-- The third request is one too many; the fourth comes when the first has left the window.
third_is_refused : (admit_all 2 four_times ([], [])).1 ≡ 61500 ∷ 2000 ∷ 1000 ∷ []
unfolding admit_all
third_is_refused = refl

admitted-le_example : length (select (in_window 61500) (admit_all 2 four_times ([], [])).1) ≤ 2
admitted-le_example =
    admitted-le 2 61500 four_times (omega arith, (omega arith, (omega arith, (omega arith, tt))))

waits_for_the_oldest :
    (enforce_sliding_window true 3000 2 (connected (2000 ∷ 1000 ∷ []))).1 ≡ too_many 58
unfolding enforce_sliding_window
waits_for_the_oldest = refl
