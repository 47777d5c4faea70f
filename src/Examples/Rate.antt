-- ===== src/Examples/Rate.antt =====
-- The rate limiter's theorems at concrete windows.
use refract.Base.{
  ℕ, ◌∷◌, [], List, ◌≡◌, refl, ◌+◌, ◌*◌, ◌≤◌, ◌/◌, inl, inr, arith, true, pos, ok, err, none, ◌↔◌,
}
use refract.Base.Maps.{nat_eq, lookup}
use refract.Api.Rate.{Window, admit, admit_window, exceeded, of_requests}
use refract.Api.Rate.Windows.{used_at, passes}
use refract.Api.Rate.Register.{second, new_limiter}
use refract.Api.Rate.Register.Attempts.{
  Event as Registration, tried, succeeded, run, let_through, let_through-le,
}
use refract.Api.Rate.Limit.{Event, requested, reported, admitted, admitted-le, admit_iff}

abbrev windows : List (ℕ × Window)
windows = (4, record { minute = 2; requests = 1; tokens = 50 }) ∷ []

abbrev events : List (Event ℕ)
events =
    requested 4 (pos 2) (pos 0) 125
    ∷ requested 9 (pos 1) (pos 0) 130
    ∷ reported 4 30 140
    ∷ requested 4 (pos 2) (pos 0) 150
    ∷ []

abbrev full : Window
full = record { minute = 2; requests = 2; tokens = 0 }

none_else : lookup {K = ℕ} {V = Window} 4 [] ≡ none
unfolding lookup
none_else = refl

one_used : (used_at windows 4 2).0 ≤ 2
unfolding lookup
one_used = omega arith

refused : (admit_window full (pos 2) (pos 0) 125).0 ≡ err (exceeded of_requests 125)
unfolding admit_window
refused = refl

admitted-le_example : admitted 4 windows events + (used_at windows 4 2).0 ≤ 2
admitted-le_example =
    admitted-le 4 (pos 2) 2 windows events (omega arith) (omega arith) (none_else, tt) one_used
      ((refl, inr refl), ((refl, inl refl), (refl, ((refl, inr refl), tt))))

admit_iff_example :
    ((admit windows 4 (pos 2) (pos 40) 125).0 ≡ ok tt)
    ↔ (passes (used_at windows 4 (125 / 60)) (pos 2) (pos 40) ≡ true)
admit_iff_example = admit_iff windows 4 (pos 2) (pos 40) 125 (none_else, tt)

-- Registrations at the end of a window and at the start of the next one.
abbrev late_registrations : List (Registration ℕ)
late_registrations =
    tried 4 (3540 * second)
    ∷ tried 4 (3541 * second)
    ∷ tried 4 (3542 * second)
    ∷ succeeded 4 (3542 * second)
    ∷ tried 9 (3543 * second)
    ∷ tried 4 (3600 * second)
    ∷ []

let_through-le_example : let_through 4 (run new_limiter (tried 4 0 ∷ [])) late_registrations ≤ 9
let_through-le_example =
    let_through-le 4 (tried 4 0 ∷ []) late_registrations (3540 * second) (7140 * second)
      (omega arith, omega arith, tt)
      (
        omega arith,
        omega arith,
        (
          omega arith,
          omega arith,
          (
            omega arith,
            omega arith,
            (omega arith, omega arith, (omega arith, omega arith, (omega arith, omega arith, tt))),
          ),
        ),
      )
      (omega arith)
