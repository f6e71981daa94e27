-- ===== src/Launch/Ports.antt =====
-- The ports that parsePort (server/main.cpp) takes.
use teams_mirror.Prelude.{
  ℕ, ◌≤◌, ◌≡◌, refl, ◌∙◌, ap, Option, none, some, List, [], ◌∷◌, arith, some_ne_none, Bool-cases,
  inl, inr, same,
}
use teams_mirror.Prelude.Int.{pos}
use teams_mirror.Bytes.{Bytes}
use teams_mirror.Database.Time.{to_string, parse_number}
use teams_mirror.Database.Time.Printed.{parse_number-printed}
use teams_mirror.Launch.{port_of, parse_port, launched, launch_at, run, help_option}

port_of_bounds : (o : Option ℕ) (n : ℕ) → port_of o ≡ some n → (1 ≤ n) × (n ≤ 65535)
unfolding port_of
port_of_bounds none n h = absurd (some_ne_none n h)
port_of_bounds (some m) n h = (ground (arith, h), ground (arith, h))

parse_port_bounds : (arg : Bytes) (n : ℕ) → parse_port arg ≡ some n → (1 ≤ n) × (n ≤ 65535)
unfolding parse_port
parse_port_bounds [] n h = absurd (some_ne_none n h)
parse_port_bounds (c ∷ s) n h = port_of_bounds (parse_number (c ∷ s)) n h

launched_inj : (m n : ℕ) → launched m ≡ launched n → m ≡ n
launched_inj m n h = cc

launch_at-launched : (o : Option ℕ) (n : ℕ) → launch_at o ≡ launched n → o ≡ some n
launch_at-launched none n h = absurd (ground (arith, h))
launch_at-launched (some m) n h = ap some (launched_inj m n h)

-- The server is launched only with one argument, and at a port between 1 and 65535.
pub run_bounds :
    (args : List Bytes) (n : ℕ)
    → run args ≡ launched n
    → (arg : Bytes) × (args ≡ arg ∷ []) × (1 ≤ n) × (n ≤ 65535)
unfolding run
run_bounds [] n h = absurd (ground (arith, h))
run_bounds (arg ∷ []) n h = elim (Bool-cases (same arg help_option)) [
  | inl help ↦ absurd (ground (arith, (rw (help, run) at h)))
  | inr other ↦
      let (low, high) =
        parse_port_bounds arg n (launch_at-launched (parse_port arg) n (rw (other, run) at h)) in
      (arg, refl, low, high)
]
run_bounds (arg ∷ more ∷ args) n h = absurd (ground (arith, h))

port_of_fits : (n : ℕ) → 1 ≤ n → n ≤ 65535 → port_of (some n) ≡ some n
unfolding port_of
port_of_fits n low high = ground (arith, low, high)

-- Every number between 1 and 65535 is taken in its decimal print.
pub parse_port-to_string : (n : ℕ) → 1 ≤ n → n ≤ 65535 → parse_port (to_string (pos n)) ≡ some n
unfolding parse_port
parse_port-to_string n low high =
    let (c, s, e, parsed) = parse_number-printed n in
    ap parse_port e ∙ ap port_of parsed ∙ port_of_fits n low high
