-- ===== src/Costs/Units.antt =====
-- What the number of compute units is.
use py_aleph.Prelude.{ℕ, ◌*◌, ◌≤◌, arith}
use py_aleph.Machines.{Resources}
use py_aleph.Costs.{get_nb_compute_units}

-- The number of compute units is the least one whose vcpus and memory, of 2048 MiB each, suffice.
pub get_nb_compute_units_least :
    (r : Resources)
    → (r.vcpus ≤ get_nb_compute_units r)
      × (r.memory ≤ get_nb_compute_units r * 2048)
      × ((n : ℕ) → r.vcpus ≤ n → r.memory ≤ n * 2048 → get_nb_compute_units r ≤ n)
unfolding get_nb_compute_units
get_nb_compute_units_least r = (ground arith, ground arith, λ n h k. ground (arith, h, k))
