-- ===== src/Ptp/Tests/Cable.antt =====
-- A device that delivers at most three bytes a read and records what it is sent.
use chdkptp_astro.Base.{ℕ, min, List, ◌∷◌, refl, take, drop, arith, length-take, take-append-drop}
use chdkptp_astro.Ptp.Codes.{rc_ok}
use chdkptp_astro.Ptp.State.{got, Port}
use chdkptp_astro.Ptp.Transport.Fill.{Delivers}

pub record Cable : Type 0 where
  pub stream : List ℕ
  pub sent : List (List ℕ)

abbrev pub cable : Port Cable
cable = record {
  read_func = λ n d. (got (take (min n 3) d.stream), record d { stream = drop (min n 3) d.stream });
  write_func = λ bs d. (rc_ok, record d { sent = bs ∷ d.sent });
}

pub cable-Delivers : Delivers cable (λ d. d.stream)
cable-Delivers = record {
  reads = λ n d h more. (
    take (min n 3) d.stream,
    refl,
    omega (arith, length-take (min n 3) d.stream),
    omega (arith, length-take (min n 3) d.stream),
    take-append-drop (min n 3) d.stream,
  );
}
