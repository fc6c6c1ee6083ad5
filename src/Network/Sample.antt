-- ===== src/Network/Sample.antt =====
-- Hosts, names and memory that the tests of the sessions and of the service share.
use librtaio.Base.{ℕ, refl, true, false, List, [], ◌∷◌, arith}
use librtaio.Stream.Host.{Host}
use librtaio.Stream.Sample.{sample_host}
use librtaio.Protocol.Field.{Field, type_short, scalar}
use librtaio.Protocol.Messages.{IsText}
use librtaio.Protocol.RoundTrip.{SameCrc}

abbrev pub server_host : Host
server_host = sample_host true true

abbrev pub other_host : Host
other_host = sample_host false true

pub hosts_agree : SameCrc other_host server_host
hosts_agree bs = refl

abbrev pub hole_field : Field
hole_field = scalar type_short 8 "hole"

abbrev pub memory : List Field
memory =
    hole_field ∷ hole_field ∷ hole_field ∷ hole_field ∷ hole_field ∷ hole_field ∷ hole_field ∷ []

abbrev pub long_name : List ℕ
long_name = 99 ∷ 108 ∷ 105 ∷ 101 ∷ 110 ∷ 116 ∷ 49 ∷ []

pub long_name-IsText : IsText long_name
long_name-IsText = (
  (omega arith, omega arith),
  (
    (omega arith, omega arith),
    (
      (omega arith, omega arith),
      (
        (omega arith, omega arith),
        (
          (omega arith, omega arith),
          ((omega arith, omega arith), ((omega arith, omega arith), tt)),
        ),
      ),
    ),
  ),
)
