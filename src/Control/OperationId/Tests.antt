-- ===== src/Control/OperationId/Tests.antt =====
-- An id and its text.
use clash_nyanpasu_service.Shared.{◌≡◌, refl, Bytes, codes, some, arith}
use clash_nyanpasu_service.Control.OperationId.{
  OperationId, InRange, display, from_str, split_once, to_digit, parse_digits, from_str_radix,
  is_id_byte, all_bytes, well_formed, parse_parts, unsigned, build,
}
use clash_nyanpasu_service.Control.OperationId.RoundTrip.{from_str-display, display-from_str}

abbrev some_id : OperationId
some_id = record { nanos = 0x1a2b; pid = 0xff; counter = 7 }

some_id-InRange : InRange some_id
some_id-InRange = record {
  nanos_bound = omega arith;
  pid_bound = omega arith;
  counter_bound = omega arith;
}

from_str-display_example : from_str (display some_id) ≡ some some_id
from_str-display_example = from_str-display some_id some_id-InRange

abbrev text : Bytes
text = codes "0000000000001a2b-000000ff-00000007"

text_parsed : from_str text ≡ some some_id
unfolding codes from_str split_once parse_parts well_formed all_bytes is_id_byte from_str_radix
    unsigned parse_digits to_digit build
text_parsed = refl

display-from_str_example : (display some_id ≡ text) × InRange some_id
display-from_str_example = display-from_str text {id = some_id} text_parsed
