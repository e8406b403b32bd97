-- ===== src/Tests/Wire.antt =====
-- Numbers and names on the wire (src/transport/http/HttpSupport.hpp, src/dto/MessageType.cpp).
use picasso_backend.Base.{◌≡◌, refl, some, none, codes, bytes_beq}
use picasso_backend.Dto.MessageType.{find_type, parse_message_type, find_name, to_wire_string}
use picasso_backend.Transport.Http.{parse_digits, parse_unsigned}
use picasso_backend.Transport.Http.Decimal.{parse_unsigned_lem}

program : Unit {0}
unfolding bytes_beq find_type parse_message_type find_name to_wire_string parse_digits
    parse_unsigned
program = tt

parse_unsigned_lem_example : parse_unsigned (codes "18446") ≡ some 18_446
unfolding program
parse_unsigned_lem_example = parse_unsigned_lem (codes "18446")

-- A sign is no digit.
negative : parse_unsigned (codes "-1") ≡ none
unfolding program
negative = refl
