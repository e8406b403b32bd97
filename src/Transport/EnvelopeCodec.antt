-- ===== src/Transport/EnvelopeCodec.antt =====
-- Frames and their text (src/transport/ws/EnvelopeCodec.cpp). The JSON of oat++ is an interface.
use picasso_backend.Base.{[], Option, none, some, Bytes}
use picasso_backend.Dto.Envelope.{EnvelopeDto, create_shared}
use picasso_backend.Dto.MessageType.{MessageType, to_wire_string}

-- The object mapper: a null text, and an exception or a null object, are `none`.
pub record ObjectMapper : Type 0 where
  pub read_from_string : Bytes → Option EnvelopeDto
  pub write_to_string : EnvelopeDto → Option Bytes

abbrev text_or_empty : Option Bytes → Bytes
text_or_empty none = []
text_or_empty (some text) = text

unfoldable pub decode : ObjectMapper → Bytes → Option EnvelopeDto
decode mapper frame = mapper.read_from_string frame

unfoldable pub encode : ObjectMapper → EnvelopeDto → Bytes
encode mapper envelope = text_or_empty (mapper.write_to_string envelope)

unfoldable pub envelope_of : MessageType → EnvelopeDto
envelope_of type = record create_shared { type = some (to_wire_string type) }
