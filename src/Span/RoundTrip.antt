-- ===== src/Span/RoundTrip.antt =====
-- lumbre_span_encode against the reader of messages.
use lumbre_ext.Common.{◌+◌, ◌≤◌, ◌≡◌, refl, [], length, some, ok}
use lumbre_ext.Msgpack.{Buf}
use lumbre_ext.Msgpack.Emit.{IsFine}
use lumbre_ext.Msgpack.RoundTrip.{new_bytes, new_bytes-appended}
use lumbre_ext.Span.{Span}
use lumbre_ext.Span.Encode.{encode}
use lumbre_ext.Span.Fields.{pairs, message, IsSpan}
use lumbre_ext.Span.Reader.{read_message}
use lumbre_ext.Span.Message.{read_message-message, encode-message}

-- If the message of a well-formed span fits behind the position of a buffer whose position is
-- within its capacity, lumbre_span_encode returns 0, and the new bytes read back as a map of
-- exactly the pairs of the span's type, in order, with nothing left over.
pub read_message-encode :
    (span : Span) (b : Buf)
    → IsSpan span
    → IsFine b
    → b.pos + length (message span) ≤ b.capacity
    → let (s, b') = encode span b in
      (s ≡ ok) × (read_message (new_bytes b b') ≡ some (pairs span, []))
read_message-encode span b w f fits =
    rw (encode-message span b w f fits, new_bytes-appended b (message span))
      (refl, read_message-message span w)
